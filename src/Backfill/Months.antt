-- ===== src/Backfill/Months.antt =====
-- The last days of the months, by their day numbers.
use ubki_uploader.Prelude.{ℕ, suc, ◌+◌, ◌≤◌, ◌<◌, ◌≡◌, true, arith, ltb, inl, inr, Bool-cases}
use native.Mathlib.Numerals.{add-one}
use ubki_uploader.Python.Date.{Date, is_date, days_in_month, day_number}
use ubki_uploader.Python.Date.Calendar.{
  days_in_month_range, days_before_month-suc, days_before_year-suc, twelve_months, first_month,
}
use ubki_uploader.Backfill.{next_year, next_month, month_end}

abbrev pub last_day : (y m : ℕ) → ℕ
last_day y m = day_number (month_end y m)

next_month_end :
    (y m : ℕ)
    → 0 < m
    → m ≤ 12
    → last_day (next_year y m) (next_month m)
      ≡ last_day y m + days_in_month (next_year y m) (next_month m)
unfolding day_number
next_month_end y m lo hi = elim (Bool-cases (ltb 12 (m + 1))) [
  | inl last ↦
      let twelve : m ≡ 12 = ground arith in
      rw (last, twelve, add-one y)
        (omega (
          arith,
          days_before_year-suc y,
          first_month (suc y),
          twelve_months y,
          days_before_month-suc y 12,
        ))
  | inr more ↦ rw (more, add-one m) (omega (arith, days_before_month-suc y m lo))
]

pub last_day_later :
    (y m : ℕ) → 0 < m → m ≤ 12 → last_day y m < last_day (next_year y m) (next_month m)
last_day_later y m lo hi =
    omega (arith, next_month_end y m lo hi, days_in_month_range (next_year y m) (next_month m))

pub last_day_close :
    (y m : ℕ) → 0 < m → m ≤ 12 → last_day (next_year y m) (next_month m) ≤ last_day y m + 31
last_day_close y m lo hi =
    omega (arith, next_month_end y m lo hi, days_in_month_range (next_year y m) (next_month m))

-- The month and the day are in range.
pub record IsInMonth (d : Date) : Type 0 where
  pub from_one : 0 < d.month
  pub to_twelve : d.month ≤ 12
  pub first : 1 ≤ d.day
  pub last : d.day ≤ days_in_month d.year d.month

pub is_date-IsInMonth : (d : Date) → is_date d ≡ true → IsInMonth d
is_date-IsInMonth d h = record {
  from_one = ground arith;
  to_twelve = ground arith;
  first = ground arith;
  last = ground arith;
}

module _ (d : Date) (i : IsInMonth d) where
  pub not_after : day_number d ≤ last_day d.year d.month
  unfolding day_number
  not_after = omega (arith, i.last)

  pub near_end : last_day d.year d.month ≤ day_number d + 30
  unfolding day_number
  near_end = omega (arith, i.first, days_in_month_range d.year d.month)

  -- The date comes after the last day of the month before.
  pub after_month :
      (y m : ℕ)
      → 0 < m
      → m ≤ 12
      → next_year y m ≡ d.year
      → next_month m ≡ d.month
      → last_day y m < day_number d
  unfolding day_number
  after_month y m lo hi e f =
      let step = rw (e, f) at (next_month_end y m lo hi) in omega (arith, step, i.first)

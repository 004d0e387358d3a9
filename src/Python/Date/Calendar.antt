-- ===== src/Python/Date/Calendar.antt =====
-- Day numbers: each date has its own, and adding days to a date adds to it.
use ubki_uploader.Prelude.{
  ℕ, zero, suc, ◌+◌, ◌-◌, ◌≤◌, ◌<◌, ◌≡◌, refl, true, Option, some, arith, ap, ltb, inl, inr,
  Bool-cases,
}
use ubki_uploader.Python.Date.{
  Date, days_in_month, days_in_year, is_date, days_before_year, days_before_month, day_number,
  find_month, find_year, plus_days,
}

pub days_in_month_range : (y m : ℕ) → (28 ≤ days_in_month y m) × (days_in_month y m ≤ 31)
unfolding days_in_month
days_in_month_range y m = ground arith

pub days_before_month-suc :
    (y m : ℕ) → 1 ≤ m → days_before_month y (suc m) ≡ days_before_month y m + days_in_month y m
unfolding days_before_month
days_before_month-suc y zero h = absurd (omega arith)
days_before_month-suc y (suc m) h = refl

-- The twelve months make up the year.
pub twelve_months : (y : ℕ) → days_before_month y 13 ≡ days_in_year y
unfolding days_before_month days_in_month days_in_year
twelve_months y = ground arith

pub first_month : (y : ℕ) → days_before_month y 1 ≡ 0
unfolding days_before_month
first_month y = refl

-- What a search for the n-th day from the start of a month finds.
record IsDay (total : ℕ) (r : Option Date) : Type 0 where
  found : Date
  returns : r ≡ some found
  valid : is_date found ≡ true
  number : day_number found ≡ total

find_month-IsDay :
    (fuel y m n : ℕ)
    → 1 ≤ y
    → y ≤ 9999
    → m + fuel ≡ 13
    → 1 ≤ m
    → 1 ≤ n
    → days_before_month y m + n ≤ days_in_year y
    → IsDay (days_before_year y + days_before_month y m + n) (find_month fuel y m n)
unfolding find_month day_number
find_month-IsDay zero y m n lo hi f hm hn fits = absurd (ground (arith, twelve_months y))
find_month-IsDay (suc fuel) y m n lo hi f hm hn fits =
    elim (Bool-cases (ltb (days_in_month y m) n)) [
      | inl more ↦
          let next = days_before_month-suc y m hm in
          let lt : days_in_month y m < n = ground arith in
          let r =
            find_month-IsDay fuel y (suc m) (n - days_in_month y m) lo hi (omega (arith, f))
              (omega arith) (omega (arith, lt)) (omega (arith, lt, next, fits)) in
          record {
            found = r.found;
            returns = ground (arith, r.returns);
            valid = r.valid;
            number = omega (arith, r.number, next, lt);
          }
      | inr here ↦ record {
        found = record { year = y; month = m; day = n };
        returns = ground arith;
        valid = ground arith;
        number = refl;
      }
    ]

pub days_before_year-suc : (y : ℕ) → days_before_year (suc y) ≡ days_before_year y + days_in_year y
unfolding days_before_year
days_before_year-suc y = refl

days_in_year_pos : (y : ℕ) → 1 ≤ days_in_year y
unfolding days_in_year
days_in_year_pos y = ground arith

find_year-IsDay :
    (fuel y n : ℕ)
    → 1 ≤ y
    → y + fuel ≡ 10000
    → 1 ≤ n
    → days_before_year y + n ≤ days_before_year 10000
    → IsDay (days_before_year y + n) (find_year fuel y n)
unfolding find_year
find_year-IsDay zero y n lo f hn fits =
    let last : y ≡ 10000 = omega (arith, f) in
    absurd (omega (arith, fits, hn, ap days_before_year last))
find_year-IsDay (suc fuel) y n lo f hn fits = elim (Bool-cases (ltb (days_in_year y) n)) [
  | inl more ↦
      let next = days_before_year-suc y in
      let lt : days_in_year y < n = ground arith in
      let r =
        find_year-IsDay fuel (suc y) (n - days_in_year y) (omega arith) (omega (arith, f))
          (omega (arith, lt)) (omega (arith, lt, next, fits)) in
      record {
        found = r.found;
        returns = ground (arith, r.returns);
        valid = r.valid;
        number = omega (arith, r.number, next, lt);
      }
  | inr here ↦
      let start = first_month y in
      let r =
        find_month-IsDay 12 y 1 n lo (omega (arith, f)) refl (omega arith) hn
          (ground (arith, start)) in
      record {
        found = r.found;
        returns = ground (arith, r.returns);
        valid = r.valid;
        number = omega (arith, r.number, start);
      }
]

pub last_number : ℕ
last_number = days_before_year 10000

-- The sum of a date and some days is a date, and lies that many days later, where it does not run
-- over the year 9999.
pub plus_days_adds :
    (d : Date) (n : ℕ)
    → is_date d ≡ true
    → day_number d + n ≤ last_number
    → (e : Date) × (plus_days d n ≡ some e) × (is_date e ≡ true) × (day_number e ≡ day_number d + n)
unfolding plus_days last_number
plus_days_adds d n h fits =
    let number : day_number d ≡ days_before_year d.year + days_before_month d.year d.month + d.day =
      unfold day_number in refl in
    let r =
      find_year-IsDay (10000 - d.year) d.year (days_before_month d.year d.month + d.day + n)
        (ground arith) (ground arith) (ground arith) (omega (arith, number, fits)) in
    (r.found, r.returns, r.valid, omega (arith, r.number, number))

-- ===== src/Backfill/Deal/Sound.antt =====
-- The chain of every deal that is expanded passes the check.
use ubki_uploader.Prelude.{
  refl, ℕ, ◌≡◌, ◌≤◌, sym, ap, subst, ◌∙◌, Bool, true, ◌&&◌, not, Option, none, some, List, [], ◌∷◌,
  leb, arith, Bool-cases, Option-cases, inl, inr,
}
use mathlib.Core.Option.{some-injective}
use ubki_uploader.Prelude.Int.{ℤ, pos, negsuc}
use ubki_uploader.Python.Date.{Date, is_date, days_in_month}
use ubki_uploader.Backfill.{Slice, month_end, chain, is_chain_sane}
use ubki_uploader.Backfill.Months.{IsInMonth, is_date-IsInMonth}
use ubki_uploader.Backfill.Sane.{is_chain_sane-chain}
use ubki_uploader.Backfill.Deal.{
  Current, is_at_most, is_final, period_of, expanded, final_day, expand_from, expand_current,
  expand_deal,
}

-- The dates that `parse_iso` gives are dates, and that of the calculation lies in the deal's month.
abbrev pub IsGoodDate : Option Date → Type 0
IsGoodDate none = Unit
IsGoodDate (some d) = is_date d ≡ true

abbrev pub IsOwnDate : Option Date → (end_year end_month : ℤ) → Type 0
IsOwnDate none y m = Unit
IsOwnDate (some d) y m = (is_date d ≡ true) × (y ≡ pos d.year) × (m ≡ pos d.month)

-- The period is one of a month of the calendar.
period_of_parts :
    (y m : ℤ) (year month : ℕ)
    → period_of y m ≡ some (year, month)
    → (y ≡ pos year) × (m ≡ pos month) × (1 ≤ month) × (month ≤ 12)
period_of_parts (pos y) (pos m) year month h =
    elim (Bool-cases (leb 1 m && leb m 12 && leb 2000 y)) [
      | inl e ↦
          let in_year : (1 ≤ m) × (m ≤ 12) = (ground arith, ground arith) in
          let same : (y, m) ≡ (year, month) = some-injective (y, m) (year, month) (ground arith) in
          subst (λ (p : ℕ × ℕ). (pos y ≡ pos p.0) × (pos m ≡ pos p.1) × (1 ≤ p.1) × (p.1 ≤ 12)) same
            (refl, refl, in_year.0, in_year.1)
      | inr e ↦ absurd (ground arith)
    ]
period_of_parts (pos y) (negsuc m) year month h = absurd (ground arith)
period_of_parts (negsuc y) (pos m) year month h = absurd (ground arith)
period_of_parts (negsuc y) (negsuc m) year month h = absurd (ground arith)

month_end-IsInMonth : (y m : ℕ) → 1 ≤ m → m ≤ 12 → IsInMonth (month_end y m)
unfolding days_in_month
month_end-IsInMonth y m h k = record {
  from_one = omega (arith, h);
  to_twelve = k;
  first = ground arith;
  last = omega arith;
}

same_life : (a b : List Slice) → expanded a ≡ expanded b → a ≡ b
same_life a b h = cc

module _ (max_step : ℕ) (current : Current) (dpf : Date) (d : IsInMonth dpf)
    (amount : current.template.has_amount ≡ true) (wide : 31 ≤ max_step) where
  expand_from-chain :
      (clc : Option Date) (y m : ℕ)
      → IsOwnDate clc (pos y) (pos m)
      → 1 ≤ m
      → m ≤ 12
      → is_chain_sane max_step (chain current.template dpf (final_day clc y m) y m) ≡ true
  expand_from-chain none y m own h k =
      is_chain_sane-chain current.template dpf (month_end y m) max_step
        (month_end-IsInMonth y m h k) amount wide d
  expand_from-chain (some c) y m (good, e, e') h k =
      let same_year : c.year ≡ y = ground arith in
      let same_month : c.month ≡ m = ground arith in
      subst (λ t. is_chain_sane max_step (chain current.template dpf c t m) ≡ true) same_year
        (subst (λ t. is_chain_sane max_step (chain current.template dpf c c.year t) ≡ true)
          same_month
          (is_chain_sane-chain current.template dpf c max_step (is_date-IsInMonth c good) amount
            wide d))

  expand_from_sane :
      (life : List Slice)
      → IsOwnDate current.final_clc current.end_year current.end_month
      → expand_from current dpf (period_of current.end_year current.end_month) ≡ expanded life
      → is_chain_sane max_step life ≡ true
  expand_from_sane life own h = elim (Option-cases (period_of current.end_year current.end_month)) [
    | inl e ↦ absurd (ground arith)
    | inr (p, e) ↦
        let (ey, em, one, twelve) = period_of_parts current.end_year current.end_month p.0 p.1 e in
        let own' : IsOwnDate current.final_clc (pos p.0) (pos p.1) =
          subst (λ t. IsOwnDate current.final_clc (pos p.0) t) em
            (subst (λ t. IsOwnDate current.final_clc t current.end_month) ey own) in
        subst (λ l. is_chain_sane max_step l ≡ true)
          (same_life (chain current.template dpf (final_day current.final_clc p.0 p.1) p.0 p.1) life
            (ap (expand_from current dpf) (sym e) ∙ h))
          (expand_from-chain current.final_clc p.0 p.1 own' one twelve)
  ]

-- Every deal that is expanded gets a chain that passes `assert_chain_sane`, whatever its overdue
-- days and flags, for a step of 31 days at least, a start that is a date, and a calculation date,
-- where there is one, that lies in the deal's own month.
pub expand_deal_sane :
    (max_step : ℕ) (include_final : Bool) (current : Current) (life : List Slice)
    → 31 ≤ max_step
    → IsGoodDate current.dpf
    → IsOwnDate current.final_clc current.end_year current.end_month
    → expand_deal max_step include_final (current ∷ []) ≡ expanded life
    → is_chain_sane max_step life ≡ true
unfolding expand_deal expand_current
expand_deal_sane max_step include_final current life wide good own h =
    elim (Bool-cases (is_at_most current.exp max_step)) [
      | inl e ↦ absurd (ground arith)
      | inr e ↦ elim (Option-cases current.dpf) [
        | inl f ↦ absurd (ground arith)
        | inr (dpf, f) ↦ elim (Bool-cases (is_final current.flstat && not include_final)) [
          | inl g ↦ absurd (ground arith)
          | inr g ↦ elim (Bool-cases current.template.has_amount) [
            | inr k ↦ absurd (ground arith)
            | inl k ↦
                expand_from_sane max_step current dpf
                  (is_date-IsInMonth dpf (subst IsGoodDate f good)) k wide life own (ground arith)
          ]
        ]
      ]
    ]

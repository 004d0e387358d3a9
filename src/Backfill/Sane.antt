-- ===== src/Backfill/Sane.antt =====
-- The chains that the script makes pass its own check.
use ubki_uploader.Prelude.{
  ℕ, zero, suc, ◌+◌, ◌-◌, ◌*◌, ◌≡◌, ◌≤◌, ◌<◌, refl, true, false, List, [], ◌∷◌, ◌++◌, arith, ltb,
  leb, ◌==◌, inl, inr, Bool-cases,
}
use ubki_uploader.Python.Date.{Date, day_number}
use ubki_uploader.Backfill.Months.{
  last_day, last_day_later, last_day_close, IsInMonth, not_after, near_end, after_month,
}
use ubki_uploader.Backfill.{
  Slice, is_before, next_year, next_month, month_iter, months_between, make_slice, month_end,
  historical_slices, chain, follows, agrees, all_follow, is_chain_sane,
}

module _ (current : Slice) (dpf final_clc : Date) (max_step : ℕ) (in_month : IsInMonth final_clc)
    (has_amount : current.has_amount ≡ true) (wide : 31 ≤ max_step) where
  abbrev tail : (fuel y m : ℕ) → List Slice
  tail fuel y m =
      historical_slices current dpf (month_iter fuel y m final_clc.year final_clc.month)
      ++ make_slice current dpf final_clc false ∷ []

  -- What follows the slice of a month that has an overdue day.
  tail_follows :
      (fuel y m : ℕ) (prev : Slice)
      → 0 < m
      → m ≤ 12
      → 12 * final_clc.year + final_clc.month ≡ 12 * next_year y m + next_month m + fuel
      → prev ≡ make_slice current dpf (month_end y m) true
      → day_number dpf < last_day y m
      → all_follow max_step prev (tail fuel (next_year y m) (next_month m)) ≡ true
  unfolding all_follow historical_slices month_iter
  tail_follows zero y m prev lo hi e p late =
      let same_year : next_year y m ≡ final_clc.year =
        ground (arith, in_month.from_one, in_month.to_twelve) in
      let same_month : next_month m ≡ final_clc.month =
        ground (arith, in_month.from_one, in_month.to_twelve) in
      let after = after_month final_clc in_month y m lo hi same_year same_month in
      let close : last_day final_clc.year final_clc.month ≤ last_day y m + 31 =
        rw (← same_year, ← same_month) (last_day_close y m lo hi) in
      rw p (ground (arith, not_after final_clc in_month))
  tail_follows (suc fuel) y m prev lo hi e p late =
      let y' = next_year y m in
      let m' = next_month m in
      let slice = make_slice current dpf (month_end y' m') true in
      let later = last_day_later y m lo hi in
      let close = last_day_close y m lo hi in
      let before : is_before y' m' final_clc.year final_clc.month ≡ true =
        ground (arith, in_month.from_one, in_month.to_twelve) in
      let lo' : 0 < m' = ground arith in
      let hi' : m' ≤ 12 = ground arith in
      let e' : 12 * final_clc.year + final_clc.month ≡ 12 * next_year y' m' + next_month m' + fuel =
        ground arith in
      let rest = tail_follows fuel y' m' slice lo' hi' e' refl (omega (arith, later)) in
      let kept : (last_day y' m' - day_number dpf == 0) ≡ false = ground arith in
      let agreed : agrees slice ≡ true = ground arith in
      let followed : follows max_step (make_slice current dpf (month_end y m) true) slice ≡ true =
        ground arith in
      rw (p, before, kept, agreed, followed) rest

  sane_after :
      (s : Slice) (life : List Slice)
      → s.dldayexp ≤ 31
      → agrees s ≡ true
      → all_follow max_step s life ≡ true
      → is_chain_sane max_step (s ∷ life) ≡ true
  unfolding is_chain_sane
  sane_after s [] h a f = refl
  sane_after s (t ∷ life) h a f = ground arith

  -- A chain whose first month has an overdue day.
  sane_from :
      (fuel y m : ℕ)
      → 0 < m
      → m ≤ 12
      → 12 * final_clc.year + final_clc.month ≡ 12 * y + m + fuel
      → day_number dpf < last_day y m
      → last_day y m ≤ day_number dpf + 31
      → is_chain_sane max_step (tail fuel y m) ≡ true
  unfolding is_chain_sane historical_slices month_iter
  sane_from zero y m lo hi e late near = refl
  sane_from (suc fuel) y m lo hi e late near =
      let slice = make_slice current dpf (month_end y m) true in
      let before : is_before y m final_clc.year final_clc.month ≡ true =
        ground (arith, in_month.from_one, in_month.to_twelve) in
      let kept : (last_day y m - day_number dpf == 0) ≡ false = ground arith in
      let e' : 12 * final_clc.year + final_clc.month ≡ 12 * next_year y m + next_month m + fuel =
        ground arith in
      rw (before, kept)
        (sane_after slice (tail fuel (next_year y m) (next_month m)) (omega (arith, near))
          (ground arith) (tail_follows fuel y m slice lo hi e' refl late))

  sane_months :
      (fuel : ℕ)
      → IsInMonth dpf
      → 12 * final_clc.year + final_clc.month ≡ 12 * dpf.year + dpf.month + fuel
      → is_chain_sane max_step (tail fuel dpf.year dpf.month) ≡ true
  unfolding is_chain_sane historical_slices month_iter
  sane_months zero d e = refl
  sane_months (suc fuel) d e =
      elim (Bool-cases (ltb (day_number dpf) (last_day dpf.year dpf.month))) [
        | inl late ↦
            sane_from (suc fuel) dpf.year dpf.month d.from_one d.to_twelve e (ground arith)
              (omega (arith, near_end dpf d))
        | inr last ↦
            let y' = next_year dpf.year dpf.month in
            let m' = next_month dpf.month in
            let later = last_day_later dpf.year dpf.month d.from_one d.to_twelve in
            let close = last_day_close dpf.year dpf.month d.from_one d.to_twelve in
            let is_last : last_day dpf.year dpf.month ≤ day_number dpf = ground arith in
            let before : is_before dpf.year dpf.month final_clc.year final_clc.month ≡ true =
              ground (arith, in_month.from_one, in_month.to_twelve, d.from_one, d.to_twelve) in
            let dropped : (last_day dpf.year dpf.month - day_number dpf == 0) ≡ true =
              ground arith in
            let e' : 12 * final_clc.year + final_clc.month ≡ 12 * y' + m' + fuel =
              ground (arith, d.from_one, d.to_twelve) in
            rw (before, dropped)
              (sane_from fuel y' m' (ground (arith, d.from_one)) (ground (arith, d.to_twelve)) e'
                (omega (arith, later, not_after dpf d)) (omega (arith, close, is_last)))
      ]

  -- The chain of a deal passes the check of `assert_chain_sane`: overdue days do not decrease and
  -- rise by no more than the step, months rise, the first slice has 31 overdue days at most, and no
  -- slice has an overdue amount without overdue days. This is for an overdue amount that is not
  -- zero, a step of 31 days at least, and a calculation date that lies in the deal's own month.
  pub is_chain_sane-chain :
      IsInMonth dpf
      → is_chain_sane max_step (chain current dpf final_clc final_clc.year final_clc.month) ≡ true
  unfolding chain is_chain_sane historical_slices month_iter
  is_chain_sane-chain d =
      elim (Bool-cases (leb (12 * dpf.year + dpf.month) (12 * final_clc.year + final_clc.month))) [
        | inl order ↦
            sane_months (months_between dpf.year dpf.month final_clc.year final_clc.month) d
              (ground arith)
        | inr late ↦
            let none_left : months_between dpf.year dpf.month final_clc.year final_clc.month ≡ 0 =
              ground arith in
            rw none_left refl
      ]

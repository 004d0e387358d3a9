-- ===== src/Tests/Chains.antt =====
-- A chain over the turn of a year.
use ubki_uploader.Prelude.{◌≡◌, refl, true, false, some, none, [], ◌∷◌, map, arith}
use ubki_uploader.Python.Date.{
  Date, is_date, day_number, days_in_month, days_in_year, is_leap, days_before_month,
  days_before_year,
}
use ubki_uploader.Backfill.{Slice, chain, is_chain_sane, historical_slices, month_iter}
use ubki_uploader.Backfill.Months.{IsInMonth}
use ubki_uploader.Prelude.Int.{pos}
use ubki_uploader.Backfill.Deal.{Current, expand_deal, expand_current, expanded}
use ubki_uploader.Backfill.Deal.Sound.{expand_deal_sane}

-- The last day of the eleventh month.
abbrev dpf : Date
dpf = record { year = 2; month = 11; day = 30 }

abbrev calculated : Date
calculated = record { year = 3; month = 1; day = 16 }

dpf-IsInMonth : IsInMonth dpf
unfolding days_in_month
dpf-IsInMonth = record {
  from_one = omega arith;
  to_twelve = omega arith;
  first = omega arith;
  last = omega arith;
}

calculated-IsInMonth : IsInMonth calculated
unfolding days_in_month
calculated-IsInMonth = record {
  from_one = omega arith;
  to_twelve = omega arith;
  first = omega arith;
  last = omega arith;
}

abbrev current : Slice
current = record {
  dlyear = 3;
  dlmonth = 1;
  dldateclc = calculated;
  dldayexp = 40;
  dldff = none;
  has_amount = true;
}

-- The first month has no overdue day and is dropped.
days : map (λ s. s.dldayexp) (chain current dpf calculated 3 1) ≡ 31 ∷ 47 ∷ []
unfolding chain historical_slices month_iter day_number days_in_month days_in_year is_leap
    days_before_month days_before_year
days = refl

abbrev overdue_since : Date
overdue_since = record { year = 2025; month = 3; day = 10 }

abbrev reported : Date
reported = record { year = 2026; month = 1; day = 16 }

abbrev overdue : Current
overdue = record {
  template = current;
  exp = pos 312;
  dpf = some overdue_since;
  flstat = some (pos 1);
  end_year = pos 2026;
  end_month = pos 1;
  final_clc = some reported;
}

deal_expanded :
    expand_deal 92 false (overdue ∷ []) ≡ expanded (chain current overdue_since reported 2026 1)
unfolding expand_deal expand_current
deal_expanded = refl

since_good : is_date overdue_since ≡ true
unfolding days_in_month
since_good = refl

reported_good : is_date reported ≡ true
unfolding days_in_month
reported_good = refl

expand_deal_sane_example : is_chain_sane 92 (chain current overdue_since reported 2026 1) ≡ true
expand_deal_sane_example =
    expand_deal_sane 92 false overdue (chain current overdue_since reported 2026 1) (omega arith)
      since_good (reported_good, refl, refl) deal_expanded

-- ===== src/Backfill.antt =====
-- The chain of monthly slices that backfill_deallife.py makes of the one current slice of a deal.
pub mod Deal
pub mod Months
pub mod Sane
use ubki_uploader.Prelude.{
  ℕ, zero, suc, ◌+◌, ◌-◌, ◌*◌, Bool, true, false, ◌||◌, ◌&&◌, not, Option, none, some, List, [],
  ◌∷◌, ◌++◌, ltb, leb, ◌==◌, if◌then◌else◌,
}
use ubki_uploader.Python.Date.{Date, days_in_month, day_number}

-- The fields of a slice that the chain changes, or that its check reads; the others are copied.
-- `has_amount` is that `float(dlamtexp or 0)` is not zero.
pub record Slice : Type 0 where
  pub dlyear : ℕ
  pub dlmonth : ℕ
  pub dldateclc : Date
  pub dldayexp : ℕ
  pub dldff : Option Date
  pub has_amount : Bool

-- `(y, m) < (end_year, end_month)`
abbrev pub is_before : (y m end_year end_month : ℕ) → Bool
is_before y m end_year end_month = ltb y end_year || y == end_year && ltb m end_month

abbrev pub next_year : (y m : ℕ) → ℕ
next_year y m = if ltb 12 (m + 1) then y + 1 else y

abbrev pub next_month : (m : ℕ) → ℕ
next_month m = if ltb 12 (m + 1) then 1 else m + 1

-- `month_iter`, with fuel for the loop.
unfoldable pub month_iter : (fuel y m end_year end_month : ℕ) → List (ℕ × ℕ)
month_iter zero y m end_year end_month = []
month_iter (suc fuel) y m end_year end_month =
    let rest = month_iter fuel (next_year y m) (next_month m) end_year end_month in
    if is_before y m end_year end_month then (y, m) ∷ rest else []

-- The number of months up to the end, which is enough fuel.
abbrev pub months_between : (y m end_year end_month : ℕ) → ℕ
months_between y m end_year end_month = 12 * end_year + end_month - (12 * y + m)

-- `_make_slice`: `-` stops at 0, as `max(0, ...)` does. The malformed `dldff` that `_clean` takes
-- off is none already.
abbrev pub make_slice : Slice → (dpf clc : Date) → (historical : Bool) → Slice
make_slice template dpf clc historical = record template {
  dlmonth = clc.month;
  dlyear = clc.year;
  dldateclc = clc;
  dldayexp = day_number clc - day_number dpf;
  dldff = if historical then none else template.dldff;
}

-- `date(y, m, monthrange(y, m)[1])`
abbrev pub month_end : (y m : ℕ) → Date
month_end y m = record { year = y; month = m; day = days_in_month y m }

-- The loop over the months: a slice without an overdue day is dropped.
unfoldable pub historical_slices : Slice → (dpf : Date) → List (ℕ × ℕ) → List Slice
historical_slices template dpf [] = []
historical_slices template dpf ((y, m) ∷ months) =
    let rest = historical_slices template dpf months in
    let slice = make_slice template dpf (month_end y m) true in
    if slice.dldayexp == 0 then rest else slice ∷ rest

-- The chain of `expand_deal`, for a deal that is expanded.
unfoldable pub chain : Slice → (dpf final_clc : Date) (end_year end_month : ℕ) → List Slice
chain current dpf final_clc end_year end_month =
    historical_slices current dpf (
      month_iter (months_between dpf.year dpf.month end_year end_month) dpf.year dpf.month end_year
        end_month)
    ++ make_slice current dpf final_clc false ∷ []

-- The assertions of `assert_chain_sane` for a slice after another one.
abbrev pub follows : (max_step : ℕ) (prev s : Slice) → Bool
follows max_step prev s =
    leb prev.dldayexp s.dldayexp
    && leb (s.dldayexp - prev.dldayexp) max_step
    && is_before prev.dlyear prev.dlmonth s.dlyear s.dlmonth

-- `(exp == 0) == (amt == 0)`
abbrev pub agrees : Slice → Bool
agrees s = if s.dldayexp == 0 then not s.has_amount else s.has_amount

unfoldable pub all_follow : (max_step : ℕ) → Slice → List Slice → Bool
all_follow max_step prev [] = true
all_follow max_step prev (s ∷ life) =
    let rest = all_follow max_step s life in agrees s && follows max_step prev s && rest

unfoldable pub is_chain_sane : (max_step : ℕ) → List Slice → Bool
is_chain_sane max_step [] = true
is_chain_sane max_step (s ∷ []) = true
is_chain_sane max_step (s ∷ t ∷ life) =
    leb s.dldayexp 31 && agrees s && all_follow max_step s (t ∷ life)

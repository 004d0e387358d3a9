-- ===== src/Backfill/Deal.antt =====
-- `parse_iso`, `expand_deal` and `expand_subject` of backfill_deallife.py: which deals get a chain.
pub mod Sound
use Prim.Native.Char.{code}
use ubki_uploader.Prelude.{
  ℕ, zero, suc, ◌+◌, String, Bool, true, false, ◌||◌, ◌&&◌, not, Option, none, some, List, [], ◌∷◌,
  map, ltb, leb, ◌==◌, length, any, if◌then◌else◌,
}
use ubki_uploader.Prelude.Int.{ℤ, pos, negsuc}
use ubki_uploader.Python.Json.{Json, Fields, int, get, has_key, truthy, to_text, to_int, Builtins}
use ubki_uploader.Python.Date.{Date, is_date}
use ubki_uploader.Backfill.{Slice, month_end, chain}

-- `s.split("-")`, with the part that is being read first
unfoldable pub split_dash : String → String × List String
split_dash String.[] = ("", [])
split_dash (String.◌∷◌ c s) =
    let (part, parts) = split_dash s in
    if code c == 45 then ("", part ∷ parts) else (String.◌∷◌ c part, parts)

-- `date(y, m, d)`, with none for its ValueError
abbrev pub date_of : Option ℤ → Option ℤ → Option ℤ → Option Date
date_of (some (pos y)) (some (pos m)) (some (pos d)) =
    let made : Date = record { year = y; month = m; day = d } in
    if is_date made then some made else none
date_of _ _ _ = none

-- `y, m, d = map(int, ...)` of three parts
abbrev pub date_of_parts : Builtins → String × List String → Option Date
date_of_parts py (y, m ∷ d ∷ []) = date_of (py.int_of y) (py.int_of m) (py.int_of d)
date_of_parts py (y, _) = none

unfoldable pub parse_iso : Builtins → Json → Option Date
parse_iso py value = date_of_parts py (split_dash (to_text py value))

-- The numbers and dates that `expand_deal` reads of `current`; the template carries what a slice
-- copies. A period that is no number, at which the script stops, is not modelled.
pub record Current : Type 0 where
  pub template : Slice
  pub exp : ℤ
  pub dpf : Option Date
  pub flstat : Option ℤ
  pub end_year : ℤ
  pub end_month : ℤ
  pub final_clc : Option Date

-- `n <= k`
abbrev pub is_at_most : ℤ → ℕ → Bool
is_at_most (pos n) k = leb n k
is_at_most (negsuc n) k = true

-- `flstat in FINAL_STATUSES`
abbrev pub is_final : Option ℤ → Bool
is_final (some (pos n)) = any (λ k. n == k) (2 ∷ 3 ∷ 6 ∷ 7 ∷ 10 ∷ 11 ∷ 12 ∷ 13 ∷ 14 ∷ [])
is_final _ = false

-- `1 <= end_month <= 12 and end_year >= 2000`, with the period
abbrev pub period_of : (end_year end_month : ℤ) → Option (ℕ × ℕ)
period_of (pos y) (pos m) = if leb 1 m && leb m 12 && leb 2000 y then some (y, m) else none
period_of _ _ = none

-- The reasons for which a deal with one slice keeps it.
pub data Keep : Type 0 where
  below_threshold bad_dldpf final_status amtexp_zero bad_period : Keep

pub data Expansion : Type 0 where
  unexpected_shape : Expansion
  kept : Keep → (current : Current) → Expansion
  expanded : (life : List Slice) → Expansion

-- `dldateclc`, or the last day of the deal's month
abbrev pub final_day : Option Date → (y m : ℕ) → Date
final_day none y m = month_end y m
final_day (some d) y m = d

abbrev pub expand_from : Current → (dpf : Date) → Option (ℕ × ℕ) → Expansion
expand_from current dpf none = kept bad_period current
expand_from current dpf (some (y, m)) =
    expanded (chain current.template dpf (final_day current.final_clc y m) y m)

unfoldable pub expand_current : (max_step : ℕ) → (include_final : Bool) → Current → Expansion
expand_current max_step include_final current =
    if is_at_most current.exp max_step then kept below_threshold current else (elim current.dpf [
      | none ↦ kept bad_dldpf current
      | some dpf ↦
          if is_final current.flstat && not include_final
          then kept final_status current
          else if not current.template.has_amount
          then kept amtexp_zero current
          else expand_from current dpf (period_of current.end_year current.end_month)
    ])

unfoldable pub expand_deal :
    (max_step : ℕ) → (include_final : Bool) → (life : List Current) → Expansion
expand_deal max_step include_final (current ∷ []) = expand_current max_step include_final current
expand_deal max_step include_final _ = unexpected_shape

-- What becomes of the deals of a subject: all are kept where there are several, unless these are
-- included.
pub data Subject : Type 0 where
  multi_deal : (count : ℕ) → Subject
  each : List Expansion → Subject

unfoldable pub expand_subject :
    (max_step : ℕ)
    → (include_final include_multi_deal : Bool) → (deals : List (List Current)) → Subject
expand_subject max_step include_final include_multi_deal deals =
    if ltb 1 (length deals) && not include_multi_deal
    then multi_deal (length deals)
    else each (map (expand_deal max_step include_final) deals)

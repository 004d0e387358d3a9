-- ===== src/Enricher/Values.antt =====
-- The pure building blocks of app/enricher.py: phones, tax ids and document numbers.
pub mod Phone
pub mod Number
use Prim.Native.String.{◌++◌ as ◌<>◌}
use ubki_uploader.Prelude.{
  ℕ, ◌%◌, String, Bool, true, false, ◌||◌, ◌&&◌, not, Option, none, some, ◌==◌, is_blank,
  take_chars, drop_chars, count_chars, all_chars, any_char, keep_chars, starts_with, if◌then◌else◌,
}
use ubki_uploader.Prelude.Int.{ℤ, pos, negsuc}
use ubki_uploader.Python.Json.{Builtins}
use ubki_uploader.Python.Strip.{is_space}
use ubki_uploader.Python.Date.{Date, plus_days}
use ubki_uploader.Enricher.Cabinet.{Cell, cell_text}

unfoldable pub normalize_phone : Builtins → Cell → Option String
normalize_phone py value =
    let digits = keep_chars py.is_decimal (cell_text value) in
    if count_chars digits == 12 && starts_with "380" digits
    then some ("+" <> digits)
    else if count_chars digits == 10 && starts_with "0" digits
    then some ("+38" <> digits)
    else none

-- `inn.isdigit() and len(inn) == 10`
abbrev pub is_inn : Builtins → String → Bool
is_inn py inn = all_chars py.is_digit inn && count_chars inn == 10

abbrev pub inn_epoch : Date
inn_epoch = record { year = 1899; month = 12; day = 31 }

-- `isdigit` leaves no sign, so `int` gives no negative number.
unfoldable pub inn_birthday : Builtins → String → Option Date
inn_birthday py inn =
    let days = py.int_of (take_chars 5 inn) in
    if is_inn py inn
    then elim days [
      | none ↦ none
      | some n ↦ elim n [ pos k ↦ plus_days inn_epoch k | negsuc k ↦ none ]
    ]
    else none

-- A value, or the ValueError that a function raises.
pub data Result {ℓ} (A : Type ℓ) : Type ℓ where
  ok : A → Result A
  value_error : Result A

-- SEX_MALE, SEX_FEMALE
abbrev pub sex_male : String
sex_male = "1"

abbrev pub sex_female : String
sex_female = "2"

-- `SEX_MALE if n % 2 else SEX_FEMALE`
abbrev pub sex_of : ℤ → String
sex_of (pos n) = if n % 2 == 0 then sex_female else sex_male
sex_of (negsuc n) = if n % 2 == 0 then sex_male else sex_female

unfoldable pub inn_sex : Builtins → String → Result (Option String)
inn_sex py inn =
    let ninth = py.int_of (take_chars 1 (drop_chars 8 inn)) in
    if is_inn py inn
    then elim ninth [ none ↦ value_error | some n ↦ ok (some (sex_of n)) ]
    else ok none

-- `re.sub(r"\s+", "", text).upper()`
unfoldable pub normalize_text : Builtins → String → String
normalize_text py s = py.upper (keep_chars (λ c. not (is_space c)) s)

unfoldable pub normalize_number : Builtins → Cell → String
normalize_number py value = normalize_text py (cell_text value)

-- The tuple (dtype, dser, dnom)
pub record DocNumber : Type 0 where
  pub dtype : String
  pub dser : String
  pub dnom : String

-- DOC_TYPE_PASSPORT, DOC_TYPE_ID_CARD
abbrev pub doc_type_passport : String
doc_type_passport = "1"

abbrev pub doc_type_id_card : String
doc_type_id_card = "17"

abbrev pub is_id_card : Builtins → String → Bool
is_id_card py number = count_chars number == 9 && all_chars py.is_decimal number

-- `number[2:].isdigit()` is false of an empty text, which eight characters exclude.
abbrev pub is_passport : Builtins → String → Bool
is_passport py number =
    count_chars number == 8
    && all_chars py.is_digit (drop_chars 2 number)
    && not (any_char py.is_digit (take_chars 2 number))

-- `_parse_doc_number`, of the text that `str(value or "")` gives: `build_doc` applies it to a number
-- that is normalized already, and the number is then normalized twice.
unfoldable pub parse_doc_number : Builtins → String → Option DocNumber
parse_doc_number py value =
    let number = normalize_text py value in
    if is_blank number
    then none
    else if is_id_card py number
    then some (record { dtype = doc_type_id_card; dser = ""; dnom = number })
    else if is_passport py number
    then some (record {
      dtype = doc_type_passport;
      dser = take_chars 2 number;
      dnom = drop_chars 2 number;
    })
    else none

-- ===== src/Python/Date.antt =====
-- What the source uses of `datetime.date` and `calendar`: the Gregorian calendar of the years 1 to
-- 9999, dates in the form YYYY-MM-DD, and the sum of a date and a number of days.
pub mod Calendar
use Prim.Native.Char.{code}
use Prim.Native.String.{◌++◌ as ◌<>◌}
use ubki_uploader.Prelude.{
  ℕ, zero, suc, ◌+◌, ◌-◌, ◌*◌, ◌/◌, ◌%◌, String, Bool, true, false, ◌||◌, ◌&&◌, not, Option, none,
  some, ◌==◌, ltb, leb, take_chars, drop_chars, if◌then◌else◌,
}
use ubki_uploader.Python.Json.{digit}

pub record Date : Type 0 where
  pub year : ℕ
  pub month : ℕ
  pub day : ℕ

unfoldable pub is_leap : ℕ → Bool
is_leap y = y % 4 == 0 && (not (y % 100 == 0) || y % 400 == 0)

-- `calendar.monthrange(y, m)[1]`
unfoldable pub days_in_month : (y m : ℕ) → ℕ
days_in_month y m =
    if m == 2
    then (if is_leap y then 29 else 28)
    else if m == 4 || m == 6 || m == 9 || m == 11
    then 30
    else 31

unfoldable pub days_in_year : ℕ → ℕ
days_in_year y = if is_leap y then 366 else 365

-- `date(y, m, d)` does not raise ValueError.
abbrev pub is_date : Date → Bool
is_date d =
    leb 1 d.year
    && leb d.year 9999
    && (leb 1 d.month && leb d.month 12)
    && (leb 1 d.day && leb d.day (days_in_month d.year d.month))

unfoldable pub days_before_year : ℕ → ℕ
days_before_year zero = 0
days_before_year (suc y) = days_before_year y + days_in_year y

unfoldable pub days_before_month : (y m : ℕ) → ℕ
days_before_month y zero = 0
days_before_month y (suc zero) = 0
days_before_month y (suc (suc m)) = days_before_month y (suc m) + days_in_month y (suc m)

-- `d.toordinal()`, up to a constant: only differences are used.
unfoldable pub day_number : Date → ℕ
day_number d = days_before_year d.year + days_before_month d.year d.month + d.day

-- The date of the `n`-th day from the first of a month, and then of a year.
unfoldable pub find_month : (fuel y m n : ℕ) → Option Date
find_month zero y m n = none
find_month (suc fuel) y m n =
    let later = find_month fuel y (suc m) (n - days_in_month y m) in
    if ltb (days_in_month y m) n then later else some (record { year = y; month = m; day = n })

unfoldable pub find_year : (fuel y n : ℕ) → Option Date
find_year zero y n = none
find_year (suc fuel) y n =
    let later = find_year fuel (suc y) (n - days_in_year y) in
    if ltb (days_in_year y) n then later else find_month 12 y 1 n

-- `d + timedelta(days=n)`, with none for OverflowError.
unfoldable pub plus_days : Date → ℕ → Option Date
plus_days d n = find_year (10000 - d.year) d.year (days_before_month d.year d.month + d.day + n)

-- `f"{n:02d}"` and `f"{n:04d}"`, of a number with at most two and four digits
unfoldable pub two_digits : ℕ → String
two_digits n = digit (n / 10) <> digit (n % 10)

unfoldable pub four_digits : ℕ → String
four_digits n = two_digits (n / 100) <> two_digits (n % 100)

unfoldable pub isoformat : Date → String
isoformat d = four_digits d.year <> ("-" <> (two_digits d.month <> ("-" <> two_digits d.day)))

abbrev pub is_ascii_digit : ℕ → Bool
is_ascii_digit c = leb 48 c && leb c 57

-- `re.fullmatch`, for a shape in which a zero stands for a character of the class `p`
abbrev pub has_shape : (p : ℕ → Bool) (shape s : String) → Bool
has_shape p String.[] String.[] = true
has_shape p String.[] (String.◌∷◌ c s) = false
has_shape p (String.◌∷◌ k shape) String.[] = false
has_shape p (String.◌∷◌ k shape) (String.◌∷◌ c s) =
    (if code k == 48 then p (code c) else code c == code k) && has_shape p shape s

abbrev pub iso_shape : String
iso_shape = "0000-00-00"

-- The number that ASCII digits write.
unfoldable pub digits_value : (so_far : ℕ) → String → ℕ
digits_value n String.[] = n
digits_value n (String.◌∷◌ c s) = digits_value (10 * n + (code c - 48)) s

abbrev pub iso_fields : String → Date
iso_fields s = record {
  year = digits_value 0 (take_chars 4 s);
  month = digits_value 0 (take_chars 2 (drop_chars 5 s));
  day = digits_value 0 (take_chars 2 (drop_chars 8 s));
}

-- `date.fromisoformat(s)` for a text of the shape YYYY-MM-DD, with none for ValueError.
unfoldable pub from_isoformat : String → Option Date
from_isoformat s =
    if has_shape is_ascii_digit iso_shape s && is_date (iso_fields s)
    then some (iso_fields s)
    else none

-- `day.replace(year=day.year + years)`, or the 28th of its month, with none for a ValueError of both.
unfoldable pub plus_years : Date → (years : ℕ) → Option Date
plus_years d years =
    let moved = record d { year = d.year + years } in
    let shortened = record moved { day = 28 } in
    if is_date moved then some moved else if is_date shortened then some shortened else none

-- ===== src/Python/Json.antt =====
-- Values of `json.loads`, and what the source does with them.
use Prim.Native.String.{◌++◌ as ◌<>◌}
use ubki_uploader.Prelude.{
  ℕ, zero, suc, ◌/◌, ◌%◌, String, Bool, true, false, ◌||◌, not, Option, none, some, ◌==◌, ltb,
  str_eq, is_blank, if◌then◌else◌,
}
use ubki_uploader.Prelude.Int.{ℤ, pos, negsuc}

-- Of a float the source uses its text, its truncation to an integer and whether it is zero. The
-- nonstandard NaN and Infinity are not modelled.
mutual
  pub data Json : Type 0 where
    null : Json
    bool : Bool → Json
    int : ℤ → Json
    float : (text : String) (truncated : ℤ) (nonzero : Bool) → Json
    str : String → Json
    arr : Items → Json
    obj : Fields → Json

  pub data Items : Type 0 where
    nil : Items
    cons : Json → Items → Items

  pub data Fields : Type 0 where
    end : Fields
    field : String → Json → Fields → Fields

-- `v is None`
abbrev pub is_null : Json → Bool
is_null null = true
is_null _ = false

-- `bool(v)`
abbrev pub truthy : Json → Bool
truthy null = false
truthy (bool b) = b
truthy (int (pos zero)) = false
truthy (int _) = true
truthy (float _ _ nonzero) = nonzero
truthy (str s) = not (is_blank s)
truthy (arr nil) = false
truthy (arr (cons _ _)) = true
truthy (obj end) = false
truthy (obj (field _ _ _)) = true

-- `v or w`
infixl 30 ◌or_else◌
abbrev pub ◌or_else◌ : Json → Json → Json
v or_else w = if truthy v then v else w

-- `d.get(key)`, with None for a key that is not there
abbrev pub get : String → Fields → Json
get key end = null
get key (field k v fs) = if str_eq k key then v else get key fs

-- `key in d`
abbrev pub has_key : String → Fields → Bool
has_key key end = false
has_key key (field k v fs) = str_eq k key || has_key key fs

abbrev pub digit : ℕ → String
digit n =
    if n == 0
    then "0"
    else if n == 1
    then "1"
    else if n == 2
    then "2"
    else if n == 3
    then "3"
    else if n == 4
    then "4"
    else if n == 5
    then "5"
    else if n == 6
    then "6"
    else if n == 7
    then "7"
    else if n == 8
    then "8"
    else "9"

-- `n` has at most `n + 1` digits, the fuel that `show` gives.
show_digits : (fuel n : ℕ) → String
show_digits zero n = ""
show_digits (suc f) n =
    let rest = show_digits f (n / 10) <> digit (n % 10) in if ltb n 10 then digit n else rest

-- `str(n)` of an int
unfoldable pub show : ℕ → String
unfolding show_digits
show n = show_digits (suc n) n

unfoldable pub show_int : ℤ → String
unfolding show
show_int (pos n) = show n
show_int (negsuc n) = "-" <> show (suc n)

pub record Builtins : Type 0 where
  -- `repr(v)`: of a container, and of a text in an error message
  pub repr : Json → String
  -- `s.upper()`, `s.lower()`
  pub upper : String → String
  pub lower : String → String
  -- `\d` and `c.isdigit()` of the character with a code
  pub is_decimal : ℕ → Bool
  pub is_digit : ℕ → Bool
  -- `int(s)`, with none for ValueError
  pub int_of : String → Option ℤ

-- `str(v)`
unfoldable pub to_text : Builtins → Json → String
unfolding show_int
to_text py null = "None"
to_text py (bool true) = "True"
to_text py (bool false) = "False"
to_text py (int n) = show_int n
to_text py (float text _ _) = text
to_text py (str s) = s
to_text py v = py.repr v

-- `int(v)`, with none for TypeError and ValueError. The OverflowError of an infinite float is not
-- here: a `float` is finite.
unfoldable pub to_int : Builtins → Json → Option ℤ
to_int py (bool true) = some (pos 1)
to_int py (bool false) = some (pos 0)
to_int py (int n) = some n
to_int py (float _ n _) = some n
to_int py (str s) = py.int_of s
to_int py _ = none

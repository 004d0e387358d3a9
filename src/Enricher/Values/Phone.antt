-- ===== src/Enricher/Values/Phone.antt =====
-- What a phone number looks like.
use Prim.Native.String.{◌++◌ as ◌<>◌}
use Prim.Native.String.append
use ubki_uploader.Prelude.{
  ℕ, suc, ◌≡◌, refl, String, Bool, true, ◌&&◌, some, ◌==◌, count_chars, all_chars, ap, sym, ◌∙◌,
  subst, keep_chars, starts_with, drop_chars, arith, Bool-cases, inl, inr,
}
use mathlib.Core.Option.{some-injective}
use ubki_uploader.Python.Json.{Builtins}
use ubki_uploader.Enricher.Cabinet.{Cell, cell_text}
use ubki_uploader.Enricher.Values.{normalize_phone}

pub all_chars-keep_chars : (p : ℕ → Bool) (s : String) → all_chars p (keep_chars p s) ≡ true
unfolding keep_chars
all_chars-keep_chars p String.[] = refl
all_chars-keep_chars p (String.◌∷◌ c s) = ground (arith, all_chars-keep_chars p s)

pub keep_chars_all : (p : ℕ → Bool) (s : String) → all_chars p s ≡ true → keep_chars p s ≡ s
unfolding keep_chars
keep_chars_all p String.[] h = refl
keep_chars_all p (String.◌∷◌ c s) h = ground (arith, keep_chars_all p s)

-- The form that the bureau wants: +380 and nine more digits.
pub record IsPhone (py : Builtins) (s : String) : Type 0 where
  pub length : count_chars s ≡ 13
  pub prefix : starts_with "+380" s ≡ true
  pub digits : all_chars py.is_decimal (drop_chars 1 s) ≡ true

plus_before : (s : String) → "+" <> s ≡ String.◌∷◌ "+" s
plus_before s = append.cons "+" "" s ∙ ap (String.◌∷◌ "+") (append.nil s)

country_before : (s : String) → "+38" <> s ≡ String.◌∷◌ "+" (String.◌∷◌ "3" (String.◌∷◌ "8" s))
country_before s =
    append.cons "+" "38" s
    ∙ ap (String.◌∷◌ "+") (
        append.cons "3" "8" s
        ∙ ap (String.◌∷◌ "3") (append.cons "8" "" s ∙ ap (String.◌∷◌ "8") (append.nil s)))

with_country-IsPhone :
    (py : Builtins) (digits : String)
    → all_chars py.is_decimal digits ≡ true
    → count_chars digits ≡ 12
    → starts_with "380" digits ≡ true
    → IsPhone py ("+" <> digits)
with_country-IsPhone py digits all twelve prefix =
    subst (IsPhone py) (sym (plus_before digits))
      (record { length = ap suc twelve; prefix = prefix; digits = all })

without_country-IsPhone :
    (py : Builtins) (digits : String)
    → py.is_decimal 51 ≡ true
    → py.is_decimal 56 ≡ true
    → all_chars py.is_decimal digits ≡ true
    → count_chars digits ≡ 10
    → starts_with "0" digits ≡ true
    → IsPhone py ("+38" <> digits)
without_country-IsPhone py digits three eight all ten prefix =
    subst (IsPhone py) (sym (country_before digits)) (record {
      length = ap (λ n. suc (suc (suc n))) ten;
      prefix = prefix;
      digits = ground (arith, three, eight, all);
    })

-- Where 3 and 8 are decimal digits, a phone that is given out has the form +380 and nine digits,
-- whatever the cabinet holds.
pub normalize_phone-IsPhone :
    (py : Builtins) (value : Cell) (phone : String)
    → py.is_decimal 51 ≡ true
    → py.is_decimal 56 ≡ true
    → normalize_phone py value ≡ some phone
    → IsPhone py phone
unfolding normalize_phone
normalize_phone-IsPhone py value phone three eight h =
    let digits = keep_chars py.is_decimal (cell_text value) in
    let all = all_chars-keep_chars py.is_decimal (cell_text value) in
    elim (Bool-cases (count_chars digits == 12 && starts_with "380" digits)) [
      | inl e ↦
          subst (IsPhone py) (some-injective ("+" <> digits) phone (ground arith))
            (with_country-IsPhone py digits all (ground arith) (ground arith))
      | inr e ↦ elim (Bool-cases (count_chars digits == 10 && starts_with "0" digits)) [
        | inl f ↦
            subst (IsPhone py) (some-injective ("+38" <> digits) phone (ground arith))
              (without_country-IsPhone py digits three eight all (ground arith) (ground arith))
        | inr f ↦ absurd (ground arith)
      ]
    ]

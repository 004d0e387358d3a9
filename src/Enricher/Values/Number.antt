-- ===== src/Enricher/Values/Number.antt =====
-- What a document number that is parsed says.
use Prim.Native.String.{◌++◌ as ◌<>◌}
use Prim.Native.String.append
use ubki_uploader.Prelude.{
  ℕ, zero, suc, ◌+◌, ◌≡◌, refl, ap, subst, ◌∙◌, inl, inr, String, true, false, some, count_chars,
  all_chars, any_char, take_chars, drop_chars, is_blank, arith, Bool-cases,
}
use mathlib.Core.Option.{some-injective}
use ubki_uploader.Python.Json.{Builtins}
use ubki_uploader.Enricher.Values.{
  normalize_text, DocNumber, doc_type_passport, doc_type_id_card, is_id_card, is_passport,
  parse_doc_number,
}

pub take_chars-drop_chars : (n : ℕ) (s : String) → take_chars n s <> drop_chars n s ≡ s
take_chars-drop_chars zero s = append.nil s
take_chars-drop_chars (suc n) String.[] = append.nil ""
take_chars-drop_chars (suc n) (String.◌∷◌ c s) =
    append.cons c (take_chars n s) (drop_chars n s) ∙ ap (String.◌∷◌ c) (take_chars-drop_chars n s)

-- An id card is nine digits; a passport is two characters that are no digits, and six digits.
pub data Kind (py : Builtins) (d : DocNumber) : Type 0 where
  id_card :
      d.dtype ≡ doc_type_id_card
      → d.dser ≡ ""
      → count_chars d.dnom ≡ 9
      → all_chars py.is_decimal d.dnom ≡ true
      → Kind py d
  passport :
      d.dtype ≡ doc_type_passport
      → count_chars d.dser ≡ 2
      → any_char py.is_digit d.dser ≡ false
      → count_chars d.dnom ≡ 6
      → all_chars py.is_digit d.dnom ≡ true
      → Kind py d

count_take : (n k : ℕ) (s : String) → count_chars s ≡ n + k → count_chars (take_chars n s) ≡ n
count_take zero k s h = refl
count_take (suc n) k String.[] h = absurd (omega (arith, h))
count_take (suc n) k (String.◌∷◌ c s) h = ap suc (count_take n k s (omega (arith, h)))

count_drop : (n k : ℕ) (s : String) → count_chars s ≡ n + k → count_chars (drop_chars n s) ≡ k
count_drop zero k s h = omega (arith, h)
count_drop (suc n) k String.[] h = absurd (omega (arith, h))
count_drop (suc n) k (String.◌∷◌ c s) h = count_drop n k s (omega (arith, h))

pub record IsReading (py : Builtins) (number : String) (d : DocNumber) : Type 0 where
  pub kind : Kind py d
  pub whole : d.dser <> d.dnom ≡ number

-- A number that is parsed is an id card's or a passport's, and its series and its number together
-- are the text without its spaces, in capitals.
pub parse_doc_number-IsReading :
    (py : Builtins) (value : String) (d : DocNumber)
    → parse_doc_number py value ≡ some d
    → IsReading py (normalize_text py value) d
unfolding parse_doc_number
parse_doc_number-IsReading py value d h =
    let number = normalize_text py value in
    elim (Bool-cases (is_blank number)) [
      | inl e ↦ absurd (ground arith)
      | inr e ↦ elim (Bool-cases (is_id_card py number)) [
        | inl f ↦ subst (IsReading py number) (some-injective _ d (ground arith)) (record {
          kind = id_card refl refl (ground arith) (ground arith);
          whole = append.nil number;
        })
        | inr f ↦ elim (Bool-cases (is_passport py number)) [
          | inl g ↦ subst (IsReading py number) (some-injective _ d (ground arith)) (record {
            kind =
                passport refl (count_take 2 6 number (ground arith)) (ground arith)
                  (count_drop 2 6 number (ground arith)) (ground arith);
            whole = take_chars-drop_chars 2 number;
          })
          | inr g ↦ absurd (ground arith)
        ]
      ]
    ]

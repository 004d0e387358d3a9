-- ===== src/Enricher/Line/Checks.antt =====
-- What each check of `enrich_line` in app/enricher.py makes sure of, where it passes.
use ubki_uploader.Prelude.{
  ℕ, ◌≡◌, ◌<◌, refl, sym, subst, ◌⊎◌, inl, inr, String, Bool, true, false, not, Option, none, some,
  List, [], ◌∷◌, All, str_eq, eq_iff, ltb, is_blank, length, take_chars, arith, Bool-cases,
  Option-cases, List-cases,
}
use ubki_uploader.Python.Json.{Json, Items, arr, nil, cons, Builtins}
use ubki_uploader.Python.Date.{Date, isoformat, has_shape, iso_shape}
use ubki_uploader.Enricher.Cabinet.{Row, sort_key}
use ubki_uploader.Enricher.Values.{normalize_phone, inn_birthday}
use ubki_uploader.Enricher.Values.Phone.{IsPhone, normalize_phone-IsPhone}
use ubki_uploader.Enricher.Document.{built, not_built, doc_raises, BuiltDoc, insert_id}
use ubki_uploader.Enricher.Document.Sources.{newest_of_has}
use ubki_uploader.Enricher.Line.{
  Reason, Passed, Outcome, value, quarantine, raises, ◌and_then◌, require, the, find_row, dlref_of,
  deal_row, deal_rows, user_ids, one_client, deals_of, newest_row, same_inn, Document, document_of,
  phone_of, same_birthday, not_found,
}

-- The first step passes, and the second one gives the value.
pub data Passes {ℓ κ} {A : Type ℓ} {B : Type κ} (m : Outcome A) (f : A → Outcome B) (b : B)
    : Type (ℓ ⊔ κ) where
  passes : (a : A) → m ≡ value a → f a ≡ value b → Passes m f b

pub and_then-Passes {ℓ κ} :
    {A : Type ℓ} {B : Type κ} (m : Outcome A) (f : A → Outcome B) (b : B)
    → m and_then f ≡ value b
    → Passes m f b
unfolding ◌and_then◌
and_then-Passes (value a) f b h = passes a refl h
and_then-Passes (quarantine r) f b h = absurd (ground arith)
and_then-Passes raises f b h = absurd (ground arith)

pub value-injective {ℓ} : {A : Type ℓ} (a b : A) → value a ≡ value b → a ≡ b
value-injective a b h = cc

pub require-value :
    (test : Bool) (reason : Reason) (p : Passed) → require test reason ≡ value p → test ≡ true
unfolding require
require-value true reason p h = refl
require-value false reason p h = absurd (ground arith)

pub the-value {ℓ} :
    {A : Type ℓ} (o : Option A) (reason : Reason) (a : A) → the o reason ≡ value a → o ≡ some a
unfolding the
the-value none reason a h = absurd (ground arith)
the-value (some b) reason a h = cc

-- The rows of the deals of a line, each found under the reference of its deal.
pub data FoundFor (py : Builtins) (rows : List (String × Row)) : Items → List Row → Type 0 where
  no_more : FoundFor py rows nil []
  next :
      {deal : Json} {deals : Items} {row : Row} {found : List Row}
      → is_blank (dlref_of py deal) ≡ false
      → find_row (dlref_of py deal) rows ≡ some row
      → FoundFor py rows deals found
      → FoundFor py rows (cons deal deals) (row ∷ found)

deal_row-value :
    (py : Builtins) (rows : List (String × Row)) (deal : Json) (row : Row)
    → deal_row py rows deal ≡ value row
    → (is_blank (dlref_of py deal) ≡ false) × (find_row (dlref_of py deal) rows ≡ some row)
unfolding deal_row
deal_row-value py rows deal row h = elim (Bool-cases (is_blank (dlref_of py deal))) [
  | inl b ↦ absurd (ground arith)
  | inr b ↦ (
    b,
    the-value (find_row (dlref_of py deal) rows) (not_found (dlref_of py deal)) row (ground arith),
  )
]

pub deal_rows-FoundFor :
    (py : Builtins) (rows : List (String × Row)) (deals : Items) (found : List Row)
    → deal_rows py rows deals ≡ value found
    → FoundFor py rows deals found
unfolding deal_rows
deal_rows-FoundFor py rows nil found h =
    subst (FoundFor py rows nil) (value-injective [] found h) no_more
deal_rows-FoundFor py rows (cons deal deals) found h = elim (and_then-Passes _ _ found h) [
  | passes row e h' ↦ elim (and_then-Passes _ _ found h') [
    | passes rest e' h'' ↦
        let (b, known) = deal_row-value py rows deal row e in
        subst (FoundFor py rows (cons deal deals)) (value-injective (row ∷ rest) found h'')
          (next b known (deal_rows-FoundFor py rows deals rest e'))
  ]
]

-- Rows of one client
abbrev pub IsOf : ℕ → List Row → Type 0
IsOf user_id = All (λ (r : Row). r.user_id ≡ user_id)

some_id : (n : ℕ) (ms : List ℕ) → 0 < length (insert_id n ms)
some_id n [] = omega arith
some_id n (m ∷ ms) = ground arith

insert_id_one :
    (n m : ℕ) (ms : List ℕ) → insert_id n ms ≡ m ∷ [] → (n ≡ m) × ((ms ≡ []) ⊎ (ms ≡ m ∷ []))
insert_id_one n m [] h = (ground arith, inl refl)
insert_id_one n m (k ∷ ks) h = ground (arith, some_id n ks)

user_ids-IsOf : (rows : List Row) (m : ℕ) → user_ids rows ≡ m ∷ [] → IsOf m rows
unfolding user_ids
user_ids-IsOf [] m h = tt
user_ids-IsOf (row ∷ []) m h = ((insert_id_one row.user_id m [] h).0, tt)
user_ids-IsOf (row ∷ r ∷ rows) m h =
    let (e, tail) = insert_id_one row.user_id m (user_ids (r ∷ rows)) h in
    (
      e,
      elim tail [
        | inl t ↦ absurd (ground (arith, some_id r.user_id (user_ids rows)))
        | inr t ↦ user_ids-IsOf (r ∷ rows) m t
      ],
    )

newest_row-IsOf :
    (m : ℕ) (rows : List Row) (newest : Row)
    → newest_row rows ≡ value newest
    → IsOf m rows
    → newest.user_id ≡ m
unfolding newest_row
newest_row-IsOf m [] newest h hs = absurd (ground arith)
newest_row-IsOf m (row ∷ rows) newest h (k, ks) =
    subst (λ (r : Row). r.user_id ≡ m) (value-injective _ newest h)
      (newest_of_has (λ (r : Row). r.user_id ≡ m) (λ (r : Row). sort_key r.applied_at) rows row k
        ks)

pub one_client-IsOf :
    (rows : List Row) (p : Passed) (newest : Row)
    → one_client rows ≡ value p
    → newest_row rows ≡ value newest
    → IsOf newest.user_id rows
unfolding one_client user_ids newest_row
one_client-IsOf [] p newest h k = tt
one_client-IsOf (row ∷ rows) p newest h k =
    let few = require-value (not (ltb 1 (length (user_ids (row ∷ rows))))) _ p h in
    elim (List-cases (insert_id row.user_id (user_ids rows))) [
      | inl e ↦ absurd (ground (arith, some_id row.user_id (user_ids rows)))
      | inr (m, ms, e) ↦ elim (List-cases ms) [
        | inl e' ↦
            let owned = user_ids-IsOf (row ∷ rows) m (ground arith) in
            subst (λ n. IsOf n (row ∷ rows)) (sym (newest_row-IsOf m (row ∷ rows) newest k owned))
              owned
        | inr (k, ks, e') ↦ absurd (ground arith)
      ]
    ]

-- What the birthday of a line is checked against.
pub data BirthAgrees (py : Builtins) (inn bdate : String) : Type 0 where
  no_birthday : inn_birthday py inn ≡ none → BirthAgrees py inn bdate
  not_iso :
      has_shape py.is_decimal iso_shape (take_chars 10 bdate) ≡ false → BirthAgrees py inn bdate
  same_day :
      (d : Date)
      → inn_birthday py inn ≡ some d
      → take_chars 10 bdate ≡ isoformat d
      → BirthAgrees py inn bdate

pub same_birthday-BirthAgrees :
    (py : Builtins) (inn bdate : String) (p : Passed)
    → same_birthday py inn bdate ≡ value p
    → BirthAgrees py inn bdate
unfolding same_birthday
same_birthday-BirthAgrees py inn bdate p h = elim (Option-cases (inn_birthday py inn)) [
  | inl e ↦ no_birthday e
  | inr (d, e) ↦ elim (Bool-cases (has_shape py.is_decimal iso_shape (take_chars 10 bdate))) [
    | inr f ↦ not_iso f
    | inl f ↦ elim (Bool-cases (str_eq (take_chars 10 bdate) (isoformat d))) [
      | inl g ↦ same_day d e ((eq_iff _ _).0 g)
      | inr g ↦ absurd (ground arith)
    ]
  ]
]

pub same_inn_equal :
    (inn user_inn : String) (p : Passed) → same_inn inn user_inn ≡ value p → user_inn ≡ inn
unfolding same_inn
same_inn_equal inn user_inn p h = elim (Bool-cases (str_eq user_inn inn)) [
  | inl e ↦ (eq_iff user_inn inn).0 e
  | inr e ↦ elim (Bool-cases (is_blank user_inn)) [
    | inl f ↦ absurd (ground arith)
    | inr f ↦ absurd (ground arith)
  ]
]

pub document_of-built :
    (b : BuiltDoc) (d : Document)
    → document_of b ≡ value d
    → b ≡ built d.doc d.issuer_from_peer d.doc_incomplete
unfolding document_of
document_of-built (built doc u i) d h = ground (arith, value-injective _ d h)
document_of-built (not_built reason) d h = absurd (ground arith)
document_of-built doc_raises d h = absurd (ground arith)

pub phone_of-IsPhone :
    (py : Builtins) (row : Row) (phone : String)
    → py.is_decimal 51 ≡ true
    → py.is_decimal 56 ≡ true
    → phone_of py row ≡ some phone
    → IsPhone py phone
unfolding phone_of
phone_of-IsPhone py row phone three eight h =
    elim (Option-cases (normalize_phone py row.snap_phone)) [
      | inl e ↦ normalize_phone-IsPhone py row.user_phone phone three eight (ground arith)
      | inr (found, e) ↦ normalize_phone-IsPhone py row.snap_phone phone three eight (ground arith)
    ]

pub deals_of_all : (v : Json) (deals : Items) → deals_of v ≡ value deals → v ≡ arr deals
deals_of_all v deals h = ground arith

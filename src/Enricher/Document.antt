-- ===== src/Enricher/Document.antt =====
-- `_find_peer_document`, `_doc_fields`, `build_doc`, `build_addr` and `_clients_missing_issuer` of
-- app/enricher.py.
pub mod Sources
pub mod Clients
pub mod Peers
use Prim.Native.Nat.{Ordering}
use Prim.Native.String.{compare}
use ubki_uploader.Prelude.{
  ℕ, suc, String, Bool, true, false, ◌||◌, ◌&&◌, not, Option, none, some, List, [], ◌∷◌, any,
  select, str_eq, ltb, leb, ◌==◌, is_blank, if◌then◌else◌,
}
use ubki_uploader.Python.Json.{Json, Fields, str, end, field, Builtins}
use ubki_uploader.Python.Strip.{strip}
use ubki_uploader.Python.Date.{Date, isoformat, plus_years}
use ubki_uploader.Enricher.Cabinet.{Cell, Source, Row, Peer, cell_text, iso_date, sort_key}
use ubki_uploader.Enricher.Values.{
  Result, ok, value_error, normalize_number, DocNumber, doc_type_id_card, parse_doc_number,
}

abbrev pub later_of {ℓ} : {A : Type ℓ} → (A → String) → A → A → A
later_of key x y = elim (compare (key x) (key y)) [ Ordering.lt ↦ y | _ ↦ x ]

-- `max(xs, key=...)`: the first of the items whose key is the greatest.
unfoldable pub newest_of {ℓ} : {A : Type ℓ} → (A → String) → A → List A → A
newest_of key x [] = x
newest_of key x (y ∷ ys) = newest_of key (later_of key x y) ys

-- `str(value or "").strip()`
abbrev pub stripped : Cell → String
stripped value = strip (cell_text value)

abbrev pub is_candidate : Builtins → (number : String) → Peer → Bool
is_candidate py number peer =
    str_eq (normalize_number py peer.stated.passport_number) number
    && not (is_blank (stripped peer.stated.passport_issued_by))

pub record Issue : Type 0 where
  pub issuer : String
  pub issued_at : Option Date

-- The issuer and the date that a peer states.
abbrev pub issue_of : Peer → Issue
issue_of peer = record {
  issuer = stripped peer.stated.passport_issued_by;
  issued_at = iso_date peer.stated.passport_date;
}

unfoldable pub find_peer_document : Builtins → List Peer → (number : String) → Option Issue
find_peer_document py peers number = elim (select (is_candidate py number) peers) [
  | [] ↦ none
  | peer ∷ rest ↦ some (issue_of (newest_of (λ (p : Peer). sort_key p.applied_at) peer rest))
]

-- An entry of `docs`; an empty `dwho` is left out, as is a date that is none.
pub record Doc : Type 0 where
  pub vdate : Date
  pub number : DocNumber
  pub dwho : String
  pub dwdt : Option Date
  pub dterm : Option Date

-- `doc["dterm"]`, of an id card with a date of issue
unfoldable pub doc_term : (dtype : String) → Option Date → Result (Option Date)
doc_term dtype none = ok none
doc_term dtype (some issued_at) =
    if str_eq dtype doc_type_id_card
    then (elim (plus_years issued_at 10) [ none ↦ value_error | some term ↦ ok (some term) ])
    else ok none

unfoldable pub doc_fields :
    (vdate : Date) → DocNumber → (issued_by : String) → Option Date → Result Doc
doc_fields vdate number issued_by issued_at = elim (doc_term number.dtype issued_at) [
  | value_error ↦ value_error
  | ok dterm ↦
      ok (record {
        vdate = vdate;
        number = number;
        dwho = issued_by;
        dwdt = issued_at;
        dterm = dterm;
      })
]

-- `issued_by and issued_at`
abbrev pub is_complete : Doc → Bool
is_complete doc = not (is_blank doc.dwho) && elim doc.dwdt [ none ↦ false | some d ↦ true ]

-- `a or b` of dates
abbrev pub date_or : Option Date → Option Date → Option Date
date_or none e = e
date_or (some d) e = some d

-- What one source comes to: it has no number; its number is of no known format; or a document, and
-- whether the issuer is a peer's.
pub data Attempt : Type 0 where
  no_number unusable attempt_raises : Attempt
  made : Doc → (used_peer : Bool) → Attempt

abbrev pub made_of : (used_peer : Bool) → Result Doc → Attempt
made_of used_peer value_error = attempt_raises
made_of used_peer (ok doc) = made doc used_peer

-- The body of the loop of `build_doc`, up to the document.
unfoldable pub attempt : Builtins → (vdate : Date) → List Peer → Source → Attempt
attempt py vdate peers source =
    let number = normalize_number py source.passport_number in
    let issued_by = stripped source.passport_issued_by in
    let issued_at = iso_date source.passport_date in
    if is_blank number then no_number else (elim (parse_doc_number py number) [
      | none ↦ unusable
      | some parsed ↦
          let own = made_of false (doc_fields vdate parsed issued_by issued_at) in
          if not (is_blank issued_by) then own else (elim (find_peer_document py peers number) [
            | none ↦ own
            | some peer ↦
                made_of true
                  (doc_fields vdate parsed peer.issuer (date_or issued_at peer.issued_at))
          ])
    ])

-- The two reasons for which there is no document.
pub data NoDocument : Type 0 where
  unsupported_format no_passport_number : NoDocument

-- The document and `stats`, or the reason why there is none.
pub data BuiltDoc : Type 0 where
  built : Doc → (issuer_from_peer doc_incomplete : Bool) → BuiltDoc
  not_built : NoDocument → BuiltDoc
  doc_raises : BuiltDoc

-- `partial or doc`
abbrev pub first_doc : Option Doc → Doc → Doc
first_doc none doc = doc
first_doc (some p) doc = p

-- The loop of `build_doc` over the attempts, with `partial` and `saw_any_number`.
unfoldable pub choose : List Attempt → (partial : Option Doc) → (saw_any_number : Bool) → BuiltDoc
choose [] (some doc) saw = built doc false true
choose [] none true = not_built unsupported_format
choose [] none false = not_built no_passport_number
choose (no_number ∷ attempts) partial saw = choose attempts partial saw
choose (unusable ∷ attempts) partial saw = choose attempts partial true
choose (attempt_raises ∷ attempts) partial saw = doc_raises
choose (made doc used_peer ∷ attempts) partial saw =
    let rest = choose attempts (some (first_doc partial doc)) true in
    if is_complete doc then built doc used_peer false else rest

unfoldable pub build_doc : Builtins → Row → (vdate : Date) → List Peer → BuiltDoc
build_doc py row vdate peers =
    choose (attempt py vdate peers row.snap ∷ attempt py vdate peers row.user ∷ []) none false

-- `if value: addr[target] = value`
abbrev pub field_unless_blank : (key value : String) → Fields → Fields
field_unless_blank key value rest = if is_blank value then rest else field key (str value) rest

unfoldable pub build_addr : Row → (vdate : Date) → Fields
build_addr row vdate = field "vdate" (str (isoformat vdate)) (
    field "lng" (str "1") (
      field "adtype" (str "2") (
        field "adcountry" (str "804") (
          field_unless_blank "adindex" (stripped row.addr_postcode) (
            field_unless_blank "adcity" (stripped row.addr_city) (
              field_unless_blank "adstreet" (stripped row.addr_street) (
                field_unless_blank "adhome" (stripped row.addr_house) (
                  field_unless_blank "adcorp" (stripped row.addr_building)
                    (field_unless_blank "adflat" (stripped row.addr_flat) end)))))))))

-- `_parse_doc_number(...)` is not None
abbrev pub is_usable : Builtins → Source → Bool
is_usable py source = elim (parse_doc_number py (cell_text source.passport_number)) [
  | none ↦ false
  | some parsed ↦ true
]

abbrev pub states_issuer : Source → Bool
states_issuer source = not (is_blank (stripped source.passport_issued_by))

abbrev pub is_stated : Builtins → Source → Bool
is_stated py source = is_usable py source && states_issuer source

abbrev pub lacks_issuer : Builtins → Source → Bool
lacks_issuer py source = is_usable py source && not (states_issuer source)

-- `missing_issuer and not complete`
unfoldable pub needs_issuer : Builtins → Row → Bool
needs_issuer py row =
    (lacks_issuer py row.snap || lacks_issuer py row.user)
    && not (is_stated py row.snap || is_stated py row.user)

-- Insertion into a sorted list without repetitions: `sorted` of a set of ints.
abbrev pub insert_id : ℕ → List ℕ → List ℕ
insert_id n [] = n ∷ []
insert_id n (m ∷ ms) = if n == m then m ∷ ms else if ltb n m then n ∷ m ∷ ms else m ∷ insert_id n ms

unfoldable pub clients_missing_issuer : Builtins → List (String × Row) → List ℕ
clients_missing_issuer py [] = []
clients_missing_issuer py ((dlref, row) ∷ rows) =
    let rest = clients_missing_issuer py rows in
    if needs_issuer py row then insert_id row.user_id rest else rest

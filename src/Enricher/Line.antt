-- ===== src/Enricher/Line.antt =====
-- `enrich_line` of app/enricher.py: a line of the producer and the rows of the cabinet make a
-- subject, or the reason for which the line goes to quarantine.
pub mod Wording
pub mod Render
pub mod Checks
pub mod Verified
use ubki_uploader.Prelude.{
  ℕ, suc, String, Bool, true, false, ◌||◌, ◌&&◌, not, Option, none, some, List, [], ◌∷◌, str_eq,
  ltb, ◌==◌, is_blank, take_chars, if◌then◌else◌, length,
}
use ubki_uploader.Python.Json.{
  Json, Items, Fields, str, arr, obj, nil, cons, end, field, get, has_key, truthy, to_text,
  Builtins,
}
use ubki_uploader.Python.Strip.{strip}
use ubki_uploader.Python.Date.{Date, isoformat, has_shape, iso_shape}
use ubki_uploader.Enricher.Cabinet.{Row, Peer, iso_date, sort_key}
use ubki_uploader.Enricher.Values.{Result, ok, value_error, normalize_phone, inn_birthday, inn_sex}
use ubki_uploader.Enricher.Document.{
  newest_of, stripped, Doc, NoDocument, BuiltDoc, built, not_built, doc_raises, build_doc,
  insert_id,
}

pub data Reason : Type 0 where
  no_inn no_deals no_dlref no_vdate no_phone no_name not_an_object : Reason
  not_found : (dlref : String) → Reason
  different_clients : (user_ids : List ℕ) → Reason
  cabinet_has_no_inn inn_mismatch : (inn : String) → Reason
  no_document : NoDocument → Reason
  bdate_contradicts : (bdate inn expected : String) → Reason
  broken_json : (error : String) → Reason

pub data Passed : Type 0 where
  passed : Passed

-- A value, the reason for the quarantine, or an exception, which `process_file` passes on.
pub data Outcome {ℓ} (A : Type ℓ) : Type ℓ where
  value : A → Outcome A
  quarantine : Reason → Outcome A
  raises : Outcome A

-- The next step, where there is no `return None, reason` before it.
infixl 20 ◌and_then◌
unfoldable pub ◌and_then◌ {ℓ κ} :
    {A : Type ℓ} {B : Type κ} → Outcome A → (A → Outcome B) → Outcome B
value a and_then f = f a
quarantine reason and_then f = quarantine reason
raises and_then f = raises

-- `if not test: return None, reason`
unfoldable pub require : Bool → Reason → Outcome Passed
require test reason = if test then value passed else quarantine reason

unfoldable pub the {ℓ} : {A : Type ℓ} → Option A → Reason → Outcome A
the none reason = quarantine reason
the (some a) reason = value a

-- `str(line.get(key) or "").strip()`
unfoldable pub text_at : Builtins → String → Fields → String
text_at py key line = let v = get key line in strip (if truthy v then to_text py v else "")

abbrev pub find_row : String → List (String × Row) → Option Row
find_row dlref [] = none
find_row dlref ((key, row) ∷ rows) = if str_eq key dlref then some row else find_row dlref rows

abbrev pub peers_of : ℕ → List (ℕ × List Peer) → List Peer
peers_of user_id [] = []
peers_of user_id ((n, peers) ∷ rest) = if n == user_id then peers else peers_of user_id rest

-- `str(deal.get("dlref") or "").strip() if isinstance(deal, dict) else ""`
abbrev pub dlref_of : Builtins → Json → String
dlref_of py (obj deal) = text_at py "dlref" deal
dlref_of py _ = ""

-- The body of the loop over the deals.
unfoldable pub deal_row : Builtins → List (String × Row) → Json → Outcome Row
deal_row py rows deal =
    let dlref = dlref_of py deal in
    if is_blank dlref then quarantine no_dlref else the (find_row dlref rows) (not_found dlref)

unfoldable pub deal_rows : Builtins → List (String × Row) → Items → Outcome (List Row)
deal_rows py rows nil = value []
deal_rows py rows (cons deal deals) =
    deal_row py rows deal
    and_then (λ row. deal_rows py rows deals and_then (λ rest. value (row ∷ rest)))

-- `sorted` of the set of `user_id`s
unfoldable pub user_ids : List Row → List ℕ
user_ids [] = []
user_ids (row ∷ rows) = insert_id row.user_id (user_ids rows)

unfoldable pub one_client : List Row → Outcome Passed
one_client rows = require (not (ltb 1 (length (user_ids rows)))) (different_clients (user_ids rows))

-- `isinstance(deals, list)` and not empty
abbrev pub deals_of : Json → Outcome Items
deals_of (arr (cons deal deals)) = value (cons deal deals)
deals_of _ = quarantine no_deals

-- `max(deal_rows, key=...)`, of the rows of a list of deals that is not empty
unfoldable pub newest_row : List Row → Outcome Row
newest_row [] = raises
newest_row (row ∷ rows) = value (newest_of (λ (r : Row). sort_key r.applied_at) row rows)

unfoldable pub same_inn : (inn user_inn : String) → Outcome Passed
same_inn inn user_inn =
    if str_eq user_inn inn
    then value passed
    else if is_blank user_inn
    then quarantine (cabinet_has_no_inn inn)
    else quarantine (inn_mismatch inn)

pub record Document : Type 0 where
  pub doc : Doc
  pub issuer_from_peer : Bool
  pub doc_incomplete : Bool

unfoldable pub document_of : BuiltDoc → Outcome Document
document_of (built doc u i) = value (record { doc = doc; issuer_from_peer = u; doc_incomplete = i })
document_of (not_built reason) = quarantine (no_document reason)
document_of doc_raises = raises

-- `normalize_phone(snap_phone) or normalize_phone(user_phone)`
unfoldable pub phone_of : Builtins → Row → Option String
phone_of py row = elim (normalize_phone py row.snap_phone) [
  | none ↦ normalize_phone py row.user_phone
  | some phone ↦ some phone
]

pub record Names : Type 0 where
  pub lname : String
  pub fname : String
  pub mname : String
  pub bdate : String

abbrev pub names_of : Builtins → Fields → Names
names_of py line = record {
  lname = text_at py "lname" line;
  fname = text_at py "fname" line;
  mname = text_at py "mname" line;
  bdate = text_at py "bdate" line;
}

abbrev pub is_named : Names → Bool
is_named names =
    not (is_blank names.lname) && not (is_blank names.fname) && not (is_blank names.bdate)

unfoldable pub same_birthday : Builtins → (inn bdate : String) → Outcome Passed
same_birthday py inn bdate = elim (inn_birthday py inn) [
  | none ↦ value passed
  | some birthday ↦
      if has_shape py.is_decimal iso_shape (take_chars 10 bdate)
        && not (str_eq (take_chars 10 bdate) (isoformat birthday))
      then quarantine (bdate_contradicts bdate inn (isoformat birthday))
      else value passed
]

unfoldable pub sex_from : Result (Option String) → Outcome (Option String)
sex_from (ok sex) = value sex
sex_from value_error = raises

-- What a subject is made of.
pub record Subject : Type 0 where
  pub inn : String
  pub newest : Row
  pub vdate : Date
  pub document : Document
  pub phone : String
  pub names : Names
  pub csex : Option String
  pub deals : Items
  pub reqlng : String

-- `str(line_obj.get("reqlng") or LANG_UKRAINIAN)`
abbrev pub language_of : Builtins → Fields → String
language_of py line = let v = get "reqlng" line in if truthy v then to_text py v else "1"

-- The checks on the newest row, in their order, and the subject.
unfoldable pub subject_of :
    Builtins
    → Fields
    → Items
    → (inn : String) → (newest : Row) → List (ℕ × List Peer)
    → Outcome Subject
subject_of py line deals inn newest peers =
    let names = names_of py line in
    same_inn inn (stripped newest.user_inn)
    and_then (λ _. the (iso_date newest.applied_at) no_vdate)
    and_then (λ vdate.
        document_of (build_doc py newest vdate (peers_of newest.user_id peers))
        and_then (λ document. the (phone_of py newest) no_phone and_then (λ phone.
            require (is_named names) no_name
            and_then (λ _. same_birthday py inn names.bdate)
            and_then (λ _. sex_from (inn_sex py inn))
            and_then (λ csex. value (record {
              inn = inn;
              newest = newest;
              vdate = vdate;
              document = document;
              phone = phone;
              names = names;
              csex = csex;
              deals = deals;
              reqlng = language_of py line;
            })))))

unfoldable pub enrich_line :
    Builtins → Fields → List (String × Row) → List (ℕ × List Peer) → Outcome Subject
enrich_line py line rows peers =
    let inn = text_at py "inn" line in
    require (not (is_blank inn)) no_inn
    and_then (λ _. deals_of (get "deals" line))
    and_then (λ deals. deal_rows py rows deals and_then (λ found.
        one_client found
        and_then (λ _. newest_row found)
        and_then (λ newest. subject_of py line deals inn newest peers)))

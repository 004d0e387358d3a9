-- ===== src/Enricher/Document/Sources.antt =====
-- Which source a document comes from.
use ubki_uploader.Prelude.{
  String, Bool, true, false, Option, none, some, List, [], ◌∷◌, ◌≡◌, refl, ◌⊎◌, inl, inr, arith,
  All, ap, mem-select, subst, select, is_blank, eq_iff, Bool-cases, Option-cases, List-cases,
}
use mathlib.Core.Option.{some-injective}
use mathlib.Core.List.{Mem, mem-cons_self, mem-cons_of_mem}
use Prim.Native.Nat.{Ordering}
use Prim.Native.String.{compare}
use ubki_uploader.Python.Json.{Builtins}
use ubki_uploader.Python.Date.{Date}
use ubki_uploader.Enricher.Cabinet.{Source, Row, Peer, iso_date, sort_key}
use ubki_uploader.Enricher.Values.{normalize_number, DocNumber, parse_doc_number}
use ubki_uploader.Enricher.Document.{
  later_of, newest_of, stripped, is_candidate, Issue, issue_of, find_peer_document, Doc, doc_fields,
  is_complete, date_or, made_of, Attempt, made, unusable, no_number, attempt_raises, attempt, built,
  choose, first_doc, build_doc,
}

later_of_has {ℓ κ} :
    {A : Type ℓ} (P : A → Type κ) (key : A → String) (x y : A) → P x → P y → P (later_of key x y)
later_of_has P key x y h k =
    elim (compare (key x) (key y)) as (λ o. P (elim o [ Ordering.lt ↦ y | _ ↦ x ])) [
      | Ordering.lt ↦ k
      | Ordering.eq ↦ h
      | Ordering.gt ↦ h
    ]

pub newest_of_has {ℓ κ} :
    {A : Type ℓ} (P : A → Type κ) (key : A → String) (ys : List A) (x : A)
    → P x
    → All P ys
    → P (newest_of key x ys)
unfolding newest_of
newest_of_has P key [] x h hs = h
newest_of_has P key (y ∷ ys) x h (k, ks) =
    newest_of_has P key ys (later_of key x y) (later_of_has P key x y h k) ks

All-of_mem {ℓ κ} :
    {A : Type ℓ} (P : A → Type κ) (xs : List A) → ((x : A) → Mem x xs → P x) → All P xs
All-of_mem P [] h = tt
All-of_mem P (x ∷ xs) h = (h x mem-cons_self, All-of_mem P xs (λ y m. h y (mem-cons_of_mem x m)))

-- A peer of the list that states the number and an issuer; the issue has its issuer and its date.
pub record StatedBy (py : Builtins) (peers : List Peer) (number : String) (issue : Issue)
    : Type 0 where
  pub peer : Peer
  pub is_known : Mem peer peers
  pub same_number : normalize_number py peer.stated.passport_number ≡ number
  pub states_issuer : is_blank (stripped peer.stated.passport_issued_by) ≡ false
  pub same_issuer : issue.issuer ≡ stripped peer.stated.passport_issued_by
  pub same_date : issue.issued_at ≡ iso_date peer.stated.passport_date

find_peer_document-StatedBy :
    (py : Builtins) (peers : List Peer) (number : String) (issue : Issue)
    → find_peer_document py peers number ≡ some issue
    → StatedBy py peers number issue
unfolding find_peer_document
find_peer_document-StatedBy py peers number issue h =
    elim (List-cases (select (is_candidate py number) peers)) [
      | inl e ↦ absurd (ground (arith))
      | inr (p, rest, e) ↦
          let P = λ (q : Peer). Mem q peers × (is_candidate py number q ≡ true) in
          let all : All P (p ∷ rest) = subst (All P) e (
            All-of_mem P (select (is_candidate py number) peers)
              (λ q m. (mem-select (is_candidate py number) peers q).0 m)) in
          let key = λ (q : Peer). sort_key q.applied_at in
          let (known, candidate) = newest_of_has P key rest p all.0 all.1 in
          let taken : issue ≡ issue_of (newest_of key p rest) = ground arith in
          record {
            peer = newest_of key p rest;
            is_known = known;
            same_number = ground (
              arith,
              eq_iff (normalize_number py (newest_of key p rest).stated.passport_number) number,
            );
            states_issuer = ground arith;
            same_issuer = ap (λ (i : Issue). i.issuer) taken;
            same_date = ap (λ (i : Issue). i.issued_at) taken;
          }
    ]

-- What a document has from a source, and from peers who stated the same number.
pub data Issuer (py : Builtins) (peers : List Peer) (source : Source) (doc : Doc) : Type 0 where
  own_issuer :
      doc.dwho ≡ stripped source.passport_issued_by
      → doc.dwdt ≡ iso_date source.passport_date
      → Issuer py peers source doc
  peer_issuer :
      (issue : Issue)
      → stripped source.passport_issued_by ≡ ""
      → StatedBy py peers (normalize_number py source.passport_number) issue
      → doc.dwho ≡ issue.issuer
      → doc.dwdt ≡ date_or (iso_date source.passport_date) issue.issued_at
      → Issuer py peers source doc

pub record FromSource (py : Builtins) (vdate : Date) (peers : List Peer) (source : Source)
    (doc : Doc) : Type 0 where
  pub dated : doc.vdate ≡ vdate
  pub number_read :
      parse_doc_number py (normalize_number py source.passport_number) ≡ some doc.number
  pub issuer_known : Issuer py peers source doc

doc_fields_made :
    (vdate : Date) (number : DocNumber) (issued_by : String) (issued_at : Option Date) (u v : Bool)
    (doc : Doc)
    → made_of u (doc_fields vdate number issued_by issued_at) ≡ made doc v
    → (doc.vdate ≡ vdate) × (doc.number ≡ number) × (doc.dwho ≡ issued_by) × (doc.dwdt ≡ issued_at)
unfolding doc_fields
doc_fields_made vdate number issued_by issued_at u v doc h = ground arith

blank_empty : (s : String) → is_blank s ≡ true → s ≡ ""
blank_empty String.[] h = refl
blank_empty (String.◌∷◌ c s) h = cc

module _ {ℓ} (P : Doc → Type ℓ) where
  abbrev Has : Attempt → Type ℓ
  Has a = (d : Doc) (v : Bool) → a ≡ made d v → P d

  abbrev HasPartial : Option Doc → Type ℓ
  HasPartial o = (d : Doc) → o ≡ some d → P d

  first_doc_has :
      (o : Option Doc) (d : Doc) → HasPartial o → P d → HasPartial (some (first_doc o d))
  first_doc_has none d h p e q = subst P (some-injective d e q) p
  first_doc_has (some o) d h p e q = h e q

  -- What holds of the documents of all attempts holds of the one that is chosen.
  choose_has :
      (attempts : List Attempt) (partial : Option Doc) (saw : Bool) (doc : Doc) (u i : Bool)
      → All Has attempts
      → HasPartial partial
      → choose attempts partial saw ≡ built doc u i
      → P doc
  unfolding choose
  choose_has [] (some p) saw doc u i h k e = k doc (ground arith)
  choose_has [] none true doc u i h k e = absurd (ground arith)
  choose_has [] none false doc u i h k e = absurd (ground arith)
  choose_has (no_number ∷ rest) partial saw doc u i (h, hs) k e =
      choose_has rest partial saw doc u i hs k e
  choose_has (unusable ∷ rest) partial saw doc u i (h, hs) k e =
      choose_has rest partial true doc u i hs k e
  choose_has (attempt_raises ∷ rest) partial saw doc u i (h, hs) k e = absurd (ground arith)
  choose_has (made d v ∷ rest) partial saw doc u i (h, hs) k e = elim (Bool-cases (is_complete d)) [
    | inl c ↦ h doc v (ground arith)
    | inr c ↦
        choose_has rest (some (first_doc partial d)) true doc u i hs
          (first_doc_has partial d k (h d v refl)) (rw (← e, c, choose) refl)
  ]

attempt-FromSource :
    (py : Builtins) (vdate : Date) (peers : List Peer) (s : Source) (doc : Doc) (u : Bool)
    → attempt py vdate peers s ≡ made doc u
    → FromSource py vdate peers s doc
unfolding attempt
attempt-FromSource py vdate peers s doc u h =
    let number = normalize_number py s.passport_number in
    let issued_by = stripped s.passport_issued_by in
    let issued_at = iso_date s.passport_date in
    elim (Bool-cases (is_blank number)) [
      | inl e ↦ absurd (ground arith)
      | inr e ↦ elim (Option-cases (parse_doc_number py number)) [
        | inl e' ↦ absurd (ground arith)
        | inr (parsed, e') ↦ elim (Bool-cases (is_blank issued_by)) [
          | inr f ↦
              let h' : made_of false (doc_fields vdate parsed issued_by issued_at) ≡ made doc u =
                ground arith in
              let (d, n, w, t) = doc_fields_made vdate parsed issued_by issued_at false u doc h' in
              record { dated = d; number_read = ground arith; issuer_known = own_issuer w t }
          | inl f ↦ elim (Option-cases (find_peer_document py peers number)) [
            | inl g ↦
                let h' : made_of false (doc_fields vdate parsed issued_by issued_at) ≡ made doc u =
                  ground arith in
                let (d, n, w, t) =
                  doc_fields_made vdate parsed issued_by issued_at false u doc h' in
                record { dated = d; number_read = ground arith; issuer_known = own_issuer w t }
            | inr (issue, g) ↦
                let found = date_or issued_at issue.issued_at in
                let h' : made_of true (doc_fields vdate parsed issue.issuer found) ≡ made doc u =
                  ground arith in
                let (d, n, w, t) = doc_fields_made vdate parsed issue.issuer found true u doc h' in
                record {
                  dated = d;
                  number_read = ground arith;
                  issuer_known =
                      peer_issuer issue (blank_empty issued_by f)
                        (find_peer_document-StatedBy py peers number issue g) w t;
                }
          ]
        ]
      ]
    ]

-- A document that is built is that of the snapshot or that of the user: it has the date of the
-- application, the number that the source states, and the source's issuer and date. Where the source
-- states no issuer, it may instead have the issuer of a peer who states one for the same number, and
-- then its date is the source's, or, where the source has none, that peer's.
pub build_doc-FromSource :
    (py : Builtins) (row : Row) (vdate : Date) (peers : List Peer) (doc : Doc)
    (from_peer incomplete : Bool)
    → build_doc py row vdate peers ≡ built doc from_peer incomplete
    → FromSource py vdate peers row.snap doc ⊎ FromSource py vdate peers row.user doc
unfolding build_doc
build_doc-FromSource py row vdate peers doc u i h =
    choose_has (λ d. FromSource py vdate peers row.snap d ⊎ FromSource py vdate peers row.user d)
      (attempt py vdate peers row.snap ∷ attempt py vdate peers row.user ∷ []) none false doc u i
      (
        λ d v e. inl (attempt-FromSource py vdate peers row.snap d v e),
        (λ d v e. inr (attempt-FromSource py vdate peers row.user d v e), tt),
      )
      (λ d e. absurd (ground arith)) h

-- ===== src/Enricher/Line/Verified.antt =====
-- What is checked of a subject that `enrich_line` of app/enricher.py makes.
use ubki_uploader.Prelude.{
  ℕ, ◌≡◌, refl, sym, ap, subst, ◌∙◌, ◌⊎◌, String, true, false, not, some, List, is_blank, arith,
}
use ubki_uploader.Python.Json.{Items, Fields, arr, get, Builtins}
use ubki_uploader.Enricher.Cabinet.{Row, Peer, iso_date}
use ubki_uploader.Enricher.Values.Phone.{IsPhone}
use ubki_uploader.Enricher.Document.{stripped}
use ubki_uploader.Enricher.Document.Sources.{FromSource, build_doc-FromSource}
use ubki_uploader.Enricher.Line.{
  value, text_at, peers_of, newest_row, names_of, is_named, Subject, subject_of, enrich_line,
  no_inn, no_vdate, no_phone, no_name,
}
use ubki_uploader.Enricher.Line.Checks.{
  passes, and_then-Passes, require-value, value-injective, the-value, FoundFor, deal_rows-FoundFor,
  IsOf, one_client-IsOf, BirthAgrees, same_birthday-BirthAgrees, same_inn_equal, document_of-built,
  phone_of-IsPhone, deals_of_all,
}

-- What a subject is made of, and the checks on the row that it is made from.
pub record IsMade (py : Builtins) (line : Fields) (peers : List (ℕ × List Peer)) (s : Subject)
    : Type 0 where
  pub same_client : stripped s.newest.user_inn ≡ s.inn
  pub dated : iso_date s.newest.applied_at ≡ some s.vdate
  pub document_known :
      let others = peers_of s.newest.user_id peers in
      FromSource py s.vdate others s.newest.snap s.document.doc
      ⊎ FromSource py s.vdate others s.newest.user s.document.doc
  pub phone_valid : IsPhone py s.phone
  pub named : is_named s.names ≡ true
  pub birth : BirthAgrees py s.inn s.names.bdate
  pub own_names : s.names ≡ names_of py line

subject_of-IsMade :
    (py : Builtins) (line : Fields) (deals : Items) (inn : String) (newest : Row)
    (peers : List (ℕ × List Peer)) (s : Subject)
    → py.is_decimal 51 ≡ true
    → py.is_decimal 56 ≡ true
    → subject_of py line deals inn newest peers ≡ value s
    → IsMade py line peers s × (s.inn ≡ inn) × (s.newest ≡ newest) × (s.deals ≡ deals)
unfolding subject_of
subject_of-IsMade py line deals inn newest peers s three eight h = elim (and_then-Passes _ _ s h) [
  | passes vdate h1 k1 ↦ elim (and_then-Passes _ _ vdate h1) [
    | passes p1 e1 d1 ↦ elim (and_then-Passes _ _ s k1) [
      | passes document h2 k2 ↦ elim (and_then-Passes _ _ s k2) [
        | passes phone h3 k3 ↦ elim (and_then-Passes _ _ s k3) [
          | passes csex h4 k4 ↦ elim (and_then-Passes _ _ csex h4) [
            | passes p2 h5 e5 ↦ elim (and_then-Passes _ _ p2 h5) [
              | passes p3 h6 e6 ↦
                  subst
                    (λ t.
                      IsMade py line peers t
                      × (t.inn ≡ inn)
                      × (t.newest ≡ newest)
                      × (t.deals ≡ deals))
                    (value-injective _ s k4)
                    (
                      record {
                        same_client = same_inn_equal inn _ p1 e1;
                        dated = the-value _ no_vdate vdate d1;
                        document_known =
                            build_doc-FromSource py newest vdate (peers_of newest.user_id peers)
                              document.doc document.issuer_from_peer document.doc_incomplete
                              (document_of-built _ document h2);
                        phone_valid =
                            phone_of-IsPhone py newest phone three eight
                              (the-value _ no_phone phone h3);
                        named = require-value _ no_name p3 h6;
                        birth = same_birthday-BirthAgrees py inn (names_of py line).bdate p2 e6;
                        own_names = refl;
                      },
                      refl,
                      refl,
                      refl,
                    )
            ]
          ]
        ]
      ]
    ]
  ]
]

-- What a line that passes is sent as: the rows of its deals, and the newest of them.
pub record IsVerified (py : Builtins) (line : Fields) (rows : List (String × Row))
    (peers : List (ℕ × List Peer)) (s : Subject) : Type 0 where
  pub made : IsMade py line peers s
  pub own_inn : s.inn ≡ text_at py "inn" line
  pub inn_given : is_blank s.inn ≡ false
  pub own_deals : get "deals" line ≡ arr s.deals
  pub found : List Row
  pub each_found : FoundFor py rows s.deals found
  pub one_owner : IsOf s.newest.user_id found
  pub is_newest : newest_row found ≡ value s.newest

-- Where 3 and 8 are decimal digits, a line that passes becomes a subject of the inn and the deals of the line; every deal of it is
-- found in the cabinet, all of them are of one client, whose inn is that of the line; the identity
-- comes from the newest of them, the document from its snapshot, the client's data or a peer of the
-- same number, and the phone, the names and the birthday pass their checks.
pub enrich_line-IsVerified :
    (py : Builtins) (line : Fields) (rows : List (String × Row)) (peers : List (ℕ × List Peer))
    (s : Subject)
    → py.is_decimal 51 ≡ true
    → py.is_decimal 56 ≡ true
    → enrich_line py line rows peers ≡ value s
    → IsVerified py line rows peers s
unfolding enrich_line
enrich_line-IsVerified py line rows peers s three eight h = elim (and_then-Passes _ _ s h) [
  | passes deals h1 k1 ↦ elim (and_then-Passes _ _ s k1) [
    | passes found h2 k2 ↦ elim (and_then-Passes _ _ s k2) [
      | passes newest h3 k3 ↦ elim (and_then-Passes _ _ deals h1) [
        | passes p1 e1 d1 ↦ elim (and_then-Passes _ _ newest h3) [
          | passes p2 e2 d2 ↦
              let (made, i, n, d) =
                subject_of-IsMade py line deals (text_at py "inn" line) newest peers s three eight
                  k3 in
              let stated = require-value (not (is_blank (text_at py "inn" line))) no_inn p1 e1 in
              let owned = one_client-IsOf found p2 newest e2 d2 in
              record {
                made = made;
                own_inn = i;
                inn_given = ground (arith, i);
                own_deals = deals_of_all _ deals d1 ∙ ap arr (sym d);
                found = found;
                each_found =
                    subst (λ t. FoundFor py rows t found) (sym d)
                      (deal_rows-FoundFor py rows deals found h2);
                one_owner = subst (λ (r : Row). IsOf r.user_id found) (sym n) owned;
                is_newest = d2 ∙ ap value (sym n);
              }
        ]
      ]
    ]
  ]
]

-- ===== src/Enricher/Document/Peers.antt =====
-- When other applications of the client make a difference.
use ubki_uploader.Prelude.{String, false, List, ◌≡◌, refl, arith}
use ubki_uploader.Python.Json.{Builtins}
use ubki_uploader.Python.Date.{Date}
use ubki_uploader.Enricher.Cabinet.{Cell, Source, Row, Peer, cell_text}
use ubki_uploader.Enricher.Values.{normalize_number, normalize_text, parse_doc_number}
use ubki_uploader.Enricher.Document.{attempt, build_doc, lacks_issuer}

module _ (py : Builtins) (vdate : Date) (peers others : List Peer) where
  -- The peers are asked only for an issuer that a source with a usable number does not have.
  attempt-peers :
      (s : Source)
      → lacks_issuer py s ≡ false
      → (parse_doc_number py (normalize_number py s.passport_number)
          ≡ parse_doc_number py (cell_text s.passport_number))
      → attempt py vdate peers s ≡ attempt py vdate others s
  unfolding attempt
  attempt-peers s h e = ground arith

-- A normalized number is normalized: what `str.upper` does, it does not undo.
pub record IsNormal (py : Builtins) : Type 0 where
  pub again : (s : String) → normalize_text py (normalize_text py s) ≡ normalize_text py s

parse_again :
    (py : Builtins)
    → IsNormal py
    → (v : Cell) → parse_doc_number py (normalize_number py v) ≡ parse_doc_number py (cell_text v)
unfolding parse_doc_number normalize_number
parse_again py normal v = rw (normal.again (cell_text v)) refl

-- Where normalizing a number twice is normalizing it once, a row in which no source with a usable number lacks the issuer gets the same document whatever
-- other applications of the client state.
pub build_doc-peers :
    (py : Builtins) (row : Row) (vdate : Date) (peers others : List Peer)
    → IsNormal py
    → lacks_issuer py row.snap ≡ false
    → lacks_issuer py row.user ≡ false
    → build_doc py row vdate peers ≡ build_doc py row vdate others
unfolding build_doc
build_doc-peers py row vdate peers others normal snap user =
    rw
      (attempt-peers py vdate peers others row.snap snap
        (parse_again py normal row.snap.passport_number))
      (rw
        (attempt-peers py vdate peers others row.user user
          (parse_again py normal row.user.passport_number))
        refl)

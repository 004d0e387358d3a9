-- ===== src/Tests/Cabinet.antt =====
-- A client of the cabinet with one application, and a line of the producer for it.
use Prim.Native.String.{String}
use ubki_uploader.Prelude.{Bool, some, List, [], ◌∷◌, ◌==◌, str_eq, ◌⊎◌, inl, inr, if◌then◌else◌}
use ubki_uploader.Prelude.Int.{pos}
use ubki_uploader.Python.Json.{Json, Fields, int, str, arr, obj, nil, cons, end, field}
use ubki_uploader.Python.Date.{Date}
use ubki_uploader.Db.Schema.{empty}
use ubki_uploader.Enricher.Cabinet.{missing, text, day, moment, Source, Row, Peer}
use ubki_uploader.Enricher.Line.{no_phone}
use ubki_uploader.Enricher.Intake.{Codec, Quarantined, quarantine_json}
use ubki_uploader.Enricher.Summary.{EnrichSummary}
use ubki_uploader.Enricher.Process.{RawFile, Outside, Stage}

abbrev pub applied : Date
applied = record { year = 2026; month = 1; day = 5 }

abbrev pub unsigned : Source
unsigned = record {
  passport_number = text "AB 123456";
  passport_issued_by = missing;
  passport_date = missing;
}

abbrev pub signed : Source
signed = record {
  passport_number = text "AB123456";
  passport_issued_by = text "Office 1";
  passport_date = day (record { year = 2001; month = 2; day = 3 });
}

abbrev pub client : Row
client = record {
  user_id = 7;
  applied_at = moment applied "10:00:00";
  snap = unsigned;
  user = record unsigned { passport_number = missing };
  snap_phone = text "067 123 45 67";
  user_phone = missing;
  user_inn = text "3000000000";
  addr_postcode = missing;
  addr_city = text "Kyiv";
  addr_street = missing;
  addr_house = missing;
  addr_building = missing;
  addr_flat = missing;
}

abbrev pub peers : List Peer
peers = record { stated = signed; applied_at = day applied } ∷ []

abbrev pub rows : List (String × Row)
rows = ("a1", client) ∷ []

abbrev pub deal : Fields
deal = field "dlref" (str "a1") (field "dlcelcred" (str "1") end)

abbrev pub line : Fields
line = field "inn" (str "3000000000") (
    field "lname" (str "A") (
      field "fname" (str "B")
        (field "bdate" (str "1982-02-19") (field "deals" (arr (cons (obj deal) nil)) end))))

abbrev pub inner : Quarantined
inner = record { line_no = 1; reason = no_phone; line = "plain" }

abbrev pub outer : Quarantined
outer = record { line_no = 2; reason = no_phone; line = "q1" }

abbrev pub read : String → Json ⊎ String
read s =
    if str_eq s "plain"
    then inl (obj line)
    else if str_eq s "q1"
    then inl (obj (quarantine_json inner))
    else if str_eq s "q2"
    then inl (obj (quarantine_json outer))
    else inr "Expecting value"

abbrev pub wrap : Json → String
wrap (obj (field key (int (pos n)) rest)) = if n == 1 then "q1" else "q2"
wrap _ = "?"

abbrev pub codec : Codec
codec = record { loads = read; dumps = wrap; dumps_compact = λ v. "subject" }

abbrev pub outside : Outside
outside = record {
  codec = codec;
  fetch = λ refs. some rows;
  fetch_issuers = λ ids. some ((7, peers) ∷ []);
}

-- The second line is blank, the third one is no JSON.
abbrev pub raw_file : RawFile
raw_file = record {
  name = "day.txt";
  sha256 = "0123456789";
  content = "...";
  lines = some ("plain" ∷ " " ∷ "{" ∷ []);
}

abbrev pub summary : EnrichSummary
summary = record {
  dry_run = Bool.false;
  files_seen = 1;
  files_processed = 0;
  files_skipped = 0;
  files_empty = 0;
  lines_total = 0;
  lines_enriched = 0;
  lines_quarantined = 0;
  lines_issuer_from_peer = 0;
  lines_doc_incomplete = 0;
  quarantine_reasons = [];
  errors = [];
}

abbrev pub stage : Stage
stage = record {
  raw = raw_file ∷ [];
  inbox = [];
  quarantined = [];
  processed = [];
  db = empty;
  summary = summary;
}

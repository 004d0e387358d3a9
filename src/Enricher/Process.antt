-- ===== src/Enricher/Process.antt =====
-- `process_file` of app/enricher.py.
pub mod Conserves
pub mod Twice
use Prim.Native.String.{◌++◌ as ◌<>◌}
use ubki_uploader.Prelude.{
  ℕ, suc, ◌+◌, String, Bool, true, false, ◌||◌, ◌&&◌, not, Option, none, some, List, [], ◌∷◌, ◌++◌,
  map, length, join, if◌then◌else◌, ◌⊎◌, inl, inr, select, str_eq, ltb, ◌==◌,
}
use ubki_uploader.Python.Json.{Json, Fields, obj, show, Builtins}
use ubki_uploader.Db.Schema.{Db}
use ubki_uploader.Db.Meta.{get_enriched_by_identity, insert_enriched_file}
use ubki_uploader.Enricher.Cabinet.{Row, Peer}
use ubki_uploader.Enricher.Document.{clients_missing_issuer}
use ubki_uploader.Enricher.Line.{Reason, Outcome, value, quarantine, raises, Subject, enrich_line}
use ubki_uploader.Enricher.Line.Wording.{reason_text}
use ubki_uploader.Enricher.Line.Render.{subject_json}
use ubki_uploader.Enricher.Intake.{
  Codec, numbered_lines, Quarantined, quarantine_json, Parsed, parse_lines, dlrefs,
}
use ubki_uploader.Enricher.Shelf.{Stored, write_enriched, write_quarantine, move_processed}
use ubki_uploader.Enricher.Summary.{EnrichSummary, build_alert}

-- A raw file: its digest, and the lines that `splitlines` gives of its text, or none where it is
-- neither UTF-8 nor the fallback encoding.
pub record RawFile : Type 0 where
  pub name : String
  pub sha256 : String
  pub content : String
  pub lines : Option (List String)

-- What is not the program's: the fetchers, with none for an exception, and `json`.
pub record Outside : Type 0 where
  pub codec : Codec
  pub fetch : List String → Option (List (String × Row))
  pub fetch_issuers : List ℕ → Option (List (ℕ × List Peer))

pub data Failure : Type 0 where
  undecodable not_iterable fetch_failed issuers_failed line_failed duplicate : Failure

-- The folders, the database and the summary.
pub record Stage : Type 0 where
  pub raw : List RawFile
  pub inbox : List Stored
  pub quarantined : List Stored
  pub processed : List Stored
  pub db : Db
  pub summary : EnrichSummary

-- An exception leaves what was done before it.
pub data Step : Type 0 where
  done : Stage → Step
  failed : Failure → Stage → Step

-- `enriched` and `quarantined`
pub record Work : Type 0 where
  pub enriched : List String
  pub bad : List Quarantined

abbrev pub one_if : Bool → ℕ
one_if true = 1
one_if false = 0

-- The counters at the end of `enrich_line`.
unfoldable pub count_document : Subject → EnrichSummary → EnrichSummary
count_document s summary = record summary {
  lines_issuer_from_peer = summary.lines_issuer_from_peer + one_if s.document.issuer_from_peer;
  lines_doc_incomplete = summary.lines_doc_incomplete + one_if s.document.doc_incomplete;
}

abbrev pub with_bad : Quarantined → EnrichSummary × Option Work → EnrichSummary × Option Work
with_bad q (summary, none) = (summary, none)
with_bad q (summary, some work) = (summary, some (record work { bad = q ∷ work.bad }))

abbrev pub with_line : String → EnrichSummary × Option Work → EnrichSummary × Option Work
with_line line (summary, none) = (summary, none)
with_line line (summary, some work) =
    (summary, some (record work { enriched = line ∷ work.enriched }))

abbrev pub outcome_of :
    Builtins → Parsed → List (String × Row) → List (ℕ × List Peer) → Outcome Subject
outcome_of py p rows peers = elim p.content [
  | inr reason ↦ quarantine reason
  | inl line ↦ enrich_line py line rows peers
]

abbrev pub bad_of : Parsed → Reason → Quarantined
bad_of p reason = record { line_no = p.line_no; reason = reason; line = p.raw }

-- What the outcome of a line adds to what the loop makes of the lines after it.
abbrev pub next_line :
    Codec
    → (vidobes : String) → Parsed
    → (rest : EnrichSummary → EnrichSummary × Option Work) → EnrichSummary
    → Outcome Subject
    → EnrichSummary × Option Work
next_line codec vidobes p rest summary raises = (summary, none)
next_line codec vidobes p rest summary (quarantine reason) =
    with_bad (bad_of p reason) (rest summary)
next_line codec vidobes p rest summary (value s) =
    with_line (codec.dumps_compact (subject_json vidobes s)) (rest (count_document s summary))

module _ (py : Builtins) (out : Outside) (vidobes : String) (rows : List (String × Row))
    (peers : List (ℕ × List Peer)) where
  -- The loop over the parsed lines, with none for the exception of a line.
  unfoldable pub enrich_lines : List Parsed → EnrichSummary → EnrichSummary × Option Work
  enrich_lines [] summary = (summary, some (record { enriched = []; bad = [] }))
  enrich_lines (p ∷ parsed) summary =
      next_line out.codec vidobes p (λ t. enrich_lines parsed t) summary
        (outcome_of py p rows peers)

-- `"\n".join(lines) + "\n"`
abbrev pub text_of : List String → String
text_of lines = join "\n" lines <> "\n"

abbrev pub write_good : RawFile → List String → List Stored → List Stored
write_good file [] inbox = inbox
write_good file (line ∷ lines) inbox =
    write_enriched inbox file.name file.sha256 (text_of (line ∷ lines))

abbrev pub write_bad : Codec → RawFile → List Quarantined → List Stored → List Stored
write_bad codec file [] folder = folder
write_bad codec file (q ∷ qs) folder =
    write_quarantine folder file.name file.sha256
      (text_of (map (λ (b : Quarantined). codec.dumps (obj (quarantine_json b))) (q ∷ qs)))

-- f"{path.name}:{line_no}: {reason}"
abbrev pub reason_line : RawFile → Quarantined → String
reason_line file q = file.name <> (":" <> (show q.line_no <> (": " <> reason_text q.reason)))

abbrev pub count_file : (total : ℕ) → EnrichSummary → EnrichSummary
count_file total s = record s {
  files_processed = s.files_processed + 1;
  lines_total = s.lines_total + total;
  files_empty = s.files_empty + one_if (total == 0);
}

abbrev pub count_work : RawFile → Work → EnrichSummary → EnrichSummary
count_work file work s = record s {
  lines_enriched = s.lines_enriched + length work.enriched;
  lines_quarantined = s.lines_quarantined + length work.bad;
  quarantine_reasons = s.quarantine_reasons ++ map (reason_line file) work.bad;
}

-- The writes and the move that end `process_file`.
abbrev pub moved : RawFile → Codec → Work → Stage → Stage
moved file codec work s = record s {
  raw = select (λ (f : RawFile). not (str_eq f.name file.name)) s.raw;
  inbox = write_good file work.enriched s.inbox;
  quarantined = write_bad codec file work.bad s.quarantined;
  processed = move_processed s.processed file.name file.sha256 file.content;
}

-- The row is inserted last.
unfoldable pub finish : (now : String) → Codec → RawFile → (total : ℕ) → Work → Stage → Step
finish now codec file total work s =
    elim (insert_enriched_file now s.db file.name file.sha256 total (length work.enriched)
      (length work.bad)) [
        | none ↦ failed duplicate (moved file codec work s)
        | some db ↦
            done (record (moved file codec work s) {
              db = db;
              summary = count_work file work s.summary;
            })
      ]

-- `rows = fetch(...) if dlrefs else {}`
abbrev pub fetch_rows : Outside → List String → Option (List (String × Row))
fetch_rows out [] = some []
fetch_rows out (ref ∷ refs) = out.fetch (ref ∷ refs)

abbrev pub fetch_peers : Outside → List ℕ → Option (List (ℕ × List Peer))
fetch_peers out [] = some []
fetch_peers out (n ∷ ns) = out.fetch_issuers (n ∷ ns)

abbrev pub finish_lines :
    (now : String) → Codec → RawFile → (total : ℕ) → Stage → EnrichSummary × Option Work → Step
finish_lines now codec file total s (summary, none) =
    failed line_failed (record s { summary = summary })
finish_lines now codec file total s (summary, some work) =
    finish now codec file total work (record s { summary = summary })

-- The next step, unless the call before it raises.
unfoldable pub after_call {ℓ} : {A : Type ℓ} → Option A → Failure → Stage → (A → Step) → Step
after_call none failure s next = failed failure s
after_call (some a) failure s next = next a

-- What `process_file` does with the numbered lines, once the counters of the file are up.
unfoldable pub process_lines :
    Builtins → Outside → (vidobes now : String) → RawFile → List (ℕ × String) → Stage → Step
process_lines py out vidobes now file lines s =
    let parsed = parse_lines out.codec lines in
    after_call (dlrefs py parsed []) not_iterable s (λ refs.
      after_call (fetch_rows out refs) fetch_failed s (λ rows.
        after_call (fetch_peers out (clients_missing_issuer py rows)) issuers_failed s (λ peers.
          finish_lines now out.codec file (length lines) s
            (enrich_lines py out vidobes rows peers parsed s.summary))))

unfoldable pub process_file :
    Builtins → Outside → (vidobes now : String) → (dry_run : Bool) → RawFile → Stage → Step
process_file py out vidobes now dry_run file s =
    elim (get_enriched_by_identity s.db file.name file.sha256) [
      | some row ↦ done s
      | none ↦ elim file.lines [
        | none ↦ failed undecodable s
        | some lines ↦
            let numbered = numbered_lines lines 1 in
            let counted = record s { summary = count_file (length numbered) s.summary } in
            if dry_run then done counted else process_lines py out vidobes now file numbered counted
      ]
    ]

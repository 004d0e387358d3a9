-- ===== src/Uploader/Pass.antt =====
-- `run_pass` and `_run_locked` of app/uploader.py.
pub mod Ends
pub mod Keeps
pub mod Validity
pub mod Runs
use Prim.Native.String.{◌++◌ as ◌<>◌}
use ubki_uploader.Prelude.{
  ℕ, zero, ◌==◌, String, Bool, true, false, ◌||◌, not, Option, none, some, List, [], ◌∷◌, ◌++◌,
  length, any, map, select, join, is_blank, if◌then◌else◌,
}
use ubki_uploader.Config.{Config}
use ubki_uploader.Db.Schema.{FileRow, RunStatus, success, aborted, error, RunRow, Db}
use ubki_uploader.Db.Files.{recompute_file_status}
use ubki_uploader.Db.Meta.{insert_run}
use ubki_uploader.Python.Json.{Builtins}
use ubki_uploader.Uploader.Summary.{RunSummary, run_summary}
use ubki_uploader.Uploader.SessionCache.{db_session_store}
use ubki_uploader.Uploader.Folder.{
  Entry, Stamp, Exception, file_not_found_error, Ingested, scan_folder, ingest_new_files,
}
use ubki_uploader.Uploader.Archive.{Disk, Archived, archive_completed_files}
use ubki_uploader.Uploader.Alert.{build_alert}
use ubki_uploader.Uploader.Wave.{Sending}
use ubki_uploader.Uploader.Send.{Network, add_error, send_records}

-- What a pass is given from outside. Each group of writes reads the clock once.
pub record Surroundings : Type 0 where
  pub lock_is_free : Bool
  pub folder_is_there : Bool
  -- `fnmatch(name, config.file_glob)`
  pub matches : String → Bool
  pub seconds : ℕ
  pub kyiv_day : String
  pub started_at : String
  pub recomputed_at : String
  pub archived_at : String
  pub finished_at : String
  pub stamps : ℕ → Stamp
  pub network : Network
  -- `str(exc)`
  pub text_of : Exception → String

-- What a pass leaves: `alert` is the message to Telegram, `raised` the exception that goes on to
-- the caller.
pub record Outcome : Type 0 where
  pub db : Db
  pub disk : Disk
  pub summary : RunSummary
  pub alert : Option String
  pub raised : Option Exception

-- The row of `insert_run` for a summary.
abbrev pub run_of :
    (started_at finished_at : String) → RunStatus → RunSummary → Option String → RunRow
run_of started_at finished_at status summary message = record {
  started_at = started_at;
  finished_at = finished_at;
  status = status;
  files_seen = summary.files_seen;
  records_sent = summary.records_sent;
  records_failed = summary.records_failed;
  records_rejected = summary.records_rejected;
  error = message;
}

-- `except Exception`
unfoldable pub crash : Surroundings → Exception → Db → Disk → RunSummary → Outcome
crash env exc db disk summary =
    let text = env.text_of exc in
    let noted = add_error text summary in
    record {
      db = insert_run db (run_of env.started_at env.finished_at error noted (some text));
      disk = disk;
      summary = noted;
      alert = some ("UBKI uploader: прохід впав з помилкою\n" <> text);
      raised = some exc;
    }

unfoldable pub recompute_all : (now : String) → List ℕ → Db → Db
recompute_all now [] db = db
recompute_all now (id ∷ ids) db = recompute_all now ids (recompute_file_status now db id).1

abbrev pub is_active : FileRow → Bool
is_active f = elim f.archived_at [ none ↦ true | some t ↦ false ]

abbrev pub active_ids : Db → List ℕ
active_ids db = map (λ f. f.id) (select is_active db.files)

-- The union of two sets of ids.
abbrev pub unite : List ℕ → List ℕ → List ℕ
unite ids touched = ids ++ select (λ i. not (any (λ j. j == i) ids)) touched

-- `"; ".join(summary.errors) or None`
abbrev pub run_error : List String → Option String
run_error errors = let text = join "; " errors in if is_blank text then none else some text

abbrev pub run_status : RunSummary → RunStatus
run_status summary = if summary.aborted then aborted else success

-- What follows a `send_records` that returns.
unfoldable pub conclude : Surroundings → Disk → Sending → Outcome
conclude env disk s =
    let recomputed = recompute_all env.recomputed_at (unite (active_ids s.db) s.touched) s.db in
    let a =
      archive_completed_files env.archived_at
        (record { db = recomputed; disk = disk; summary = s.summary }) in
    record {
      db = insert_run a.db (
          run_of env.started_at env.finished_at (run_status a.summary) a.summary
            (run_error a.summary.errors));
      disk = a.disk;
      summary = a.summary;
      alert = build_alert a.summary;
      raised = none;
    }

-- What follows `send_records`, which may have raised.
unfoldable pub after_sending : Surroundings → Disk → Sending → Outcome
after_sending env disk s = elim s.raised [
  | some exc ↦ crash env exc s.db disk s.summary
  | none ↦ conclude env disk s
]

-- What follows `ingest_new_files`. `sessid` is the client's `_sessid`: none for the client that the
-- pass makes itself.
unfoldable pub after_ingest :
    Builtins → Config → Surroundings → (sessid : Option String) → Disk → Ingested → Option Outcome
after_ingest py config env sessid disk step =
    let sending =
      send_records py config (db_session_store env.kyiv_day) env.network sessid step.db
        step.summary in
    elim step.raised [
      | some exc ↦ some (crash env exc step.db disk step.summary)
      | none ↦
          if step.summary.dry_run
          then some (record {
            db = step.db;
            disk = disk;
            summary = step.summary;
            alert = none;
            raised = none;
          })
          else (elim sending [ none ↦ none | some s ↦ some (after_sending env disk s) ])
    ]

-- `scan_folder` and `ingest_new_files`, with `files_seen`.
unfoldable pub ingest_inbox : Config → Surroundings → Db → Disk → RunSummary → Ingested
ingest_inbox config env db disk summary =
    let scanned = scan_folder env.matches env.seconds config disk.inbox summary in
    let seen = record scanned.1 { files_seen = length scanned.0 } in
    ingest_new_files env.stamps 0 scanned.0 seen.dry_run db seen

unfoldable pub run_locked :
    Builtins
    → Config
    → Surroundings
    → (sessid : Option String) → Db
    → Disk
    → RunSummary
    → Option Outcome
run_locked py config env sessid db disk summary =
    if env.folder_is_there
    then after_ingest py config env sessid disk (ingest_inbox config env db disk summary)
    else some (crash env file_not_found_error db disk summary)

-- None where the events of a wave end before its requests do.
unfoldable pub run_pass :
    Builtins
    → Config
    → Surroundings
    → (sessid : Option String) (dry_run : Bool) → Db
    → Disk
    → Option Outcome
run_pass py config env sessid dry_run db disk =
    let summary = run_summary dry_run in
    if env.lock_is_free
    then run_locked py config env sessid db disk summary
    else some (record {
      db = db;
      disk = disk;
      summary = record summary { skipped_lock = true };
      alert = none;
      raised = none;
    })

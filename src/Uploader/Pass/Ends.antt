-- ===== src/Uploader/Pass/Ends.antt =====
-- A pass comes to its end.
use ubki_uploader.Prelude.{
  ◌≤◌, ◌≡◌, String, Bool, true, Option, none, some, arith, length, Bool-cases, Option-cases, inl,
  inr,
}
use ubki_uploader.Config.{Config}
use ubki_uploader.Db.Schema.{Db}
use ubki_uploader.Db.Records.{sendable_records}
use ubki_uploader.Python.Json.{Builtins}
use ubki_uploader.Uploader.Summary.{run_summary}
use ubki_uploader.Uploader.SessionCache.{db_session_store}
use ubki_uploader.Uploader.Folder.{Ingested, file_not_found_error}
use ubki_uploader.Uploader.Archive.{Disk}
use ubki_uploader.Uploader.Send.Ends.{send_records_ends}
use ubki_uploader.Uploader.Pass.{
  Surroundings, Outcome, crash, after_sending, after_ingest, ingest_inbox, run_locked, run_pass,
}

module _ (py : Builtins) (config : Config) (env : Surroundings) (sessid : Option String) where
  after_ingest_returns :
      (disk : Disk) (step : Ingested)
      → length (sendable_records step.db config.retry_cap) ≤ length env.network.first_events
      → length (sendable_records step.db config.retry_cap) ≤ length env.network.resend_events
      → (out : Outcome) × (after_ingest py config env sessid disk step ≡ some out)
  unfolding after_ingest
  after_ingest_returns disk step enough enough' =
      let (s, ends, way) =
        send_records_ends py config (db_session_store env.kyiv_day) env.network sessid step.db
          step.summary enough enough' in
      elim (Option-cases step.raised) [
        | inr (exc, e) ↦ (crash env exc step.db disk step.summary, ground arith)
        | inl e ↦ elim (Bool-cases step.summary.dry_run) [
          | inl dry ↦ (
            record {
              db = step.db;
              disk = disk;
              summary = step.summary;
              alert = none;
              raised = none;
            },
            ground arith,
          )
          | inr wet ↦ (after_sending env disk s, ground arith)
        ]
      ]

  -- A pass ends, where each of its two waves has as many events as there are records to send once
  -- the inbox is ingested.
  pub run_pass_ends :
      (dry_run : Bool) (db : Db) (disk : Disk)
      → length (
          sendable_records
            (ingest_inbox config env db disk (run_summary dry_run)).db
            config.retry_cap)
        ≤ length env.network.first_events
      → length (
          sendable_records
            (ingest_inbox config env db disk (run_summary dry_run)).db
            config.retry_cap)
        ≤ length env.network.resend_events
      → (out : Outcome) × (run_pass py config env sessid dry_run db disk ≡ some out)
  unfolding run_pass run_locked
  run_pass_ends dry_run db disk enough enough' =
      let step = ingest_inbox config env db disk (run_summary dry_run) in
      elim (Bool-cases env.lock_is_free) [
        | inr busy ↦ (
          record {
            db = db;
            disk = disk;
            summary = record (run_summary dry_run) { skipped_lock = true };
            alert = none;
            raised = none;
          },
          ground arith,
        )
        | inl free ↦ elim (Bool-cases env.folder_is_there) [
          | inr absent ↦
              (crash env file_not_found_error db disk (run_summary dry_run), ground arith)
          | inl there ↦
              let (out, ends) = after_ingest_returns disk step enough enough' in (out, ground arith)
        ]
      ]

-- ===== src/Uploader/Pass/Keeps.antt =====
-- The rule for what a pass keeps of the database, up to the row of the run itself.
use ubki_uploader.Prelude.{
  ℕ, ◌≡◌, ◌≢◌, ◌⊎◌, inl, inr, refl, String, Bool, true, false, not, Option, none, some, List, [],
  ◌∷◌, arith, subst, Bool-cases, Option-cases,
}
use mathlib.Core.Option.{some-injective}
use ubki_uploader.Config.{Config}
use ubki_uploader.Db.Schema.{Status, partial, RunRow, Db}
use ubki_uploader.Db.Files.{recompute_file_status, mark_archived}
use ubki_uploader.Db.Records.{update_record_result}
use ubki_uploader.Db.Meta.{insert_run, is_success}
use ubki_uploader.Python.Json.{Builtins}
use ubki_uploader.Uploader.Summary.{RunSummary, run_summary}
use ubki_uploader.Uploader.SessionCache.{save, db_session_store}
use ubki_uploader.Uploader.Folder.{Exception, Ingested, file_not_found_error}
use ubki_uploader.Uploader.Archive.{Disk, Archived, archive_completed_files}
use ubki_uploader.Uploader.Archive.Complete.{archive_keeps}
use ubki_uploader.Uploader.Wave.{Sending}
use ubki_uploader.Uploader.Send.{send_records}
use ubki_uploader.Uploader.Send.Keeps.{send_records_keeps}
use ubki_uploader.Uploader.Pass.{
  Surroundings, Outcome, crash, recompute_all, unite, active_ids, conclude, after_sending,
  after_ingest, ingest_inbox, run_locked, run_pass,
}

abbrev pub is_calm : Outcome → Bool
is_calm out = elim out.raised [ none ↦ not out.summary.aborted | some exc ↦ false ]

-- The last write of the pass is the row of the run, on a database with the property.
pub record Written {ℓ} (P : Db → Type ℓ) (env : Surroundings) (out : Outcome) : Type ℓ where
  pub before : Db
  pub kept : P before
  pub run : RunRow
  pub is_last : out.db ≡ insert_run before run
  pub verdict : is_success run ≡ is_calm out
  pub finished : run.finished_at ≡ env.finished_at

module _ {ℓ} (P : Db → Type ℓ) (py : Builtins) (config : Config) (env : Surroundings)
    (recompute_keeps : (now : String) (db : Db) (id : ℕ)
      → P db
      → P (recompute_file_status now db id).1)
    (mark_keeps : (now : String) (db : Db) (id : ℕ) → P db → P (mark_archived now db id))
    (attempt_keeps : (now : String) (db : Db) (id : ℕ) (s : Status) (e t c : Option String)
        (count : Bool)
      → s ≢ partial
      → P db
      → P (update_record_result now db id s e t c count))
    (save_keeps : (today : String) (db : Db) (sessid : String)
      → P db
      → P (save today db sessid)) where
  recompute_all_keeps :
      (now : String) (ids : List ℕ) (db : Db) → P db → P (recompute_all now ids db)
  unfolding recompute_all
  recompute_all_keeps now [] db p = p
  recompute_all_keeps now (id ∷ ids) db p =
      recompute_all_keeps now ids _ (recompute_keeps now db id p)

  conclude_writes : (disk : Disk) (s : Sending) → P s.db → Written P env (conclude env disk s)
  unfolding conclude
  conclude_writes disk s p =
      let recomputed = recompute_all env.recomputed_at (unite (active_ids s.db) s.touched) s.db in
      let a : Archived = record { db = recomputed; disk = disk; summary = s.summary } in
      record {
        before = (archive_completed_files env.archived_at a).db;
        kept = archive_keeps P mark_keeps env.archived_at a (recompute_all_keeps _ _ s.db p);
        run = _;
        is_last = refl;
        verdict = ground arith;
        finished = refl;
      }

  pub crash_writes :
      (exc : Exception) (db : Db) (disk : Disk) (summary : RunSummary)
      → P db
      → Written P env (crash env exc db disk summary)
  unfolding crash
  crash_writes exc db disk summary p = record {
    before = db;
    kept = p;
    run = _;
    is_last = refl;
    verdict = refl;
    finished = refl;
  }

  after_sending_writes :
      (disk : Disk) (s : Sending) → P s.db → Written P env (after_sending env disk s)
  unfolding after_sending
  after_sending_writes disk s p = elim (Option-cases s.raised) [
    | inl e ↦ rw (e, after_sending) (conclude_writes disk s p)
    | inr (exc, e) ↦ rw (e, after_sending) (crash_writes exc s.db disk s.summary p)
  ]

  -- A dry run that raises nothing writes nothing more; any other pass writes its row.
  pub after_ingest_ends :
      (sessid : Option String) (disk : Disk) (step : Ingested) (out : Outcome)
      → after_ingest py config env sessid disk step ≡ some out
      → P step.db
      → ((step.summary.dry_run ≡ true) × (out.db ≡ step.db)) ⊎ Written P env out
  unfolding after_ingest
  after_ingest_ends sessid disk step out h p = elim (Option-cases step.raised) [
    | inr (exc, e) ↦ inr (
        subst (Written P env) (some-injective _ out (rw (← h, e, after_ingest) refl))
          (crash_writes exc step.db disk step.summary p))
    | inl e ↦ elim (Bool-cases step.summary.dry_run) [
      | inl dry ↦ inl (dry, ground arith)
      | inr wet ↦
          let store = db_session_store env.kyiv_day in
          elim (Option-cases
            (send_records py config store env.network sessid step.db step.summary)) [
              | inl f ↦ absurd (ground arith)
              | inr (s, f) ↦
                  let h' : after_sending env disk s ≡ out = ground arith in
                  inr (
                    subst (Written P env) h' (
                      after_sending_writes disk s (
                        send_records_keeps P py config store attempt_keeps (save_keeps env.kyiv_day)
                          env.network sessid step.db step.summary s f p)))
            ]
    ]
  ]

-- The ways in which a pass goes.
pub run_pass_ways :
    (py : Builtins) (config : Config) (env : Surroundings) (sessid : Option String) (dry_run : Bool)
    (db : Db) (disk : Disk) (out : Outcome)
    → run_pass py config env sessid dry_run db disk ≡ some out
    → ((env.lock_is_free ≡ false) × (out.db ≡ db))
      ⊎ ((crash env file_not_found_error db disk (run_summary dry_run) ≡ out)
          ⊎ (after_ingest py config env sessid disk
                (ingest_inbox config env db disk (run_summary dry_run))
              ≡ some out))
unfolding run_pass run_locked
run_pass_ways py config env sessid dry_run db disk out h = ground arith

-- ===== src/Uploader/Pass/Runs.antt =====
-- The table of runs after a pass, on which the health check relies.
use mathlib.Core.List.{reverse-append}
use ubki_uploader.Prelude.{
  ℕ, suc, length, ◌≡◌, ◌≢◌, inl, inr, refl, String, Bool, true, false, Option, some, List, [], ◌∷◌,
  arith, ap, subst, sym, ◌∙◌, if◌then◌else◌,
}
use ubki_uploader.Config.{Config}
use ubki_uploader.Db.Schema.{Status, partial, Db, RunRow}
use ubki_uploader.Db.Files.{insert_file, left_by_insert, recompute_file_status, mark_archived}
use ubki_uploader.Db.Files.Ingest.{insert_file_parts}
use ubki_uploader.Db.Records.{update_record_result}
use ubki_uploader.Db.Meta.{insert_run, is_success, last_successful_run, meta_set}
use ubki_uploader.Python.Json.{Builtins}
use ubki_uploader.Uploader.Summary.{RunSummary, run_summary}
use ubki_uploader.Uploader.SessionCache.{save}
use ubki_uploader.Uploader.Folder.{
  Entry, Stamp, scan_folder, ingest_new, ingest_text, ingest_file, ingest_new_files,
  file_not_found_error,
}
use ubki_uploader.Uploader.Folder.Keeps.{ingest_new_files_keeps}
use ubki_uploader.Uploader.Folder.Scan.{scan_folder_lem}
use ubki_uploader.Uploader.Archive.{Disk}
use ubki_uploader.Uploader.Pass.{Surroundings, Outcome, ingest_inbox, run_pass}
use ubki_uploader.Uploader.Pass.Keeps.{
  Written, is_calm, after_ingest_ends, crash_writes, run_pass_ways,
}

-- The runs are those of a given list.
abbrev HasRuns : List RunRow → Db → Type 0
HasRuns runs d = d.runs ≡ runs

last_run :
    (db : Db) (run : RunRow)
    → last_successful_run (insert_run db run)
      ≡ (if is_success run then some run.finished_at else last_successful_run db)
unfolding last_successful_run insert_run
last_run db run = ground (arith, reverse-append db.runs (run ∷ []))

same_runs : (d db : Db) → d.runs ≡ db.runs → last_successful_run d ≡ last_successful_run db
unfolding last_successful_run
same_runs d db e = rw e refl

dry_run-ingest_file :
    (stamp : Stamp) (dry : Bool) (e : Entry) (db : Db) (s : RunSummary)
    → (ingest_file stamp dry e db s).summary.dry_run ≡ s.dry_run
unfolding ingest_file ingest_text ingest_new
dry_run-ingest_file stamp dry e db s = ground arith

dry_run-ingest_new_files :
    (stamps : ℕ → Stamp) (n : ℕ) (paths : List Entry) (dry : Bool) (db : Db) (s : RunSummary)
    → (ingest_new_files stamps n paths dry db s).summary.dry_run ≡ s.dry_run
unfolding ingest_new_files
dry_run-ingest_new_files stamps n [] dry db s = refl
dry_run-ingest_new_files stamps n (e ∷ paths) dry db s =
    let step = ingest_file (stamps n) dry e db s in
    ground (
      arith,
      dry_run-ingest_file (stamps n) dry e db s,
      dry_run-ingest_new_files stamps (suc n) paths dry step.db step.summary,
    )

dry_run-ingest_inbox :
    (config : Config) (env : Surroundings) (db : Db) (disk : Disk) (s : RunSummary)
    → (ingest_inbox config env db disk s).summary.dry_run ≡ s.dry_run
unfolding ingest_inbox
dry_run-ingest_inbox config env db disk s =
    let scanned = scan_folder env.matches env.seconds config disk.inbox s in
    dry_run-ingest_new_files env.stamps 0 scanned.0 scanned.1.dry_run db
      (record scanned.1 { files_seen = length scanned.0 })
    ∙ ap (λ (r : List Entry × RunSummary). r.1.dry_run)
        (scan_folder_lem env.matches env.seconds config disk.inbox s)

module _ (runs : List RunRow) where
  insert_file-HasRuns :
      (fresh : ℕ → String) (now : String) (db : Db) (filename sha256 : String) (size : ℕ)
      (lines : List String) (file_id : ℕ) (db' : Db)
      → HasRuns runs db
      → insert_file fresh now db filename sha256 size lines ≡ some (file_id, db')
      → HasRuns runs db'
  insert_file-HasRuns fresh now db f s size lines i db' e h =
      let (id, new, parts) = insert_file_parts fresh now db f s size lines i db' h in
      ap (λ (x : Db). x.runs) parts ∙ e

  left_by_insert-HasRuns :
      (fresh : ℕ → String) (now : String) (db : Db) (filename sha256 : String) (size : ℕ)
      (lines : List String)
      → HasRuns runs db
      → HasRuns runs (left_by_insert fresh now db filename sha256 size lines)
  unfolding left_by_insert
  left_by_insert-HasRuns fresh now db f s size lines e = ground (arith, e)

  recompute-HasRuns :
      (now : String) (db : Db) (id : ℕ)
      → HasRuns runs db
      → HasRuns runs (recompute_file_status now db id).1
  unfolding recompute_file_status
  recompute-HasRuns now db id e = e

  mark-HasRuns :
      (now : String) (db : Db) (id : ℕ) → HasRuns runs db → HasRuns runs (mark_archived now db id)
  unfolding mark_archived
  mark-HasRuns now db id e = e

  attempt-HasRuns :
      (now : String) (db : Db) (id : ℕ) (s : Status) (e t c : Option String) (count : Bool)
      → s ≢ partial
      → HasRuns runs db
      → HasRuns runs (update_record_result now db id s e t c count)
  unfolding update_record_result
  attempt-HasRuns now db id s e t c count h q = q

  save-HasRuns :
      (today : String) (db : Db) (sessid : String)
      → HasRuns runs db
      → HasRuns runs (save today db sessid)
  unfolding save meta_set
  save-HasRuns today db sessid e = e

  ingest_inbox-HasRuns :
      (config : Config) (env : Surroundings) (db : Db) (disk : Disk) (summary : RunSummary)
      → HasRuns runs db
      → HasRuns runs (ingest_inbox config env db disk summary).db
  unfolding ingest_inbox
  ingest_inbox-HasRuns config env db disk summary e =
      ingest_new_files_keeps (HasRuns runs) insert_file-HasRuns left_by_insert-HasRuns env.stamps 0
        _ _ db _ e

  last_success_kept :
      (env : Surroundings) (db : Db) (out : Outcome)
      → db.runs ≡ runs
      → Written (HasRuns runs) env out
      → last_successful_run out.db
        ≡ (if is_calm out then some env.finished_at else last_successful_run db)
  last_success_kept env db out e w =
      rw
        (
          w.is_last,
          last_run w.before w.run,
          w.verdict,
          w.finished,
          same_runs w.before db (w.kept ∙ sym e),
        )
        refl

-- The health check's time of the last success moves to the end of a pass exactly when the pass
-- raised nothing and was not aborted: after any other one, a crashed one included, it is what it
-- was. This is about a pass that has the lock, is no dry run, and ends.
pub run_pass_last_success :
    (py : Builtins) (config : Config) (env : Surroundings) (sessid : Option String) (db : Db)
    (disk : Disk) (out : Outcome)
    → env.lock_is_free ≡ true
    → run_pass py config env sessid false db disk ≡ some out
    → last_successful_run out.db
      ≡ (if is_calm out then some env.finished_at else last_successful_run db)
run_pass_last_success py config env sessid db disk out free h =
    let runs = db.runs in
    let ways = run_pass_ways py config env sessid false db disk out h in
    elim ways [
      | inl (busy, same) ↦ absurd (ground arith)
      | inr (inl crashed) ↦ last_success_kept runs env db out refl (
          subst (Written (HasRuns runs) env) crashed (
            crash_writes (HasRuns runs) py config env (recompute-HasRuns runs) (mark-HasRuns runs)
              (attempt-HasRuns runs) (save-HasRuns runs) file_not_found_error db disk
              (run_summary false) refl))
      | inr (inr h') ↦
          let step = ingest_inbox config env db disk (run_summary false) in
          elim (after_ingest_ends (HasRuns runs) py config env (recompute-HasRuns runs)
            (mark-HasRuns runs) (attempt-HasRuns runs) (save-HasRuns runs) sessid disk step out h'
            (ingest_inbox-HasRuns runs config env db disk (run_summary false) refl)) [
              | inl (dry, same) ↦
                  let wet : step.summary.dry_run ≡ false =
                    dry_run-ingest_inbox config env db disk (run_summary false) in
                  absurd (ground arith)
              | inr w ↦ last_success_kept runs env db out refl w
            ]
    ]

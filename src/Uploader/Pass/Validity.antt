-- ===== src/Uploader/Pass/Validity.antt =====
-- A pass leaves a valid database.
use ubki_uploader.Prelude.{◌≡◌, inl, inr, String, Bool, Option, some, subst, sym}
use ubki_uploader.Config.{Config}
use ubki_uploader.Db.Schema.{Db}
use ubki_uploader.Db.Validity.Insert.{insert_file-IsValid, left_by_insert-IsValid}
use ubki_uploader.Db.Validity.{
  IsValid, recompute_file_status-IsValid, mark_archived-IsValid, update_record_result-IsValid,
  meta_set-IsValid, insert_run-IsValid,
}
use ubki_uploader.Python.Json.{Builtins}
use ubki_uploader.Uploader.Summary.{RunSummary, run_summary}
use ubki_uploader.Uploader.SessionCache.{save}
use ubki_uploader.Uploader.Folder.{Ingested, file_not_found_error}
use ubki_uploader.Uploader.Folder.Keeps.{ingest_new_files_keeps}
use ubki_uploader.Uploader.Archive.{Disk}
use ubki_uploader.Uploader.Pass.{Surroundings, Outcome, after_ingest, ingest_inbox, run_pass}
use ubki_uploader.Uploader.Pass.Keeps.{Written, after_ingest_ends, crash_writes, run_pass_ways}

save-IsValid :
    (today : String) (db : Db) (sessid : String) → IsValid db → IsValid (save today db sessid)
unfolding save
save-IsValid today db sessid v = meta_set-IsValid _ _ _ (meta_set-IsValid db _ _ v)

Written-IsValid : (env : Surroundings) (out : Outcome) → Written IsValid env out → IsValid out.db
Written-IsValid env out w = subst IsValid (sym w.is_last) (insert_run-IsValid w.before w.run w.kept)

module _ (py : Builtins) (config : Config) (env : Surroundings) (sessid : Option String) where
  after_ingest-IsValid :
      (disk : Disk) (step : Ingested) (out : Outcome)
      → after_ingest py config env sessid disk step ≡ some out
      → IsValid step.db
      → IsValid out.db
  after_ingest-IsValid disk step out h v =
      elim (after_ingest_ends IsValid py config env recompute_file_status-IsValid
        mark_archived-IsValid update_record_result-IsValid save-IsValid sessid disk step out h v) [
          | inl (dry, same) ↦ subst IsValid (sym same) v
          | inr w ↦ Written-IsValid env out w
        ]

  ingest_inbox-IsValid :
      (db : Db) (disk : Disk) (summary : RunSummary)
      → IsValid db
      → IsValid (ingest_inbox config env db disk summary).db
  unfolding ingest_inbox
  ingest_inbox-IsValid db disk summary v =
      ingest_new_files_keeps IsValid insert_file-IsValid left_by_insert-IsValid env.stamps 0 _ _ db
        _ v

  -- A pass that ends leaves a valid database valid, whatever the files, the answers of the bureau
  -- and the exceptions on the way.
  pub run_pass-IsValid :
      (dry_run : Bool) (db : Db) (disk : Disk) (out : Outcome)
      → run_pass py config env sessid dry_run db disk ≡ some out
      → IsValid db
      → IsValid out.db
  run_pass-IsValid dry_run db disk out h v =
      elim (run_pass_ways py config env sessid dry_run db disk out h) [
        | inl (busy, same) ↦ subst IsValid (sym same) v
        | inr (inl crashed) ↦
            subst (λ o. IsValid o.db) crashed
              (Written-IsValid env _ (
                crash_writes IsValid py config env recompute_file_status-IsValid
                  mark_archived-IsValid update_record_result-IsValid save-IsValid
                  file_not_found_error db disk (run_summary dry_run) v))
        | inr (inr h') ↦
            after_ingest-IsValid disk (ingest_inbox config env db disk (run_summary dry_run)) out h'
              (ingest_inbox-IsValid db disk (run_summary dry_run) v)
      ]

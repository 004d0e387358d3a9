-- ===== src/Enricher/Run.antt =====
-- `run_enrich` of app/enricher.py.
pub mod Covered
pub mod Silent
use Prim.Native.String.{◌++◌ as ◌<>◌}
use ubki_uploader.Prelude.{
  ℕ, ◌+◌, String, Bool, true, false, Option, none, some, List, [], ◌∷◌, ◌++◌, length,
}
use ubki_uploader.Python.Json.{Builtins}
use ubki_uploader.Enricher.Summary.{EnrichSummary, build_alert}
use ubki_uploader.Enricher.Process.{
  RawFile, Outside, Failure, Stage, Step, done, failed, process_file,
}

-- An exception is an entry of `errors`, and the run goes on.
abbrev pub recorded : (describe : Failure → String) → RawFile → Step → Stage
recorded describe file (done after) = after
recorded describe file (failed failure after) = record after {
  summary = record after.summary {
    errors = after.summary.errors ++ (file.name <> (": " <> describe failure)) ∷ [];
  };
}

-- The body of the loop of `run_enrich`
unfoldable pub process_one :
    Builtins
    → Outside
    → (vidobes now : String) → (dry_run : Bool) → (describe : Failure → String) → RawFile
    → Stage
    → Stage
process_one py out vidobes now dry_run describe file s =
    recorded describe file (process_file py out vidobes now dry_run file s)

unfoldable pub process_files :
    Builtins
    → Outside
    → (vidobes now : String) → (dry_run : Bool) → (describe : Failure → String) → List RawFile
    → Stage
    → Stage
process_files py out vidobes now dry_run describe [] s = s
process_files py out vidobes now dry_run describe (file ∷ files) s =
    process_files py out vidobes now dry_run describe files
      (process_one py out vidobes now dry_run describe file s)

-- How `run_enrich` ends: it finds the lock taken; it raises, after a message; or it is done, with the
-- alert, where there is one.
pub data EnrichRun : Type 0 where
  lock_busy : EnrichSummary → EnrichRun
  crashed : Stage → (message : String) → EnrichRun
  finished : Stage → (alert : Option String) → EnrichRun

-- The summary after `scan_folder`
abbrev pub start_run : (files skipped : ℕ) → Stage → Stage
start_run files skipped s = record s {
  summary = record s.summary {
    files_seen = files;
    files_skipped = s.summary.files_skipped + skipped;
  };
}

abbrev pub end_run : Stage → EnrichRun
end_run s = finished s (build_alert s.summary)

abbrev pub missing_text : (raw_folder : String) → String
missing_text raw_folder = "data folder not accessible: " <> raw_folder

-- `scanned` is what `scan_folder` gives of the raw folder, with the number of files that it skips, or
-- none where the folder is not there.
unfoldable pub run_enrich :
    Builtins
    → Outside
    → (vidobes now : String) → (dry_run : Bool) → (describe : Failure → String)
    → (raw_folder : String) → (lock_free : Bool) → (scanned : Option (List RawFile × ℕ)) → Stage
    → EnrichRun
run_enrich py out vidobes now dry_run describe raw_folder false scanned s = lock_busy s.summary
run_enrich py out vidobes now dry_run describe raw_folder true none s =
    crashed
      (record s {
        summary = record s.summary { errors = s.summary.errors ++ missing_text raw_folder ∷ [] };
      })
      ("UBKI enricher: збагачення впало з помилкою\n" <> missing_text raw_folder)
run_enrich py out vidobes now dry_run describe raw_folder true (some (files, skipped)) s =
    end_run
      (process_files py out vidobes now dry_run describe files (start_run (length files) skipped s))

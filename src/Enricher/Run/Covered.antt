-- ===== src/Enricher/Run/Covered.antt =====
-- A whole run of the enricher over the files that it found.
use ubki_uploader.Prelude.{ℕ, ◌+◌, ◌-◌, ◌≤◌, String, false, List, [], ◌∷◌, arith}
use ubki_uploader.Python.Json.{Builtins}
use ubki_uploader.Enricher.Summary.{EnrichSummary}
use ubki_uploader.Enricher.Process.{
  RawFile, Outside, Failure, Stage, Step, done, failed, process_file,
}
use ubki_uploader.Enricher.Run.{recorded, process_one, process_files}
use ubki_uploader.Enricher.Process.Conserves.{LeavesBalanced, process_file-LeavesBalanced}

-- No line is counted as enriched or quarantined that was not read.
abbrev pub IsCovered : EnrichSummary → Type 0
IsCovered s = s.lines_enriched + s.lines_quarantined ≤ s.lines_total

recorded-IsCovered :
    (lost : ℕ) (describe : Failure → String) (file : RawFile) (step : Step)
    → LeavesBalanced lost step
    → IsCovered (recorded describe file step).summary
recorded-IsCovered lost describe file (done after) h = omega (arith, h)
recorded-IsCovered lost describe file (failed failure after) h = omega (arith, h)

module _ (py : Builtins) (out : Outside) (vidobes now : String) (describe : Failure → String) where
  process_one-IsCovered :
      (file : RawFile) (s : Stage)
      → IsCovered s.summary
      → IsCovered (process_one py out vidobes now false describe file s).summary
  unfolding process_one
  process_one-IsCovered file s room =
      let lost = s.summary.lines_total - (s.summary.lines_enriched + s.summary.lines_quarantined) in
      recorded-IsCovered lost describe file (process_file py out vidobes now false file s)
        (process_file-LeavesBalanced lost py out vidobes now file s (omega (arith, room)))

  -- In a run no more lines are counted as enriched or quarantined than were read, whichever of the
  -- files fail, and wherever they do.
  pub process_files-IsCovered :
      (files : List RawFile) (s : Stage)
      → IsCovered s.summary
      → IsCovered (process_files py out vidobes now false describe files s).summary
  unfolding process_files
  process_files-IsCovered [] s room = room
  process_files-IsCovered (file ∷ files) s room =
      process_files-IsCovered files (process_one py out vidobes now false describe file s)
        (process_one-IsCovered file s room)

-- ===== src/Tests/Days.antt =====
-- A whole pass over a folder with a new file, a hidden one and one that does not match.
use ubki_uploader.Prelude.{
  ℕ, ◌+◌, ◌≡◌, refl, String, Bool, true, false, not, none, some, List, [], ◌∷◌, arith, length, All,
  count_where, select, order_by, str_eq, ◌==◌, if◌then◌else◌,
}
use ubki_uploader.Db.Records.{sendable_records}
use ubki_uploader.Db.Validity.{IsValid}
use ubki_uploader.Db.Meta.{last_successful_run}
use ubki_uploader.Uploader.Summary.{run_summary}
use ubki_uploader.Uploader.Folder.{
  Entry, Stamp, goes_on, name_before, scan_folder, scan, ingest_file, ingest_text, ingest_new,
  ingest_new_files, read_lines, rstrip_newline,
}
use ubki_uploader.Uploader.Folder.Scan.{is_eligible, is_foreign, scan_folder_lem}
use ubki_uploader.Uploader.Folder.Again.{ingest_new_files_twice}
use ubki_uploader.Uploader.Archive.{Disk, Archived, is_completed, archive_completed_files}
use ubki_uploader.Uploader.Archive.Complete.{archive_completes}
use ubki_uploader.Uploader.Wave.{Event}
use ubki_uploader.Uploader.Pass.{Surroundings, Outcome, ingest_inbox, run_pass}
use ubki_uploader.Uploader.Pass.Ends.{run_pass_ends}
use ubki_uploader.Uploader.Pass.Keeps.{is_calm}
use ubki_uploader.Uploader.Pass.Validity.{run_pass-IsValid}
use ubki_uploader.Uploader.Pass.Runs.{run_pass_last_success}
use ubki_uploader.Python.Strip.{strip}
use ubki_uploader.Db.Files.{insert_file, get_file_by_identity}
use ubki_uploader.Tests.Samples.{builtins, config, db, accepted, session_granted}
use ubki_uploader.Tests.Validity.{db-IsValid}

abbrev entry : (name : String) (mtime : ℕ) (sha256 : String) → List String → Entry
entry name mtime sha256 lines = record {
  name = name;
  is_file = true;
  mtime = mtime;
  sha256 = sha256;
  size = 10;
  lines = some lines;
}

abbrev new_file : Entry
new_file = entry "b.txt" 100 "bb" ("{4}\n" ∷ "\n" ∷ "{5}" ∷ [])

abbrev folder : List Entry
folder =
    entry ".b.txt.tmp" 100 "cc" []
    ∷ new_file
    ∷ entry "notes.md" 100 "dd" []
    ∷ entry "c.txt" 900 "ee" []
    ∷ []

abbrev disk : Disk
disk = record { inbox = folder; archive = [] }

abbrev matches : String → Bool
matches name = not (str_eq name "notes.md")

abbrev stamps : ℕ → Stamp
stamps n = record { fresh = λ line_no. if line_no == 1 then "v" else "w"; now = "t1" }

lines_read : read_lines ("{4}\n" ∷ "\n" ∷ "{5}" ∷ []) ≡ "{4}" ∷ "{5}" ∷ []
unfolding read_lines rstrip_newline strip
lines_read = refl

-- The temporary file is passed over, the foreign one is skipped, and the last one is too new.
scan_folder_lem_example : scan_folder matches 1000 config folder (run_summary false) ≡ (
  select (is_eligible matches 1000 config) (order_by name_before folder),
  record (run_summary false) {
    files_skipped = 0 + count_where (is_foreign matches 1000 config) folder;
  },
)
scan_folder_lem_example = scan_folder_lem matches 1000 config folder (run_summary false)

ingested_well :
    (ingest_new_files stamps 0 (new_file ∷ []) false db (run_summary false)).raised ≡ none
unfolding ingest_new_files ingest_file ingest_text ingest_new get_file_by_identity insert_file
    read_lines rstrip_newline strip
ingested_well = refl

ingest_new_files_twice_example :
    ingest_new_files stamps 7
      (new_file ∷ [])
      false
      (ingest_new_files stamps 0 (new_file ∷ []) false db (run_summary false)).db
      (run_summary false)
    ≡ goes_on
        (ingest_new_files stamps 0 (new_file ∷ []) false db (run_summary false)).db
        (run_summary false)
ingest_new_files_twice_example =
    ingest_new_files_twice stamps stamps 0 7 (new_file ∷ []) db (run_summary false)
      (run_summary false) ingested_well

abbrev archived : Archived
archived =
    archive_completed_files "t3" (record { db = db; disk = disk; summary = run_summary false })

archive_completes_example : All (λ f. is_completed archived.db f ≡ false) archived.db.files
archive_completes_example =
    archive_completes "t3" (record { db = db; disk = disk; summary = run_summary false })

abbrev answered : Event
answered = record { pick = 0; reply = accepted; now = "t2" }

abbrev surroundings : Surroundings
surroundings = record {
  lock_is_free = true;
  folder_is_there = true;
  matches = matches;
  seconds = 1000;
  kyiv_day = "d";
  started_at = "t0";
  recomputed_at = "t3";
  archived_at = "t3";
  finished_at = "t4";
  stamps = stamps;
  network = record {
    auth_reply = session_granted;
    reauth_reply = session_granted;
    first_events = answered ∷ answered ∷ answered ∷ answered ∷ answered ∷ [];
    resend_events = answered ∷ answered ∷ answered ∷ answered ∷ answered ∷ [];
  };
  text_of = λ exc. "exception";
}

-- The three lines of the old file and the two of the new one.
five :
    length (sendable_records (ingest_inbox config surroundings db disk (run_summary false)).db 5)
    ≡ 5
unfolding sendable_records ingest_inbox scan_folder scan ingest_new_files ingest_file ingest_text
    ingest_new get_file_by_identity insert_file read_lines rstrip_newline strip
five = refl

run_pass_ends_example :
    (out : Outcome) × (run_pass builtins config surroundings none false db disk ≡ some out)
run_pass_ends_example =
    run_pass_ends builtins config surroundings none false db disk (rw five (omega arith))
      (rw five (omega arith))

pass_ends : (out : Outcome) × (run_pass builtins config surroundings none false db disk ≡ some out)
pass_ends =
    run_pass_ends builtins config surroundings none false db disk (rw five (omega arith))
      (rw five (omega arith))

run_pass-IsValid_example : IsValid pass_ends.0.db
run_pass-IsValid_example =
    run_pass-IsValid builtins config surroundings none false db disk pass_ends.0 pass_ends.1
      db-IsValid

run_pass_last_success_example :
    last_successful_run pass_ends.0.db
    ≡ (if is_calm pass_ends.0 then some "t4" else last_successful_run db)
run_pass_last_success_example =
    run_pass_last_success builtins config surroundings none db disk pass_ends.0 refl pass_ends.1

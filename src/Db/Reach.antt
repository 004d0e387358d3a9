-- ===== src/Db/Reach.antt =====
-- The databases that the helpers of app/db.py build, one write after another.
use ubki_uploader.Prelude.{ℕ, ◌≡◌, ◌≢◌, Bool, List, Option, none, some, String}
use ubki_uploader.Db.Schema.{Status, partial, RunRow, Db, empty}
use ubki_uploader.Db.Files.{insert_file, left_by_insert, recompute_file_status, mark_archived}
use ubki_uploader.Db.Records.{update_record_result, reset_records, Target}
use ubki_uploader.Db.Meta.{insert_run, meta_set, insert_enriched_file}
use ubki_uploader.Db.Validity.Insert.{insert_file-IsValid, left_by_insert-IsValid}
use ubki_uploader.Db.Validity.{
  IsValid, recompute_file_status-IsValid, mark_archived-IsValid, update_record_result-IsValid,
  reset_records-IsValid, insert_run-IsValid, meta_set-IsValid, insert_enriched_file-IsValid,
  empty-IsValid,
}

pub data Write (db : Db) : Db → Type 0 where
  inserted :
      (fresh : ℕ → String) (now filename sha256 : String) (size : ℕ) (lines : List String)
      (file_id : ℕ) {db' : Db}
      → insert_file fresh now db filename sha256 size lines ≡ some (file_id, db')
      → Write db db'
  given_up :
      (fresh : ℕ → String) (now filename sha256 : String) (size : ℕ) (lines : List String)
      → insert_file fresh now db filename sha256 size lines ≡ none
      → Write db (left_by_insert fresh now db filename sha256 size lines)
  recomputed : (now : String) (file_id : ℕ) → Write db (recompute_file_status now db file_id).1
  archived : (now : String) (file_id : ℕ) → Write db (mark_archived now db file_id)
  attempted :
      (now : String) (id : ℕ) (s : Status) (last_error response codes : Option String)
      (count_attempt : Bool)
      → s ≢ partial
      → Write db (update_record_result now db id s last_error response codes count_attempt)
  reset : (t : Target) → Write db (reset_records db t).1
  run_logged : (run : RunRow) → Write db (insert_run db run)
  meta_written : (key value : String) → Write db (meta_set db key value)
  enriched :
      (now filename sha256 : String) (total good bad : ℕ) {db' : Db}
      → insert_enriched_file now db filename sha256 total good bad ≡ some db'
      → Write db db'

pub data Built : Db → Type 0 where
  fresh_schema : Built empty
  then_write : {db db' : Db} → Built db → Write db db' → Built db'

pub Write-IsValid : {db db' : Db} → Write db db' → IsValid db → IsValid db'
Write-IsValid {db} (inserted fresh now f s size lines i {db' = d} h) v =
    insert_file-IsValid fresh now db f s size lines i d v h
Write-IsValid {db} (given_up fresh now f s size lines h) v =
    left_by_insert-IsValid fresh now db f s size lines v
Write-IsValid {db} (recomputed now i) v = recompute_file_status-IsValid now db i v
Write-IsValid {db} (archived now i) v = mark_archived-IsValid now db i v
Write-IsValid {db} (attempted now i s e t c k h) v =
    update_record_result-IsValid now db i s e t c k h v
Write-IsValid {db} (reset t) v = reset_records-IsValid db t v
Write-IsValid {db} (run_logged run) v = insert_run-IsValid db run v
Write-IsValid {db} (meta_written k w) v = meta_set-IsValid db k w v
Write-IsValid {db} (enriched now f s t g b {db' = d} h) v =
    insert_enriched_file-IsValid now db f s t g b d v h

-- Whatever writes the helpers make, from an empty schema on, where no result is written with the
-- status `partial`, which no result of the client has: rowids of files and of records rise
-- and so are unique, no two files have one identity, every record refers to a file, no record is
-- `partial`, `sent_at` is set exactly on the records that are `sent`, and a file that is `sent` or
-- `rejected` has a completion time.
pub Built-IsValid : {db : Db} → Built db → IsValid db
Built-IsValid fresh_schema = empty-IsValid
Built-IsValid (then_write b w) = Write-IsValid w (Built-IsValid b)

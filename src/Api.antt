-- ===== src/Api.antt =====
-- The handlers of app/api.py, over the database that a request opens. The checks of the query's
-- bounds are FastAPI's.
pub mod Retry
pub mod Health
use mathlib.Core.List.{reverse}
use Prim.Native.Nat.{Ordering}
use Prim.Native.String.{compare, ◌++◌ as ◌<>◌}
use ubki_uploader.Prelude.{
  ℕ, zero, suc, ◌+◌, String, Bool, true, false, ◌||◌, ◌&&◌, not, Option, none, some, List, [], ◌∷◌,
  ◌++◌, length, any, take, drop, select, select_one, count_where, order_by, str_eq, ◌==◌, ltb, leb,
  if◌then◌else◌,
}
use ubki_uploader.Db.Schema.{
  Status, pending, partial, sent, failed, rejected, ◌is◌, FileRow, RecordRow, RunRow, Db,
}
use ubki_uploader.Db.Files.{recompute_file_status}
use ubki_uploader.Db.Records.{by_file, by_record, reset_records}
use ubki_uploader.Db.Meta.{recent_runs, last_successful_run, last_sent_at}
use ubki_uploader.Python.Json.{show}

-- What a handler answers: its result, or the status code and detail of an HTTPException.
pub data Answer (A : Type 0) : Type 0 where
  answered : A → Answer A
  refused : (status_code : ℕ) (detail : String) → Answer A

-- `require_token`, before a handler.
unfoldable pub with_token :
    {A : Type 0} (api_token x_api_token : String) → Db → Answer A × Db → Answer A × Db
with_token api_token x_api_token db handled =
    if str_eq x_api_token api_token
    then handled
    else (refused 401 "invalid or missing X-API-Token", db)

unfoldable pub list_runs : Db → (limit : ℕ) → List RunRow
list_runs db limit = recent_runs db limit

-- FILE_STATUSES
abbrev pub parse_status : String → Option Status
parse_status s =
    if str_eq s "pending"
    then some pending
    else if str_eq s "partial"
    then some partial
    else if str_eq s "sent"
    then some sent
    else if str_eq s "failed"
    then some failed
    else if str_eq s "rejected"
    then some rejected
    else none

abbrev pub page : (FileRow → Bool) → Db → (limit offset : ℕ) → List FileRow
page p db limit offset = take limit (drop offset (select p (reverse db.files)))

unfoldable pub list_files : Db → (status : Option String) (limit offset : ℕ) → Answer (List FileRow)
list_files db none limit offset = answered (page (λ f. true) db limit offset)
list_files db (some text) limit offset = elim (parse_status text) [
  | none ↦ refused 422 "status must be one of ('pending', 'partial', 'sent', 'failed', 'rejected')"
  | some status ↦ answered (page (λ f. f.status is status) db limit offset)
]

abbrev pub find_file : Db → ℕ → Option FileRow
find_file db file_id = select_one (λ f. f.id == file_id) db.files

abbrev pub line_no_before : RecordRow → RecordRow → Bool
line_no_before r q = leb r.line_no q.line_no

-- The records are whole rows here; the handler leaves out `file_id` and `raw_line`, and parses
-- `ubki_response`.
unfoldable pub file_details : Db → (file_id : ℕ) → Answer (FileRow × List RecordRow)
file_details db file_id = elim (find_file db file_id) [
  | none ↦ refused 404 "file not found"
  | some f ↦ answered (f, order_by line_no_before (select (λ r. r.file_id == file_id) db.records))
]

unfoldable pub retry_file : (now : String) → Db → (file_id : ℕ) → Answer ℕ × Db
retry_file now db file_id =
    let (count, reset) = reset_records db (by_file file_id) in
    elim (find_file db file_id) [
      | none ↦ (refused 404 "file not found", db)
      | some f ↦ (answered count, (recompute_file_status now reset file_id).1)
    ]

abbrev pub find_row : Db → ℕ → Option RecordRow
find_row db record_id = select_one (λ r. r.id == record_id) db.records

unfoldable pub retry_record : (now : String) → Db → (record_id : ℕ) → Answer ℕ × Db
retry_record now db record_id =
    let (count, reset) = reset_records db (by_record record_id) in
    elim (find_row db record_id) [
      | none ↦ (refused 404 "record not found", db)
      | some r ↦
          if count == 0
          then (refused 409 "record is not failed/rejected", reset)
          else (answered count, (recompute_file_status now reset r.file_id).1)
    ]

-- What `health` reads beside the database: `is_stale t` is that the time lies more than
-- STALE_RUN_AFTER back, `cutoff` is the start of the window, and `exceeds n total` compares the
-- quotient with health_rejected_max_ratio, for a total that is not zero.
pub record HealthCheck : Type 0 where
  pub retry_cap : ℕ
  pub folder_accessible : Bool
  pub is_stale : String → Bool
  pub cutoff : String
  pub exceeds : ℕ → ℕ → Bool

-- `created_at >= ?`
abbrev pub is_recent : String → FileRow → Bool
is_recent cutoff f = elim (compare f.created_at cutoff) [ Ordering.lt ↦ false | _ ↦ true ]

abbrev pub sum_lines : List FileRow → ℕ
sum_lines [] = 0
sum_lines (f ∷ fs) = f.lines_total + sum_lines fs

unfoldable pub recent_total : Db → (cutoff : String) → ℕ
recent_total db cutoff = sum_lines (select (is_recent cutoff) db.files)

unfoldable pub recent_rejected : Db → (cutoff : String) → ℕ
recent_rejected db cutoff =
    count_where
      (λ r. r.status is rejected && any (λ f. f.id == r.file_id && is_recent cutoff f) db.files)
      db.records

unfoldable pub failed_over_cap : Db → (retry_cap : ℕ) → ℕ
failed_over_cap db retry_cap =
    count_where (λ r. r.status is failed && leb retry_cap r.attempts) db.records

pub data Reason : Type 0 where
  folder_not_accessible no_run_yet : Reason
  last_run_stale : (last_run : String) → Reason
  over_retry_cap : ℕ → Reason
  too_many_rejected : (count total : ℕ) → Reason

abbrev pub reason_if : Bool → Reason → List Reason
reason_if true r = r ∷ []
reason_if false r = []

abbrev pub run_reasons : HealthCheck → Option String → List Reason
run_reasons check none = no_run_yet ∷ []
run_reasons check (some t) = reason_if (check.is_stale t) (last_run_stale t)

-- `reasons`, of which the texts are left out; the service is degraded where there is one.
unfoldable pub health : HealthCheck → Db → List Reason
health check db =
    let over = failed_over_cap db check.retry_cap in
    let total = recent_total db check.cutoff in
    let count = recent_rejected db check.cutoff in
    reason_if (not check.folder_accessible) folder_not_accessible
    ++ (run_reasons check (last_successful_run db)
        ++ (reason_if (ltb 0 over) (over_retry_cap over)
            ++ reason_if (ltb 0 total && check.exceeds count total)
                (too_many_rejected count total)))

-- ===== src/Db/Records.antt =====
-- app/db.py: the helpers on the `records` table.
pub mod Sendable
pub mod Retry
use ubki_uploader.Prelude.{
  ℕ, zero, suc, ◌+◌, String, Bool, true, false, ◌&&◌, ◌||◌, Option, none, some, List, [], ◌∷◌, any,
  ◌==◌, ltb, leb, if◌then◌else◌, select, count_where, update_where, order_by,
}
use ubki_uploader.Db.Schema.{Status, pending, sent, failed, rejected, ◌is◌, FileRow, RecordRow, Db}

-- r.status = 'pending' OR (r.status = 'failed' AND r.attempts < retry_cap)
abbrev pub is_sendable : ℕ → RecordRow → Bool
is_sendable retry_cap r = r.status is pending || r.status is failed && ltb r.attempts retry_cap

-- JOIN files f ON f.id = r.file_id; at most one file has the id, so a row joins once or not at all
abbrev pub has_file : Db → RecordRow → Bool
has_file db r = any (λ f. f.id == r.file_id) db.files

-- ORDER BY r.file_id, r.line_no
abbrev pub line_before : RecordRow → RecordRow → Bool
line_before r q = ltb r.file_id q.file_id || r.file_id == q.file_id && leb r.line_no q.line_no

unfoldable pub sendable_records : Db → ℕ → List RecordRow
unfolding order_by
sendable_records db retry_cap =
    order_by line_before (select (λ r. has_file db r && is_sendable retry_cap r) db.records)

-- The new values of UPDATE records SET ... in `update_record_result`.
abbrev pub with_result :
    (now : String) (status : Status) (last_error ubki_response warn_codes : Option String)
    (count_attempt : Bool)
    → RecordRow
    → RecordRow
with_result now status last_error ubki_response warn_codes count_attempt r = record r {
  status = status;
  attempts = r.attempts + (if count_attempt then 1 else 0);
  last_error = last_error;
  ubki_response = ubki_response;
  warn_codes = warn_codes;
  sent_at = if status is sent then some now else none;
}

unfoldable pub update_record_result :
    (now : String)
    → Db
    → ℕ
    → (status : Status) (last_error ubki_response warn_codes : Option String) (count_attempt : Bool)
    → Db
update_record_result now db record_id status last_error ubki_response warn_codes count_attempt =
    record db {
      records =
          update_where (λ r. r.id == record_id)
            (with_result now status last_error ubki_response warn_codes count_attempt) db.records;
    }

-- The keyword argument of `reset_records`, which takes exactly one of the two.
pub data Target : Type 0 where
  by_file by_record : ℕ → Target

abbrev pub is_target : Target → RecordRow → Bool
is_target (by_file file_id) r = r.file_id == file_id
is_target (by_record record_id) r = r.id == record_id

-- WHERE target AND status IN ('failed', 'rejected')
abbrev pub is_resettable : Target → RecordRow → Bool
is_resettable t r = is_target t r && (r.status is failed || r.status is rejected)

abbrev pub reset_row : RecordRow → RecordRow
reset_row r = record r { status = pending; attempts = 0; last_error = none; warn_codes = none }

-- The number of rows changed, and the database.
unfoldable pub reset_records : Db → Target → ℕ × Db
reset_records db t = (
  count_where (is_resettable t) db.records,
  record db { records = update_where (is_resettable t) reset_row db.records },
)

-- ===== src/Db/Files.antt =====
-- app/db.py: the helpers on the `files` table, and those on `records` that go by file.
pub mod Aggregate
pub mod Ingest
use ubki_uploader.Prelude.{
  ℕ, zero, suc, ◌+◌, String, Bool, true, false, ◌&&◌, ◌||◌, not, Option, none, some, List, [], ◌∷◌,
  ◌++◌, map, length, any, all, ◌==◌, str_eq, if◌then◌else◌, select, select_one, update_where,
}
use ubki_uploader.Db.Schema.{
  Status, pending, partial, sent, failed, rejected, ◌is◌, FileRow, RecordRow, Db, next_id, file_ids,
  record_ids,
}

abbrev pub has_identity : String → String → FileRow → Bool
has_identity filename sha256 f = str_eq f.filename filename && str_eq f.sha256 sha256

unfoldable pub get_file_by_identity : Db → String → String → Option FileRow
get_file_by_identity db filename sha256 = select_one (has_identity filename sha256) db.files

abbrev pub new_row :
    (fresh : ℕ → String) (now : String) (file_id id line_no : ℕ) → String → RecordRow
new_row fresh now file_id id line_no raw_line = record {
  id = id;
  uuid = fresh line_no;
  file_id = file_id;
  line_no = line_no;
  raw_line = raw_line;
  status = pending;
  attempts = 0;
  last_error = none;
  ubki_response = none;
  warn_codes = none;
  created_at = now;
  sent_at = none;
}

-- The rows of `executemany`, `enumerate(lines, start=1)`. `fresh n` is the n-th `uuid4().hex`.
unfoldable pub new_records :
    (fresh : ℕ → String) (now : String) (file_id id line_no : ℕ) → List String → List RecordRow
new_records fresh now file_id id line_no [] = []
new_records fresh now file_id id line_no (raw_line ∷ lines) =
    new_row fresh now file_id id line_no raw_line
    ∷ new_records fresh now file_id (suc id) (suc line_no) lines

-- UNIQUE (uuid)
unfoldable pub has_uuid_clash : List RecordRow → List RecordRow → Bool
has_uuid_clash old [] = false
has_uuid_clash old (r ∷ new) = any (λ q. str_eq q.uuid r.uuid) old || has_uuid_clash (r ∷ old) new

-- The row of INSERT INTO files.
abbrev pub new_file : (now : String) (id : ℕ) → String → String → (size lines_total : ℕ) → FileRow
new_file now id filename sha256 size_bytes lines_total = record {
  id = id;
  filename = filename;
  sha256 = sha256;
  size_bytes = size_bytes;
  lines_total = lines_total;
  status = pending;
  created_at = now;
  completed_at = none;
  archived_at = none;
}

-- The new file's id and the database, or `none` for the IntegrityError of a UNIQUE constraint.
unfoldable pub insert_file :
    (fresh : ℕ → String) (now : String) → Db → String → String → ℕ → List String → Option (ℕ × Db)
unfolding new_records has_uuid_clash next_id
insert_file fresh now db filename sha256 size_bytes lines =
    let file_id = next_id (file_ids db) in
    let rows = new_records fresh now file_id (next_id (record_ids db)) 1 lines in
    let file = new_file now file_id filename sha256 size_bytes (length lines) in
    if any (has_identity filename sha256) db.files || has_uuid_clash db.records rows
    then none
    else some (file_id, record db { files = db.files ++ file ∷ []; records = db.records ++ rows })

-- The rows that `executemany` inserts before the first one whose uuid is there already.
unfoldable pub before_clash : List RecordRow → List RecordRow → List RecordRow
before_clash old [] = []
before_clash old (r ∷ new) =
    let rest = before_clash (r ∷ old) new in
    if any (λ q. str_eq q.uuid r.uuid) old then [] else r ∷ rest

-- The database as the connection sees it after a call that raises IntegrityError: `commit` was not
-- reached, so what was inserted stays in the open transaction, which the next write commits.
unfoldable pub left_by_insert :
    (fresh : ℕ → String) (now : String) → Db → String → String → ℕ → List String → Db
unfolding new_records next_id
left_by_insert fresh now db filename sha256 size_bytes lines =
    let file_id = next_id (file_ids db) in
    let rows = new_records fresh now file_id (next_id (record_ids db)) 1 lines in
    let file = new_file now file_id filename sha256 size_bytes (length lines) in
    if any (has_identity filename sha256) db.files then db else record db {
      files = db.files ++ file ∷ [];
      records = db.records ++ before_clash db.records rows;
    }

-- The ladder of `recompute_file_status`, over the statuses of the file's records.
unfoldable pub aggregate : List Status → Status
aggregate statuses =
    if all (λ s. s is sent) statuses
    then sent
    else if all (λ s. s is pending) statuses
    then pending
    else if any (λ s. s is failed) statuses
    then failed
    else if all (λ s. s is rejected || s is sent) statuses
    then rejected
    else partial

-- COALESCE(completed_at, ?)
abbrev pub coalesce : Option String → Option String → Option String
coalesce (some t) _ = some t
coalesce none t = t

abbrev pub statuses_of : Db → ℕ → List Status
statuses_of db file_id = map (λ r. r.status) (select (λ r. r.file_id == file_id) db.records)

unfoldable pub recompute_file_status : (now : String) → Db → ℕ → Status × Db
unfolding aggregate
recompute_file_status now db file_id =
    let status = aggregate (statuses_of db file_id) in
    let completed = if status is sent || status is rejected then some now else none in
    (
      status,
      record db {
        files =
            update_where (λ f. f.id == file_id)
              (λ f. record f { status = status; completed_at = coalesce f.completed_at completed })
              db.files;
      },
    )

unfoldable pub mark_archived : (now : String) → Db → ℕ → Db
mark_archived now db file_id = record db {
  files = update_where (λ f. f.id == file_id) (λ f. record f { archived_at = some now }) db.files;
}

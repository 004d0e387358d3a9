-- ===== src/Db/Validity/Insert.antt =====
-- An insertion of a file, also one that is given up, leaves the database valid.
use ubki_uploader.Prelude.{
  ℕ, ◌<◌, ◌≡◌, ◌≢◌, ap, true, false, ◌||◌, List, [], ◌∷◌, ◌++◌, none, some, String, map, any, arith,
  ◌==◌, All, All-append, All-imp, IsRising-append, IsDistinct-concat, eq_iff, length, Bool-cases,
  inl, inr,
}
use mathlib.Core.List.{map-append}
use ubki_uploader.Db.Schema.{pending, FileRow, RecordRow, Db, next_id, file_ids, record_ids}
use ubki_uploader.Db.Files.{insert_file, new_file, new_records, left_by_insert, has_identity}
use ubki_uploader.Db.Files.Ingest.{
  RefersBelow, IsUnsent, new_records-IsUnsent, id-new_records, numbers_from, numbers_from-IsRising,
  at_least_itself, below-next_id, insert_file_parts, before_clash-new_records,
}
use ubki_uploader.Db.Validity.{IsValid, IsSound, IsStamped, identity, is_file}

is_file-below :
    (fs : List FileRow) (i k : ℕ)
    → All (λ n. n < k) (map (λ f. f.id) fs)
    → is_file fs i ≡ true
    → i < k
is_file-below [] i k below h = absurd (ground arith)
is_file-below (f ∷ fs) i k (b, below) h = ground (arith, is_file-below fs i k below)

is_file-append :
    (fs : List FileRow) (f : FileRow) (i : ℕ)
    → is_file (fs ++ f ∷ []) i ≡ (is_file fs i || f.id == i)
is_file-append [] f i = ground arith
is_file-append (g ∷ fs) f i = ground (arith, is_file-append fs f i)

-- Every record of a valid database refers to a file below the next rowid.
pub IsValid-RefersBelow : (db : Db) → IsValid db → RefersBelow (next_id (file_ids db)) db.records
IsValid-RefersBelow db v =
    All-imp (λ r. is_file db.files r.file_id ≡ true) (λ r. r.file_id < next_id (file_ids db))
      (λ r h. is_file-below db.files r.file_id _ (below-next_id (file_ids db)) h) db.records v.owned

other_identities :
    (filename sha256 : String) (fs : List FileRow)
    → any (has_identity filename sha256) fs ≡ false
    → All (λ k. k ≢ (filename, sha256)) (map identity fs)
other_identities filename sha256 [] h = tt
other_identities filename sha256 (f ∷ fs) h = (
  λ e. ground (
    arith,
    eq_iff f.filename filename,
    eq_iff f.sha256 sha256,
    ap (λ (k : String × String). k.0) e,
    ap (λ (k : String × String). k.1) e,
  ),
  other_identities filename sha256 fs (ground arith),
)

new_row-IsSound : (r : RecordRow) → r.status ≡ pending → r.sent_at ≡ none → IsSound r
new_row-IsSound r p n = (λ e. cc, rw (p, n))

-- A file with rows for lines leaves the database valid: its rowids are new, its identity is new,
-- and its records refer to it.
new_rows-IsValid :
    (fresh : ℕ → String) (now : String) (db : Db) (filename sha256 : String) (size total : ℕ)
    (lines : List String)
    → IsValid db
    → any (has_identity filename sha256) db.files ≡ false
    → IsValid (record db {
      files = db.files ++ new_file now (next_id (file_ids db)) filename sha256 size total ∷ [];
      records =
          db.records
          ++ new_records fresh now (next_id (file_ids db)) (next_id (record_ids db)) 1 lines;
    })
new_rows-IsValid fresh now db filename sha256 size total lines v new =
    let i = next_id (file_ids db) in
    let id = next_id (record_ids db) in
    let rows-IsUnsent = new_records-IsUnsent fresh now i id 1 lines in
    record {
      files_rising = rw map-append (
          IsRising-append i (file_ids db) (i ∷ []) v.files_rising (below-next_id (file_ids db))
            (tt, tt) (omega arith, tt));
      records_rising =
          rw (map-append, id-new_records)
            (IsRising-append id (record_ids db) (numbers_from id lines) v.records_rising
              (below-next_id (record_ids db)) (numbers_from-IsRising id lines)
              (at_least_itself id lines));
      identities = rw map-append (
          IsDistinct-concat (map identity db.files) (filename, sha256) v.identities
            (other_identities filename sha256 db.files new));
      owned =
          All-append _ db.records _
            (All-imp (λ r. is_file db.files r.file_id ≡ true) _
              (λ r q. rw is_file-append (ground (arith, q))) db.records v.owned)
            (All-imp (IsUnsent i) _ (λ r q. rw is_file-append (ground (arith, q.0))) _
              rows-IsUnsent);
      sound =
          All-append IsSound db.records _ v.sound (
            All-imp (IsUnsent i) IsSound (λ r (_, p, _, n). new_row-IsSound r p n) _ rows-IsUnsent);
      stamped = All-append IsStamped db.files _ v.stamped ((λ q. cc q), tt);
    }

-- A file that is ingested leaves the database valid.
pub insert_file-IsValid :
    (fresh : ℕ → String) (now : String) (db : Db) (filename sha256 : String) (size : ℕ)
    (lines : List String) (file_id : ℕ) (db' : Db)
    → IsValid db
    → insert_file fresh now db filename sha256 size lines ≡ some (file_id, db')
    → IsValid db'
insert_file-IsValid fresh now db filename sha256 size lines file_id db' v h =
    let (i, new, parts) = insert_file_parts fresh now db filename sha256 size lines file_id db' h in
    rw parts (new_rows-IsValid fresh now db filename sha256 size (length lines) lines v new)

-- So does an insertion that stops at a uuid.
pub left_by_insert-IsValid :
    (fresh : ℕ → String) (now : String) (db : Db) (filename sha256 : String) (size : ℕ)
    (lines : List String)
    → IsValid db
    → IsValid (left_by_insert fresh now db filename sha256 size lines)
unfolding left_by_insert
left_by_insert-IsValid fresh now db filename sha256 size lines v =
    let i = next_id (file_ids db) in
    let id = next_id (record_ids db) in
    let (first, e) = before_clash-new_records fresh now db.records i id 1 lines in
    elim (Bool-cases (any (has_identity filename sha256) db.files)) [
      | inl known ↦ rw (known, left_by_insert) v
      | inr new ↦
          rw (new, left_by_insert, e)
            (new_rows-IsValid fresh now db filename sha256 size (length lines) first v new)
    ]

-- ===== src/Db/Validity.antt =====
-- The well-formedness of the database, which every helper that writes keeps.
pub mod Insert
use ubki_uploader.Prelude.{
  ℕ, ◌<◌, ◌≡◌, ◌≢◌, refl, ap, ◌∙◌, Bool, true, false, ◌||◌, List, [], ◌∷◌, ◌++◌, Option, none, some,
  String, map, any, arith, ◌==◌, if◌then◌else◌, All, All-append, All-imp, All-update_where,
  map-update_where, update_where, IsRising, IsRising-append, IsDistinct, IsDistinct-concat, eq_iff,
  length, Bool-cases, inl, inr,
}
use mathlib.Core.List.{map-append}
use ubki_uploader.Db.Schema.{
  Status, pending, partial, sent, rejected, ◌is◌, FileRow, RecordRow, Db, RunRow, empty, next_id,
  file_ids, record_ids,
}
use ubki_uploader.Db.Files.{
  insert_file, new_file, new_records, left_by_insert, has_identity, recompute_file_status,
  mark_archived, aggregate, statuses_of, coalesce,
}
use ubki_uploader.Db.Files.Ingest.{
  RefersBelow, IsUnsent, new_records-IsUnsent, id-new_records, numbers_from, numbers_from-IsRising,
  at_least_itself, below-next_id, insert_file_parts, before_clash-new_records,
}
use ubki_uploader.Db.Meta.{insert_run, meta_set, insert_enriched_file}
use ubki_uploader.Db.Records.{
  update_record_result, with_result, reset_records, reset_row, is_resettable, Target, by_file,
  by_record,
}

abbrev pub is_some {ℓ} : {A : Type ℓ} → Option A → Bool
is_some none = false
is_some (some a) = true

-- REFERENCES files(id)
abbrev pub is_file : List FileRow → ℕ → Bool
is_file fs i = any (λ f. f.id == i) fs

-- A record's status is one of RECORD_STATUSES, and `sent_at` is set exactly on the sent ones.
abbrev pub IsSound : RecordRow → Type 0
IsSound r = (r.status ≢ partial) × ((r.status is sent) ≡ is_some r.sent_at)

-- A file is completed only if it is, or was, `sent` or `rejected`; such a file has been completed.
abbrev pub IsStamped : FileRow → Type 0
IsStamped f = (f.status is sent || f.status is rejected) ≡ true → is_some f.completed_at ≡ true

abbrev pub identity : FileRow → String × String
identity f = (f.filename, f.sha256)

pub record IsValid (db : Db) : Type 0 where
  pub files_rising : IsRising (file_ids db)
  pub records_rising : IsRising (record_ids db)
  pub identities : IsDistinct (map identity db.files)
  pub owned : All (λ r. is_file db.files r.file_id ≡ true) db.records
  pub sound : All IsSound db.records
  pub stamped : All IsStamped db.files

is_file-update_where :
    (p : FileRow → Bool) (g : FileRow → FileRow)
    → ((f : FileRow) → (g f).id ≡ f.id)
    → (fs : List FileRow) (i : ℕ) → is_file (update_where p g fs) i ≡ is_file fs i
is_file-update_where p g same [] i = refl
is_file-update_where p g same (f ∷ fs) i =
    ground (arith, same f, is_file-update_where p g same fs i)

-- A write to a table other than `files` and `records`.
other_tables_IsValid :
    (db db' : Db) → db'.files ≡ db.files → db'.records ≡ db.records → IsValid db → IsValid db'
other_tables_IsValid db db' same_files same_records v = record {
  files_rising = rw same_files v.files_rising;
  records_rising = rw same_records v.records_rising;
  identities = rw same_files v.identities;
  owned = rw (same_files, same_records) v.owned;
  sound = rw same_records v.sound;
  stamped = rw same_files v.stamped;
}

-- A write to the files that keeps ids, identities and stamps keeps the rest too.
update_files-IsValid :
    (db : Db) (p : FileRow → Bool) (g : FileRow → FileRow)
    → ((f : FileRow) → (g f).id ≡ f.id)
    → ((f : FileRow) → identity (g f) ≡ identity f)
    → ((f : FileRow) → IsStamped f → IsStamped (g f))
    → IsValid db
    → IsValid (record db { files = update_where p g db.files })
update_files-IsValid db p g ids names stamps v = record {
  files_rising = rw (map-update_where (λ f. f.id) p g ids db.files) v.files_rising;
  records_rising = v.records_rising;
  identities = rw (map-update_where identity p g names db.files) v.identities;
  owned =
      All-imp (λ r. is_file db.files r.file_id ≡ true) _
        (λ r h. is_file-update_where p g ids db.files r.file_id ∙ h) db.records v.owned;
  sound = v.sound;
  stamped = All-update_where IsStamped p g (λ f _. stamps f) db.files v.stamped;
}

-- A write to the records that keeps ids and file ids, and leaves sound rows.
update_records-IsValid :
    (db : Db) (p : RecordRow → Bool) (g : RecordRow → RecordRow)
    → ((r : RecordRow) → (g r).id ≡ r.id)
    → ((r : RecordRow) → (g r).file_id ≡ r.file_id)
    → ((r : RecordRow) → p r ≡ true → IsSound r → IsSound (g r))
    → IsValid db
    → IsValid (record db { records = update_where p g db.records })
update_records-IsValid db p g ids owners sounds v = record {
  files_rising = v.files_rising;
  records_rising = rw (map-update_where (λ r. r.id) p g ids db.records) v.records_rising;
  identities = v.identities;
  owned =
      All-update_where (λ r. is_file db.files r.file_id ≡ true) p g
        (λ r _ h. ap (is_file db.files) (owners r) ∙ h) db.records v.owned;
  sound = All-update_where IsSound p g sounds db.records v.sound;
  stamped = v.stamped;
}

stamped_now :
    (now : String) (old : Option String) (s : Status)
    → (s is sent || s is rejected) ≡ true
    → is_some (coalesce old (if s is sent || s is rejected then some now else none)) ≡ true
stamped_now now none s h = ground arith
stamped_now now (some t) s h = refl

pub recompute_file_status-IsValid :
    (now : String) (db : Db) (i : ℕ) → IsValid db → IsValid (recompute_file_status now db i).1
unfolding recompute_file_status
recompute_file_status-IsValid now db i v =
    update_files-IsValid db _ _ (λ f. refl) (λ f. refl)
      (λ f _. stamped_now now f.completed_at (aggregate (statuses_of db i))) v

pub mark_archived-IsValid :
    (now : String) (db : Db) (i : ℕ) → IsValid db → IsValid (mark_archived now db i)
unfolding mark_archived
mark_archived-IsValid now db i v = update_files-IsValid db _ _ (λ f. refl) (λ f. refl) (λ f h. h) v

with_result-IsSound :
    (now : String) (s : Status) (e t c : Option String) (count_attempt : Bool) (r : RecordRow)
    → s ≢ partial
    → IsSound (with_result now s e t c count_attempt r)
with_result-IsSound now s e t c count_attempt r h = (h, ground arith)

pub update_record_result-IsValid :
    (now : String) (db : Db) (i : ℕ) (s : Status) (e t c : Option String) (count_attempt : Bool)
    → s ≢ partial
    → IsValid db
    → IsValid (update_record_result now db i s e t c count_attempt)
unfolding update_record_result
update_record_result-IsValid now db i s e t c count_attempt h v =
    update_records-IsValid db _ _ (λ r. refl) (λ r. refl)
      (λ r _ _. with_result-IsSound now s e t c count_attempt r h) v

-- A record that is reset was not sent, so its `sent_at` is empty already.
reset_row-IsSound :
    (t : Target) (r : RecordRow) → is_resettable t r ≡ true → IsSound r → IsSound (reset_row r)
reset_row-IsSound (by_file i) r p (named, h) = (λ e. cc e, ground arith)
reset_row-IsSound (by_record i) r p (named, h) = (λ e. cc e, ground arith)

pub reset_records-IsValid : (db : Db) (t : Target) → IsValid db → IsValid (reset_records db t).1
unfolding reset_records
reset_records-IsValid db t v =
    update_records-IsValid db (is_resettable t) reset_row (λ r. refl) (λ r. refl)
      (λ r p h. reset_row-IsSound t r p h) v

pub empty-IsValid : IsValid empty
empty-IsValid = record {
  files_rising = tt;
  records_rising = tt;
  identities = tt;
  owned = tt;
  sound = tt;
  stamped = tt;
}

pub insert_run-IsValid : (db : Db) (run : RunRow) → IsValid db → IsValid (insert_run db run)
unfolding insert_run
insert_run-IsValid db run v = other_tables_IsValid db _ refl refl v

pub meta_set-IsValid : (db : Db) (k w : String) → IsValid db → IsValid (meta_set db k w)
unfolding meta_set
meta_set-IsValid db k w v = other_tables_IsValid db _ refl refl v

pub insert_enriched_file-IsValid :
    (now : String) (db : Db) (filename sha256 : String) (total good bad : ℕ) (db' : Db)
    → IsValid db
    → insert_enriched_file now db filename sha256 total good bad ≡ some db'
    → IsValid db'
unfolding insert_enriched_file
insert_enriched_file-IsValid now db filename sha256 total good bad db' v h =
    other_tables_IsValid db db' (ground arith) (ground arith) v

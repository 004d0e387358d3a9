-- ===== src/Uploader/Archive/Complete.antt =====
-- No completed file is left.
use ubki_uploader.Prelude.{
  ℕ, ◌≡◌, refl, String, Bool, true, false, ◌||◌, not, some, List, [], ◌∷◌, arith, any, All, All-imp,
  inl, inr, Bool-cases, Option-cases, select, update_where, ◌==◌,
}
use ubki_uploader.Db.Schema.{FileRow, Db}
use ubki_uploader.Db.Files.{mark_archived}
use ubki_uploader.Uploader.Archive.{
  Archived, is_completed, source_of, archive_file, archive_rows, archive_completed_files,
}

-- Archived since: the rows of the ids are marked, whatever happens to the files on the disk.
mark_all : (now : String) → List FileRow → Db → Db
mark_all now [] db = db
mark_all now (f ∷ rows) db = mark_all now rows (mark_archived now db f.id)

db-archive_file :
    (now : String) (f : FileRow) (a : Archived)
    → (archive_file now f a).db ≡ mark_archived now a.db f.id
unfolding archive_file
db-archive_file now f a = elim (Option-cases (source_of a.disk f)) [
  | inl h ↦ rw (h, archive_file) refl
  | inr (e, h) ↦ rw (h, archive_file) refl
]

db-archive_rows :
    (now : String) (rows : List FileRow) (a : Archived)
    → (archive_rows now rows a).db ≡ mark_all now rows a.db
unfolding archive_rows mark_all
db-archive_rows now [] a = refl
db-archive_rows now (f ∷ rows) a =
    rw (← db-archive_file now f a) (db-archive_rows now rows (archive_file now f a))

mark_all_keeps {ℓ} :
    (P : Db → Type ℓ)
    → ((now : String) (db : Db) (id : ℕ) → P db → P (mark_archived now db id))
    → (now : String) (rows : List FileRow) (db : Db) → P db
    → P (mark_all now rows db)
unfolding mark_all
mark_all_keeps P keep now [] db p = p
mark_all_keeps P keep now (f ∷ rows) db p =
    mark_all_keeps P keep now rows (mark_archived now db f.id) (keep now db f.id p)

-- The row is left alone with good reason, or is still to be marked.
abbrev is_settled_by : Db → List FileRow → FileRow → Bool
is_settled_by db rows f = not (is_completed db f) || any (λ g. g.id == f.id) rows

mark_settles :
    (now : String) (f : FileRow) (rows fs : List FileRow) (db : Db)
    → All (λ g. is_settled_by db (f ∷ rows) g ≡ true) fs
    → All
        (λ g. is_settled_by db rows g ≡ true)
        (update_where (λ g. g.id == f.id) (λ g. record g { archived_at = some now }) fs)
mark_settles now f rows [] db h = tt
mark_settles now f rows (g ∷ fs) db (h, hs) = elim (Bool-cases (g.id == f.id)) [
  | inl e ↦ rw e (ground arith, mark_settles now f rows fs db hs)
  | inr e ↦ rw e (ground arith, mark_settles now f rows fs db hs)
]

mark_all_settles :
    (now : String) (rows : List FileRow) (db : Db)
    → All (λ g. is_settled_by db rows g ≡ true) db.files
    → All (λ g. is_completed (mark_all now rows db) g ≡ false) (mark_all now rows db).files
unfolding mark_all mark_archived
mark_all_settles now [] db h = All-imp _ _ (λ g e. ground arith) db.files h
mark_all_settles now (f ∷ rows) db h =
    mark_all_settles now rows (mark_archived now db f.id) (mark_settles now f rows db.files db h)

selected_settles :
    (c : FileRow → Bool) (fs : List FileRow)
    → All (λ f. (not (c f) || any (λ g. g.id == f.id) (select c fs)) ≡ true) fs
selected_settles c [] = tt
selected_settles c (f ∷ fs) =
    (ground arith, All-imp _ _ (λ g h. ground arith) fs (selected_settles c fs))

-- After `archive_completed_files`, every file whose records are all sent or rejected is marked as
-- archived, whether or not its source was still in the inbox.
pub archive_completes :
    (now : String) (a : Archived)
    → All
        (λ f. is_completed (archive_completed_files now a).db f ≡ false)
        (archive_completed_files now a).db.files
unfolding archive_completed_files
archive_completes now a =
    let rows = select (is_completed a.db) a.db.files in
    rw (db-archive_rows now rows a)
      (mark_all_settles now rows a.db (selected_settles (is_completed a.db) a.db.files))

-- What marking a file keeps of the database, archiving does.
pub archive_keeps {ℓ} :
    (P : Db → Type ℓ)
    → ((now : String) (db : Db) (id : ℕ) → P db → P (mark_archived now db id))
    → (now : String) (a : Archived) → P a.db
    → P (archive_completed_files now a).db
unfolding archive_completed_files
archive_keeps P keep now a p =
    let rows = select (is_completed a.db) a.db.files in
    rw (db-archive_rows now rows a) (mark_all_keeps P keep now rows a.db p)

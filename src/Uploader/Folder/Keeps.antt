-- ===== src/Uploader/Folder/Keeps.antt =====
-- The rule for what ingestion keeps of the database.
use ubki_uploader.Prelude.{
  ℕ, suc, ◌≡◌, inl, inr, String, Bool, true, false, some, List, [], ◌∷◌, Option-cases,
}
use ubki_uploader.Db.Schema.{Db}
use ubki_uploader.Db.Files.{get_file_by_identity, insert_file, left_by_insert}
use ubki_uploader.Uploader.Summary.{RunSummary}
use ubki_uploader.Uploader.Folder.{
  Entry, Stamp, read_lines, count_file, ingest_new, ingest_text, ingest_file, ingest_new_files,
}

module _ {ℓ} (P : Db → Type ℓ)
    (insert_keeps : (fresh : ℕ → String) (now : String) (db : Db) (filename sha256 : String)
        (size : ℕ) (lines : List String) (file_id : ℕ) (db' : Db)
      → P db
      → insert_file fresh now db filename sha256 size lines ≡ some (file_id, db')
      → P db')
    (left_keeps : (fresh : ℕ → String) (now : String) (db : Db) (filename sha256 : String)
        (size : ℕ) (lines : List String)
      → P db
      → P (left_by_insert fresh now db filename sha256 size lines)) where
  ingest_new_keeps :
      (stamp : Stamp) (e : Entry) (lines : List String) (dry_run : Bool) (db : Db) (s : RunSummary)
      → P db
      → P (ingest_new stamp e lines dry_run db s).db
  unfolding ingest_new
  ingest_new_keeps stamp e lines true db s v = v
  ingest_new_keeps stamp e lines false db s v =
      elim (Option-cases (insert_file stamp.fresh stamp.now db e.name e.sha256 e.size lines)) [
        | inl h ↦ rw h (left_keeps stamp.fresh stamp.now db e.name e.sha256 e.size lines v)
        | inr ((i, d), h) ↦
            rw h (insert_keeps stamp.fresh stamp.now db e.name e.sha256 e.size lines i d v h)
      ]

  ingest_file_keeps :
      (stamp : Stamp) (dry_run : Bool) (e : Entry) (db : Db) (s : RunSummary)
      → P db
      → P (ingest_file stamp dry_run e db s).db
  unfolding ingest_file ingest_text ingest_new
  ingest_file_keeps stamp dry_run e db s v =
      elim (Option-cases (get_file_by_identity db e.name e.sha256)) [
        | inr (f, h) ↦ rw (h, ingest_file) v
        | inl h ↦ elim (Option-cases e.lines) [
          | inl k ↦ rw (h, k, ingest_file) v
          | inr (text, k) ↦
              rw (h, k, ingest_file)
                (ingest_new_keeps stamp e (read_lines text) dry_run db
                  (count_file (read_lines text) s) v)
        ]
      ]

  -- What every insertion of a file keeps, also one that is given up, ingestion does.
  pub ingest_new_files_keeps :
      (stamps : ℕ → Stamp) (n : ℕ) (paths : List Entry) (dry_run : Bool) (db : Db) (s : RunSummary)
      → P db
      → P (ingest_new_files stamps n paths dry_run db s).db
  unfolding ingest_new_files
  ingest_new_files_keeps stamps n [] dry_run db s v = v
  ingest_new_files_keeps stamps n (e ∷ paths) dry_run db s v =
      let step = ingest_file (stamps n) dry_run e db s in
      let first = ingest_file_keeps (stamps n) dry_run e db s v in
      elim (Option-cases step.raised) [
        | inl h ↦
            rw (h, ingest_new_files)
              (ingest_new_files_keeps stamps (suc n) paths dry_run step.db step.summary first)
        | inr (exc, h) ↦ rw (h, ingest_new_files) first
      ]

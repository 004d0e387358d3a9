-- ===== src/Uploader/Folder/Again.antt =====
-- Ingestion takes each file once.
use ubki_uploader.Prelude.{
  ℕ, suc, ◌≡◌, refl, inl, inr, String, Bool, true, false, ◌&&◌, ◌||◌, Option, none, some, List, [],
  ◌∷◌, ◌++◌, arith, any, All, Option-cases, Bool-cases, select_one, str_eq, eq_iff, length, ap,
}
use ubki_uploader.Db.Schema.{Db, FileRow, file_ids, next_id}
use ubki_uploader.Db.Files.{
  get_file_by_identity, insert_file, left_by_insert, has_identity, new_file,
}
use ubki_uploader.Db.Files.Ingest.{insert_file_parts}
use ubki_uploader.Uploader.Summary.{RunSummary}
use ubki_uploader.Uploader.Folder.{
  Entry, Stamp, Ingested, goes_on, read_lines, count_file, ingest_new, ingest_text, ingest_file,
  ingest_new_files,
}

-- The file is in the database, by its name and checksum.
abbrev pub is_known : Db → Entry → Bool
is_known db e = any (has_identity e.name e.sha256) db.files

get_known :
    (filename sha256 : String) (files : List FileRow)
    → any (has_identity filename sha256) files ≡ true
    → (f : FileRow) × (select_one (has_identity filename sha256) files ≡ some f)
get_known filename sha256 [] h = ground arith
get_known filename sha256 (f ∷ files) h = elim (Bool-cases (has_identity filename sha256 f)) [
  | inl e ↦ (f, rw e refl)
  | inr e ↦ let (g, found) = get_known filename sha256 files (ground arith) in (g, rw e found)
]

get_unknown :
    (filename sha256 : String) (files : List FileRow)
    → any (has_identity filename sha256) files ≡ false
    → select_one (has_identity filename sha256) files ≡ none
get_unknown filename sha256 [] h = refl
get_unknown filename sha256 (f ∷ files) h = ground (arith, get_unknown filename sha256 files)

any-append {ℓ} :
    {A : Type ℓ} (p : A → Bool) (xs ys : List A) → any p (xs ++ ys) ≡ (any p xs || any p ys)
any-append p [] ys = refl
any-append p (x ∷ xs) ys = ground (arith, any-append p xs ys)

insert_file_known :
    (stamp : Stamp) (e d : Entry) (lines : List String) (db db' : Db) (id : ℕ)
    → insert_file stamp.fresh stamp.now db e.name e.sha256 e.size lines ≡ some (id, db')
    → is_known db' d ≡ (is_known db d || str_eq e.name d.name && str_eq e.sha256 d.sha256)
insert_file_known stamp e d lines db db' id h =
    let (i, new, parts) =
      insert_file_parts stamp.fresh stamp.now db e.name e.sha256 e.size lines id db' h in
    rw (ap (λ (x : Db). x.files) parts) (
      ground (
        arith,
        any-append (has_identity d.name d.sha256) db.files
            (new_file stamp.now (next_id (file_ids db)) e.name e.sha256 e.size (length lines) ∷ []),
      ))

left_by_insert_known :
    (stamp : Stamp) (e d : Entry) (lines : List String) (db : Db)
    → is_known db d ≡ true
    → is_known (left_by_insert stamp.fresh stamp.now db e.name e.sha256 e.size lines) d ≡ true
unfolding left_by_insert
left_by_insert_known stamp e d lines db k = ground (
  arith,
  any-append (has_identity d.name d.sha256) db.files
      (new_file stamp.now (next_id (file_ids db)) e.name e.sha256 e.size (length lines) ∷ []),
)

-- The step makes the entry known, if it raises nothing, and forgets no file.
record Takes (e : Entry) (db : Db) (step : Ingested) : Type 0 where
  taken : step.raised ≡ none → is_known step.db e ≡ true
  kept : (d : Entry) → is_known db d ≡ true → is_known step.db d ≡ true

ingest_new-Takes :
    (stamp : Stamp) (e : Entry) (lines : List String) (db : Db) (s : RunSummary)
    → Takes e db (ingest_new stamp e lines false db s)
unfolding ingest_new
ingest_new-Takes stamp e lines db s =
    elim (Option-cases (insert_file stamp.fresh stamp.now db e.name e.sha256 e.size lines)) [
      | inl h ↦ rw h (record {
        taken = λ k. ground arith;
        kept = λ d k. left_by_insert_known stamp e d lines db k;
      })
      | inr ((i, written), h) ↦ rw h (record {
        taken = λ k. ground (
          arith,
          insert_file_known stamp e e lines db written i h,
          eq_iff e.name e.name,
          eq_iff e.sha256 e.sha256,
        );
        kept = λ d k. ground (arith, insert_file_known stamp e d lines db written i h);
      })
    ]

known_found :
    (db : Db) (e : Entry)
    → is_known db e ≡ true
    → (f : FileRow) × (get_file_by_identity db e.name e.sha256 ≡ some f)
unfolding get_file_by_identity
known_found db e h = get_known e.name e.sha256 db.files h

unknown_absent :
    (db : Db) (e : Entry) → is_known db e ≡ false → get_file_by_identity db e.name e.sha256 ≡ none
unfolding get_file_by_identity
unknown_absent db e h = get_unknown e.name e.sha256 db.files h

ingest_text-Takes :
    (stamp : Stamp) (e : Entry) (text : Option (List String)) (db : Db) (s : RunSummary)
    → Takes e db (ingest_text stamp e text false db s)
unfolding ingest_text
ingest_text-Takes stamp e none db s = record { taken = λ k. ground arith; kept = λ d k. k }
ingest_text-Takes stamp e (some text) db s =
    ingest_new-Takes stamp e (read_lines text) db (count_file (read_lines text) s)

ingest_file-Takes :
    (stamp : Stamp) (e : Entry) (db : Db) (s : RunSummary)
    → Takes e db (ingest_file stamp false e db s)
unfolding ingest_file
ingest_file-Takes stamp e db s = elim (Bool-cases (is_known db e)) [
  | inl h ↦
      let (f, found) = known_found db e h in
      rw (found, ingest_file) (record { taken = λ k. h; kept = λ d k. k })
  | inr h ↦ rw (unknown_absent db e h, ingest_file) (ingest_text-Takes stamp e e.lines db s)
]

known_skipped :
    (stamp : Stamp) (e : Entry) (db : Db) (s : RunSummary)
    → is_known db e ≡ true
    → ingest_file stamp false e db s ≡ goes_on db s
unfolding ingest_file
known_skipped stamp e db s h = let (f, found) = known_found db e h in rw (found, ingest_file) refl

known_paths_skipped :
    (stamps : ℕ → Stamp) (n : ℕ) (paths : List Entry) (db : Db) (s : RunSummary)
    → All (λ e. is_known db e ≡ true) paths
    → ingest_new_files stamps n paths false db s ≡ goes_on db s
unfolding ingest_new_files
known_paths_skipped stamps n [] db s h = refl
known_paths_skipped stamps n (e ∷ paths) db s (h, hs) =
    ground
      (arith, known_skipped (stamps n) e db s h, known_paths_skipped stamps (suc n) paths db s hs)

-- The loop takes every file of the list, if it raises nothing, and forgets none.
record TakesAll (paths : List Entry) (db : Db) (r : Ingested) : Type 0 where
  taken : r.raised ≡ none → All (λ e. is_known r.db e ≡ true) paths
  kept : (d : Entry) → is_known db d ≡ true → is_known r.db d ≡ true

ingest_new_files-TakesAll :
    (stamps : ℕ → Stamp) (n : ℕ) (paths : List Entry) (db : Db) (s : RunSummary)
    → TakesAll paths db (ingest_new_files stamps n paths false db s)
unfolding ingest_new_files
ingest_new_files-TakesAll stamps n [] db s = record { taken = λ k. tt; kept = λ d k. k }
ingest_new_files-TakesAll stamps n (e ∷ paths) db s =
    let step = ingest_file (stamps n) false e db s in
    let first = ingest_file-Takes (stamps n) e db s in
    let rest = ingest_new_files-TakesAll stamps (suc n) paths step.db step.summary in
    elim (Option-cases step.raised) [
      | inl h ↦
          rw (h, ingest_new_files)
            (record {
              taken = λ k. (rest.kept e (first.taken h), rest.taken k);
              kept = λ d k. rest.kept d (first.kept d k);
            })
      | inr (exc, h) ↦
          rw (h, ingest_new_files) (record { taken = λ k. ground arith; kept = first.kept })
    ]

-- After files were ingested, none of them raising an exception, the same files are not ingested a
-- second time: the database and the summary of the second time stay as they are, whatever the
-- stamps.
pub ingest_new_files_twice :
    (stamps again : ℕ → Stamp) (n m : ℕ) (paths : List Entry) (db : Db) (s t : RunSummary)
    → (ingest_new_files stamps n paths false db s).raised ≡ none
    → ingest_new_files again m paths false (ingest_new_files stamps n paths false db s).db t
      ≡ goes_on (ingest_new_files stamps n paths false db s).db t
ingest_new_files_twice stamps again n m paths db s t h =
    known_paths_skipped again m paths _ t ((ingest_new_files-TakesAll stamps n paths db s).taken h)

dry_run_reads :
    (stamp : Stamp) (e : Entry) (db : Db) (s : RunSummary) → (ingest_file stamp true e db s).db ≡ db
unfolding ingest_file ingest_text ingest_new
dry_run_reads stamp e db s = ground arith

-- A dry run writes nothing, whatever the files are.
pub ingest_new_files_dry :
    (stamps : ℕ → Stamp) (n : ℕ) (paths : List Entry) (db : Db) (s : RunSummary)
    → (ingest_new_files stamps n paths true db s).db ≡ db
unfolding ingest_new_files
ingest_new_files_dry stamps n [] db s = refl
ingest_new_files_dry stamps n (e ∷ paths) db s =
    let step = ingest_file (stamps n) true e db s in
    ground (
      arith,
      dry_run_reads (stamps n) e db s,
      ingest_new_files_dry stamps (suc n) paths step.db step.summary,
    )

-- ===== src/Db/Files/Ingest.antt =====
-- What `insert_file` stores.
use ubki_uploader.Prelude.{
  ℕ, suc, ◌≤◌, ◌<◌, ◌≡◌, refl, ap, true, false, List, [], ◌∷◌, ◌++◌, none, some, String, map,
  length, any, arith, ◌==◌, select, select-append, select_one, All, IsRising, All-imp, eq_iff,
  str_eq, Bool-cases, inl, inr,
}
use ubki_uploader.Db.Schema.{pending, FileRow, RecordRow, Db, next_id, file_ids, record_ids}
use ubki_uploader.Db.Files.{
  insert_file, new_records, get_file_by_identity, has_identity, new_file, before_clash, new_row,
}

-- Every record refers to a file below `k`.
abbrev pub RefersBelow : ℕ → List RecordRow → Type 0
RefersBelow k rs = All (λ r. r.file_id < k) rs

abbrev pub records_of : Db → ℕ → List RecordRow
records_of db file_id = select (λ r. r.file_id == file_id) db.records

pub below-next_id : (ns : List ℕ) → All (λ n. n < next_id ns) ns
unfolding next_id
below-next_id [] = tt
below-next_id (n ∷ ns) = (
  omega arith,
  All-imp (λ m. m < next_id ns) (λ m. m < next_id (n ∷ ns)) (λ m h. omega arith) ns
      (below-next_id ns),
)

-- n, n + 1, ...: one number for each line.
abbrev pub numbers_from : ℕ → List String → List ℕ
numbers_from n [] = []
numbers_from n (line ∷ lines) = n ∷ numbers_from (suc n) lines

numbers_from-bounds :
    (k n : ℕ) (lines : List String) → k ≤ n → All (λ m. k ≤ m) (numbers_from n lines)
numbers_from-bounds k n [] h = tt
numbers_from-bounds k n (l ∷ lines) h = (h, numbers_from-bounds k (suc n) lines (omega arith))

pub numbers_from-IsRising : (n : ℕ) (lines : List String) → IsRising (numbers_from n lines)
numbers_from-IsRising n [] = tt
numbers_from-IsRising n (l ∷ lines) =
    (numbers_from-bounds (suc n) (suc n) lines (omega arith), numbers_from-IsRising (suc n) lines)

pub at_least_itself : (n : ℕ) (lines : List String) → All (λ m. n ≤ m) (numbers_from n lines)
at_least_itself n lines = numbers_from-bounds n n lines (omega arith)

-- What every row of a new file has.
abbrev pub IsUnsent : ℕ → RecordRow → Type 0
IsUnsent file_id r =
    (r.file_id ≡ file_id) × (r.status ≡ pending) × (r.attempts ≡ 0) × (r.sent_at ≡ none)

module _ (fresh : ℕ → String) (now : String) (file_id : ℕ) where
  abbrev rows : (id line_no : ℕ) → List String → List RecordRow
  rows = new_records fresh now file_id

  pub raw_line-new_records :
      (id k : ℕ) (lines : List String) → map (λ r. r.raw_line) (rows id k lines) ≡ lines
  unfolding new_records
  raw_line-new_records id k [] = refl
  raw_line-new_records id k (l ∷ lines) = ap (◌∷◌ l) (raw_line-new_records (suc id) (suc k) lines)

  pub line_no-new_records :
      (id k : ℕ) (lines : List String)
      → map (λ r. r.line_no) (rows id k lines) ≡ numbers_from k lines
  unfolding new_records
  line_no-new_records id k [] = refl
  line_no-new_records id k (l ∷ lines) = ap (◌∷◌ k) (line_no-new_records (suc id) (suc k) lines)

  pub id-new_records :
      (id k : ℕ) (lines : List String) → map (λ r. r.id) (rows id k lines) ≡ numbers_from id lines
  unfolding new_records
  id-new_records id k [] = refl
  id-new_records id k (l ∷ lines) = ap (◌∷◌ id) (id-new_records (suc id) (suc k) lines)

  pub new_records-IsUnsent :
      (id k : ℕ) (lines : List String) → All (IsUnsent file_id) (rows id k lines)
  unfolding new_records
  new_records-IsUnsent id k [] = tt
  new_records-IsUnsent id k (l ∷ lines) =
      ((refl, refl, refl, refl), new_records-IsUnsent (suc id) (suc k) lines)

select_every :
    (i : ℕ) (rs : List RecordRow)
    → All (λ r. r.file_id ≡ i) rs
    → select (λ r. r.file_id == i) rs ≡ rs
select_every i [] h = refl
select_every i (r ∷ rs) (e, h) = ground (arith, select_every i rs h)

select_none :
    (i : ℕ) (rs : List RecordRow) → RefersBelow i rs → select (λ r. r.file_id == i) rs ≡ []
select_none i [] h = refl
select_none i (r ∷ rs) (e, h) = ground (arith, select_none i rs h)

-- What is inserted before a clash are the rows of the first lines.
pub before_clash-new_records :
    (fresh : ℕ → String) (now : String) (old : List RecordRow) (file_id id k : ℕ)
    (lines : List String)
    → (first : List String) × (before_clash old (new_records fresh now file_id id k lines)
        ≡ new_records fresh now file_id id k first)
unfolding before_clash new_records
before_clash-new_records fresh now old file_id id k [] = ([], refl)
before_clash-new_records fresh now old file_id id k (l ∷ lines) =
    let r = (new_row fresh now file_id id k l) in
    let (first, e) = before_clash-new_records fresh now (r ∷ old) file_id (suc id) (suc k) lines in
    elim (Bool-cases (any (λ q. str_eq q.uuid r.uuid) old)) [
      | inl c ↦ ([], ground arith)
      | inr c ↦ (l ∷ first, ground arith)
    ]

-- A successful INSERT, taken apart.
pub insert_file_parts :
    (fresh : ℕ → String) (now : String) (db : Db) (filename sha256 : String) (size : ℕ)
    (lines : List String) (file_id : ℕ) (db' : Db)
    → insert_file fresh now db filename sha256 size lines ≡ some (file_id, db')
    → (file_id ≡ next_id (file_ids db))
      × (any (has_identity filename sha256) db.files ≡ false)
      × (db' ≡ record db {
        files =
            db.files
            ++ new_file now (next_id (file_ids db)) filename sha256 size (length lines) ∷ [];
        records =
            db.records
            ++ new_records fresh now (next_id (file_ids db)) (next_id (record_ids db)) 1 lines;
      })
unfolding insert_file
insert_file_parts fresh now db filename sha256 size lines file_id db' h = ground arith

find-append :
    (filename sha256 : String) (fs : List FileRow) (f : FileRow)
    → any (has_identity filename sha256) fs ≡ false
    → has_identity filename sha256 f ≡ true
    → select_one (has_identity filename sha256) (fs ++ f ∷ []) ≡ some f
find-append filename sha256 [] f h k = ground arith
find-append filename sha256 (g ∷ fs) f h k = ground (arith, find-append filename sha256 fs f)

records_of_new :
    (fresh : ℕ → String) (now : String) (i id : ℕ) (old : List RecordRow) (lines : List String)
    → RefersBelow i old
    → select (λ r. r.file_id == i) (old ++ new_records fresh now i id 1 lines)
      ≡ new_records fresh now i id 1 lines
records_of_new fresh now i id old lines below = rw select-append (
    rw (select_none i old below) (
      select_every i (new_records fresh now i id 1 lines) (
        All-imp (IsUnsent i) (λ r. r.file_id ≡ i) (λ r h. h.0) _
          (new_records-IsUnsent fresh now i id 1 lines))))

-- Where no record refers to the id that the file gets, a file that is ingested is found again by its name and checksum, and its records carry the lines
-- of the file unchanged, in order, numbered from 1, and wait to be sent for the first time.
pub insert_file_stores :
    (fresh : ℕ → String) (now : String) (db : Db) (filename sha256 : String) (size : ℕ)
    (lines : List String) (file_id : ℕ) (db' : Db)
    → RefersBelow (next_id (file_ids db)) db.records
    → insert_file fresh now db filename sha256 size lines ≡ some (file_id, db')
    → (get_file_by_identity db' filename sha256
        ≡ some (new_file now file_id filename sha256 size (length lines)))
      × (map (λ r. r.raw_line) (records_of db' file_id) ≡ lines)
      × (map (λ r. r.line_no) (records_of db' file_id) ≡ numbers_from 1 lines)
      × All (IsUnsent file_id) (records_of db' file_id)
unfolding get_file_by_identity
insert_file_stores fresh now db filename sha256 size lines file_id db' below h =
    let (i, new, parts) = insert_file_parts fresh now db filename sha256 size lines file_id db' h in
    let id = next_id (record_ids db) in
    let own = records_of_new fresh now (next_id (file_ids db)) id db.records lines below in
    rw (i, parts)
      (
        find-append filename sha256 db.files _ new
            (ground (arith, eq_iff filename filename, eq_iff sha256 sha256)),
        rw own (raw_line-new_records fresh now _ id 1 lines),
        rw own (line_no-new_records fresh now _ id 1 lines),
        rw own (new_records-IsUnsent fresh now _ id 1 lines),
      )

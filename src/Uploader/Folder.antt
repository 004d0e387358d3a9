-- ===== src/Uploader/Folder.antt =====
-- `scan_folder`, `read_lines` and `ingest_new_files` of app/uploader.py, over a folder as the list
-- of its entries.
pub mod Scan
pub mod Again
pub mod Keeps
use Prim.Native.Nat.{Ordering}
use Prim.Native.String.{compare}
use Prim.Native.Char.{Char, code}
use ubki_uploader.Prelude.{
  ℕ, suc, ◌+◌, String, Bool, true, false, ◌||◌, ◌&&◌, not, Option, none, some, List, [], ◌∷◌, ◌==◌,
  leb, is_blank, order_by, if◌then◌else◌,
}
use ubki_uploader.Config.{Config}
use ubki_uploader.Db.Schema.{Db}
use ubki_uploader.Db.Files.{get_file_by_identity, insert_file, left_by_insert}
use ubki_uploader.Python.Strip.{strip}
use ubki_uploader.Uploader.Summary.{RunSummary}

-- What the source reads of an entry of a folder: `sha256` is `sha256_of` of its content, `lines` are
-- the lines that iteration over the opened text gives, or none for UnicodeDecodeError.
pub record Entry : Type 0 where
  pub name : String
  pub is_file : Bool
  pub mtime : ℕ
  pub sha256 : String
  pub size : ℕ
  pub lines : Option (List String)

-- The order of `sorted(folder.iterdir())`: the paths of one folder by their names.
abbrev pub name_before : Entry → Entry → Bool
name_before a b = elim (compare a.name b.name) [ Ordering.gt ↦ false | _ ↦ true ]

-- `path.name.startswith(".")`
abbrev pub is_hidden : String → Bool
is_hidden String.[] = false
is_hidden (String.◌∷◌ c s) = code c == 46

abbrev pub is_considered : Entry → Bool
is_considered e = e.is_file && not (is_hidden e.name)

-- `path.stat().st_mtime <= time.time() - config.min_file_age_sec`
abbrev pub is_settled : (now : ℕ) → Config → Entry → Bool
is_settled now config e = leb (e.mtime + config.min_file_age_sec) now

-- The loop of `scan_folder`. `matches name` is `fnmatch(name, config.file_glob)`.
unfoldable pub scan :
    (matches : String → Bool) (now : ℕ) → Config → List Entry → RunSummary → List Entry × RunSummary
scan matches now config [] summary = ([], summary)
scan matches now config (e ∷ entries) summary =
    let rest = scan matches now config entries summary in
    let skipped =
      scan matches now config entries
        (record summary { files_skipped = summary.files_skipped + 1 }) in
    if not (is_considered e)
    then rest
    else if not (matches e.name)
    then skipped
    else if is_settled now config e
    then (e ∷ rest.0, rest.1)
    else rest

unfoldable pub scan_folder :
    (matches : String → Bool) (now : ℕ) → Config → List Entry → RunSummary → List Entry × RunSummary
scan_folder matches now config folder summary =
    scan matches now config (order_by name_before folder) summary

-- `line.rstrip("\r\n")`
unfoldable pub rstrip_newline : String → String
rstrip_newline String.[] = ""
rstrip_newline (String.◌∷◌ c s) =
    let rest = rstrip_newline s in
    if is_blank rest && (code c == 10 || code c == 13) then "" else String.◌∷◌ c rest

unfoldable pub read_lines : List String → List String
read_lines [] = []
read_lines (line ∷ lines) =
    let rest = read_lines lines in
    if is_blank (strip line) then rest else rstrip_newline line ∷ rest

-- `if not lines`
abbrev pub no_lines : List String → Bool
no_lines [] = true
no_lines (line ∷ lines) = false

abbrev pub count_file : (lines : List String) → RunSummary → RunSummary
count_file lines summary = record summary {
  files_new = summary.files_new + 1;
  files_empty = summary.files_empty + (if no_lines lines then 1 else 0);
}

-- What a file is written with: the uuids of its records and the time.
pub record Stamp : Type 0 where
  pub fresh : ℕ → String
  pub now : String

-- The exceptions of a pass that the code does not catch itself.
pub data Exception : Type 0 where
  unicode_decode_error integrity_error file_not_found_error : Exception
  value_error : (message : String) → Exception

-- The database and the summary so far, with the exception that ended the loop, if one did.
pub record Ingested : Type 0 where
  pub raised : Option Exception
  pub db : Db
  pub summary : RunSummary

abbrev pub goes_on : Db → RunSummary → Ingested
goes_on db summary = record { raised = none; db = db; summary = summary }

abbrev pub raises : Exception → Db → RunSummary → Ingested
raises exc db summary = record { raised = some exc; db = db; summary = summary }

-- The insertion, for a file that is new.
unfoldable pub ingest_new :
    Stamp → Entry → (lines : List String) → (dry_run : Bool) → Db → RunSummary → Ingested
ingest_new stamp e lines dry_run db summary =
    if dry_run
    then goes_on db summary
    else (elim (insert_file stamp.fresh stamp.now db e.name e.sha256 e.size lines) [
      | none ↦
          raises integrity_error
            (left_by_insert stamp.fresh stamp.now db e.name e.sha256 e.size lines) summary
      | some (file_id, written) ↦ goes_on written summary
    ])

-- What follows the lookup, for the text of a file that is new.
unfoldable pub ingest_text :
    Stamp → Entry → Option (List String) → (dry_run : Bool) → Db → RunSummary → Ingested
ingest_text stamp e none dry_run db summary = raises unicode_decode_error db summary
ingest_text stamp e (some text) dry_run db summary =
    let lines = read_lines text in ingest_new stamp e lines dry_run db (count_file lines summary)

-- The body of the loop.
unfoldable pub ingest_file : Stamp → (dry_run : Bool) → Entry → Db → RunSummary → Ingested
ingest_file stamp dry_run e db summary = elim (get_file_by_identity db e.name e.sha256) [
  | some row ↦ goes_on db summary
  | none ↦ ingest_text stamp e e.lines dry_run db summary
]

-- `stamps n` is for the file at place `n` of the list.
unfoldable pub ingest_new_files :
    (stamps : ℕ → Stamp) (n : ℕ) → List Entry → (dry_run : Bool) → Db → RunSummary → Ingested
ingest_new_files stamps n [] dry_run db summary = goes_on db summary
ingest_new_files stamps n (e ∷ paths) dry_run db summary =
    let step = ingest_file (stamps n) dry_run e db summary in
    let rest = ingest_new_files stamps (suc n) paths dry_run step.db step.summary in
    elim step.raised [ none ↦ rest | some exc ↦ step ]

-- ===== src/Uploader/Archive.antt =====
-- `unique_target` and `archive_completed_files` of app/uploader.py, over the inbox and the archive
-- as the lists of their entries.
pub mod Complete
use Prim.Native.String.{◌++◌ as ◌<>◌}
use ubki_uploader.Prelude.{
  ℕ, ◌+◌, String, Bool, true, false, ◌||◌, ◌&&◌, not, Option, none, some, List, [], ◌∷◌, ◌++◌, any,
  select, select_one, take_chars, str_eq, ◌==◌, if◌then◌else◌,
}
use ubki_uploader.Db.Schema.{sent, rejected, ◌is◌, FileRow, RecordRow, Db}
use ubki_uploader.Db.Files.{mark_archived}
use ubki_uploader.Uploader.Summary.{RunSummary}
use ubki_uploader.Uploader.Folder.{Entry}

pub record Disk : Type 0 where
  pub inbox : List Entry
  pub archive : List Entry

abbrev pub is_named : String → Entry → Bool
is_named name e = str_eq e.name name

-- `sha256[:8]` of a digest in hexadecimal
unfoldable pub unique_target : (folder : List Entry) (name sha256 : String) → String
unique_target folder name sha256 =
    if any (is_named name) folder then take_chars 8 sha256 <> ("_" <> name) else name

abbrev pub is_open : RecordRow → Bool
is_open r = not (r.status is sent || r.status is rejected)

-- The condition of the SELECT.
abbrev pub is_completed : Db → FileRow → Bool
is_completed db f =
    elim f.archived_at [ none ↦ true | some t ↦ false ]
    && not (any (λ r. r.file_id == f.id && is_open r) db.records)

-- `source`, if it is a file with the checksum of the row.
abbrev pub source_of : Disk → FileRow → Option Entry
source_of disk f =
    select_one (λ e. is_named f.filename e && e.is_file && str_eq e.sha256 f.sha256) disk.inbox

-- `source.rename(target)`: a file that has the new name is replaced.
unfoldable pub rename : Entry → (target : String) → Disk → Disk
rename e target disk = record {
  inbox = select (λ d. not (is_named e.name d)) disk.inbox;
  archive = select (λ d. not (is_named target d)) disk.archive ++ record e { name = target } ∷ [];
}

pub record Archived : Type 0 where
  pub db : Db
  pub disk : Disk
  pub summary : RunSummary

-- The body of the loop.
unfoldable pub archive_file : (now : String) → FileRow → Archived → Archived
archive_file now f a = elim (source_of a.disk f) [
  | none ↦ record a { db = mark_archived now a.db f.id }
  | some e ↦ record {
    disk = rename e (unique_target a.disk.archive f.filename f.sha256) a.disk;
    db = mark_archived now a.db f.id;
    summary = record a.summary { files_archived = a.summary.files_archived + 1 };
  }
]

unfoldable pub archive_rows : (now : String) → List FileRow → Archived → Archived
archive_rows now [] a = a
archive_rows now (f ∷ rows) a = archive_rows now rows (archive_file now f a)

unfoldable pub archive_completed_files : (now : String) → Archived → Archived
archive_completed_files now a = archive_rows now (select (is_completed a.db) a.db.files) a

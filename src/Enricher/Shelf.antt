-- ===== src/Enricher/Shelf.antt =====
-- `_write_enriched` of app/enricher.py, and the writing of the quarantine file and the move of the raw
-- file in `process_file`, over a folder as the list of its files.
pub mod Again
use Prim.Native.String.{◌++◌ as ◌<>◌}
use ubki_uploader.Prelude.{
  String, Bool, true, false, ◌||◌, ◌&&◌, not, List, [], ◌∷◌, ◌++◌, any, select, str_eq, take_chars,
  if◌then◌else◌,
}

pub record Stored : Type 0 where
  pub name : String
  pub content : String

abbrev pub is_called : String → Stored → Bool
is_called name f = str_eq f.name name

-- `target.exists()`
abbrev pub exists : List Stored → (name : String) → Bool
exists folder name = any (is_called name) folder

-- `target.exists() and target.read_bytes() == data`
abbrev pub holds : List Stored → (name content : String) → Bool
holds folder name content = any (λ f. is_called name f && str_eq f.content content) folder

-- `tmp.rename(target)`: a file that has the name is replaced.
abbrev pub put : List Stored → (name content : String) → List Stored
put folder name content =
    select (λ f. not (is_called name f)) folder ++ record { name = name; content = content } ∷ []

-- `f"{sha256[:8]}_{name}"`
abbrev pub prefixed : (name sha256 : String) → String
prefixed name sha256 = take_chars 8 sha256 <> ("_" <> name)

-- The name that `_write_enriched` chooses.
unfoldable pub target_of : List Stored → (name sha256 content : String) → String
target_of folder name sha256 content =
    if exists folder name && not (holds folder name content) then prefixed name sha256 else name

-- The write, unless the file is there already.
unfoldable pub put_once : List Stored → (name content : String) → List Stored
put_once folder name content = if holds folder name content then folder else put folder name content

unfoldable pub write_enriched : List Stored → (name sha256 content : String) → List Stored
write_enriched folder name sha256 content =
    put_once folder (target_of folder name sha256 content) content

-- `unique_target`
unfoldable pub free_name : List Stored → (name sha256 : String) → String
free_name folder name sha256 = if exists folder name then prefixed name sha256 else name

unfoldable pub write_quarantine : List Stored → (name sha256 content : String) → List Stored
write_quarantine folder name sha256 content =
    let target =
      if exists folder name && not (holds folder name content)
      then free_name folder name sha256
      else name in
    if not (holds folder target content) then put folder target content else folder

-- `path.rename(unique_target(config.processed_folder, path.name, sha))`
unfoldable pub move_processed : List Stored → (name sha256 content : String) → List Stored
move_processed folder name sha256 content = put folder (free_name folder name sha256) content

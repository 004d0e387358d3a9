-- ===== src/Db/Meta.antt =====
-- app/db.py: the helpers on `enriched_files`, `runs` and `meta`, and `last_sent_at`.
use Prim.Native.String.{compare}
use Prim.Native.Nat.{Ordering}
use ubki_uploader.Prelude.{
  ℕ, String, Bool, true, false, ◌&&◌, Option, none, some, List, [], ◌∷◌, ◌++◌, any, take, str_eq,
  if◌then◌else◌, select_one,
}
use mathlib.Core.List.{reverse}
use ubki_uploader.Db.Schema.{RecordRow, EnrichedRow, RunRow, success, aborted, error, Db}

abbrev pub is_enriched_as : String → String → EnrichedRow → Bool
is_enriched_as filename sha256 e = str_eq e.filename filename && str_eq e.sha256 sha256

unfoldable pub get_enriched_by_identity : Db → String → String → Option EnrichedRow
get_enriched_by_identity db filename sha256 =
    select_one (is_enriched_as filename sha256) db.enriched_files

-- `none` for the IntegrityError of UNIQUE (filename, sha256).
unfoldable pub insert_enriched_file :
    (now : String) → Db → String → String → (total enriched quarantined : ℕ) → Option Db
insert_enriched_file now db filename sha256 total enriched quarantined =
    if any (is_enriched_as filename sha256) db.enriched_files
    then none
    else some (record db {
      enriched_files =
          db.enriched_files
          ++ record {
            filename = filename;
            sha256 = sha256;
            lines_total = total;
            lines_enriched = enriched;
            lines_quarantined = quarantined;
            created_at = now;
          }
            ∷ [];
    })

unfoldable pub insert_run : Db → RunRow → Db
insert_run db run = record db { runs = db.runs ++ run ∷ [] }

unfoldable pub recent_runs : Db → ℕ → List RunRow
recent_runs db limit = take limit (reverse db.runs)

abbrev pub is_success : RunRow → Bool
is_success run = elim run.status [ success ↦ true | aborted ↦ false | error ↦ false ]

unfoldable pub last_successful_run : Db → Option String
last_successful_run db = elim (select_one is_success (reverse db.runs)) [
  | none ↦ none
  | some run ↦ some run.finished_at
]

-- MAX over a TEXT column: NULLs are passed over.
abbrev pub max_text : Option String → Option String → Option String
max_text none t = t
max_text (some s) none = some s
max_text (some s) (some t) = elim (compare s t) [ Ordering.lt ↦ some t | _ ↦ some s ]

abbrev pub max_sent_at : List RecordRow → Option String
max_sent_at [] = none
max_sent_at (r ∷ rs) = max_text r.sent_at (max_sent_at rs)

unfoldable pub last_sent_at : Db → Option String
last_sent_at db = max_sent_at db.records

abbrev pub lookup_text : String → List (String × String) → Option String
lookup_text k [] = none
lookup_text k ((j, v) ∷ m) = if str_eq j k then some v else lookup_text k m

unfoldable pub meta_get : Db → String → Option String
meta_get db key = lookup_text key db.meta

-- INSERT ... ON CONFLICT(key) DO UPDATE
abbrev pub upsert : String → String → List (String × String) → List (String × String)
upsert k v [] = (k, v) ∷ []
upsert k v ((j, w) ∷ m) = if str_eq j k then (k, v) ∷ m else (j, w) ∷ upsert k v m

unfoldable pub meta_set : Db → String → String → Db
meta_set db key value = record db { meta = upsert key value db.meta }

-- ===== src/Uploader/SessionCache.antt =====
-- `DbSessionStore` of app/uploader.py: the sessid in the `meta` table, for one day in Kyiv.
use ubki_uploader.Prelude.{
  ◌≡◌, refl, String, Bool, false, Option, none, some, List, [], ◌∷◌, arith, str_eq, eq_iff,
  if◌then◌else◌,
}
use ubki_uploader.Db.Schema.{Db}
use ubki_uploader.Db.Meta.{meta_get, meta_set, lookup_text, upsert}
use ubki_uploader.Client.Session.{SessionStore}
use ubki_uploader.Client.Session.Reuse.{IsLawful}

-- SESSID_KEY, SESSID_DATE_KEY
abbrev pub sessid_key : String
sessid_key = "ubki_sessid"

abbrev pub sessid_date_key : String
sessid_date_key = "ubki_sessid_date"

-- `db.meta_get(...) != kyiv_today()`
abbrev is_today : String → Option String → Bool
is_today today none = false
is_today today (some day) = str_eq day today

unfoldable pub load : (today : String) → Db → Option String
load today db =
    if is_today today (meta_get db sessid_date_key) then meta_get db sessid_key else none

unfoldable pub save : (today : String) → Db → String → Db
save today db sessid = meta_set (meta_set db sessid_key sessid) sessid_date_key today

-- `today` is what `kyiv_today` returns while the store is used.
abbrev pub db_session_store : (today : String) → SessionStore Db
db_session_store today = record { load = load today; save = save today }

lookup-upsert :
    (k j v : String) (m : List (String × String))
    → lookup_text j (upsert k v m) ≡ (if str_eq k j then some v else lookup_text j m)
lookup-upsert k j v [] = refl
lookup-upsert k j v ((i, w) ∷ m) =
    ground (arith, eq_iff k j, eq_iff i k, eq_iff i j, lookup-upsert k j v m)

pub meta_get-meta_set :
    (db : Db) (k j v : String)
    → meta_get (meta_set db k v) j ≡ (if str_eq k j then some v else meta_get db j)
unfolding meta_get meta_set
meta_get-meta_set db k j v = lookup-upsert k j v db.meta

-- A sessid that was saved is loaded again on the same day, and on no other day.
pub load-save :
    (today day : String) (db : Db) (sessid : String)
    → load day (save today db sessid) ≡ (if str_eq today day then some sessid else none)
unfolding load save
load-save today day db sessid = simp meta_get-meta_set (ground arith)

-- So the client's session is found again by the next pass of the day.
pub db_session_store-IsLawful : (today : String) → IsLawful (db_session_store today)
db_session_store-IsLawful today = record {
  load-save = λ db sessid. ground (arith, load-save today today db sessid, eq_iff today today);
}

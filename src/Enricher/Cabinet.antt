-- ===== src/Enricher/Cabinet.antt =====
-- The rows that the fetchers of app/enricher.py return, and `_iso_date` and `_sort_key`, which read
-- their values.
use Prim.Native.String.{◌++◌ as ◌<>◌}
use ubki_uploader.Prelude.{ℕ, zero, suc, String, Option, none, some}
use ubki_uploader.Python.Json.{show}
use ubki_uploader.Python.Strip.{strip}
use ubki_uploader.Python.Date.{Date, isoformat, from_isoformat}

-- A value that the driver returns: None, a text, an int, a `date`, or a `datetime` with the text of
-- its time.
pub data Cell : Type 0 where
  missing : Cell
  text : String → Cell
  number : ℕ → Cell
  day : Date → Cell
  moment : Date → (time : String) → Cell

-- A document as one source states it.
pub record Source : Type 0 where
  pub passport_number : Cell
  pub passport_issued_by : Cell
  pub passport_date : Cell

-- FETCH_SQL
pub record Row : Type 0 where
  pub user_id : ℕ
  pub applied_at : Cell
  pub snap : Source
  pub user : Source
  pub snap_phone : Cell
  pub user_phone : Cell
  pub user_inn : Cell
  pub addr_postcode : Cell
  pub addr_city : Cell
  pub addr_street : Cell
  pub addr_house : Cell
  pub addr_building : Cell
  pub addr_flat : Cell

-- FETCH_ISSUERS_SQL
pub record Peer : Type 0 where
  pub stated : Source
  pub applied_at : Cell

-- `str(value or "")`
unfoldable pub cell_text : Cell → String
cell_text missing = ""
cell_text (text s) = s
cell_text (number zero) = ""
cell_text (number (suc n)) = show (suc n)
cell_text (day d) = isoformat d
cell_text (moment d time) = isoformat d <> (" " <> time)

-- `_iso_date`, as the date that its text stands for. A text that is not of the shape YYYY-MM-DD is
-- none as well as one that is no date; the digits of an int have no dashes.
unfoldable pub iso_date : Cell → Option Date
iso_date missing = none
iso_date (text s) = from_isoformat (strip s)
iso_date (number n) = from_isoformat (show n)
iso_date (day d) = some d
iso_date (moment d time) = some d

-- `_sort_key`
unfoldable pub sort_key : Cell → String
sort_key missing = ""
sort_key (text s) = strip s
sort_key (number n) = show n
sort_key (day d) = isoformat d
sort_key (moment d time) = isoformat d <> ("T" <> time)

-- ===== src/Db/Schema.antt =====
-- app/db.py: the constants of a status and the tables of SCHEMA.
-- A table is the list of its rows in rowid order. Timestamps are the texts that `utcnow` returns.
use ubki_uploader.Prelude.{ℕ, suc, Bool, String, Option, List, [], ◌∷◌, ◌==◌, map}
use Prim.Native.Nat.{max}

-- PENDING, PARTIAL, SENT, FAILED, REJECTED
pub data Status : Type 0 where
  pending partial sent failed rejected : Status

abbrev status_code : Status → ℕ
status_code pending = 0
status_code partial = 1
status_code sent = 2
status_code failed = 3
status_code rejected = 4

-- Equality of two status texts.
infix 50 ◌is◌
abbrev pub ◌is◌ : Status → Status → Bool
s is t = status_code s == status_code t

pub record FileRow : Type 0 where
  pub id : ℕ
  pub filename : String
  pub sha256 : String
  pub size_bytes : ℕ
  pub lines_total : ℕ
  pub status : Status
  pub created_at : String
  pub completed_at : Option String
  pub archived_at : Option String

pub record RecordRow : Type 0 where
  pub id : ℕ
  pub uuid : String
  pub file_id : ℕ
  pub line_no : ℕ
  pub raw_line : String
  pub status : Status
  pub attempts : ℕ
  pub last_error : Option String
  pub ubki_response : Option String
  pub warn_codes : Option String
  pub created_at : String
  pub sent_at : Option String

-- success | aborted | error
pub data RunStatus : Type 0 where
  success aborted error : RunStatus

pub record RunRow : Type 0 where
  pub started_at : String
  pub finished_at : String
  pub status : RunStatus
  pub files_seen : ℕ
  pub records_sent : ℕ
  pub records_failed : ℕ
  pub records_rejected : ℕ
  pub error : Option String

pub record EnrichedRow : Type 0 where
  pub filename : String
  pub sha256 : String
  pub lines_total : ℕ
  pub lines_enriched : ℕ
  pub lines_quarantined : ℕ
  pub created_at : String

pub record Db : Type 0 where
  pub files : List FileRow
  pub records : List RecordRow
  pub runs : List RunRow
  pub meta : List (String × String)
  pub enriched_files : List EnrichedRow

abbrev pub empty : Db
empty = record { files = []; records = []; runs = []; meta = []; enriched_files = [] }

-- The rowid that SQLite gives to a new row of an INTEGER PRIMARY KEY table: one above the largest.
unfoldable pub next_id : List ℕ → ℕ
next_id [] = 1
next_id (n ∷ ns) = max (suc n) (next_id ns)

abbrev pub file_ids : Db → List ℕ
file_ids db = map (λ f. f.id) db.files

abbrev pub record_ids : Db → List ℕ
record_ids db = map (λ r. r.id) db.records

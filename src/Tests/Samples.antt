-- ===== src/Tests/Samples.antt =====
-- The data that the tests share: a database with one file of three lines, and answers of the bureau.
use ubki_uploader.Prelude.{all_chars, if◌then◌else◌, ℕ, String, none, some, List, [], ◌∷◌}
use ubki_uploader.Config.{Config}
use ubki_uploader.Db.Schema.{pending, FileRow, RecordRow, Db, empty}
use ubki_uploader.Prelude.Int.{pos}
use ubki_uploader.Python.Date.{is_ascii_digit, digits_value}
use ubki_uploader.Python.Json.{Json, str, obj, end, field, Builtins}
use ubki_uploader.Client.UploadResult.{Response, Reply, http_error, response}

-- Text is ASCII here, without the signs and spaces that `int` passes over, and no container is
-- printed.
abbrev pub builtins : Builtins
builtins = record {
  repr = λ _. "'?'";
  upper = λ s. s;
  lower = λ s. s;
  is_decimal = is_ascii_digit;
  is_digit = is_ascii_digit;
  int_of = λ s. if all_chars is_ascii_digit s then some (pos (digits_value 0 s)) else none;
}

abbrev pub config : Config
config = record {
  retry_cap = 5;
  min_file_age_sec = 300;
  max_line_bytes = 2097152;
  network_abort_threshold = 3;
  ubki_concurrency = 2;
  ubki_max_rps = pos 25;
}

abbrev pub file : FileRow
file = record {
  id = 1;
  filename = "a.txt";
  sha256 = "aa";
  size_bytes = 30;
  lines_total = 3;
  status = pending;
  created_at = "t0";
  completed_at = none;
  archived_at = none;
}

abbrev pub row : (id : ℕ) → (uuid raw_line : String) → RecordRow
row id uuid raw_line = record {
  id = id;
  uuid = uuid;
  file_id = 1;
  line_no = id;
  raw_line = raw_line;
  status = pending;
  attempts = 0;
  last_error = none;
  ubki_response = none;
  warn_codes = none;
  created_at = "t0";
  sent_at = none;
}

abbrev pub rows : List RecordRow
rows = row 1 "u1" "{1}" ∷ row 2 "u2" "{2}" ∷ row 3 "u3" "{3}" ∷ []

abbrev pub db : Db
db = record empty { files = file ∷ []; records = rows }

abbrev pub body : (state : String) → Json
body state = obj (field "sentdatainfo" (obj (field "state" (str state) end)) end)

abbrev pub ok_response : Response
ok_response = record { status_code = 200; text = "{}"; json = some (body "ok") }

abbrev pub accepted : Reply
accepted = response ok_response

abbrev pub outage : Reply
outage = http_error "timed out"

abbrev pub stale : Reply
stale = response (record { status_code = 401; text = "no"; json = none })

abbrev pub session_granted : Reply
session_granted =
    response
      (record { status_code = 200; text = "{}"; json = some (obj (field "sessid" (str "S1") end)) })

-- ===== src/Client/UploadResult.antt =====
-- `UploadResult` of app/ubki_client.py, and the response that it is made from.
use ubki_uploader.Prelude.{ℕ, String, Bool, false, Option, none, List, []}
use ubki_uploader.Python.Json.{Json}
use ubki_uploader.Db.Schema.{Status}

-- What httpx gives: `status_code`, `text`, and `json()` with none for its ValueError.
pub record Response : Type 0 where
  pub status_code : ℕ
  pub text : String
  pub json : Option Json

-- A POST: an `httpx.HTTPError` with its text, or a response.
pub data Reply : Type 0 where
  http_error : String → Reply
  response : Response → Reply

pub record UploadResult : Type 0 where
  pub status : Status
  pub state : Option String
  pub http_status : Option ℕ
  pub response_text : Option String
  pub error : Option String
  pub is_network_error : Bool
  pub session_expired : Bool
  pub is_local_reject : Bool
  pub has_warnings : Bool
  pub warn_codes : List String
  pub components_dropped : Bool

-- `UploadResult(status=..., error=...)`, with the defaults of the other fields
abbrev pub upload_result : Status → Option String → UploadResult
upload_result status error = record {
  status = status;
  state = none;
  http_status = none;
  response_text = none;
  error = error;
  is_network_error = false;
  session_expired = false;
  is_local_reject = false;
  has_warnings = false;
  warn_codes = [];
  components_dropped = false;
}

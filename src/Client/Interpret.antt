-- ===== src/Client/Interpret.antt =====
-- `_interpret_response` and `_map_state` of app/ubki_client.py.
use Prim.Native.String.{◌++◌ as ◌<>◌}
use Prim.Native.Char.{code}
use ubki_uploader.Prelude.{
  ℕ, String, Bool, true, false, ◌||◌, ◌&&◌, not, Option, none, some, List, ◌==◌, ltb, leb, str_eq,
  is_blank, take_chars, any, if◌then◌else◌,
}
use ubki_uploader.Prelude.Int.{is_positive}
use ubki_uploader.Db.Schema.{sent, failed, rejected}
use ubki_uploader.Python.Json.{
  Json, Fields, null, str, obj, is_null, get, Builtins, to_text, show, show_int,
}
use ubki_uploader.Client.UploadResult.{
  Response, Reply, http_error, response, UploadResult, upload_result,
}
use ubki_uploader.Client.Body.{sentdatainfo, counter, warning_codes, rejection_detail}

-- RESPONSE_TEXT_LIMIT
abbrev pub response_text_limit : ℕ
response_text_limit = 8192

-- `code.split(":", 1)[1]`
abbrev pub after_colon : String → String
after_colon String.[] = ""
after_colon (String.◌∷◌ c s) = if code c == b':' then s else after_colon s

-- BENIGN_WARNING_CODES
abbrev pub is_benign : String → Bool
is_benign code = str_eq code "4014" || str_eq code "5001"

-- SESSION_EXPIRED_ERRCODES
abbrev pub is_session_errcode : String → Bool
is_session_errcode errcode = str_eq errcode "2014"

-- f"{error}: {detail}" if detail else error
abbrev with_detail : String → String → String
with_detail error detail = if is_blank detail then error else error <> (": " <> detail)

-- `state in ("ok", "nt")`
unfoldable pub is_accepted : Option String → Bool
is_accepted none = false
is_accepted (some s) = str_eq s "ok" || str_eq s "nt"

abbrev pub is_state : String → Option String → Bool
is_state name none = false
is_state name (some s) = str_eq s name

abbrev pub state_json : Option String → Json
state_json none = null
state_json (some s) = str s

-- What the branches of `_map_state` share.
abbrev mapped : Option String → ℕ → String → UploadResult → UploadResult
mapped state http_status text r = record r {
  state = state;
  http_status = some http_status;
  response_text = some (take_chars response_text_limit text);
}

-- `has_warnings` of an accepted response
unfoldable pub notable_warnings :
    Builtins → Fields → (state : Option String) (codes : List String) (dropped : Bool) → Bool
notable_warnings py info state codes dropped =
    any (λ c. not (is_benign (after_colon c))) codes
    || dropped
    || not (any (λ _. true) codes) && (is_state "nt" state || is_positive (counter py info "nt"))

unfoldable pub map_state :
    Builtins → Fields → (state : Option String) (http_status : ℕ) (text : String) → UploadResult
map_state py info state http_status text =
    let (codes, has_ignored_item) = warning_codes py info in
    let dropped = has_ignored_item || is_positive (counter py info "ig") in
    let er_count = counter py info "er" in
    let detail = rejection_detail py info in
    mapped state http_status text (
      if is_accepted state
      then (if is_positive er_count
          then record (upload_result rejected (
              some (
                with_detail (show_int er_count <> " component(s) rejected within accepted request")
                  detail))) { warn_codes = codes; components_dropped = dropped }
          else record (upload_result sent none) {
            has_warnings = notable_warnings py info state codes dropped;
            warn_codes = codes;
            components_dropped = dropped;
          })
      else if is_state "er" state
      then record (upload_result rejected
          (some (with_detail "rejected by UBKI (state=er)" detail))) {
            warn_codes = codes;
            components_dropped = dropped;
          }
      else if is_state "sy" state
      then record (upload_result failed (some "UBKI system error (state=sy)")) {
        is_network_error = true;
      }
      else upload_result failed (some ("unknown state: " <> py.repr (state_json state))))

-- What the results that are made from the HTTP status alone share.
abbrev http_failure : Response → (error : String) → UploadResult
http_failure resp error = record (upload_result failed (some error)) {
  http_status = some resp.status_code;
  response_text = some (take_chars response_text_limit resp.text);
}

abbrev stale_session : Response → (error : String) → UploadResult
stale_session resp error = record (http_failure resp error) {
  is_network_error = true;
  session_expired = true;
}

-- `data`: None for a body that does not parse, and for the body `null`.
unfoldable pub data_of : Response → Json
data_of resp = elim resp.json [ none ↦ null | some data_json ↦ data_json ]

-- `errcode` of a 200 body: main_errcode, or a top-level errcode.
unfoldable pub session_errcode : Json → Json
session_errcode body =
    let main = get "main_errcode" (sentdatainfo body) in
    if is_null main then (elim body [ obj fields ↦ get "errcode" fields | _ ↦ null ]) else main

unfoldable pub is_session_error : Builtins → Json → Bool
is_session_error py body =
    let errcode = session_errcode body in
    not (is_null errcode) && is_session_errcode (to_text py errcode)

-- `state`, in lower case, or none
unfoldable pub state_of : Builtins → Fields → Option String
state_of py info =
    let state = get "state" info in
    if is_null state then none else some (py.lower (to_text py state))

abbrev has_state : Option String → Bool
has_state none = false
has_state (some s) = true

-- The ladder after the body has been read.
abbrev by_http_status : Response → UploadResult
by_http_status resp =
    let error = "HTTP " <> show resp.status_code in
    if leb 500 resp.status_code
    then record (http_failure resp error) { is_network_error = true }
    else if not (resp.status_code == 200)
    then http_failure resp error
    else http_failure resp "non-JSON response"

abbrev by_body : Builtins → Response → Json → UploadResult
by_body py resp body =
    let info = sentdatainfo body in
    let state = state_of py info in
    if resp.status_code == 200 && is_session_error py body
    then stale_session resp ("session errcode " <> to_text py (session_errcode body))
    else if ltb resp.status_code 500 && (resp.status_code == 200 || has_state state)
    then map_state py info state resp.status_code resp.text
    else by_http_status resp

unfoldable pub interpret_response : Builtins → Response → UploadResult
interpret_response py resp =
    if resp.status_code == 401 || resp.status_code == 403
    then stale_session resp ("HTTP " <> (show resp.status_code <> " (session rejected)"))
    else if is_null (data_of resp)
    then by_http_status resp
    else by_body py resp (data_of resp)

-- `send_prepared`
unfoldable pub send_prepared : Builtins → Reply → UploadResult
send_prepared py (http_error error) = record (upload_result failed (some ("network: " <> error))) {
  is_network_error = true;
}
send_prepared py (response resp) = interpret_response py resp

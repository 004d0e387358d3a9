-- ===== src/Client/Verdict.antt =====
-- What the results of `send_prepared` can be, and when a record counts as sent.
use ubki_uploader.Prelude.{
  ℕ, ◌≤◌, ◌<◌, ◌≡◌, ◌≢◌, ◌↔◌, ◌⊎◌, refl, String, Bool, true, false, ◌&&◌, not, Option, none, some,
  arith,
}
use ubki_uploader.Prelude.Int.{is_positive}
use ubki_uploader.Db.Schema.{pending, partial, sent, failed, rejected, ◌is◌}
use ubki_uploader.Python.Json.{Json, Fields, is_null, Builtins}
use ubki_uploader.Client.UploadResult.{Response, Reply, http_error, response, UploadResult}
use ubki_uploader.Client.Body.{sentdatainfo, counter}
use ubki_uploader.Client.Interpret.{
  map_state, notable_warnings, interpret_response, send_prepared, data_of, is_session_error,
  is_accepted, state_of,
}

abbrev pub is_some {ℓ} : {A : Type ℓ} → Option A → Bool
is_some none = false
is_some (some a) = true

pub record IsConsistent (r : UploadResult) : Type 0 where
  pub settled : (r.status ≢ pending) × (r.status ≢ partial)
  pub expired_is_network : r.session_expired ≡ true → r.is_network_error ≡ true
  pub network_is_failed : r.is_network_error ≡ true → r.status ≡ failed
  pub error_unless_sent : is_some r.error ≡ not (r.status is sent)
  pub warned_is_sent : r.has_warnings ≡ true → r.status ≡ sent
  pub dropped_is_warned : r.status ≡ sent → r.components_dropped ≡ true → r.has_warnings ≡ true
  pub local_is_rejected : r.is_local_reject ≡ true → r.status ≡ rejected

map_state-IsConsistent :
    (py : Builtins) (info : Fields) (state : Option String) (code : ℕ) (text : String)
    → IsConsistent (map_state py info state code text)
unfolding map_state notable_warnings
map_state-IsConsistent py info state code text = ground arith

interpret_response-IsConsistent :
    (py : Builtins) (resp : Response) → IsConsistent (interpret_response py resp)
unfolding interpret_response
interpret_response-IsConsistent py resp =
    let info = sentdatainfo (data_of resp) in
    let m = map_state-IsConsistent py info (state_of py info) resp.status_code resp.text in
    ground arith

-- Whatever the bureau answers, or fails to answer: the result is sent, failed or rejected; a stale
-- session counts as a network-like error, and a network-like error as a failure; there is an error
-- text exactly unless the record is sent; only a sent record has warnings; and a sent record whose
-- components were dropped always has them.
pub send_prepared-IsConsistent :
    (py : Builtins) (reply : Reply) → IsConsistent (send_prepared py reply)
unfolding send_prepared
send_prepared-IsConsistent py (http_error e) = ground arith
send_prepared-IsConsistent py (response resp) = interpret_response-IsConsistent py resp

-- An HTTP status of 500 or more is a network-like failure and no stale session, whatever the body.
pub server_error :
    (py : Builtins) (resp : Response)
    → 500 ≤ resp.status_code
    → ((interpret_response py resp).status ≡ failed)
      × ((interpret_response py resp).is_network_error ≡ true)
      × ((interpret_response py resp).session_expired ≡ false)
unfolding interpret_response
server_error py resp h = ground arith

status-map_state :
    (py : Builtins) (info : Fields) (state : Option String) (code : ℕ) (text : String)
    → ((map_state py info state code text).status is sent)
      ≡ (is_accepted state && not (is_positive (counter py info "er")))
unfolding map_state
status-map_state py info state code text = ground arith

session_expired-map_state :
    (py : Builtins) (info : Fields) (state : Option String) (code : ℕ) (text : String)
    → (map_state py info state code text).session_expired ≡ false
unfolding map_state
session_expired-map_state py info state code text = ground arith

is_accepted-none : is_accepted none ≡ false
unfolding is_accepted
is_accepted-none = refl

-- The body was read, its state is `ok` or `nt`, and no component caused a rejection.
abbrev pub IsAcceptance : Builtins → Json → Type 0
IsAcceptance py body =
    (is_null body ≡ false)
    × (is_accepted (state_of py (sentdatainfo body)) ≡ true)
    × (is_positive (counter py (sentdatainfo body) "er") ≡ false)

-- A response makes a record `sent` exactly when it is not 401, 403 or a 5xx, is no stale session
-- of a 200, and its body is an acceptance with no rejected component.
pub sent_iff :
    (py : Builtins) (resp : Response)
    → ((interpret_response py resp).status ≡ sent) ↔ (
        (resp.status_code < 500)
        × (resp.status_code ≢ 401)
        × (resp.status_code ≢ 403)
        × ((resp.status_code ≢ 200) ⊎ (is_session_error py (data_of resp) ≡ false))
        × IsAcceptance py (data_of resp))
unfolding interpret_response
sent_iff py resp =
    let info = sentdatainfo (data_of resp) in
    let state = state_of py info in
    let m = status-map_state py info state resp.status_code resp.text in
    (λ h. ground (arith, is_accepted-none), λ h. ground (arith, is_accepted-none))

-- A session is given up exactly on 401, on 403, and on a 200 whose body has the session errcode.
pub expired_iff :
    (py : Builtins) (resp : Response)
    → ((interpret_response py resp).session_expired ≡ true) ↔ (
        (resp.status_code ≡ 401)
        ⊎ (resp.status_code ≡ 403)
        ⊎ ((resp.status_code ≡ 200)
            × (is_null (data_of resp) ≡ false)
            × (is_session_error py (data_of resp) ≡ true)))
unfolding interpret_response
expired_iff py resp =
    let info = sentdatainfo (data_of resp) in
    let m = session_expired-map_state py info (state_of py info) resp.status_code resp.text in
    (λ h. ground arith, λ h. ground arith)

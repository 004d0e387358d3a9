-- ===== src/Tests/Responses.antt =====
-- app/ubki_client.py on a few answers of the bureau.
use ubki_uploader.Prelude.{
  ℕ, ◌≡◌, ◌≢◌, ◌⊎◌, ◌<◌, ◌↔◌, refl, String, true, false, none, some, [], ◌∷◌,
}
use ubki_uploader.Prelude.Int.{pos}
use ubki_uploader.Db.Schema.{sent, rejected, Db}
use ubki_uploader.Python.Json.{
  Json, Fields, int, str, arr, obj, nil, cons, end, field, to_text, to_int,
}
use ubki_uploader.Client.UploadResult.{Response, UploadResult}
use ubki_uploader.Python.Json.{is_null}
use ubki_uploader.Python.Strip.{strip}
use ubki_uploader.Client.Envelope.{build_envelope}
use ubki_uploader.Client.Body.{find_key, sentdatainfo, counter, warning_codes, rejection_detail}
use ubki_uploader.Client.Interpret.{
  interpret_response, send_prepared, map_state, notable_warnings, is_session_error, session_errcode,
  state_of, data_of, is_accepted,
}
use ubki_uploader.Client.Verdict.{
  IsConsistent, IsAcceptance, send_prepared-IsConsistent, sent_iff, expired_iff,
}
use ubki_uploader.Client.Session.{ClientState, ok, auth, accept_session}
use ubki_uploader.Uploader.SessionCache.{db_session_store, load, save, load-save}
use ubki_uploader.Tests.Samples.{builtins, db, body, ok_response, outage, stale, session_granted}

envelope :
    build_envelope " {\"inn\":\"1\"}\n" "u1"
    ≡ "{\"reqtype\":\"u\",\"reqidout\":\"u1\",\"reqreason\":\"0\",\"data\":{\"fo_cki\":{\"inn\":\"1\"}}}"
unfolding build_envelope strip
envelope = refl

-- Answers, read with every helper open.
read : Response → UploadResult
unfolding interpret_response map_state notable_warnings is_session_error session_errcode state_of
    data_of is_accepted sentdatainfo counter warning_codes rejection_detail to_text to_int
read = interpret_response builtins

abbrev answer : (code : ℕ) → Json → Response
answer code value = record { status_code = code; text = "{}"; json = some value }

abbrev item : (errtype errcode : String) → Json
item errtype errcode =
    obj (field "errtype" (str errtype) (field "errcode" (str errcode) (field "msg" (str "m") end)))

abbrev with_items : (state : String) → (counters : Fields) → Json → Json
with_items state counters value = obj (
    field "sentdatainfo"
      (obj (field "state" (str state) (field "items" (arr (cons value nil)) counters))) end)

ok_is_sent : (read (answer 200 (body "ok"))).status ≡ sent
unfolding read
ok_is_sent = refl

-- An IGNORED item: accepted, with a component dropped.
ignored_item :
    let r = read (answer 200 (with_items "ok" end (item "IGNORED" "3003"))) in
    (r.status ≡ sent)
    × (r.has_warnings ≡ true)
    × (r.components_dropped ≡ true)
    × (r.warn_codes ≡ "IG:3003" ∷ [])
unfolding read
ignored_item = (refl, refl, refl, refl)

-- 5001 comes with nearly every record, and is no warning.
benign_item : (read (answer 200 (with_items "ok" end (item "NOTICE" "5001")))).has_warnings ≡ false
unfolding read
benign_item = refl

rejected_component :
    let r =
      read (answer 200 (with_items "ok" (field "er" (int (pos 2)) end) (item "CRITICAL" "2091"))) in
    (r.status ≡ rejected)
    × (r.error ≡ some "2 component(s) rejected within accepted request: [CRITICAL 2091] m")
unfolding read
rejected_component = (refl, refl)

-- A validation error that comes with HTTP 400.
rejected_with_400 : (read (answer 400 (body "er"))).status ≡ rejected
unfolding read
rejected_with_400 = refl

no_session :
    (read (answer 200 (obj (field "main_errcode" (int (pos 2014)) end)))).session_expired ≡ true
unfolding read
no_session = refl

send_prepared-IsConsistent_example : IsConsistent (send_prepared builtins outage)
send_prepared-IsConsistent_example = send_prepared-IsConsistent builtins outage

sent_iff_example : ((interpret_response builtins ok_response).status ≡ sent) ↔ (
    (ok_response.status_code < 500)
    × (ok_response.status_code ≢ 401)
    × (ok_response.status_code ≢ 403)
    × ((ok_response.status_code ≢ 200) ⊎ (is_session_error builtins (data_of ok_response) ≡ false))
    × IsAcceptance builtins (data_of ok_response))
sent_iff_example = sent_iff builtins ok_response

abbrev unauthorized : Response
unauthorized = record { status_code = 401; text = "no"; json = none }

expired_iff_example : ((interpret_response builtins unauthorized).session_expired ≡ true) ↔ (
    (unauthorized.status_code ≡ 401)
    ⊎ (unauthorized.status_code ≡ 403)
    ⊎ ((unauthorized.status_code ≡ 200)
        × (is_null (data_of unauthorized) ≡ false)
        × (is_session_error builtins (data_of unauthorized) ≡ true)))
expired_iff_example = expired_iff builtins unauthorized

abbrev gateway_error : Response
gateway_error = answer 502 (body "ok")

load-save_example : load "2026-09-02" (save "2026-09-01" db "S1") ≡ none
load-save_example = load-save "2026-09-01" "2026-09-02" db "S1"

abbrev client : ClientState Db
client = record { sessid = none; kept = db }

granted : (auth builtins (some (db_session_store "d")) session_granted client).0 ≡ ok "S1"
unfolding auth accept_session find_key to_text
granted = refl

abbrev signed_in : ClientState Db
signed_in = record { sessid = some "S1"; kept = db }

stale_expired : (send_prepared builtins stale).session_expired ≡ true
unfolding send_prepared interpret_response is_session_error session_errcode data_of sentdatainfo
    to_text
stale_expired = refl

outage_no_stale : (send_prepared builtins outage).session_expired ≡ false
unfolding send_prepared
outage_no_stale = refl

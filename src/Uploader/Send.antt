-- ===== src/Uploader/Send.antt =====
-- `send_records` of app/uploader.py.
pub mod Accepted
pub mod Counts
pub mod Ends
pub mod Keeps
use Prim.Native.String.{◌++◌ as ◌<>◌}
use ubki_uploader.Prelude.{
  ℕ, zero, suc, ◌+◌, String, Bool, true, false, ◌||◌, ◌&&◌, not, Option, none, some, List, [], ◌∷◌,
  ◌++◌, length, ◌==◌, if◌then◌else◌,
}
use ubki_uploader.Config.{Config}
use ubki_uploader.Db.Schema.{RecordRow, Db}
use ubki_uploader.Db.Records.{sendable_records}
use ubki_uploader.Python.Json.{Builtins, show}
use ubki_uploader.Client.UploadResult.{Reply}
use ubki_uploader.Client.Session.{
  SessionStore, ClientState, AuthResult, ok, auth_error, ensure_session, reauth,
}
use ubki_uploader.Uploader.Summary.{RunSummary}
use ubki_uploader.Prelude.Int.{is_positive}
use ubki_uploader.Uploader.Folder.{Exception, value_error}
use ubki_uploader.Uploader.Wave.{Event, Sending, Wave, run_wave}

-- What the network does during the call: the answers to the two requests to authenticate that it
-- may make, and the events of the two waves.
pub record Network : Type 0 where
  pub auth_reply : Reply
  pub reauth_reply : Reply
  pub first_events : List Event
  pub resend_events : List Event

abbrev pub add_error : String → RunSummary → RunSummary
add_error message summary = record summary { errors = summary.errors ++ message ∷ [] }

abbrev pub with_summary : (RunSummary → RunSummary) → Sending → Sending
with_summary f s = record s { summary = f s.summary }

-- The last `if aborted` of the source.
unfoldable pub finish : Config → (aborted : Bool) → Sending → Sending
finish config aborted s =
    if aborted
    then with_summary
        (λ summary.
          add_error
            ("aborted after "
              <> (show config.network_abort_threshold
                  <> " consecutive network-like errors (transport/5xx/sy/session)"))
            (record summary { aborted = true }))
        s
    else s

-- The resend wave, under the session that `reauth` gave.
unfoldable pub resend :
    Builtins
    → Config
    → List Event
    → (aborted : Bool) → List RecordRow
    → AuthResult × ClientState Db
    → Sending
    → Option Sending
resend py config events aborted expired (auth_error e, c) s = some (
    finish config aborted (
      with_summary
        (λ summary.
          add_error ("re-auth failed: " <> e)
            (record summary { records_failed = summary.records_failed + length expired }))
        (record s { db = c.kept })))
resend py config events aborted expired (ok sessid, c) s =
    elim (run_wave py config true events expired (record s { db = c.kept })) [
      | none ↦ none
      | some w ↦ some (finish config (aborted || w.aborted) w.sending)
    ]

-- What follows the first wave.
unfoldable pub after_first :
    Builtins → Config → SessionStore Db → Network → (sessid : Option String) → Wave → Option Sending
after_first py config store net sessid w = elim w.expired [
  | [] ↦ some (finish config w.aborted w.sending)
  | x ∷ xs ↦
      let renewed =
        reauth py (some store) net.reauth_reply (record { sessid = sessid; kept = w.sending.db }) in
      let again = resend py config net.resend_events w.aborted (x ∷ xs) renewed w.sending in
      if w.aborted then some (finish config w.aborted w.sending) else again
]

-- The first wave, and what follows it.
unfoldable pub send_waves :
    Builtins
    → Config
    → SessionStore Db
    → Network
    → List RecordRow
    → ClientState Db
    → Sending
    → Option Sending
send_waves py config store net records c s =
    elim (run_wave py config false net.first_events records (record s { db = c.kept })) [
      | none ↦ none
      | some w ↦ after_first py config store net c.sessid w
    ]

-- The ValueError of `RateLimiter(config.ubki_max_rps)`, and, behind it, that of the
-- `ThreadPoolExecutor(max_workers=config.ubki_concurrency)` with which a wave begins.
unfoldable pub refusal : Config → Option Exception
refusal config =
    if not (is_positive config.ubki_max_rps)
    then some (value_error "rate_per_sec must be positive")
    else if config.ubki_concurrency == 0
    then some (value_error "max_workers must be greater than 0")
    else none

-- What follows `ensure_session`.
unfoldable pub fan_out :
    Builtins
    → Config
    → SessionStore Db
    → Network
    → List RecordRow
    → AuthResult × ClientState Db
    → Sending
    → Option Sending
fan_out py config store net records (auth_error e, c) s = some (
    with_summary
      (λ summary.
        add_error ("auth failed, pass aborted: " <> e) (record summary { aborted = true }))
      (record s { db = c.kept }))
fan_out py config store net records (ok sessid, c) s = elim (refusal config) [
  | some exc ↦ some (record s { db = c.kept; raised = some exc })
  | none ↦ send_waves py config store net records c s
]

abbrev pub start_sending : Db → RunSummary → Sending
start_sending db summary = record {
  db = db;
  summary = summary;
  touched = [];
  streak = 0;
  log = [];
  raised = none;
}

-- The result has the database, the summary, the touched files and the exception; none where the
-- events end before the requests do. `sessid` is the client's `_sessid` at the call.
unfoldable pub send_records :
    Builtins
    → Config
    → SessionStore Db
    → Network
    → (sessid : Option String) → Db
    → RunSummary
    → Option Sending
send_records py config store net sessid db summary =
    let s = start_sending db summary in
    let session =
      ensure_session py (some store) net.auth_reply (record { sessid = sessid; kept = db }) in
    elim (sendable_records db config.retry_cap) [
      | [] ↦ some s
      | r ∷ rs ↦ fan_out py config store net (r ∷ rs) session s
    ]

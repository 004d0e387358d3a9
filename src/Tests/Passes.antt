-- ===== src/Tests/Passes.antt =====
-- Waves and passes over the sample database.
use ubki_uploader.Prelude.{
  ◌⊎◌, ℕ, ◌+◌, ◌≡◌, ◌≤◌, refl, Bool, true, false, ◌&&◌, Option, none, some, List, [], ◌∷◌, ◌++◌,
  arith, length, map, count_where, ◌==◌,
}
use ubki_uploader.Db.Schema.{Status, sent, failed, ◌is◌, RecordRow}
use ubki_uploader.Db.Records.{sendable_records, update_record_result}
use ubki_uploader.Db.Records.Sendable.{IsByFileAndLine, sendable_records-IsByFileAndLine}
use ubki_uploader.Uploader.SessionCache.{db_session_store}
use ubki_uploader.Uploader.Summary.{run_summary}
use ubki_uploader.Uploader.Wave.{
  Event, Sending, Wave, run_wave, drain, handle, answer, refill, pop, commit, tally, next_streak,
  send_one,
}
use ubki_uploader.Uploader.Wave.Once.{count_log, run_wave_once}
use ubki_uploader.Uploader.Wave.Outcome.{summary_total}
use ubki_uploader.Uploader.Send.{Network, send_records, start_sending, fan_out, refusal}
use ubki_uploader.Uploader.Folder.{Exception, value_error}
use ubki_uploader.Client.Session.{ensure_session, use_cached}
use ubki_uploader.Uploader.Send.Accepted.{accepted_once}
use ubki_uploader.Uploader.Send.Ends.{send_records_ends}
use ubki_uploader.Prelude.Int.{is_positive}
use ubki_uploader.Tests.Samples.{
  builtins, config, db, rows, accepted, outage, stale, session_granted,
}
use ubki_uploader.Tests.Validity.{db-IsValid}
use ubki_uploader.Client.UploadResult.{Reply}
use ubki_uploader.Client.Envelope.{build_envelope}
use ubki_uploader.Python.Strip.{strip}
use ubki_uploader.Python.Json.{to_text, to_int}
use ubki_uploader.Client.Body.{sentdatainfo, counter, warning_codes}
use ubki_uploader.Client.Interpret.{
  send_prepared, interpret_response, map_state, is_session_error, session_errcode, state_of,
  data_of, is_accepted,
}

abbrev event : (pick : ℕ) → Reply → Event
event pick reply = record { pick = pick; reply = reply; now = "t1" }

abbrev events : List Event
events = event 1 accepted ∷ event 0 outage ∷ event 0 accepted ∷ []

abbrev start : Sending
start = start_sending db (run_summary false)

wave_ends :
    (w : Wave) × (run_wave builtins config false events rows start ≡ some w)
    × ((p : RecordRow → Bool)
        → count_log p w.sending.log + count_where p w.waiting ≡ count_log p [] + count_where p rows)
    × ((w.aborted ≡ true) ⊎ (w.waiting ≡ []))
wave_ends = run_wave_once builtins config false events rows start (omega arith) (omega arith)

abbrev ended_wave : Wave
ended_wave = wave_ends.0

ended : run_wave builtins config false events rows start ≡ some ended_wave
ended = wave_ends.1

run_wave_once_example :
    (w : Wave) × (run_wave builtins config true events rows start ≡ some w)
    × ((p : RecordRow → Bool)
        → count_log p w.sending.log + count_where p w.waiting ≡ count_log p [] + count_where p rows)
    × ((w.aborted ≡ true) ⊎ (w.waiting ≡ []))
run_wave_once_example =
    run_wave_once builtins config true events rows start (omega arith) (omega arith)

summary_total_example :
    ended_wave.sending.summary.records_sent
      + ended_wave.sending.summary.records_failed
      + ended_wave.sending.summary.records_rejected
      + length ended_wave.expired
      + 0
    ≡ 0 + 0 + 0 + length ended_wave.sending.log
summary_total_example = summary_total builtins config false events rows start ended_wave ended

-- The ids and statuses that a wave logs, in order, where it ends.
abbrev logged : Option Wave → List (ℕ × Status)
logged none = []
logged (some w) = map (λ e. (e.item.id, e.result.status)) w.sending.log

-- Two requests are in flight at once. The second one is answered first, and frees the place of the
-- third record; the outage of the first does not abort the wave.
log_order :
    logged (run_wave builtins config false events rows start)
    ≡ (2, sent) ∷ (1, failed) ∷ (3, sent) ∷ []
unfolding run_wave drain handle answer refill pop commit tally next_streak send_one build_envelope
    strip send_prepared interpret_response map_state is_session_error session_errcode state_of
    data_of is_accepted sentdatainfo counter warning_codes to_text to_int update_record_result
log_order = refl

-- Three network-like errors in a row abort the wave: the two requests in flight are answered, and
-- the records that were not sent yet stay as they were.
abort_order :
    logged (
      run_wave builtins
        (record config { network_abort_threshold = 2 })
        false
        (event 0 outage ∷ event 0 outage ∷ event 0 outage ∷ [])
        (rows ++ rows)
        start)
    ≡ (1, failed) ∷ (2, failed) ∷ (3, failed) ∷ []
unfolding run_wave drain handle answer refill pop commit tally next_streak send_one build_envelope
    strip send_prepared interpret_response map_state is_session_error session_errcode state_of
    data_of is_accepted sentdatainfo counter warning_codes to_text to_int update_record_result
abort_order = refl

abbrev network : Network
network = record {
  auth_reply = session_granted;
  reauth_reply = session_granted;
  first_events = event 0 stale ∷ event 0 accepted ∷ event 0 accepted ∷ [];
  resend_events = event 0 accepted ∷ event 0 accepted ∷ event 0 accepted ∷ [];
}

three : sendable_records db 5 ≡ rows
unfolding sendable_records
three = refl

pass_ends :
    (t : Sending) × (send_records builtins config
        (db_session_store "d")
        network
        none
        db
        (run_summary false)
      ≡ some t)
    × ((t.raised ≡ none)
        ⊎ ((is_positive config.ubki_max_rps ≡ false) ⊎ (config.ubki_concurrency ≡ 0)))
pass_ends =
    send_records_ends builtins config (db_session_store "d") network none db (run_summary false)
      (rw three (omega arith)) (rw three (omega arith))

send_records_ends_example :
    (t : Sending) × (send_records builtins config
        (db_session_store "d")
        network
        (some "S1")
        db
        (run_summary false)
      ≡ some t)
    × ((t.raised ≡ none)
        ⊎ ((is_positive config.ubki_max_rps ≡ false) ⊎ (config.ubki_concurrency ≡ 0)))
send_records_ends_example =
    send_records_ends builtins config (db_session_store "d") network (some "S1") db
      (run_summary false) (rw three (omega arith)) (rw three (omega arith))

-- Without workers a call with records to send raises, and sends none of them.
abbrev exception_of : Option Sending → Option Exception
exception_of none = none
exception_of (some s) = s.raised

no_workers :
    exception_of (
      send_records builtins
        (record config { ubki_concurrency = 0 })
        (db_session_store "d")
        network
        (some "S1")
        db
        (run_summary false))
    ≡ some (value_error "max_workers must be greater than 0")
unfolding send_records sendable_records ensure_session use_cached fan_out refusal
no_workers = refl

accepted_once_example :
    count_where (λ e. e.item.id == 1 && e.result.status is sent) pass_ends.0.log ≤ 1
accepted_once_example =
    accepted_once builtins config (db_session_store "d") network none db (run_summary false)
      pass_ends.0 1 db-IsValid pass_ends.1

sendable_records-IsByFileAndLine_example : IsByFileAndLine (sendable_records db 5)
sendable_records-IsByFileAndLine_example = sendable_records-IsByFileAndLine db 5

-- ===== src/Uploader/Send/Counts.antt =====
-- How many records of a kind one call of `send_records` gets accepted.
use ubki_uploader.Prelude.{
  ◌+◌, ◌≤◌, ◌≡◌, refl, String, Bool, true, false, ◌||◌, ◌&&◌, Option, some, List, [], ◌∷◌, All,
  count_where, count-append, arith, ap, sym, ◌∙◌, inl, inr, Bool-cases, Option-cases, List-cases,
}
use mathlib.Core.Option.{some-injective}
use ubki_uploader.Config.{Config}
use ubki_uploader.Db.Schema.{sent, ◌is◌, RecordRow, Db}
use ubki_uploader.Db.Records.{sendable_records}
use ubki_uploader.Python.Json.{Builtins}
use ubki_uploader.Client.Session.{
  SessionStore, ClientState, AuthResult, ok, auth_error, ensure_session, reauth,
}
use ubki_uploader.Client.Verdict.{IsConsistent}
use ubki_uploader.Uploader.Summary.{RunSummary}
use ubki_uploader.Uploader.Wave.{Event, Processed, Sending, Wave, run_wave, commit}
use ubki_uploader.Uploader.Wave.Keeps.{is_resent, processed, settled, run_wave_keeps}
use ubki_uploader.Uploader.Wave.Once.{run_wave_counts}
use ubki_uploader.Uploader.Wave.Outcome.{count-expired, log-IsConsistent}
use ubki_uploader.Uploader.Send.{
  Network, finish, resend, after_first, send_waves, refusal, fan_out, start_sending, send_records,
}

module _ (p : RecordRow → Bool) where
  abbrev is_ours : Processed → Bool
  is_ours e = p e.item

  abbrev pub is_accepted_here : Processed → Bool
  is_accepted_here e = p e.item && e.result.status is sent

  -- A line that was accepted is not to be resent.
  accepted-add-resent :
      (log : List Processed)
      → All (λ e. IsConsistent e.result) log
      → count_where is_accepted_here log + count_where (λ e. p e.item && is_resent false e) log
        ≤ count_where is_ours log
  accepted-add-resent [] h = omega arith
  accepted-add-resent (e ∷ log) (c, h) =
      ground (arith, accepted-add-resent log h, c.expired_is_network, c.network_is_failed)

  accepted_step :
      (py : Builtins) (config : Config) (final : Bool) (e : Event) (item : RecordRow)
      (s t : Sending)
      → count_where is_accepted_here t.log + count_where is_ours s.log
        ≤ count_where is_accepted_here s.log + count_where is_ours t.log
      → count_where is_accepted_here (settled py config final e item t).log
          + count_where is_ours s.log
        ≤ count_where is_accepted_here s.log
          + count_where is_ours (settled py config final e item t).log
  unfolding commit
  accepted_step py config final e item s t h =
      let line = processed py config final e item in
      ground (
        arith,
        count-append is_accepted_here t.log (line ∷ []),
        count-append is_ours t.log (line ∷ []),
      )

  -- A wave accepts at most as many records as it processes.
  accepted_le_processed :
      (py : Builtins) (config : Config) (final : Bool) (events : List Event) (wave : List RecordRow)
      (s : Sending) (w : Wave)
      → run_wave py config final events wave s ≡ some w
      → count_where is_accepted_here w.sending.log + count_where is_ours s.log
        ≤ count_where is_accepted_here s.log + count_where is_ours w.sending.log
  accepted_le_processed py config final events wave s w ends =
      run_wave_keeps py config final
        (λ t _.
          count_where is_accepted_here t.log + count_where is_ours s.log
          ≤ count_where is_accepted_here s.log + count_where is_ours t.log)
        (λ e item t _ h. accepted_step py config final e item s t h) events wave s w ends
        (omega arith)

  module _ (py : Builtins) (config : Config) where
    log-finish : (b : Bool) (s : Sending) → (finish config b s).log ≡ s.log
    unfolding finish
    log-finish true s = refl
    log-finish false s = refl

    log_finished : (b : Bool) (s t : Sending) → some (finish config b s) ≡ some t → t.log ≡ s.log
    log_finished b s t h =
        sym (ap (λ (x : Sending). x.log) (some-injective (finish config b s) t h)) ∙ log-finish b s

    accepted_finished :
        (b : Bool) (s t : Sending)
        → some (finish config b s) ≡ some t
        → count_where is_accepted_here t.log ≡ count_where is_accepted_here s.log
    accepted_finished b s t h = ap (count_where is_accepted_here) (log_finished b s t h)

    -- The first wave, from an empty log: what it accepts and what it leaves to be resent.
    first_wave :
        (events : List Event) (wave : List RecordRow) (s : Sending) (w : Wave)
        → run_wave py config false events wave s ≡ some w
        → s.log ≡ []
        → count_where is_accepted_here w.sending.log + count_where p w.expired ≤ count_where p wave
    first_wave events wave s w ends fresh =
        let consistent = log-IsConsistent py config false events wave s w ends (rw fresh tt) in
        let resent = rw fresh at (count-expired py config false events wave s w ends p) in
        let counts = rw fresh at (run_wave_counts p py config false events wave s w ends) in
        omega (arith, accepted-add-resent w.sending.log consistent, resent, counts)

    -- The resend wave adds at most the records that it was given.
    resend_wave :
        (events : List Event) (aborted : Bool) (expired : List RecordRow)
        (renewed : AuthResult × ClientState Db) (s t : Sending)
        → resend py config events aborted expired renewed s ≡ some t
        → count_where is_accepted_here t.log
          ≤ count_where is_accepted_here s.log + count_where p expired
    unfolding resend
    resend_wave events aborted expired (auth_error e, c) s t h =
        omega (arith, accepted_finished aborted _ t h)
    resend_wave events aborted expired (ok sessid, c) s t h =
        let s' : Sending = record s { db = c.kept } in
        elim (Option-cases (run_wave py config true events expired s')) [
          | inl e ↦ absurd (ground arith)
          | inr (w, e) ↦
              let h' : some (finish config (aborted || w.aborted) w.sending) ≡ some t =
                rw (← h, e, resend) refl in
              omega (
                arith,
                accepted_finished (aborted || w.aborted) w.sending t h',
                accepted_le_processed py config true events expired s' w e,
                run_wave_counts p py config true events expired s' w e,
              )
        ]

    after_first_wave :
        (store : SessionStore Db) (net : Network) (sessid : Option String) (w : Wave) (t : Sending)
        → after_first py config store net sessid w ≡ some t
        → count_where is_accepted_here t.log
          ≤ count_where is_accepted_here w.sending.log + count_where p w.expired
    unfolding after_first
    after_first_wave store net sessid w t h = elim (List-cases w.expired) [
      | inl e ↦
          let h' : some (finish config w.aborted w.sending) ≡ some t =
            rw (← h, e, after_first) refl in
          omega (arith, accepted_finished w.aborted w.sending t h')
      | inr (x, xs, e) ↦ elim (Bool-cases w.aborted) [
        | inl b ↦
            let h' : some (finish config w.aborted w.sending) ≡ some t = ground arith in
            omega (arith, accepted_finished w.aborted w.sending t h')
        | inr b ↦
            let renewed =
              reauth py (some store) net.reauth_reply
                (record { sessid = sessid; kept = w.sending.db }) in
            let h' : resend py config net.resend_events w.aborted (x ∷ xs) renewed w.sending
                ≡ some t =
              ground arith in
            omega (
              arith,
              ap (count_where p) e,
              resend_wave net.resend_events w.aborted (x ∷ xs) renewed w.sending t h',
            )
      ]
    ]

    send_waves_accepts :
        (store : SessionStore Db) (net : Network) (records : List RecordRow) (c : ClientState Db)
        (s t : Sending)
        → s.log ≡ []
        → send_waves py config store net records c s ≡ some t
        → count_where is_accepted_here t.log ≤ count_where p records
    unfolding send_waves
    send_waves_accepts store net records c s t fresh h =
        let s' : Sending = record s { db = c.kept } in
        elim (Option-cases (run_wave py config false net.first_events records s')) [
          | inl e ↦ absurd (ground arith)
          | inr (w, e) ↦
              let h' : after_first py config store net c.sessid w ≡ some t =
                rw (← h, e, send_waves) refl in
              omega (
                arith,
                first_wave net.first_events records s' w e fresh,
                after_first_wave store net c.sessid w t h',
              )
        ]

    no_log :
        (s t : Sending) (records : List RecordRow)
        → s.log ≡ []
        → some s ≡ some t
        → count_where is_accepted_here t.log ≤ count_where p records
    no_log s t records fresh h =
        let same : s.log ≡ t.log = ap (λ (x : Sending). x.log) (some-injective s t h) in
        omega (arith, ap (count_where is_accepted_here) (sym same ∙ fresh))

    fan_out_accepts :
        (store : SessionStore Db) (net : Network) (records : List RecordRow)
        (session : AuthResult × ClientState Db) (s t : Sending)
        → s.log ≡ []
        → fan_out py config store net records session s ≡ some t
        → count_where is_accepted_here t.log ≤ count_where p records
    unfolding fan_out
    fan_out_accepts store net records (auth_error e, c) s t fresh h = no_log _ t records fresh h
    fan_out_accepts store net records (ok sessid, c) s t fresh h =
        elim (Option-cases (refusal config)) [
          | inl e ↦ send_waves_accepts store net records c s t fresh (rw (← h, e, fan_out) refl)
          | inr (exc, e) ↦
              no_log (record s { db = c.kept; raised = some exc }) t records fresh
                (rw (← h, e, fan_out) refl)
        ]

    -- A call accepts at most as many of these records as it may send.
    pub send_records_accepts :
        (store : SessionStore Db) (net : Network) (sessid : Option String) (db : Db)
        (summary : RunSummary) (t : Sending)
        → send_records py config store net sessid db summary ≡ some t
        → count_where is_accepted_here t.log ≤ count_where p (sendable_records db config.retry_cap)
    unfolding send_records
    send_records_accepts store net sessid db summary t h =
        elim (List-cases (sendable_records db config.retry_cap)) [
          | inl e ↦
              omega (
                arith,
                no_log (start_sending db summary) t [] refl (rw (← h, e, send_records) refl),
              )
          | inr (r, rs, e) ↦
              let session =
                ensure_session py (some store) net.auth_reply
                  (record { sessid = sessid; kept = db }) in
              let h' : fan_out py config store net (r ∷ rs) session (start_sending db summary)
                  ≡ some t =
                rw (← h, e, send_records) refl in
              omega (
                arith,
                ap (count_where p) e,
                fan_out_accepts store net (r ∷ rs) session (start_sending db summary) t refl h',
              )
        ]

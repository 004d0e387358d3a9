-- ===== src/Uploader/Send/Ends.antt =====
-- A call of `send_records` returns, once every request that it makes has been answered.
use ubki_uploader.Prelude.{
  ◌≤◌, ◌≡◌, ◌⊎◌, ◌∙◌, refl, String, Bool, true, false, ◌||◌, ◌&&◌, Option, none, some, List, [],
  ◌∷◌, length, count_where, arith, ap, inl, inr, Bool-cases, Option-cases, List-cases,
}
use ubki_uploader.Prelude.Int.{is_positive}
use ubki_uploader.Uploader.Folder.{Exception}
use ubki_uploader.Config.{Config}
use ubki_uploader.Db.Schema.{RecordRow, Db}
use ubki_uploader.Db.Records.{sendable_records}
use ubki_uploader.Python.Json.{Builtins}
use ubki_uploader.Client.Session.{
  SessionStore, ClientState, AuthResult, ok, auth_error, ensure_session, reauth,
}
use ubki_uploader.Uploader.Summary.{RunSummary}
use ubki_uploader.Uploader.Wave.{Event, Processed, Sending, Wave, run_wave, commit}
use ubki_uploader.Uploader.Wave.Keeps.{is_resent, run_wave_keeps}
use ubki_uploader.Uploader.Wave.Ends.{run_wave_ends}
use ubki_uploader.Uploader.Wave.Once.{run_wave_counts}
use ubki_uploader.Uploader.Wave.Outcome.{count-expired}
use ubki_uploader.Uploader.Send.{
  Network, finish, resend, after_first, send_waves, refusal, fan_out, start_sending, send_records,
}

count_true {ℓ} : {A : Type ℓ} (xs : List A) → count_where (λ _. true) xs ≡ length xs
count_true [] = refl
count_true (x ∷ xs) = omega (arith, count_true xs)

count_fewer :
    (log : List Processed)
    → count_where (λ e. true && is_resent false e) log ≤ count_where (λ _. true) log
count_fewer [] = omega arith
count_fewer (e ∷ log) = ground (arith, count_fewer log)

-- No more records are resent than were in the wave.
length-expired :
    (py : Builtins) (config : Config) (events : List Event) (wave : List RecordRow) (s : Sending)
    (w : Wave)
    → run_wave py config false events wave s ≡ some w
    → s.log ≡ []
    → length w.expired ≤ length wave
length-expired py config events wave s w ends fresh =
    let resent = rw fresh at (count-expired py config false events wave s w ends (λ _. true)) in
    let counts = rw fresh at (run_wave_counts (λ _. true) py config false events wave s w ends) in
    omega (arith, resent, counts, count_fewer w.sending.log, count_true w.expired, count_true wave)

abbrev IsRefused : Config → Type 0
IsRefused config = (is_positive config.ubki_max_rps ≡ false) ⊎ (config.ubki_concurrency ≡ 0)

refusal-IsRefused :
    (config : Config) (exc : Exception) → refusal config ≡ some exc → IsRefused config
unfolding refusal
refusal-IsRefused config exc h = elim (Bool-cases (is_positive config.ubki_max_rps)) [
  | inr e ↦ inl e
  | inl e ↦ inr (ground arith)
]

module _ (py : Builtins) (config : Config) where
  raised-run_wave :
      (final : Bool) (events : List Event) (wave : List RecordRow) (s : Sending) (w : Wave)
      → run_wave py config final events wave s ≡ some w
      → s.raised ≡ none
      → w.sending.raised ≡ none
  unfolding commit
  raised-run_wave final events wave s w ends calm =
      run_wave_keeps py config final (λ t _. t.raised ≡ none) (λ e item t _ h. h) events wave s w
        ends calm

  raised-finish : (b : Bool) (s : Sending) → (finish config b s).raised ≡ s.raised
  unfolding finish
  raised-finish true s = refl
  raised-finish false s = refl

  resend_ends :
      (events : List Event) (aborted : Bool) (expired : List RecordRow)
      (renewed : AuthResult × ClientState Db) (s : Sending)
      → s.raised ≡ none
      → length expired ≤ length events
      → (t : Sending) × (resend py config events aborted expired renewed s ≡ some t)
        × (t.raised ≡ none)
  unfolding resend
  resend_ends events aborted expired (auth_error e, c) s calm enough =
      (_, refl, raised-finish aborted _ ∙ calm)
  resend_ends events aborted expired (ok sessid, c) s calm enough =
      let s' : Sending = record s { db = c.kept } in
      let (w, ends) = run_wave_ends py config true events expired s' enough in
      (
        finish config (aborted || w.aborted) w.sending,
        rw (ends, resend) refl,
        raised-finish (aborted || w.aborted) w.sending
            ∙ raised-run_wave true events expired s' w ends calm,
      )

  after_first_ends :
      (store : SessionStore Db) (net : Network) (sessid : Option String) (w : Wave)
      → w.sending.raised ≡ none
      → length w.expired ≤ length net.resend_events
      → (t : Sending) × (after_first py config store net sessid w ≡ some t) × (t.raised ≡ none)
  unfolding after_first
  after_first_ends store net sessid w calm enough = elim (List-cases w.expired) [
    | inl e ↦
        (finish config w.aborted w.sending, ground arith, raised-finish w.aborted w.sending ∙ calm)
    | inr (x, xs, e) ↦ elim (Bool-cases w.aborted) [
      | inl b ↦ (
        finish config w.aborted w.sending,
        ground arith,
        raised-finish w.aborted w.sending ∙ calm,
      )
      | inr b ↦
          let renewed =
            reauth py (some store) net.reauth_reply
              (record { sessid = sessid; kept = w.sending.db }) in
          let (t, ends, calm') =
            resend_ends net.resend_events w.aborted (x ∷ xs) renewed w.sending calm
              (omega (arith, ap length e)) in
          (t, ground arith, calm')
    ]
  ]

  send_waves_ends :
      (store : SessionStore Db) (net : Network) (records : List RecordRow) (c : ClientState Db)
      (s : Sending)
      → s.log ≡ []
      → s.raised ≡ none
      → length records ≤ length net.first_events
      → length records ≤ length net.resend_events
      → (t : Sending) × (send_waves py config store net records c s ≡ some t) × (t.raised ≡ none)
  unfolding send_waves
  send_waves_ends store net records c s fresh calm enough enough' =
      let s' : Sending = record s { db = c.kept } in
      let (w, ends) = run_wave_ends py config false net.first_events records s' enough in
      let few = length-expired py config net.first_events records s' w ends fresh in
      let (t, ends', calm') =
        after_first_ends store net c.sessid w (raised-run_wave false _ records s' w ends calm)
          (omega (arith, few)) in
      (t, ground arith, calm')

  fan_out_ends :
      (store : SessionStore Db) (net : Network) (records : List RecordRow)
      (session : AuthResult × ClientState Db) (s : Sending)
      → s.log ≡ []
      → s.raised ≡ none
      → length records ≤ length net.first_events
      → length records ≤ length net.resend_events
      → (t : Sending) × (fan_out py config store net records session s ≡ some t)
        × ((t.raised ≡ none) ⊎ IsRefused config)
  unfolding fan_out
  fan_out_ends store net records (auth_error e, c) s fresh calm enough enough' = (_, refl, inl calm)
  fan_out_ends store net records (ok sessid, c) s fresh calm enough enough' =
      elim (Option-cases (refusal config)) [
        | inl e ↦
            let (t, ends, calm') =
              send_waves_ends store net records c s fresh calm enough enough' in
            (t, rw (e, ends, fan_out) refl, inl calm')
        | inr (exc, e) ↦ (
          record s { db = c.kept; raised = some exc },
          rw (e, fan_out) refl,
          inr (refusal-IsRefused config exc e),
        )
      ]

  -- Each wave has as many events as there are records to send. Then `send_records` comes to its end,
  -- whatever the answers are, as long as the numbers in them are finite, and in whatever order they
  -- come. It returns, unless the rate is not positive or the number of workers is zero, where it may
  -- raise.
  pub send_records_ends :
      (store : SessionStore Db) (net : Network) (sessid : Option String) (db : Db)
      (summary : RunSummary)
      → length (sendable_records db config.retry_cap) ≤ length net.first_events
      → length (sendable_records db config.retry_cap) ≤ length net.resend_events
      → (t : Sending) × (send_records py config store net sessid db summary ≡ some t)
        × ((t.raised ≡ none)
            ⊎ ((is_positive config.ubki_max_rps ≡ false) ⊎ (config.ubki_concurrency ≡ 0)))
  unfolding send_records
  send_records_ends store net sessid db summary enough enough' =
      elim (List-cases (sendable_records db config.retry_cap)) [
        | inl e ↦ (start_sending db summary, rw (e, send_records) refl, inl refl)
        | inr (r, rs, e) ↦
            let session =
              ensure_session py (some store) net.auth_reply
                (record { sessid = sessid; kept = db }) in
            let (t, ends, way) =
              fan_out_ends store net (r ∷ rs) session (start_sending db summary) refl refl
                (omega (arith, ap length e)) (omega (arith, ap length e)) in
            (t, ground arith, way)
      ]

-- ===== src/Uploader/Send/Keeps.antt =====
-- The rule for what `send_records` keeps of the database.
use ubki_uploader.Prelude.{
  ◌≡◌, ◌≢◌, refl, String, Bool, true, false, ◌||◌, Option, none, some, List, ◌∷◌, ℕ, arith, subst,
  Bool-cases, is_blank, ◌==◌, inl, inr, List-cases, Option-cases,
}
use mathlib.Core.Option.{some-injective}
use ubki_uploader.Config.{Config}
use ubki_uploader.Db.Schema.{Status, partial, RecordRow, Db}
use ubki_uploader.Db.Records.{update_record_result, sendable_records}
use ubki_uploader.Python.Json.{Json, Builtins, truthy, to_text}
use ubki_uploader.Client.Body.{find_key}
use ubki_uploader.Client.UploadResult.{Reply, Response, http_error, response}
use ubki_uploader.Client.Session.{
  SessionStore, ClientState, AuthResult, ok, auth_error, ensure_session, reauth, auth,
  accept_session, use_cached,
}
use ubki_uploader.Uploader.Summary.{RunSummary}
use ubki_uploader.Uploader.Wave.{Event, Sending, Wave, run_wave, commit}
use ubki_uploader.Uploader.Wave.Keeps.{processed, run_wave_keeps}
use ubki_uploader.Uploader.Wave.Outcome.{send_one-IsConsistent}
use ubki_uploader.Uploader.Send.{
  Network, finish, resend, after_first, send_waves, refusal, fan_out, start_sending, send_records,
}

module _ {ℓ} (P : Db → Type ℓ) (py : Builtins) (config : Config) (store : SessionStore Db)
    (attempt_keeps : (now : String) (db : Db) (id : ℕ) (s : Status) (e t c : Option String)
        (count : Bool)
      → s ≢ partial
      → P db
      → P (update_record_result now db id s e t c count))
    (save_keeps : (db : Db) (sessid : String) → P db → P (store.save db sessid)) where
  wave_keeps :
      (final : Bool) (events : List Event) (wave : List RecordRow) (s : Sending) (w : Wave)
      → run_wave py config final events wave s ≡ some w
      → P s.db
      → P w.sending.db
  unfolding commit
  wave_keeps final events wave s w ends =
      run_wave_keeps py config final (λ t _. P t.db)
        (λ e item t _ p.
          let line = processed py config final e item in
          attempt_keeps e.now t.db item.id line.result.status _ _ _ _
            (send_one-IsConsistent py config item e.reply).settled.1 p)
        events wave s w ends

  accept_session_keeps :
      (resp : Response) (body : Json) (c : ClientState Db)
      → P c.kept
      → P (accept_session py (some store) resp body c).1.kept
  unfolding accept_session
  accept_session_keeps resp body c p = elim (Bool-cases (truthy (find_key "sessid" body))) [
    | inl e ↦ rw (e, accept_session) (save_keeps c.kept (to_text py (find_key "sessid" body)) p)
    | inr e ↦ rw (e, accept_session) p
  ]

  auth_keeps :
      (reply : Reply) (c : ClientState Db) → P c.kept → P (auth py (some store) reply c).1.kept
  unfolding auth
  auth_keeps (http_error e) c p = p
  auth_keeps (response resp) c p = elim (Bool-cases (resp.status_code == 200)) [
    | inr e ↦ rw (e, auth) p
    | inl e ↦ elim (Option-cases resp.json) [
      | inl f ↦ rw (e, f, auth) p
      | inr (body, f) ↦ rw (e, f, auth) (accept_session_keeps resp body c p)
    ]
  ]

  reauth_keeps :
      (reply : Reply) (c : ClientState Db) → P c.kept → P (reauth py (some store) reply c).1.kept
  unfolding reauth
  reauth_keeps reply c p = auth_keeps reply (record c { sessid = none }) p

  use_cached_keeps :
      (sessid : Option String) (asked : AuthResult × ClientState Db) (c : ClientState Db)
      → P asked.1.kept
      → P c.kept
      → P (use_cached sessid asked c).1.kept
  unfolding use_cached
  use_cached_keeps none asked c pa p = pa
  use_cached_keeps (some s) asked c pa p = elim (Bool-cases (is_blank s)) [
    | inl e ↦ rw (e, use_cached) pa
    | inr e ↦ rw (e, use_cached) p
  ]

  ensure_session_keeps :
      (reply : Reply) (c : ClientState Db)
      → P c.kept
      → P (ensure_session py (some store) reply c).1.kept
  unfolding ensure_session
  ensure_session_keeps reply c p =
      use_cached_keeps c.sessid _ c
        (use_cached_keeps (store.load c.kept) _ c (auth_keeps reply c p) p) p

  finished : (b : Bool) (s t : Sending) → some (finish config b s) ≡ some t → P s.db → P t.db
  unfolding finish
  finished true s t h p = subst (λ x. P x.db) (some-injective _ t h) p
  finished false s t h p = subst (λ x. P x.db) (some-injective _ t h) p

  resend_keeps :
      (events : List Event) (aborted : Bool) (expired : List RecordRow)
      (renewed : AuthResult × ClientState Db) (s t : Sending)
      → resend py config events aborted expired renewed s ≡ some t
      → P renewed.1.kept
      → P t.db
  unfolding resend
  resend_keeps events aborted expired (auth_error e, c) s t h p = finished aborted _ t h p
  resend_keeps events aborted expired (ok sessid, c) s t h p =
      let s' : Sending = record s { db = c.kept } in
      elim (Option-cases (run_wave py config true events expired s')) [
        | inl e ↦ absurd (ground arith)
        | inr (w, e) ↦
            let h' : some (finish config (aborted || w.aborted) w.sending) ≡ some t =
              rw (← h, e, resend) refl in
            finished (aborted || w.aborted) w.sending t h' (wave_keeps true events expired s' w e p)
      ]

  after_first_keeps :
      (net : Network) (sessid : Option String) (w : Wave) (t : Sending)
      → after_first py config store net sessid w ≡ some t
      → P w.sending.db
      → P t.db
  unfolding after_first
  after_first_keeps net sessid w t h p = elim (List-cases w.expired) [
    | inl e ↦
        let h' : some (finish config w.aborted w.sending) ≡ some t =
          rw (← h, e, after_first) refl in
        finished w.aborted w.sending t h' p
    | inr (x, xs, e) ↦ elim (Bool-cases w.aborted) [
      | inl b ↦
          let h' : some (finish config w.aborted w.sending) ≡ some t = ground arith in
          finished w.aborted w.sending t h' p
      | inr b ↦
          let c : ClientState Db = record { sessid = sessid; kept = w.sending.db } in
          let renewed = reauth py (some store) net.reauth_reply c in
          let h' : resend py config net.resend_events w.aborted (x ∷ xs) renewed w.sending
              ≡ some t =
            ground arith in
          resend_keeps net.resend_events w.aborted (x ∷ xs) renewed w.sending t h'
            (reauth_keeps net.reauth_reply c p)
    ]
  ]

  send_waves_keeps :
      (net : Network) (records : List RecordRow) (c : ClientState Db) (s t : Sending)
      → send_waves py config store net records c s ≡ some t
      → P c.kept
      → P t.db
  unfolding send_waves
  send_waves_keeps net records c s t h p =
      let s' : Sending = record s { db = c.kept } in
      elim (Option-cases (run_wave py config false net.first_events records s')) [
        | inl e ↦ absurd (ground arith)
        | inr (w, e) ↦
            let h' : after_first py config store net c.sessid w ≡ some t =
              rw (← h, e, send_waves) refl in
            after_first_keeps net c.sessid w t h'
              (wave_keeps false net.first_events records s' w e p)
      ]

  fan_out_keeps :
      (net : Network) (records : List RecordRow) (session : AuthResult × ClientState Db)
      (s t : Sending)
      → fan_out py config store net records session s ≡ some t
      → P session.1.kept
      → P t.db
  unfolding fan_out
  fan_out_keeps net records (auth_error e, c) s t h p = subst (λ x. P x.db) (some-injective _ t h) p
  fan_out_keeps net records (ok sessid, c) s t h p = elim (Option-cases (refusal config)) [
    | inl e ↦ send_waves_keeps net records c s t (rw (← h, e, fan_out) refl) p
    | inr (exc, e) ↦
        subst (λ x. P x.db)
          (some-injective (record s { db = c.kept; raised = some exc }) t
            (rw (← h, e, fan_out) refl))
          p
  ]

  -- What every write of a result and every save of a session keeps of the database, `send_records`
  -- does.
  pub send_records_keeps :
      (net : Network) (sessid : Option String) (db : Db) (summary : RunSummary) (t : Sending)
      → send_records py config store net sessid db summary ≡ some t
      → P db
      → P t.db
  unfolding send_records
  send_records_keeps net sessid db summary t h p =
      elim (List-cases (sendable_records db config.retry_cap)) [
        | inl e ↦
            subst (λ x. P x.db)
              (some-injective (start_sending db summary) t (rw (← h, e, send_records) refl)) p
        | inr (r, rs, e) ↦
            let c : ClientState Db = record { sessid = sessid; kept = db } in
            let session = ensure_session py (some store) net.auth_reply c in
            let h' : fan_out py config store net (r ∷ rs) session (start_sending db summary)
                ≡ some t =
              rw (← h, e, send_records) refl in
            fan_out_keeps net (r ∷ rs) session (start_sending db summary) t h'
              (ensure_session_keeps net.auth_reply c p)
      ]

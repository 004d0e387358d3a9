-- ===== src/Uploader/Wave/Keeps.antt =====
-- The rule for what a wave keeps, stated on what one answer changes.
use ubki_uploader.Prelude.{
  ◌≡◌, Bool, ◌&&◌, not, some, List, [], ◌∷◌, ◌++◌, if◌then◌else◌, inl, inr, if_keeps, List-cases,
}
use ubki_uploader.Config.{Config}
use ubki_uploader.Db.Schema.{RecordRow}
use ubki_uploader.Python.Json.{Builtins}
use ubki_uploader.Uploader.Wave.{
  Event, Processed, Sending, Wave, pop, refill, answer, handle, commit, next_streak, send_one,
  start_wave, run_wave,
}
use ubki_uploader.Uploader.Wave.Ends.{drain_induction}

-- A request that is done is to be made once more, under a new session.
abbrev pub is_resent : (final : Bool) → Processed → Bool
is_resent final e = e.result.session_expired && not final

module _ (py : Builtins) (config : Config) (final : Bool) where
  abbrev pub processed : Event → RecordRow → Processed
  processed e item = record { item = item; result = send_one py config item e.reply }

  -- The sending thread's state after the answer to one request.
  abbrev pub settled : Event → RecordRow → Sending → Sending
  settled e item s =
      record (commit e.now item (processed e item).result (not (is_resent final (processed e item)))
        s) { streak = next_streak (processed e item).result s.streak }

  abbrev pub collected : Event → RecordRow → List RecordRow → List RecordRow
  collected e item expired =
      if is_resent final (processed e item) then expired ++ item ∷ [] else expired

  module _ {ℓ} (Q : Sending → List RecordRow → Type ℓ) where
    refill-keeps : (w : Wave) → Q w.sending w.expired → Q (refill w).sending (refill w).expired
    unfolding refill
    refill-keeps w q = elim (List-cases w.waiting) [
      | inl e ↦ rw (e, refill) q
      | inr (x, xs, e) ↦ rw (e, refill) q
    ]

    abbrev pub Keeps : Type ℓ
    Keeps =
        (e : Event) (item : RecordRow) (s : Sending) (expired : List RecordRow)
        → Q s expired
        → Q (settled e item s) (collected e item expired)

    answer-keeps :
        Keeps
        → (e : Event) (item : RecordRow) (rest : List RecordRow) (w : Wave) → Q w.sending w.expired
        → Q
            (answer py config final e item rest w).sending
            (answer py config final e item rest w).expired
    unfolding answer
    answer-keeps keep e item rest w q = keep e item w.sending w.expired q

    handle-keeps :
        Keeps
        → (e : Event) (item : RecordRow) (rest : List RecordRow) (w : Wave) → Q w.sending w.expired
        → Q
            (handle py config final e item rest w).sending
            (handle py config final e item rest w).expired
    unfolding handle
    handle-keeps keep e item rest w q =
        let after = answer py config final e item rest w in
        let kept = answer-keeps keep e item rest w q in
        if_keeps (λ v. Q v.sending v.expired) after.aborted after (refill after) kept
          (refill-keeps after kept)

    -- What each answer keeps of the sending thread's state and of the records to be resent, the
    -- whole wave does.
    pub run_wave_keeps :
        Keeps
        → (events : List Event) (wave : List RecordRow) (s : Sending) (w : Wave)
        → run_wave py config final events wave s ≡ some w
        → Q s []
        → Q w.sending w.expired
    unfolding run_wave
    run_wave_keeps keep events wave s w ends q =
        (drain_induction py config final (λ v. Q v.sending v.expired)
          (λ e x xs v _ h. handle-keeps keep e (pop e.pick x xs).0 (pop e.pick x xs).1 v h) events
          (start_wave config wave s) w ends q).0

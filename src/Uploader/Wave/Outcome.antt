-- ===== src/Uploader/Wave/Outcome.antt =====
-- What a wave leaves behind: the log, the summary, the records to be resent, the database.
use ubki_uploader.Prelude.{
  ℕ, ◌+◌, ◌≡◌, Bool, true, ◌||◌, ◌&&◌, some, List, [], ◌∷◌, any, All, All-append, All-imp, length,
  length-append, count_where, count-append, ◌==◌, if◌then◌else◌, arith, ◌∙◌, inl, inr, Bool-cases,
}
use ubki_uploader.Config.{Config}
use ubki_uploader.Db.Schema.{sent, ◌is◌, RecordRow}
use ubki_uploader.Db.Validity.{IsValid, update_record_result-IsValid}
use ubki_uploader.Python.Json.{Builtins}
use ubki_uploader.Client.UploadResult.{Reply, UploadResult}
use ubki_uploader.Client.Verdict.{IsConsistent, send_prepared-IsConsistent}
use ubki_uploader.Uploader.Summary.{RunSummary}
use ubki_uploader.Uploader.Wave.{
  Event, Processed, Sending, Wave, commit, tally, add_id, send_one, run_wave,
}
use ubki_uploader.Uploader.Wave.Keeps.{is_resent, processed, settled, collected, run_wave_keeps}

-- `send_one` gives a consistent result, a local rejection included.
pub send_one-IsConsistent :
    (py : Builtins) (config : Config) (item : RecordRow) (reply : Reply)
    → IsConsistent (send_one py config item reply)
unfolding send_one
send_one-IsConsistent py config item reply = ground (arith, send_prepared-IsConsistent py reply)

any_at :
    (i j : ℕ) (ids : List ℕ)
    → any (λ k. k == j) ids ≡ true
    → any (λ k. k == i) ids ≡ (any (λ k. k == i) ids || j == i)
any_at i j [] h = ground arith
any_at i j (k ∷ ids) h = ground (arith, any_at i j ids)

any-add_id :
    (i j : ℕ) (ids : List ℕ) → any (λ k. k == i) (add_id j ids) ≡ (any (λ k. k == i) ids || j == i)
any-add_id i j ids = elim (Bool-cases (any (λ k. k == j) ids)) [
  | inl old ↦ rw old (any_at i j ids old)
  | inr new ↦ rw new (ground arith)
]

module _ (py : Builtins) (config : Config) (final : Bool) (e : Event) (item : RecordRow)
    (s : Sending) where
  abbrev line : Processed
  line = processed py config final e item

  step-expired :
      (p : RecordRow → Bool) (expired : List RecordRow) (n : ℕ)
      → n + count_where p expired ≡ count_where (λ q. p q.item && is_resent final q) s.log
      → n + count_where p (collected py config final e item expired)
        ≡ count_where (λ q. p q.item && is_resent final q) (settled py config final e item s).log
  unfolding commit
  step-expired p expired n h = ground (
    arith,
    count-append (λ q. p q.item && is_resent final q) s.log (line ∷ []),
    count-append p expired (item ∷ []),
  )

  -- One line is tallied under one of the three counters.
  tally_total :
      (result : UploadResult) (sum : RunSummary)
      → (tally result sum).records_sent
          + (tally result sum).records_failed
          + (tally result sum).records_rejected
        ≡ sum.records_sent + sum.records_failed + sum.records_rejected + 1
  unfolding tally
  tally_total result sum = ground arith

  step_total :
      (expired : List RecordRow) (k n : ℕ)
      → s.summary.records_sent
          + s.summary.records_failed
          + s.summary.records_rejected
          + length expired
          + k
        ≡ n + length s.log
      → (settled py config final e item s).summary.records_sent
          + (settled py config final e item s).summary.records_failed
          + (settled py config final e item s).summary.records_rejected
          + length (collected py config final e item expired)
          + k
        ≡ n + length (settled py config final e item s).log
  unfolding commit
  step_total expired k n h = ground (
    arith,
    tally_total line.result s.summary,
    length-append s.log (line ∷ []),
    length-append expired (item ∷ []),
  )

  tally_sent :
      (result : UploadResult) (sum : RunSummary)
      → (tally result sum).records_sent
        ≡ sum.records_sent + (if result.status is sent then 1 else 0)
  unfolding tally
  tally_sent result sum = ground arith

  step_sent :
      (k n : ℕ)
      → s.summary.records_sent + k ≡ n + count_where (λ q. q.result.status is sent) s.log
      → (settled py config final e item s).summary.records_sent + k
        ≡ n + count_where (λ q. q.result.status is sent) (settled py config final e item s).log
  unfolding commit
  step_sent k n h =
      let m = send_one-IsConsistent py config item e.reply in
      ground (
        arith,
        m.expired_is_network,
        m.network_is_failed,
        tally_sent line.result s.summary,
        count-append (λ q. q.result.status is sent) s.log (line ∷ []),
      )

  step_touched :
      All (λ q. any (λ i. i == q.item.file_id) s.touched ≡ true) s.log
      → All
          (λ q. any (λ i. i == q.item.file_id) (settled py config final e item s).touched ≡ true)
          (settled py config final e item s).log
  unfolding commit
  step_touched h =
      All-append (λ q. any (λ i. i == q.item.file_id) (add_id item.file_id s.touched) ≡ true) s.log
        (line ∷ [])
        (All-imp (λ q. any (λ i. i == q.item.file_id) s.touched ≡ true)
          (λ q. any (λ i. i == q.item.file_id) (add_id item.file_id s.touched) ≡ true)
          (λ q old. any-add_id q.item.file_id item.file_id s.touched ∙ rw old) s.log h)
        (any-add_id item.file_id item.file_id s.touched ∙ ground arith, tt)

  step_log :
      All (λ q. IsConsistent q.result) s.log
      → All (λ q. IsConsistent q.result) (settled py config final e item s).log
  unfolding commit
  step_log h = All-append _ s.log (line ∷ []) h (send_one-IsConsistent py config item e.reply, tt)

  step_db : IsValid s.db → IsValid (settled py config final e item s).db
  unfolding commit
  step_db v =
      update_record_result-IsValid e.now s.db item.id line.result.status _ _ _ _
        (send_one-IsConsistent py config item e.reply).settled.1 v

module _ (py : Builtins) (config : Config) (final : Bool) (events : List Event)
    (wave : List RecordRow) (s : Sending) (w : Wave)
    (ends : run_wave py config final events wave s ≡ some w) where
  -- The records to be resent are those whose log line says that the session had expired.
  pub count-expired :
      (p : RecordRow → Bool)
      → count_where (λ e. p e.item && is_resent final e) s.log + count_where p w.expired
        ≡ count_where (λ e. p e.item && is_resent final e) w.sending.log
  count-expired p =
      run_wave_keeps py config final
        (λ t expired.
          count_where (λ e. p e.item && is_resent final e) s.log + count_where p expired
          ≡ count_where (λ e. p e.item && is_resent final e) t.log)
        (λ e item t expired q. step-expired py config final e item t p expired _ q) events wave s w
        ends (omega arith)

  -- Each line of the log is counted once in the summary, unless its record is to be resent.
  pub summary_total :
      w.sending.summary.records_sent
        + w.sending.summary.records_failed
        + w.sending.summary.records_rejected
        + length w.expired
        + length s.log
      ≡ s.summary.records_sent
        + s.summary.records_failed
        + s.summary.records_rejected
        + length w.sending.log
  summary_total =
      run_wave_keeps py config final
        (λ t expired.
          t.summary.records_sent
            + t.summary.records_failed
            + t.summary.records_rejected
            + length expired
            + length s.log
          ≡ s.summary.records_sent
            + s.summary.records_failed
            + s.summary.records_rejected
            + length t.log)
        (λ e item t expired q. step_total py config final e item t expired _ _ q) events wave s w
        ends (omega arith)

  -- `records_sent` counts the lines of the log whose status is `sent`.
  pub summary_sent :
      w.sending.summary.records_sent + count_where (λ e. e.result.status is sent) s.log
      ≡ s.summary.records_sent + count_where (λ e. e.result.status is sent) w.sending.log
  summary_sent =
      run_wave_keeps py config final
        (λ t expired.
          t.summary.records_sent + count_where (λ e. e.result.status is sent) s.log
          ≡ s.summary.records_sent + count_where (λ e. e.result.status is sent) t.log)
        (λ e item t expired q. step_sent py config final e item t _ _ q) events wave s w ends
        (omega arith)

  -- The file of every record in the log is touched after a wave, if it was so before.
  pub touched-All :
      All (λ e. any (λ i. i == e.item.file_id) s.touched ≡ true) s.log
      → All (λ e. any (λ i. i == e.item.file_id) w.sending.touched ≡ true) w.sending.log
  touched-All =
      run_wave_keeps py config final
        (λ t expired. All (λ e. any (λ i. i == e.item.file_id) t.touched ≡ true) t.log)
        (λ e item t expired q. step_touched py config final e item t q) events wave s w ends

  -- Every result in the log is consistent.
  pub log-IsConsistent :
      All (λ e. IsConsistent e.result) s.log → All (λ e. IsConsistent e.result) w.sending.log
  log-IsConsistent =
      run_wave_keeps py config final (λ t expired. All (λ e. IsConsistent e.result) t.log)
        (λ e item t expired q. step_log py config final e item t q) events wave s w ends

  -- The database stays valid.
  pub db-IsValid : IsValid s.db → IsValid w.sending.db
  db-IsValid =
      run_wave_keeps py config final (λ t expired. IsValid t.db)
        (λ e item t expired q. step_db py config final e item t q) events wave s w ends

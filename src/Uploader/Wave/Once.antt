-- ===== src/Uploader/Wave/Once.antt =====
-- Each record of a wave is sent once and its result committed once, or it is left waiting.
use ubki_uploader.Prelude.{
  ℕ, zero, suc, ◌+◌, ◌≤◌, ◌<◌, ◌≡◌, refl, ◌⊎◌, Bool, true, false, some, List, [], ◌∷◌, take, drop,
  length, length-append, length-take-le, take-append-drop, count_where, count-append, arith, ap,
  ◌∙◌, inl, inr, Bool-cases, List-cases,
}
use ubki_uploader.Config.{Config}
use ubki_uploader.Db.Schema.{RecordRow}
use ubki_uploader.Python.Json.{Builtins}
use ubki_uploader.Uploader.Wave.{
  Event, Processed, Sending, Wave, pop, refill, answer, handle, commit, send_one, start_wave,
  run_wave,
}
use ubki_uploader.Uploader.Wave.Ends.{step, drain_induction, run_wave_ends, length-pop}

module _ (p : RecordRow → Bool) where
  count-pop :
      (n : ℕ) (x : RecordRow) (xs : List RecordRow)
      → count_where p ((pop n x xs).0 ∷ (pop n x xs).1) ≡ count_where p (x ∷ xs)
  unfolding pop
  count-pop zero x xs = refl
  count-pop (suc n) x [] = refl
  count-pop (suc n) x (y ∷ ys) = ground (arith, count-pop n y ys)

  -- How many of the processed records pass the test.
  abbrev pub count_log : List Processed → ℕ
  count_log = count_where (λ e. p e.item)

  -- How many of those that are processed, in flight or waiting do.
  abbrev pub count_all : Wave → ℕ
  count_all w = count_log w.sending.log + count_where p w.in_flight + count_where p w.waiting

  count_all-refill : (w : Wave) → count_all (refill w) ≡ count_all w
  unfolding refill
  count_all-refill w = elim (List-cases w.waiting) [
    | inl e ↦ ground arith
    | inr (x, xs, e) ↦ ground (arith, count-append p w.in_flight (x ∷ []))
  ]

  count_all-answer :
      (py : Builtins) (config : Config) (final : Bool) (e : Event) (item : RecordRow)
      (rest : List RecordRow) (w : Wave)
      → count_all (answer py config final e item rest w)
        ≡ count_log w.sending.log + count_where p (item ∷ rest) + count_where p w.waiting
  unfolding answer commit
  count_all-answer py config final e item rest w = omega (
    arith,
    count-append (λ (q : Processed). p q.item) w.sending.log
        (record { item = item; result = send_one py config item e.reply } ∷ []),
  )

  count_all-handle :
      (py : Builtins) (config : Config) (final : Bool) (e : Event) (item : RecordRow)
      (rest : List RecordRow) (w : Wave)
      → count_all (handle py config final e item rest w)
        ≡ count_log w.sending.log + count_where p (item ∷ rest) + count_where p w.waiting
  unfolding handle
  count_all-handle py config final e item rest w =
      let after = answer py config final e item rest w in
      ground (arith, count_all-refill after, count_all-answer py config final e item rest w)

  count_all-step :
      (py : Builtins) (config : Config) (final : Bool) (e : Event) (x : RecordRow)
      (xs : List RecordRow) (w : Wave)
      → w.in_flight ≡ x ∷ xs
      → count_all (step py config final e x xs w) ≡ count_all w
  count_all-step py config final e x xs w q =
      let (item, rest) = pop e.pick x xs in
      let same : count_where p w.in_flight ≡ count_where p (x ∷ xs) = ap (count_where p) q in
      omega (arith, count_all-handle py config final e item rest w, count-pop e.pick x xs)

-- The window of requests: never more than the workers, and full while there is work and no abort.
pub record IsFull (size : ℕ) (w : Wave) : Type 0 where
  pub bounded : length w.in_flight ≤ size
  pub full : w.aborted ≡ false → (w.waiting ≡ []) ⊎ (length w.in_flight ≡ size)

take-or_drop {ℓ} : {A : Type ℓ} (n : ℕ) (xs : List A) → (drop n xs ≡ []) ⊎ (length (take n xs) ≡ n)
take-or_drop zero xs = inr refl
take-or_drop (suc n) [] = inl refl
take-or_drop (suc n) (x ∷ xs) = ground (arith, take-or_drop n xs)

start_wave-IsFull :
    (config : Config) (wave : List RecordRow) (s : Sending)
    → IsFull config.ubki_concurrency (start_wave config wave s)
start_wave-IsFull config wave s = record {
  bounded = length-take-le config.ubki_concurrency wave;
  full = λ _. take-or_drop config.ubki_concurrency wave;
}

-- A place in the window is free, and the window was full before it was freed.
refill-IsFull :
    (size : ℕ) (w : Wave)
    → length w.in_flight < size
    → (w.waiting ≡ []) ⊎ (suc (length w.in_flight) ≡ size)
    → IsFull size (refill w)
unfolding refill
refill-IsFull size w room was_full = elim (List-cases w.waiting) [
  | inl e ↦ ground arith
  | inr (x, xs, e) ↦ ground (arith, length-append w.in_flight (x ∷ []))
]

step-IsFull :
    (py : Builtins) (config : Config) (final : Bool) (size : ℕ) (e : Event) (x : RecordRow)
    (xs : List RecordRow) (w : Wave)
    → w.in_flight ≡ x ∷ xs
    → IsFull size w
    → IsFull size (step py config final e x xs w)
unfolding handle answer
step-IsFull py config final size e x xs w q f =
    let (item, rest) = pop e.pick x xs in
    let same : length w.in_flight ≡ suc (length xs) = ap length q in
    let after = answer py config final e item rest w in
    ground (arith, length-pop e.pick x xs, refill-IsFull size after, f.bounded, f.full)

module _ (p : RecordRow → Bool) (py : Builtins) (config : Config) (final : Bool)
    (events : List Event) (wave : List RecordRow) (s : Sending) where
  count_all-start_wave :
      count_all p (start_wave config wave s) ≡ count_log p s.log + count_where p wave
  count_all-start_wave =
      let n = config.ubki_concurrency in
      omega (
        arith,
        count-append p (take n wave) (drop n wave),
        ap (count_where p) (take-append-drop n wave),
      )

  pub run_wave_counts :
      (w : Wave)
      → run_wave py config final events wave s ≡ some w
      → count_log p w.sending.log + count_where p w.waiting ≡ count_log p s.log + count_where p wave
  unfolding run_wave
  run_wave_counts w ends =
      let before = count_log p s.log + count_where p wave in
      let (kept, none_left) =
        drain_induction py config final (λ v. count_all p v ≡ before)
          (λ e x xs v q h. count_all-step p py config final e x xs v q ∙ h) events
          (start_wave config wave s) w ends count_all-start_wave in
      omega (arith, kept, ap (count_where p) none_left)

pub run_wave_leaves_none :
    (py : Builtins) (config : Config) (final : Bool) (events : List Event) (wave : List RecordRow)
    (s : Sending) (w : Wave)
    → run_wave py config final events wave s ≡ some w
    → 0 < config.ubki_concurrency
    → w.aborted ≡ false
    → w.waiting ≡ []
unfolding run_wave
run_wave_leaves_none py config final events wave s w ends workers running =
    let n = config.ubki_concurrency in
    let (f, none_left) =
      drain_induction py config final (IsFull n)
        (λ e x xs v. step-IsFull py config final n e x xs v) events (start_wave config wave s) w
        ends (start_wave-IsFull config wave s) in
    let no_requests : length w.in_flight ≡ 0 = ap length none_left in ground (arith, f.full)

-- A wave that has as many events as records, and a window of one at least, ends. Then, whatever the order and the answers: for any
-- test on records, those that were processed and those that are left waiting together are those of
-- the wave, as often, beside what had been processed before; and if the wave was not aborted, none
-- is left waiting.
pub run_wave_once :
    (py : Builtins) (config : Config) (final : Bool) (events : List Event) (wave : List RecordRow)
    (s : Sending)
    → length wave ≤ length events
    → 0 < config.ubki_concurrency
    → (w : Wave) × (run_wave py config final events wave s ≡ some w)
      × ((p : RecordRow → Bool)
          → count_log p w.sending.log + count_where p w.waiting
            ≡ count_log p s.log + count_where p wave)
      × ((w.aborted ≡ true) ⊎ (w.waiting ≡ []))
unfolding run_wave
run_wave_once py config final events wave s enough workers =
    let (w, ends) = run_wave_ends py config final events wave s enough in
    (
      w,
      ends,
      λ p. run_wave_counts p py config final events wave s w ends,
      elim (Bool-cases w.aborted) [
        | inl stopped ↦ inl stopped
        | inr running ↦
            inr (run_wave_leaves_none py config final events wave s w ends workers running)
      ],
    )

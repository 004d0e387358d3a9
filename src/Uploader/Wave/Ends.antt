-- ===== src/Uploader/Wave/Ends.antt =====
-- A wave ends, after one event for each record at most, and keeps what every step keeps.
use ubki_uploader.Prelude.{
  ℕ, zero, suc, ◌+◌, ◌≤◌, ◌≡◌, refl, Bool, some, List, [], ◌∷◌, take, drop, length, length-append,
  take-append-drop, arith, ap, inl, inr, List-cases, subst,
}
use ubki_uploader.Config.{Config}
use ubki_uploader.Db.Schema.{RecordRow}
use ubki_uploader.Python.Json.{Builtins}
use ubki_uploader.Uploader.Wave.{
  Event, Sending, Wave, pop, refill, answer, handle, drain, start_wave, run_wave,
}

-- One step of the loop on a wave with requests in flight.
abbrev pub step : Builtins → Config → Bool → Event → RecordRow → List RecordRow → Wave → Wave
step py config final e x xs w = handle py config final e (pop e.pick x xs).0 (pop e.pick x xs).1 w

module _ {ℓ} (py : Builtins) (config : Config) (final : Bool) (P : Wave → Type ℓ) where
  -- What each step keeps, a wave that has ended has; and nothing is in flight any more.
  pub drain_induction :
      ((e : Event) (x : RecordRow) (xs : List RecordRow) (w : Wave)
        → w.in_flight ≡ x ∷ xs
        → P w
        → P (step py config final e x xs w))
      → (events : List Event) (w w' : Wave) → drain py config final events w ≡ some w'
      → P w
      → P w' × (w'.in_flight ≡ [])
  unfolding drain
  drain_induction keep [] w w' h p = elim (List-cases w.in_flight) [
    | inl e ↦ let same : w ≡ w' = ground arith in subst (λ v. P v × (v.in_flight ≡ [])) same (p, e)
    | inr (x, xs, e) ↦ absurd (ground arith)
  ]
  drain_induction keep (ev ∷ events) w w' h p = elim (List-cases w.in_flight) [
    | inl e ↦ let same : w ≡ w' = ground arith in subst (λ v. P v × (v.in_flight ≡ [])) same (p, e)
    | inr (x, xs, e) ↦
        drain_induction keep events (step py config final ev x xs w) w' (ground arith)
          (keep ev x xs w e p)
  ]

pub length-pop : (n : ℕ) (x : RecordRow) (xs : List RecordRow) → length (pop n x xs).1 ≡ length xs
unfolding pop
length-pop zero x xs = refl
length-pop (suc n) x [] = refl
length-pop (suc n) x (y ∷ ys) = ap suc (length-pop n y ys)

-- The requests that are still to be answered.
abbrev pub open_requests : Wave → ℕ
open_requests w = length w.in_flight + length w.waiting

open_requests-refill : (w : Wave) → open_requests (refill w) ≡ open_requests w
unfolding refill
open_requests-refill w = elim (List-cases w.waiting) [
  | inl e ↦ ground arith
  | inr (x, xs, e) ↦ ground (arith, length-append w.in_flight (x ∷ []))
]

-- A step answers one request.
open_requests-handle :
    (py : Builtins) (config : Config) (final : Bool) (e : Event) (item : RecordRow)
    (rest : List RecordRow) (w : Wave)
    → open_requests (handle py config final e item rest w) ≡ length rest + length w.waiting
unfolding handle answer
open_requests-handle py config final e item rest w =
    ground (arith, open_requests-refill (answer py config final e item rest w))

fewer :
    (py : Builtins) (config : Config) (final : Bool) (e : Event) (x : RecordRow)
    (xs : List RecordRow) (w : Wave) {n : ℕ}
    → w.in_flight ≡ x ∷ xs
    → open_requests w ≤ suc n
    → open_requests (step py config final e x xs w) ≤ n
fewer py config final e x xs w q h =
    let (item, rest) = pop e.pick x xs in
    let same : length w.in_flight ≡ suc (length xs) = ap length q in
    omega (arith, open_requests-handle py config final e item rest w, length-pop e.pick x xs)

-- The events are at least as many as the records. Then the wave ends: every request that was made
-- has been answered and its result committed.
pub drain_ends :
    (py : Builtins) (config : Config) (final : Bool) (events : List Event) (w : Wave)
    → open_requests w ≤ length events
    → (w' : Wave) × (drain py config final events w ≡ some w')
unfolding drain
drain_ends py config final [] w h = (w, ground arith)
drain_ends py config final (e ∷ events) w h = elim (List-cases w.in_flight) [
  | inl none_left ↦ (w, ground arith)
  | inr (x, xs, q) ↦
      let (w', ends) =
        drain_ends py config final events (step py config final e x xs w)
          (fewer py config final e x xs w q h) in
      (w', ground arith)
]

pub run_wave_ends :
    (py : Builtins) (config : Config) (final : Bool) (events : List Event) (wave : List RecordRow)
    (s : Sending)
    → length wave ≤ length events
    → (w : Wave) × (run_wave py config final events wave s ≡ some w)
unfolding run_wave
run_wave_ends py config final events wave s enough =
    let n = config.ubki_concurrency in
    drain_ends py config final events (start_wave config wave s) (
      omega (arith, length-append (take n wave) (drop n wave), ap length (take-append-drop n wave)))

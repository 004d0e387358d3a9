-- ===== src/RateLimit/Window.antt =====
-- How many slots fall into a stretch of time.
use ubki_uploader.Prelude.{
  ℕ, zero, suc, ◌+◌, ◌*◌, ◌≤◌, ◌≡◌, ◌&&◌, Bool, some, List, [], ◌∷◌, ltb, leb, count_where, All,
  All-imp, arith, Bool-cases, inl, inr,
}
use ubki_uploader.Prelude.Int.{ℤ}
use ubki_uploader.RateLimit.{Floats, RateLimiter, rate_limiter, reserve, slots}

-- The slot lies in [from, to).
abbrev pub is_within : (from to : ℕ) → ℕ → Bool
is_within from to slot = leb from slot && ltb slot to

-- A slot that follows `s`: not before it, and `gap` behind it where `s` is not beyond `top`.
abbrev Follows : (top gap s t : ℕ) → Type 0
Follows top gap s t = (s ≤ t) × (s ≤ top → s + gap ≤ t)

abbrev IsSpaced : (top gap : ℕ) → List ℕ → Type 0
IsSpaced top gap [] = Unit
IsSpaced top gap (s ∷ ss) = All (Follows top gap s) ss × IsSpaced top gap ss

module _ (floats : Floats) (grows : (a b : ℕ) → a ≤ floats.plus a b) where
  slots-from :
      (l : RateLimiter) (readings : List ℕ) → All (λ s. l.next_slot ≤ s) (slots floats l readings)
  unfolding slots
  slots-from l [] = tt
  slots-from l (now ∷ readings) = (
    ground arith,
    All-imp (λ s. (reserve floats l now).1.next_slot ≤ s) (λ s. l.next_slot ≤ s)
        (λ s h. ground (arith, grows (reserve floats l now).0 l.interval)) _
        (slots-from (reserve floats l now).1 readings),
  )

  slots-IsSpaced :
      (top loss gap : ℕ)
      → ((a b : ℕ) → a ≤ top → b ≤ top → a + b ≤ floats.plus a b + loss)
      → (l : RateLimiter) (readings : List ℕ) → gap + loss ≤ l.interval
      → l.interval ≤ top
      → IsSpaced top gap (slots floats l readings)
  unfolding slots
  slots-IsSpaced top loss gap close l [] h b = tt
  slots-IsSpaced top loss gap close l (now ∷ readings) h b =
      let slot = (reserve floats l now).0 in
      let l' = (reserve floats l now).1 in
      let next : (t : ℕ) → l'.next_slot ≤ t → Follows top gap slot t = λ t q. (
        omega (arith, grows slot l.interval),
        λ below. omega (arith, close slot l.interval below b),
      ) in
      (
        All-imp (λ t. l'.next_slot ≤ t) (Follows top gap slot) next _ (slots-from l' readings),
        slots-IsSpaced top loss gap close l' readings h b,
      )

count-skip :
    (from from' to : ℕ) (ss : List ℕ)
    → All (λ s. from' ≤ s) ss
    → count_where (is_within from to) ss ≤ count_where (is_within from' to) ss
count-skip from from' to [] h = omega arith
count-skip from from' to (s ∷ ss) (h, t) = ground (arith, count-skip from from' to ss t)

-- Where slots are `gap` apart, a stretch that is no longer than `n` gaps holds `n` of them at most.
count-spaced :
    (top gap n from to : ℕ) (ss : List ℕ)
    → to ≤ top
    → to ≤ from + n * gap
    → IsSpaced top gap ss
    → count_where (is_within from to) ss ≤ n
count-spaced top gap n from to [] b h sp = omega arith
count-spaced top gap zero from to (s ∷ ss) b h (above, sp) =
    ground (arith, count-spaced top gap zero from to ss b h sp)
count-spaced top gap (suc m) from to (s ∷ ss) b h (above, sp) =
    elim (Bool-cases (is_within from to s)) [
      | inl e ↦
          let here : from ≤ s = ground arith in
          let below : s ≤ top = ground arith in
          rw e (
            omega (
              arith,
              count-skip from (from + gap) to ss
                  (All-imp (Follows top gap s) _ (λ t q. omega (arith, q.1 below)) ss above),
              count-spaced top gap m (from + gap) to ss b (grind arith) sp,
            ))
      | inr e ↦ rw e (omega (arith, count-spaced top gap (suc m) from to ss b h sp))
    ]

-- A sum of two floats no greater than `top` loses no more than `loss` ticks to rounding, and no sum
-- is rounded below its first term. The interval is `gap` and the loss at least, and `top` at most, and
-- a second, `second` ticks, is no longer than `n` gaps. Then no stretch of one second before `top`
-- holds more than `n` slots of a new limiter, whatever the clock reads.
pub slots_per_second :
    (floats : Floats) (top loss gap n second from : ℕ) (rate : ℤ) (l : RateLimiter)
    (readings : List ℕ)
    → ((a b : ℕ) → a ≤ top → b ≤ top → a + b ≤ floats.plus a b + loss)
    → ((a b : ℕ) → a ≤ floats.plus a b)
    → rate_limiter floats rate ≡ some l
    → gap + loss ≤ floats.reciprocal rate
    → floats.reciprocal rate ≤ top
    → second ≤ n * gap
    → from + second ≤ top
    → count_where (is_within from (from + second)) (slots floats l readings) ≤ n
unfolding rate_limiter
slots_per_second floats top loss gap n second from rate l readings close grows made wide low long
      b =
    count-spaced top gap n from (from + second) (slots floats l readings) b (omega arith)
      (slots-IsSpaced floats grows top loss gap close l readings (ground arith) (ground arith))

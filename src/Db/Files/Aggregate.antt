-- ===== src/Db/Files/Aggregate.antt =====
-- What the status of a file says about the statuses of its records.
use ubki_uploader.Prelude.{
  ℕ, ◌+◌, ◌≤◌, ◌<◌, ◌≡◌, refl, ◌↔◌, Bool, ◌||◌, List, [], ◌∷◌, length, any, all, arith, ◌==◌, ltb,
  if◌then◌else◌, count_where,
}
use ubki_uploader.Db.Schema.{Status, pending, partial, sent, failed, rejected, ◌is◌}
use ubki_uploader.Db.Files.{aggregate}

abbrev pub count_of : Status → List Status → ℕ
count_of s = count_where (λ t. t is s)

-- The reading of each file status, by how many records have which status.
abbrev pub Means : Status → List Status → Type 0
Means sent ss = count_of sent ss ≡ length ss
Means pending ss = (0 < count_of pending ss) × (count_of pending ss ≡ length ss)
Means failed ss = 0 < count_of failed ss
Means rejected ss =
    (0 < count_of rejected ss) × (count_of rejected ss + count_of sent ss ≡ length ss)
Means partial ss =
    (count_of failed ss ≡ 0) × (0 < count_of pending ss) × (count_of pending ss < length ss)

counts_add_up :
    (ss : List Status)
    → count_of pending ss
        + count_of partial ss
        + count_of sent ss
        + count_of failed ss
        + count_of rejected ss
      ≡ length ss
counts_add_up [] = refl
counts_add_up (pending ∷ ss) = omega (arith, counts_add_up ss)
counts_add_up (partial ∷ ss) = omega (arith, counts_add_up ss)
counts_add_up (sent ∷ ss) = omega (arith, counts_add_up ss)
counts_add_up (failed ∷ ss) = omega (arith, counts_add_up ss)
counts_add_up (rejected ∷ ss) = omega (arith, counts_add_up ss)

count_le {ℓ} : {A : Type ℓ} (p : A → Bool) (xs : List A) → count_where p xs ≤ length xs
count_le p [] = omega arith
count_le p (x ∷ xs) = ground (arith, count_le p xs)

all-eq_count {ℓ} :
    {A : Type ℓ} (p : A → Bool) (xs : List A) → all p xs ≡ (count_where p xs == length xs)
all-eq_count p [] = refl
all-eq_count p (x ∷ xs) = ground (arith, all-eq_count p xs, count_le p xs)

any-eq_count {ℓ} : {A : Type ℓ} (p : A → Bool) (xs : List A) → any p xs ≡ ltb 0 (count_where p xs)
any-eq_count p [] = refl
any-eq_count p (x ∷ xs) = ground (arith, any-eq_count p xs)

count-terminal :
    (ss : List Status)
    → count_where (λ s. s is rejected || s is sent) ss ≡ count_of rejected ss + count_of sent ss
count-terminal [] = refl
count-terminal (pending ∷ ss) = omega (arith, count-terminal ss)
count-terminal (partial ∷ ss) = omega (arith, count-terminal ss)
count-terminal (sent ∷ ss) = omega (arith, count-terminal ss)
count-terminal (failed ∷ ss) = omega (arith, count-terminal ss)
count-terminal (rejected ∷ ss) = omega (arith, count-terminal ss)

-- The ladder, on the numbers of records.
by_counts : (length sent pending failed rejected : ℕ) → Status
by_counts n s p f r =
    if s == n
    then sent
    else if p == n
    then pending
    else if ltb 0 f
    then failed
    else if r + s == n
    then rejected
    else partial

aggregate-by_counts :
    (ss : List Status)
    → aggregate ss
      ≡ by_counts
          (length ss)
          (count_of sent ss)
          (count_of pending ss)
          (count_of failed ss)
          (count_of rejected ss)
unfolding aggregate by_counts
aggregate-by_counts ss = rw (all-eq_count (λ s. s is sent) ss) (
    rw (all-eq_count (λ s. s is pending) ss) (
      rw (any-eq_count (λ s. s is failed) ss)
        (rw (all-eq_count (λ s. s is rejected || s is sent) ss) (rw (count-terminal ss) refl))))

-- No record has the status `partial`. Then the status that is computed for a file is `s` exactly
-- when the records' statuses are as the meaning of `s` says, for each of the five statuses.
pub aggregate-iff_Means :
    (ss : List Status) (s : Status) → count_of partial ss ≡ 0 → (aggregate ss ≡ s) ↔ Means s ss
unfolding by_counts
aggregate-iff_Means ss sent h = rw aggregate-by_counts (ground (arith, counts_add_up ss))
aggregate-iff_Means ss pending h = rw aggregate-by_counts (ground (arith, counts_add_up ss))
aggregate-iff_Means ss failed h = rw aggregate-by_counts (ground (arith, counts_add_up ss))
aggregate-iff_Means ss rejected h = rw aggregate-by_counts (ground (arith, counts_add_up ss))
aggregate-iff_Means ss partial h = rw aggregate-by_counts (ground (arith, counts_add_up ss))

terminal_comm :
    (ss : List Status)
    → all (λ s. s is sent || s is rejected) ss ≡ all (λ s. s is rejected || s is sent) ss
terminal_comm [] = refl
terminal_comm (s ∷ ss) = ground (arith, terminal_comm ss)

-- A file is `sent` or `rejected` exactly when every record is: the condition under which
-- `archive_completed_files` moves it out of the inbox.
pub aggregate-terminal :
    (ss : List Status)
    → (aggregate ss is sent || aggregate ss is rejected) ≡ all (λ s. s is sent || s is rejected) ss
unfolding by_counts
aggregate-terminal ss = rw terminal_comm (
    rw (all-eq_count (λ s. s is rejected || s is sent) ss)
      (rw (count-terminal ss) (rw aggregate-by_counts (ground (arith, counts_add_up ss)))))

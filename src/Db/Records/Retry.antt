-- ===== src/Db/Records/Retry.antt =====
-- The two writes to the status of a record: the result of an attempt, and the manual retry.
use ubki_uploader.Prelude.{
  ℕ, ◌<◌, ◌≡◌, refl, Bool, true, false, List, [], ◌∷◌, Option, none, some, String, arith, ◌==◌, ◌≢◌,
  ◌⊎◌, inl, inr, ◌↔◌, ◌||◌, Bool-cases, if◌then◌else◌, count_where, update_where, select_one,
}
use ubki_uploader.Db.Schema.{Status, pending, partial, sent, failed, rejected, ◌is◌, RecordRow, Db}
use ubki_uploader.Db.Records.{
  is_sendable, update_record_result, with_result, reset_records, reset_row, is_resettable,
  is_target, Target, by_file, by_record,
}

abbrev pub find_record : Db → ℕ → Option RecordRow
find_record db id = select_one (λ r. r.id == id) db.records

module _ {ℓ} {A : Type ℓ} where
  find-update :
      (key : A → ℕ) (p : A → Bool) (f : A → A) (id : ℕ)
      → ((x : A) → key (f x) ≡ key x)
      → (xs : List A)
      → select_one (λ x. key x == id) (update_where p f xs)
        ≡ (elim (select_one (λ x. key x == id) xs) [
          | none ↦ none
          | some x ↦ some (if p x then f x else x)
        ])
  find-update key p f id same [] = refl
  find-update key p f id same (x ∷ xs) = ground (arith, same x, find-update key p f id same xs)

  pub found-key :
      (key : A → ℕ) (id : ℕ) (xs : List A) (x : A)
      → select_one (λ y. key y == id) xs ≡ some x
      → key x ≡ id
  found-key key id [] x h = ground arith
  found-key key id (y ∷ ys) x h = ground (arith, found-key key id ys x)

  count-update_where :
      (p : A → Bool) (f : A → A)
      → ((x : A) → p (f x) ≡ false)
      → (xs : List A) → count_where p (update_where p f xs) ≡ 0
  count-update_where p f done [] = refl
  count-update_where p f done (x ∷ xs) = ground (arith, done x, count-update_where p f done xs)

-- After the result of an attempt is written, the record with the given id has that result, one
-- attempt more unless the failure was network-like, and a `sent_at` exactly if it was sent. Every other
-- record is as it was.
pub find-update_record_result :
    (now : String) (db : Db) (id : ℕ) (s : Status) (last_error response codes : Option String)
    (count_attempt : Bool) (j : ℕ) (r : RecordRow)
    → find_record db j ≡ some r
    → find_record (update_record_result now db id s last_error response codes count_attempt) j
      ≡ some (if j == id then with_result now s last_error response codes count_attempt r else r)
unfolding update_record_result
find-update_record_result now db id s e t c count j r h = ground (
  arith,
  find-update (λ q. q.id) (λ q. q.id == id) (with_result now s e t c count) j (λ q. refl)
      db.records,
  found-key (λ q. q.id) j db.records r h,
)

-- A record with tries left, whose attempt fails and is not counted, as after a network-like failure,
-- has as many tries left as before and waits to be sent again.
pub outage_keeps_sendable :
    (now : String) (db : Db) (id : ℕ) (e t c : Option String) (retry_cap : ℕ) (r : RecordRow)
    → find_record db id ≡ some r
    → r.attempts < retry_cap
    → (q : RecordRow) × (find_record (update_record_result now db id failed e t c false) id
        ≡ some q)
      × (q.attempts ≡ r.attempts)
      × (is_sendable retry_cap q ≡ true)
outage_keeps_sendable now db id e t c retry_cap r h k = (
  with_result now failed e t c false r,
  ground (arith, find-update_record_result now db id failed e t c false id r h),
  omega arith,
  ground arith,
)

reset_row_done : (t : Target) (r : RecordRow) → is_resettable t (reset_row r) ≡ false
reset_row_done (by_file i) r = ground arith
reset_row_done (by_record i) r = ground arith

-- A retry, in the words of the update.
pub find-reset_row :
    (db : Db) (t : Target) (j : ℕ) (r : RecordRow)
    → find_record db j ≡ some r
    → find_record (reset_records db t).1 j ≡ some (if is_resettable t r then reset_row r else r)
unfolding reset_records
find-reset_row db t j r h =
    ground (arith, find-update (λ q. q.id) (is_resettable t) reset_row j (λ q. refl) db.records)

-- The target is the file of the record, or the record itself.
abbrev pub Names : Target → RecordRow → Type 0
Names (by_file i) r = r.file_id ≡ i
Names (by_record i) r = r.id ≡ i

-- What a record `q` has become by a retry, where it was `r`.
pub data Retried (t : Target) (r q : RecordRow) : Type 0 where
  waits_again :
      Names t r
      → (r.status ≡ failed) ⊎ (r.status ≡ rejected)
      → q ≡ record r { status = pending; attempts = 0; last_error = none; warn_codes = none }
      → Retried t r q
  not_named : (Names t r → ⊥) → q ≡ r → Retried t r q
  kept_status : (r.status ≢ failed) → (r.status ≢ rejected) → q ≡ r → Retried t r q

is_target-iff_Names : (t : Target) (r : RecordRow) → (is_target t r ≡ true) ↔ Names t r
is_target-iff_Names (by_file i) r = ground arith
is_target-iff_Names (by_record i) r = ground arith

status_of_reset :
    (s : Status) → ((s is failed || s is rejected) ≡ true) ↔ ((s ≡ failed) ⊎ (s ≡ rejected))
status_of_reset pending = ground arith
status_of_reset partial = ground arith
status_of_reset sent = ground arith
status_of_reset failed = ground arith
status_of_reset rejected = ground arith

-- What a manual retry does to each record of the table, which it finds again by its id: a `failed` or
-- `rejected` one of the target is pending with no attempts, no error and no warnings, and otherwise as
-- it was; one outside the target or of another status, such as a `sent` one, is as it was.
pub find-reset_records :
    (db : Db) (t : Target) (j : ℕ) (r : RecordRow)
    → find_record db j ≡ some r
    → (q : RecordRow) × (find_record (reset_records db t).1 j ≡ some q) × Retried t r q
find-reset_records db t j r h =
    let found = find-reset_row db t j r h in
    elim (Bool-cases (is_target t r)) [
      | inr e ↦ (
        r,
        ground arith,
        not_named (λ n. absurd (ground (arith, (is_target-iff_Names t r).1 n))) refl,
      )
      | inl e ↦ elim (Bool-cases (r.status is failed || r.status is rejected)) [
        | inl f ↦ (
          reset_row r,
          ground arith,
          waits_again ((is_target-iff_Names t r).0 e) ((status_of_reset r.status).0 f) refl,
        )
        | inr f ↦ (
          r,
          ground arith,
          kept_status (λ s. absurd (ground (arith, (status_of_reset r.status).1 (inl s))))
              (λ s. absurd (ground (arith, (status_of_reset r.status).1 (inr s)))) refl,
        )
      ]
    ]

-- A second retry of the same target finds nothing to reset.
pub reset_records_twice : (db : Db) (t : Target) → (reset_records (reset_records db t).1 t).0 ≡ 0
unfolding reset_records
reset_records_twice db t =
    count-update_where (is_resettable t) reset_row (reset_row_done t) db.records

-- ===== src/Api/Retry.antt =====
-- What a manual retry does.
use ubki_uploader.Prelude.{
  ℕ, ◌≡◌, ◌≢◌, ◌<◌, eq_iff, String, true, ◌||◌, none, some, List, [], ◌∷◌, ◌==◌, arith, count_where,
  select_one, inl, inr, Option-cases, Bool-cases,
}
use ubki_uploader.Db.Schema.{pending, failed, rejected, ◌is◌, RecordRow, Db}
use ubki_uploader.Db.Files.{recompute_file_status}
use ubki_uploader.Db.Records.{by_record, is_resettable, reset_records}
use ubki_uploader.Db.Records.Retry.{find-reset_row, found-key}
use ubki_uploader.Db.Validity.{IsValid, recompute_file_status-IsValid, reset_records-IsValid}
use ubki_uploader.Api.{Answer, answered, find_row, with_token, retry_record}

-- A request with a wrong token changes nothing.
pub wrong_token :
    {A : Type 0} (api_token x_api_token : String) (db : Db) (handled : Answer A × Db)
    → x_api_token ≢ api_token
    → (with_token api_token x_api_token db handled).1 ≡ db
unfolding with_token
wrong_token api_token x_api_token db handled h = ground (arith, eq_iff x_api_token api_token)

retry_record_counts :
    (i : ℕ) (rs : List RecordRow) (r : RecordRow)
    → select_one (λ q. q.id == i) rs ≡ some r
    → is_resettable (by_record i) r ≡ true
    → 0 < count_where (is_resettable (by_record i)) rs
retry_record_counts i [] r h k = ground arith
retry_record_counts i (q ∷ rs) r h k = elim (Bool-cases (q.id == i)) [
  | inl e ↦ ground arith
  | inr e ↦ ground (arith, retry_record_counts i rs r)
]

-- The retry of a failed or rejected record is answered with the number of rows reset, which is not
-- zero, and the record is pending again, with no attempts, no error and no warnings, and otherwise
-- as it was.
pub retry_record_resends :
    (now : String) (db : Db) (i : ℕ) (r : RecordRow)
    → find_row db i ≡ some r
    → (r.status is failed || r.status is rejected) ≡ true
    → (n : ℕ) × (0 < n)
      × ((retry_record now db i).0 ≡ answered n)
      × (find_row (retry_record now db i).1 i
          ≡ some
              (record r { status = pending; attempts = 0; last_error = none; warn_codes = none }))
unfolding retry_record recompute_file_status reset_records
retry_record_resends now db i r h k =
    let n = count_where (is_resettable (by_record i)) db.records in
    let named : r.id ≡ i = found-key (λ q. q.id) i db.records r h in
    let target : is_resettable (by_record i) r ≡ true = ground arith in
    let some_reset = retry_record_counts i db.records r h target in
    let found = find-reset_row db (by_record i) i r h in
    (n, some_reset, ground arith, ground (arith, found))

-- A retry leaves a valid database valid, also where it is refused.
pub retry_record-IsValid :
    (now : String) (db : Db) (i : ℕ) → IsValid db → IsValid (retry_record now db i).1
unfolding retry_record
retry_record-IsValid now db i v =
    let (count, reset) = reset_records db (by_record i) in
    elim (Option-cases (find_row db i)) [
      | inl e ↦ rw (e, retry_record) v
      | inr (r, e) ↦ elim (Bool-cases ((reset_records db (by_record i)).0 == 0)) [
        | inl z ↦ rw (e, z, retry_record) (reset_records-IsValid db (by_record i) v)
        | inr z ↦
            rw (e, z, retry_record)
              (recompute_file_status-IsValid now _ r.file_id
                (reset_records-IsValid db (by_record i) v))
      ]
    ]

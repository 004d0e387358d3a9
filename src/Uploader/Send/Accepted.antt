-- ===== src/Uploader/Send/Accepted.antt =====
-- No record is accepted twice by one pass.
use ubki_uploader.Prelude.{
  ℕ, ◌≤◌, ◌<◌, ◌≡◌, refl, String, Bool, true, ◌&&◌, Option, some, List, [], ◌∷◌, map, All,
  count_where, select, count-order_by, IsRising, ◌==◌, arith, inl, inr, Bool-cases, subst,
}
use ubki_uploader.Config.{Config}
use ubki_uploader.Db.Schema.{sent, ◌is◌, RecordRow, Db}
use ubki_uploader.Db.Records.{sendable_records, is_sendable, has_file, line_before}
use ubki_uploader.Db.Validity.{IsValid}
use ubki_uploader.Python.Json.{Builtins}
use ubki_uploader.Client.Session.{SessionStore}
use ubki_uploader.Uploader.Summary.{RunSummary}
use ubki_uploader.Uploader.Wave.{Sending}
use ubki_uploader.Uploader.Send.{Network, send_records}
use ubki_uploader.Uploader.Send.Counts.{send_records_accepts}

count-select {ℓ} :
    {A : Type ℓ} (p q : A → Bool) (xs : List A) → count_where p (select q xs) ≤ count_where p xs
count-select p q [] = omega arith
count-select p q (x ∷ xs) = ground (arith, count-select p q xs)

count-sendable_records :
    (p : RecordRow → Bool) (db : Db) (retry_cap : ℕ)
    → count_where p (sendable_records db retry_cap) ≤ count_where p db.records
unfolding sendable_records
count-sendable_records p db retry_cap =
    let test = λ (r : RecordRow). has_file db r && is_sendable retry_cap r in
    omega
      (arith, count-order_by line_before p (select test db.records), count-select p test db.records)

count_above :
    (i : ℕ) (rs : List RecordRow)
    → All (λ m. i < m) (map (λ r. r.id) rs)
    → count_where (λ r. r.id == i) rs ≡ 0
count_above i [] h = refl
count_above i (r ∷ rs) (a, h) = ground (arith, count_above i rs h)

count_here :
    (i : ℕ) (r : RecordRow) (rs : List RecordRow)
    → (r.id == i) ≡ true
    → All (λ m. r.id < m) (map (λ q. q.id) rs)
    → count_where (λ q. q.id == i) (r ∷ rs) ≡ 1
count_here i r rs e above =
    let same : r.id ≡ i = ground arith in
    ground (arith, count_above i rs (subst (λ k. All (λ m. k < m) (map (λ q. q.id) rs)) same above))

-- In a list with rising ids an id occurs once at most.
count-id :
    (i : ℕ) (rs : List RecordRow)
    → IsRising (map (λ r. r.id) rs)
    → count_where (λ r. r.id == i) rs ≤ 1
count-id i [] h = omega arith
count-id i (r ∷ rs) (above, h) = elim (Bool-cases (r.id == i)) [
  | inl e ↦ omega (arith, count_here i r rs e above)
  | inr e ↦ rw e (omega (arith, count-id i rs h))
]

-- In a valid database, whatever the network answers and in whatever order: one call of
-- `send_records` gets each record accepted at most once, the second wave included.
pub accepted_once :
    (py : Builtins) (config : Config) (store : SessionStore Db) (net : Network)
    (sessid : Option String) (db : Db) (summary : RunSummary) (t : Sending) (i : ℕ)
    → IsValid db
    → send_records py config store net sessid db summary ≡ some t
    → count_where (λ e. e.item.id == i && e.result.status is sent) t.log ≤ 1
accepted_once py config store net sessid db summary t i v h = omega (
  arith,
  send_records_accepts (λ r. r.id == i) py config store net sessid db summary t h,
  count-sendable_records (λ r. r.id == i) db config.retry_cap,
  count-id i db.records v.records_rising,
)

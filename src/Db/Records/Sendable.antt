-- ===== src/Db/Records/Sendable.antt =====
-- Which records a pass may send, and in what order.
use mathlib.Core.List.{Mem}
use mathlib.Core.List.Perm
use ubki_uploader.Prelude.{
  ℕ, ◌<◌, ◌≡◌, ◌↔◌, ◌⊎◌, Bool, true, false, ◌||◌, ◌&&◌, arith, ltb, select, mem-select, List, [],
  ◌∷◌, ◌≤◌, All, All-imp, order_by-perm, order_by-IsOrdered, IsOrdered,
}
use ubki_uploader.Db.Schema.{Status, pending, partial, sent, failed, rejected, ◌is◌, RecordRow, Db}
use ubki_uploader.Db.Records.{is_sendable, has_file, line_before, sendable_records}

-- The record waits to be sent: it is new, or its last attempt failed and tries are left.
abbrev pub Waits : ℕ → RecordRow → Type 0
Waits retry_cap r = (r.status ≡ pending) ⊎ ((r.status ≡ failed) × (r.attempts < retry_cap))

waits_status :
    (s : Status) (attempts retry_cap : ℕ)
    → ((s is pending || s is failed && ltb attempts retry_cap) ≡ true)
      ↔ ((s ≡ pending) ⊎ ((s ≡ failed) × (attempts < retry_cap)))
waits_status pending a c = ground arith
waits_status partial a c = ground arith
waits_status sent a c = ground arith
waits_status failed a c = ground arith
waits_status rejected a c = ground arith

is_sendable-iff_Waits :
    (retry_cap : ℕ) (r : RecordRow) → (is_sendable retry_cap r ≡ true) ↔ Waits retry_cap r
is_sendable-iff_Waits retry_cap r = waits_status r.status r.attempts retry_cap

both_true : (a b : Bool) → ((a && b) ≡ true) ↔ ((a ≡ true) × (b ≡ true))
both_true a b = ground arith

-- A record is in the list of a pass exactly when it is in the table, its file is, and it waits to
-- be sent. So a record that is `sent` or `rejected`, or `failed` with its tries used up, is never
-- sent by a pass.
pub mem-sendable_records :
    (db : Db) (retry_cap : ℕ) (r : RecordRow)
    → Mem r (sendable_records db retry_cap)
      ↔ (Mem r db.records × (has_file db r ≡ true) × Waits retry_cap r)
unfolding sendable_records
mem-sendable_records db retry_cap r =
    let sorted = Perm.mem_iff {a = r} (
      order_by-perm line_before
        (select (λ q. has_file db q && is_sendable retry_cap q) db.records)) in
    let chosen = mem-select (λ q. has_file db q && is_sendable retry_cap q) db.records r in
    let both = both_true (has_file db r) (is_sendable retry_cap r) in
    let waits = is_sendable-iff_Waits retry_cap r in
    (
      λ m. let (stored, h) = chosen.0 (sorted.0 m) in (stored, (both.0 h).0, waits.0 (both.0 h).1),
      λ (stored, file, w). sorted.1 (chosen.1 (stored, both.1 (file, waits.1 w))),
    )

line_before_total : (r q : RecordRow) → line_before r q ≡ false → line_before q r ≡ true
line_before_total r q h = ground arith

line_before_chain :
    (r q s : RecordRow) → line_before r q ≡ true → line_before q s ≡ true → line_before r s ≡ true
line_before_chain r q s h k = ground arith

-- Each record comes before all later ones of the list: its file has a smaller id, or it is of the
-- same file and its line is not behind theirs.
abbrev pub IsByFileAndLine : List RecordRow → Type 0
IsByFileAndLine [] = Unit
IsByFileAndLine (r ∷ rs) =
    All (λ q. (r.file_id < q.file_id) ⊎ ((r.file_id ≡ q.file_id) × (r.line_no ≤ q.line_no))) rs
    × IsByFileAndLine rs

line_before-columns :
    (r q : RecordRow)
    → line_before r q ≡ true
    → (r.file_id < q.file_id) ⊎ ((r.file_id ≡ q.file_id) × (r.line_no ≤ q.line_no))
line_before-columns r q h = ground arith

ordered_columns : (rs : List RecordRow) → IsOrdered line_before rs → IsByFileAndLine rs
ordered_columns [] h = tt
ordered_columns (r ∷ rs) (before, h) = (
  All-imp (λ q. line_before r q ≡ true) _ (line_before-columns r) rs before,
  ordered_columns rs h,
)

-- The records of a pass go by the ids of their files, and within a file by their line numbers.
pub sendable_records-IsByFileAndLine :
    (db : Db) (retry_cap : ℕ) → IsByFileAndLine (sendable_records db retry_cap)
unfolding sendable_records
sendable_records-IsByFileAndLine db retry_cap = ordered_columns _ (
    order_by-IsOrdered line_before line_before_total line_before_chain
      (select (λ r. has_file db r && is_sendable retry_cap r) db.records))

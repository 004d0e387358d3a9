-- ===== src/Tests/Storage.antt =====
-- app/db.py on a database of one file.
use ubki_uploader.Prelude.{
  ℕ, zero, suc, ◌+◌, ◌-◌, ◌/◌, count_where, ◌≡◌, ◌≤◌, ◌↔◌, refl, true, false, none, some, [], ◌∷◌,
  map, arith, All,
}
use mathlib.Core.List.{Mem}
use ubki_uploader.Prelude.Int.{ℤ, pos, negsuc}
use ubki_uploader.Db.Schema.{pending, partial, sent, failed, rejected, RecordRow, Db, empty}
use ubki_uploader.Db.Files.{
  insert_file, left_by_insert, before_clash, aggregate, get_file_by_identity,
}
use ubki_uploader.Db.Files.Aggregate.{Means, aggregate-iff_Means}
use ubki_uploader.Db.Files.Ingest.{insert_file_stores, numbers_from, records_of, IsUnsent}
use ubki_uploader.Db.Records.{
  is_sendable, has_file, update_record_result, reset_records, sendable_records, by_file,
}
use ubki_uploader.Db.Records.Sendable.{Waits, mem-sendable_records}
use ubki_uploader.Db.Records.Retry.{find_record, Retried, find-reset_records, outage_keeps_sendable}
use ubki_uploader.Db.Validity.{IsValid}
use ubki_uploader.Db.Reach.{Built, fresh_schema, then_write, inserted, Built-IsValid}
use ubki_uploader.RateLimit.{Floats, RateLimiter, rate_limiter, reserve, slots}
use ubki_uploader.RateLimit.Window.{is_within, slots_per_second}
use ubki_uploader.Tests.Validity.{uuids, lines, db_ingested}
use ubki_uploader.Tests.Samples.{db, row, file}

-- sent and rejected records make a rejected file
mixed_file : aggregate (sent ∷ rejected ∷ sent ∷ []) ≡ rejected
unfolding aggregate
mixed_file = refl

half_done_file : aggregate (sent ∷ pending ∷ []) ≡ partial
unfolding aggregate
half_done_file = refl

aggregate-iff_Means_example :
    (aggregate (sent ∷ rejected ∷ []) ≡ rejected) ↔ Means rejected (sent ∷ rejected ∷ [])
aggregate-iff_Means_example = aggregate-iff_Means (sent ∷ rejected ∷ []) rejected refl

-- The same file again is an IntegrityError.
ingested_twice : insert_file uuids "t1" db "a.txt" "aa" 30 lines ≡ none
unfolding insert_file
ingested_twice = refl

-- A uuid that is there already: the call raises, and a file without records is left.
abbrev clash_left : Db
clash_left = left_by_insert uuids "t1" db "b.txt" "bb" 30 lines

clash_raises : insert_file uuids "t1" db "b.txt" "bb" 30 lines ≡ none
unfolding insert_file
clash_raises = refl

clash_leaves :
    (map (λ f. f.filename) clash_left.files ≡ "a.txt" ∷ "b.txt" ∷ [])
    × (clash_left.records ≡ db.records)
unfolding left_by_insert before_clash
clash_leaves = (refl, refl)

insert_file_stores_example :
    (get_file_by_identity db "a.txt" "aa" ≡ some file)
    × (map (λ r. r.raw_line) (records_of db 1) ≡ lines)
    × (map (λ r. r.line_no) (records_of db 1) ≡ numbers_from 1 lines)
    × All (IsUnsent 1) (records_of db 1)
insert_file_stores_example =
    insert_file_stores uuids "t0" empty "a.txt" "aa" 30 lines 1 db tt db_ingested

db-Built : Built db
db-Built = then_write fresh_schema (inserted uuids "t0" "a.txt" "aa" 30 lines 1 db_ingested)

Built-IsValid_example : IsValid db
Built-IsValid_example = Built-IsValid db-Built

abbrev first : RecordRow
first = row 1 "u1" "{1}"

mem-sendable_records_example :
    Mem first (sendable_records db 5)
    ↔ (Mem first db.records × (has_file db first ≡ true) × Waits 5 first)
mem-sendable_records_example = mem-sendable_records db 5 first

outage_keeps_sendable_example :
    (q : RecordRow) × (find_record
        (update_record_result "t1" db 1 failed (some "network") none none false)
        1
      ≡ some q)
    × (q.attempts ≡ 0)
    × (is_sendable 5 q ≡ true)
outage_keeps_sendable_example =
    outage_keeps_sendable "t1" db 1 (some "network") none none 5 first refl (omega arith)

abbrev failed_first : RecordRow
failed_first = record first { status = failed; attempts = 5; last_error = some "HTTP 400" }

abbrev failed_db : Db
failed_db = record db { records = failed_first ∷ [] }

find-reset_records_example :
    (q : RecordRow) × (find_record (reset_records failed_db (by_file 1)).1 1 ≡ some q)
    × Retried (by_file 1) failed_first q
find-reset_records_example = find-reset_records failed_db (by_file 1) 1 failed_first refl

reset_first : find_record (reset_records failed_db (by_file 1)).1 1 ≡ some first
unfolding reset_records
reset_first = refl

-- Ten requests a second, in ticks of a millisecond, with sums that lose a tick.
abbrev lossy_sum : ℕ → ℕ → ℕ
lossy_sum a zero = a
lossy_sum a (suc b) = a + b

abbrev reciprocal : ℤ → ℕ
reciprocal (pos n) = 1000 / n
reciprocal (negsuc n) = 0

abbrev floats : Floats
floats = record { plus = lossy_sum; minus = λ a b. a - b; reciprocal = reciprocal }

limiter : RateLimiter
limiter = record { interval = 100; next_slot = 0 }

burst : slots floats limiter (7 ∷ 7 ∷ 8 ∷ 500 ∷ []) ≡ 7 ∷ 106 ∷ 205 ∷ 500 ∷ []
unfolding slots reserve limiter
burst = refl

limiter_made : rate_limiter floats (pos 10) ≡ some limiter
unfolding rate_limiter limiter
limiter_made = refl

refused_rate : rate_limiter floats (pos 0) ≡ none
unfolding rate_limiter
refused_rate = refl

-- Eleven callers that arrive together: all their slots lie within a second, one more than the rate.
eleven_at_ten :
    count_where
      (is_within 0 1000)
      (slots floats limiter (0 ∷ 0 ∷ 0 ∷ 0 ∷ 0 ∷ 0 ∷ 0 ∷ 0 ∷ 0 ∷ 0 ∷ 0 ∷ []))
    ≡ 11
unfolding slots reserve limiter
eleven_at_ten = refl

lossy_sum_close : (a b : ℕ) → a ≤ 9999 → b ≤ 9999 → a + b ≤ lossy_sum a b + 1
lossy_sum_close a zero h k = omega arith
lossy_sum_close a (suc b) h k = omega arith

lossy_sum_grows : (a b : ℕ) → a ≤ lossy_sum a b
lossy_sum_grows a zero = omega arith
lossy_sum_grows a (suc b) = omega arith

slots_per_second_example :
    count_where (is_within 10 (10 + 1000)) (slots floats limiter (7 ∷ 7 ∷ 8 ∷ 200 ∷ [])) ≤ 11
slots_per_second_example =
    slots_per_second floats 9999 1 99 11 1000 10 (pos 10) limiter (7 ∷ 7 ∷ 8 ∷ 200 ∷ [])
      lossy_sum_close lossy_sum_grows limiter_made (omega arith) (omega arith) (omega arith)
      (omega arith)

-- ===== src/Tests/Requests.antt =====
-- Requests to the API over the sample database.
use ubki_uploader.Prelude.{ℕ, ◌≡◌, ◌<◌, refl, true, false, some, [], ◌∷◌}
use ubki_uploader.Db.Schema.{failed, RecordRow, Db}
use ubki_uploader.Api.{answered, find_row, retry_record, HealthCheck}
use ubki_uploader.Api.Retry.{retry_record_resends}
use ubki_uploader.Tests.Samples.{db, row}

abbrev failed_row : RecordRow
failed_row = record (row 1 "u1" "{1}") {
  status = failed;
  attempts = 5;
  last_error = some "HTTP 400";
}

abbrev failed_db : Db
failed_db = record db { records = failed_row ∷ [] }

retry_record_resends_example :
    (n : ℕ) × (0 < n)
    × ((retry_record "t5" failed_db 1).0 ≡ answered n)
    × (find_row (retry_record "t5" failed_db 1).1 1 ≡ some (row 1 "u1" "{1}"))
retry_record_resends_example = retry_record_resends "t5" failed_db 1 failed_row refl refl

abbrev check : HealthCheck
check = record {
  retry_cap = 5;
  folder_accessible = true;
  is_stale = λ t. false;
  cutoff = "t";
  exceeds = λ n total. false;
}

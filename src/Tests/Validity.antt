-- ===== src/Tests/Validity.antt =====
-- The sample database is one that the helpers build.
use ubki_uploader.Prelude.{ℕ, ◌≡◌, refl, String, ◌==◌, if◌then◌else◌, some, List, [], ◌∷◌}
use ubki_uploader.Db.Schema.{empty}
use ubki_uploader.Db.Files.{insert_file}
use ubki_uploader.Db.Validity.{IsValid}
use ubki_uploader.Db.Reach.{inserted, Write-IsValid}
use ubki_uploader.Db.Validity.{empty-IsValid}
use ubki_uploader.Tests.Samples.{db}

abbrev pub uuids : ℕ → String
uuids n = if n == 1 then "u1" else if n == 2 then "u2" else "u3"

abbrev pub lines : List String
lines = "{1}" ∷ "{2}" ∷ "{3}" ∷ []

-- The sample database is what ingesting the file into an empty one makes.
pub db_ingested : insert_file uuids "t0" empty "a.txt" "aa" 30 lines ≡ some (1, db)
unfolding insert_file
db_ingested = refl

pub db-IsValid : IsValid db
db-IsValid = Write-IsValid (inserted uuids "t0" "a.txt" "aa" 30 lines 1 db_ingested) empty-IsValid

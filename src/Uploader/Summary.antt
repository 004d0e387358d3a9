-- ===== src/Uploader/Summary.antt =====
-- `RunSummary` of app/uploader.py.
use ubki_uploader.Prelude.{ℕ, String, Bool, false, List, []}

pub record RunSummary : Type 0 where
  pub dry_run : Bool
  pub files_seen : ℕ
  pub files_new : ℕ
  pub files_skipped : ℕ
  pub files_empty : ℕ
  pub records_sent : ℕ
  pub records_failed : ℕ
  pub records_rejected : ℕ
  pub records_warnings : ℕ
  pub records_components_dropped : ℕ
  pub files_archived : ℕ
  pub aborted : Bool
  pub skipped_lock : Bool
  pub errors : List String

abbrev pub run_summary : (dry_run : Bool) → RunSummary
run_summary dry_run = record {
  dry_run = dry_run;
  files_seen = 0;
  files_new = 0;
  files_skipped = 0;
  files_empty = 0;
  records_sent = 0;
  records_failed = 0;
  records_rejected = 0;
  records_warnings = 0;
  records_components_dropped = 0;
  files_archived = 0;
  aborted = false;
  skipped_lock = false;
  errors = [];
}

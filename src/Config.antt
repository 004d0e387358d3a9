-- ===== src/Config.antt =====
-- `Config` of app/config.py: the settings that the modelled parts read. A folder is its path.
pub mod Load
use ubki_uploader.Prelude.{ℕ}
use ubki_uploader.Prelude.Int.{ℤ}

pub record Config : Type 0 where
  pub retry_cap : ℕ
  pub min_file_age_sec : ℕ
  pub max_line_bytes : ℕ
  pub network_abort_threshold : ℕ
  -- a setting below 0 is refused where 0 is
  pub ubki_concurrency : ℕ
  -- the float, in ticks of which it is a whole number
  pub ubki_max_rps : ℤ

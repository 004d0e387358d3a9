-- ===== src/Tests/Settings.antt =====
-- Settings from an environment with the four variables that have to be there, and one number.
use ubki_uploader.Prelude.{ℕ, ◌≡◌, refl, String, none, List, [], ◌∷◌}
use ubki_uploader.Prelude.Int.{pos}
use ubki_uploader.Python.Strip.{strip}
use ubki_uploader.Python.Date.{digits_value}
use ubki_uploader.Config.Load.{Settings, missing, bad_number, loaded, require, parsed, load_config}
use ubki_uploader.Config.Load.Complete.{IsComplete, load_config-IsComplete}
use ubki_uploader.Tests.Samples.{builtins}

abbrev env : List (String × String)
env =
    ("UBKI_DATA_FOLDER_PATH", " /data/in ")
    ∷ ("UBKI_LOGIN", "login")
    ∷ ("UBKI_PASSWORD", "secret")
    ∷ ("API_TOKEN", "token")
    ∷ ("RETRY_CAP", "7")
    ∷ []

abbrev settings : Settings ℕ
settings = record {
  data_folder = "/data/in";
  ubki_login = "login";
  ubki_password = "secret";
  ubki_upload_url = "https://secure.ubki.ua/upload/data";
  ubki_auth_url = "https://secure.ubki.ua/b2_api_xml/ubki/auth";
  db_path = "/data/ubki.sqlite3";
  api_token = "token";
  telegram_bot_token = none;
  telegram_chat_id = none;
  retry_cap = pos 7;
  min_file_age_sec = pos 300;
  file_glob = "*.txt";
  ubki_concurrency = pos 8;
  ubki_max_rps = 25;
  network_abort_threshold = pos 3;
  raw_folder = none;
  mysql_host = none;
  mysql_port = pos 3306;
  mysql_user = none;
  mysql_password = none;
  mysql_db = none;
  deal_vidobes = "90";
  health_rejected_window_days = pos 14;
  health_rejected_max_ratio = 2;
}

settings_loaded : load_config builtins (λ s. none) 25 2 env ≡ loaded settings
unfolding load_config require parsed strip digits_value
settings_loaded = refl

-- The first variable that is not there is named.
login_missing :
    load_config {F = ℕ} builtins (λ s. none) 25 2 (("UBKI_DATA_FOLDER_PATH", "/data/in") ∷ [])
    ≡ missing "UBKI_LOGIN"
unfolding load_config require parsed strip
login_missing = refl

-- A number that is none is an error.
cap_refused :
    load_config {F = ℕ} builtins (λ s. none) 25 2 (("RETRY_CAP", "x") ∷ env)
    ≡ bad_number "RETRY_CAP"
unfolding load_config require parsed strip digits_value
cap_refused = refl

load_config-IsComplete_example : IsComplete env settings
load_config-IsComplete_example =
    load_config-IsComplete builtins (λ s. none) 25 2 env settings settings_loaded

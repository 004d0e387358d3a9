-- ===== src/Config/Load.antt =====
-- `_require` and `load_config` of app/config.py, over the environment as a list of variables.
pub mod Complete
use ubki_uploader.Prelude.{
  ℕ, String, Bool, true, false, ◌||◌, ◌&&◌, Option, none, some, List, [], ◌∷◌, str_eq, is_blank,
  if◌then◌else◌,
}
use ubki_uploader.Prelude.Int.{ℤ, pos}
use ubki_uploader.Python.Json.{Builtins}
use ubki_uploader.Python.Strip.{strip}

-- `os.environ.get(name, default)`
abbrev pub env_or : (default name : String) → List (String × String) → String
env_or default name [] = default
env_or default name ((k, v) ∷ env) = if str_eq k name then v else env_or default name env

-- `os.environ.get(name, "").strip()`
abbrev pub trimmed : String → List (String × String) → String
trimmed name env = strip (env_or "" name env)

-- `os.environ.get(name) or None`
abbrev pub given : String → List (String × String) → Option String
given name env = let v = env_or "" name env in if is_blank v then none else some v

-- `s or default`
abbrev pub text_or : (default s : String) → String
text_or default s = if is_blank s then default else s

-- `Config`, with every field that `load_config` sets; `F` are the floats.
pub record Settings (F : Type 0) : Type 0 where
  pub data_folder : String
  pub ubki_login : String
  pub ubki_password : String
  pub ubki_upload_url : String
  pub ubki_auth_url : String
  pub db_path : String
  pub api_token : String
  pub telegram_bot_token : Option String
  pub telegram_chat_id : Option String
  pub retry_cap : ℤ
  pub min_file_age_sec : ℤ
  pub file_glob : String
  pub ubki_concurrency : ℤ
  pub ubki_max_rps : F
  pub network_abort_threshold : ℤ
  pub raw_folder : Option String
  pub mysql_host : Option String
  pub mysql_port : ℤ
  pub mysql_user : Option String
  pub mysql_password : Option String
  pub mysql_db : Option String
  pub deal_vidobes : String
  pub health_rejected_window_days : ℤ
  pub health_rejected_max_ratio : F

-- The RuntimeError of `_require`, the ValueError of a number, or the settings.
pub data Loaded (F : Type 0) : Type 0 where
  missing bad_number : (name : String) → Loaded F
  loaded : Settings F → Loaded F

-- `_require`, before what comes after it
unfoldable pub require :
    {F : Type 0} → (name : String) → List (String × String) → (String → Loaded F) → Loaded F
require name env next =
    let value = trimmed name env in if is_blank value then missing name else next value

-- `int(...)` or `float(...)` of a text, before what comes after it
unfoldable pub parsed : {F A : Type 0} → (name : String) → Option A → (A → Loaded F) → Loaded F
parsed name none next = bad_number name
parsed name (some n) next = next n

-- `int(os.environ.get(name) or default)`
abbrev pub int_or : Builtins → (default : ℕ) (name : String) → List (String × String) → Option ℤ
int_or py default name env =
    let v = env_or "" name env in if is_blank v then some (pos default) else py.int_of v

-- `float(os.environ.get(name) or default)`
abbrev pub float_or :
    {F : Type 0}
    → (float_of : String → Option F) → (default : F) (name : String) → List (String × String)
    → Option F
float_or float_of default name env =
    let v = env_or "" name env in if is_blank v then some default else float_of v

-- `rps` and `ratio` are the floats 25.0 and 0.02.
unfoldable pub load_config :
    {F : Type 0}
    → Builtins
    → (float_of : String → Option F) → (rps ratio : F) → List (String × String)
    → Loaded F
load_config py float_of rps ratio env = require "UBKI_DATA_FOLDER_PATH" env (λ data_folder.
    require "UBKI_LOGIN" env (λ login. require "UBKI_PASSWORD" env (λ password.
      require "API_TOKEN" env (λ api_token.
        parsed "RETRY_CAP" (int_or py 5 "RETRY_CAP" env) (λ retry_cap.
          parsed "MIN_FILE_AGE_SEC" (int_or py 300 "MIN_FILE_AGE_SEC" env) (λ min_age.
            parsed "UBKI_CONCURRENCY" (int_or py 8 "UBKI_CONCURRENCY" env) (λ concurrency.
              parsed "UBKI_MAX_RPS" (float_or float_of rps "UBKI_MAX_RPS" env) (λ max_rps.
                parsed "NETWORK_ABORT_THRESHOLD" (int_or py 3 "NETWORK_ABORT_THRESHOLD" env)
                  (λ threshold. parsed "MYSQL_PORT" (int_or py 3306 "MYSQL_PORT" env) (λ port.
                    parsed "HEALTH_REJECTED_WINDOW_DAYS"
                      (int_or py 14 "HEALTH_REJECTED_WINDOW_DAYS" env)
                      (λ window.
                        parsed "HEALTH_REJECTED_MAX_RATIO"
                          (float_or float_of ratio "HEALTH_REJECTED_MAX_RATIO" env)
                          (λ max_ratio. loaded (record {
                            data_folder = data_folder;
                            ubki_login = login;
                            ubki_password = password;
                            ubki_upload_url =
                                env_or "https://secure.ubki.ua/upload/data" "UBKI_URL" env;
                            ubki_auth_url =
                                env_or "https://secure.ubki.ua/b2_api_xml/ubki/auth" "UBKI_AUTH_URL"
                                  env;
                            db_path = env_or "/data/ubki.sqlite3" "DB_PATH" env;
                            api_token = api_token;
                            telegram_bot_token = given "TELEGRAM_BOT_TOKEN" env;
                            telegram_chat_id = given "TELEGRAM_CHAT_ID" env;
                            retry_cap = retry_cap;
                            min_file_age_sec = min_age;
                            file_glob = text_or "*.txt" (trimmed "FILE_GLOB" env);
                            ubki_concurrency = concurrency;
                            ubki_max_rps = max_rps;
                            network_abort_threshold = threshold;
                            raw_folder =
                                if is_blank (trimmed "RAW_FOLDER" env)
                                then none
                                else some (trimmed "RAW_FOLDER" env);
                            mysql_host = given "MYSQL_HOST" env;
                            mysql_port = port;
                            mysql_user = given "MYSQL_USER" env;
                            mysql_password = given "MYSQL_PASSWORD" env;
                            mysql_db = given "MYSQL_DB" env;
                            deal_vidobes = text_or "90" (trimmed "DEAL_VIDOBES" env);
                            health_rejected_window_days = window;
                            health_rejected_max_ratio = max_ratio;
                          })))))))))))))

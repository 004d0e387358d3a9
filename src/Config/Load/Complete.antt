-- ===== src/Config/Load/Complete.antt =====
-- What is sure of settings that are loaded.
use ubki_uploader.Prelude.{
  ◌≡◌, refl, subst, String, false, Option, none, some, List, is_blank, arith, Bool-cases, inl, inr,
}
use ubki_uploader.Python.Json.{Builtins}
use ubki_uploader.Config.Load.{Settings, Loaded, loaded, trimmed, require, parsed, load_config}

-- A variable that has to be there, and the text that is taken of it.
pub record IsGiven (name : String) (env : List (String × String)) (value : String) : Type 0 where
  pub trimmed_value : value ≡ trimmed name env
  pub not_blank : is_blank value ≡ false

-- The variables without which there are no settings.
pub record IsComplete {F : Type 0} (env : List (String × String)) (s : Settings F) : Type 0 where
  pub folder : IsGiven "UBKI_DATA_FOLDER_PATH" env s.data_folder
  pub login : IsGiven "UBKI_LOGIN" env s.ubki_login
  pub password : IsGiven "UBKI_PASSWORD" env s.ubki_password
  pub token : IsGiven "API_TOKEN" env s.api_token

pub data Requires {F : Type 0} (name : String) (env : List (String × String))
    (next : String → Loaded F) (s : Settings F) : Type 0 where
  requires :
      (value : String) → IsGiven name env value → next value ≡ loaded s → Requires name env next s

require-Requires :
    {F : Type 0} (name : String) (env : List (String × String)) (next : String → Loaded F)
    (s : Settings F)
    → require name env next ≡ loaded s
    → Requires name env next s
unfolding require
require-Requires name env next s h = elim (Bool-cases (is_blank (trimmed name env))) [
  | inl e ↦ absurd (ground arith)
  | inr e ↦
      requires (trimmed name env) (record { trimmed_value = refl; not_blank = e }) (ground arith)
]

pub data Parses {F A : Type 0} (next : A → Loaded F) (s : Settings F) : Type 0 where
  parses : (n : A) → next n ≡ loaded s → Parses next s

parsed-Parses :
    {F A : Type 0} (name : String) (o : Option A) (next : A → Loaded F) (s : Settings F)
    → parsed name o next ≡ loaded s
    → Parses next s
unfolding parsed
parsed-Parses name none next s h = absurd (ground arith)
parsed-Parses name (some n) next s h = parses n h

loaded_same : {F : Type 0} (s t : Settings F) → loaded s ≡ loaded t → s ≡ t
loaded_same s t h = cc

-- Settings are loaded only where the folder, the login, the password and the token of the API are
-- given and not blank, and they are taken from the environment without the spaces around them.
pub load_config-IsComplete :
    {F : Type 0} (py : Builtins) (float_of : String → Option F) (rps ratio : F)
    (env : List (String × String)) (s : Settings F)
    → load_config py float_of rps ratio env ≡ loaded s
    → IsComplete env s
unfolding load_config
load_config-IsComplete py float_of rps ratio env s h = elim (require-Requires _ _ _ s h) [
  | requires folder a h1 ↦ elim (require-Requires _ _ _ s h1) [
    | requires login b h2 ↦ elim (require-Requires _ _ _ s h2) [
      | requires password c h3 ↦ elim (require-Requires _ _ _ s h3) [
        | requires token d h4 ↦ elim (parsed-Parses _ _ _ s h4) [
          | parses n0 h5 ↦ elim (parsed-Parses _ _ _ s h5) [
            | parses n1 h6 ↦ elim (parsed-Parses _ _ _ s h6) [
              | parses n2 h7 ↦ elim (parsed-Parses _ _ _ s h7) [
                | parses n3 h8 ↦ elim (parsed-Parses _ _ _ s h8) [
                  | parses n4 h9 ↦ elim (parsed-Parses _ _ _ s h9) [
                    | parses n5 h10 ↦ elim (parsed-Parses _ _ _ s h10) [
                      | parses n6 h11 ↦ elim (parsed-Parses _ _ _ s h11) [
                        | parses n7 h12 ↦
                            subst (IsComplete env) (loaded_same _ s h12)
                              (record { folder = a; login = b; password = c; token = d })
                      ]
                    ]
                  ]
                ]
              ]
            ]
          ]
        ]
      ]
    ]
  ]
]

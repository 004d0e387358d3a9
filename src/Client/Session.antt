-- ===== src/Client/Session.antt =====
-- The session of `UbkiClient` in app/ubki_client.py, and the sequential path `upload_record`.
-- What the network answers to each request is an argument: a `Reply` for each POST that may be made.
pub mod Reuse
use Prim.Native.String.{◌++◌ as ◌<>◌}
use ubki_uploader.Prelude.{
  ℕ, zero, suc, String, Bool, true, false, ◌||◌, ◌&&◌, not, Option, none, some, List, [], ◌∷◌, ◌==◌,
  is_blank, take_chars, if◌then◌else◌,
}
use ubki_uploader.Db.Schema.{failed}
use ubki_uploader.Python.Json.{Json, str, truthy, ◌or_else◌, Builtins, to_text, show}
use ubki_uploader.Client.UploadResult.{
  Response, Reply, http_error, response, UploadResult, upload_result,
}
use ubki_uploader.Client.Body.{find_key}
use ubki_uploader.Client.Interpret.{send_prepared}

-- The protocol `SessionStore`, over the state of whatever keeps the session.
pub record SessionStore (S : Type 0) : Type 0 where
  pub load : S → Option String
  pub save : S → String → S

-- What the calls below change: `self._sessid` and the state of the store.
pub record ClientState (S : Type 0) : Type 0 where
  pub sessid : Option String
  pub kept : S

-- A sessid, or the text of a UbkiAuthError.
pub data AuthResult : Type 0 where
  ok : String → AuthResult
  auth_error : String → AuthResult

-- `if sessid:` of an optional text
abbrev pub present : Option String → Bool
present none = false
present (some s) = not (is_blank s)

abbrev pub network_failure : String → UploadResult
network_failure error = record (upload_result failed (some error)) { is_network_error = true }

module _ {S : Type 0} where
  -- `if self._store: self._store.save(sessid)`
  abbrev pub save_in : Option (SessionStore S) → S → String → S
  save_in none s sessid = s
  save_in (some store) s sessid = store.save s sessid

  -- `if self._store: cached = self._store.load()`
  abbrev pub load_from : Option (SessionStore S) → S → Option String
  load_from none s = none
  load_from (some store) s = store.load s

  -- The body of `auth` from the parsed response on.
  unfoldable pub accept_session :
      Builtins
      → Option (SessionStore S)
      → Response
      → Json
      → ClientState S
      → AuthResult × ClientState S
  accept_session py store resp body c =
      let found = find_key "sessid" body in
      let sessid = to_text py found in
      if truthy found
      then (ok sessid, record { sessid = some sessid; kept = save_in store c.kept sessid })
      else (
        auth_error (
            "auth rejected: "
            <> to_text py (find_key "errtext" body or_else str (take_chars 500 resp.text))),
        c,
      )

  unfoldable pub auth :
      Builtins → Option (SessionStore S) → Reply → ClientState S → AuthResult × ClientState S
  auth py store (http_error e) c = (auth_error ("auth network error: " <> e), c)
  auth py store (response resp) c =
      if not (resp.status_code == 200)
      then (
        auth_error ("auth HTTP " <> (show resp.status_code <> (": " <> take_chars 500 resp.text))),
        c,
      )
      else (elim resp.json [
        | none ↦ (auth_error ("auth returned non-JSON: " <> take_chars 500 resp.text), c)
        | some body ↦ accept_session py store resp body c
      ])

  unfoldable pub use_cached :
      Option String → (AuthResult × ClientState S) → ClientState S → AuthResult × ClientState S
  use_cached none asked c = asked
  use_cached (some s) asked c = if is_blank s then asked else (ok s, record c { sessid = some s })

  -- `_ensure_session`, `ensure_session`
  unfoldable pub ensure_session :
      Builtins → Option (SessionStore S) → Reply → ClientState S → AuthResult × ClientState S
  ensure_session py store reply c =
      use_cached c.sessid (use_cached (load_from store c.kept) (auth py store reply c) c) c

  unfoldable pub reauth :
      Builtins → Option (SessionStore S) → Reply → ClientState S → AuthResult × ClientState S
  reauth py store reply c = auth py store reply (record c { sessid = none })

  -- `_post_record`: none asks for a new session and a second try.
  unfoldable pub post_record :
      Builtins → Reply → ClientState S → Option UploadResult × ClientState S
  post_record py reply c =
      let result = send_prepared py reply in
      if result.session_expired then (none, record c { sessid = none }) else (some result, c)

  unfoldable pub second_try :
      Builtins → Reply → AuthResult × ClientState S → UploadResult × ClientState S
  second_try py post (auth_error e, c) = (network_failure e, c)
  second_try py post (ok sessid, c) =
      let (result, c') = post_record py post c in
      (elim result [ none ↦ network_failure "session rejected twice" | some r ↦ r ], c')

  unfoldable pub first_try :
      Builtins
      → Option (SessionStore S)
      → (post auth_again post_again : Reply) → AuthResult × ClientState S
      → UploadResult × ClientState S
  first_try py store post auth_again post_again (auth_error e, c) = (network_failure e, c)
  first_try py store post auth_again post_again (ok sessid, c) =
      let (result, c') = post_record py post c in
      elim result [
        | some r ↦ (r, c')
        | none ↦ second_try py post_again (auth py store auth_again c')
      ]

  -- The four requests that one call may make, in their order, have an answer each.
  unfoldable pub upload_record :
      Builtins
      → Option (SessionStore S)
      → (auth_first post auth_again post_again : Reply) → ClientState S
      → UploadResult × ClientState S
  upload_record py store auth_first post auth_again post_again c =
      first_try py store post auth_again post_again (ensure_session py store auth_first c)

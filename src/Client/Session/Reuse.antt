-- ===== src/Client/Session/Reuse.antt =====
-- A session is kept as long as it serves, and at most one new one is asked for.
use ubki_uploader.Prelude.{◌≡◌, String, true, false, ◌||◌, none, some, is_blank, arith}
use ubki_uploader.Python.Json.{Builtins}
use ubki_uploader.Client.UploadResult.{Reply, http_error, response}
use ubki_uploader.Client.Interpret.{send_prepared}
use ubki_uploader.Client.Session.{
  SessionStore, ClientState, ok, auth, present, ensure_session, post_record, upload_record,
  first_try, second_try, use_cached, accept_session,
}

-- A store gives back what was saved last.
pub record IsLawful {S : Type 0} (store : SessionStore S) : Type 0 where
  pub load-save : (s : S) (sessid : String) → store.load (store.save s sessid) ≡ some sessid

module _ {S : Type 0} (py : Builtins) (store : SessionStore S) where
  -- A client that holds a sessid, or whose store does, uses it: no request to authenticate is
  -- made, since whatever would answer one makes no difference, and the store is left alone.
  pub ensure_session_cached :
      (reply other : Reply) (c : ClientState S)
      → (present c.sessid || present (store.load c.kept)) ≡ true
      → (ensure_session py (some store) reply c ≡ ensure_session py (some store) other c)
        × ((ensure_session py (some store) reply c).1.kept ≡ c.kept)
  unfolding ensure_session use_cached
  ensure_session_cached reply other c h = ground arith

  -- Over a store that gives back what it saved, a session that was obtained once, with a sessid that
  -- is not empty, is what the next client over the same store uses, whatever
  -- the network would answer.
  pub ensure_session_after_auth :
      (lawful : IsLawful store) (reply later : Reply) (c : ClientState S) (sessid : String)
      → (auth py (some store) reply c).0 ≡ ok sessid
      → is_blank sessid ≡ false
      → (ensure_session py
          (some store)
          later
          (record { sessid = none; kept = (auth py (some store) reply c).1.kept })).0
        ≡ ok sessid
  unfolding ensure_session use_cached auth accept_session
  ensure_session_after_auth lawful (http_error e) later c sessid h k = ground arith
  ensure_session_after_auth lawful (response resp) later c sessid h k =
      ground (arith, lawful.load-save c.kept sessid)

  -- The sequential path hides stale sessions from its caller: its result never asks for a new
  -- session.
  pub upload_record_settled :
      (auth_first post auth_again post_again : Reply) (c : ClientState S)
      → (upload_record py (some store) auth_first post auth_again post_again c).0.session_expired
        ≡ false
  unfolding upload_record first_try second_try post_record
  upload_record_settled auth_first post auth_again post_again c = ground arith

  -- As long as the first answer does not reject the session, it decides the result, and the answers
  -- to a second authentication and a second POST make no difference.
  pub upload_record_first :
      (auth_first post auth_again post_again auth_other post_other : Reply) (c : ClientState S)
      → (send_prepared py post).session_expired ≡ false
      → upload_record py (some store) auth_first post auth_again post_again c
        ≡ upload_record py (some store) auth_first post auth_other post_other c
  unfolding upload_record first_try second_try post_record
  upload_record_first auth_first post auth_again post_again auth_other post_other c h = ground arith

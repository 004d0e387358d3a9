-- ===== src/DeletePeriod.antt =====
-- delete_period.py: packages of reqtype `d` and `u` that are sent beside the uploader.
pub mod Reading
pub mod Stops
use Prim.Native.String.{◌++◌ as ◌<>◌}
use ubki_uploader.Prelude.{
  ℕ, suc, ◌+◌, ◌≡◌, ◌↔◌, ◌≢◌, String, Bool, true, false, ◌||◌, ◌&&◌, not, Option, none, some, List,
  [], ◌∷◌, map, str_eq, eq_iff, is_blank, take_chars, if◌then◌else◌, arith, Bool-cases,
}
use ubki_uploader.Python.Json.{
  Json, Items, Fields, null, str, arr, obj, nil, cons, end, field, get, truthy, to_text, Builtins,
}
use ubki_uploader.Python.Strip.{strip}
use ubki_uploader.Db.Schema.{Db}
use ubki_uploader.Db.Meta.{meta_get}
use ubki_uploader.Client.UploadResult.{Reply, UploadResult}
use ubki_uploader.Client.Interpret.{send_prepared}
use ubki_uploader.DeletePeriod.Reading.{package_dlrefs, summarize_response}

-- The `choices` of `--reqtype`
pub data Reqtype : Type 0 where
  deletion update : Reqtype

abbrev pub reqtype_text : Reqtype → String
reqtype_text deletion = "d"
reqtype_text update = "u"

-- `if delreason`
abbrev pub is_given : Option String → Bool
is_given none = false
is_given (some s) = not (is_blank s)

-- `f',"delreason":"{delreason}"' if delreason else ""`
abbrev pub extra_of : Option String → String
extra_of none = ""
extra_of (some s) = if is_blank s then "" else ",\"delreason\":\"" <> (s <> "\"")

unfoldable pub build_envelope :
    (raw_line reqidout : String) → Reqtype → (delreason : Option String) → String
build_envelope raw_line reqidout reqtype delreason =
    "{\"reqtype\":\""
    <> (reqtype_text reqtype
        <> ("\",\"reqidout\":\""
            <> (reqidout
                <> ("\",\"reqreason\":\"0\""
                    <> (extra_of delreason
                        <> (",\"data\":{\"fo_cki\":" <> (strip raw_line <> "}}")))))))

-- PARTNER_DELREASONS
abbrev pub is_partner_delreason : Option String → Bool
is_partner_delreason none = false
is_partner_delreason (some s) = str_eq s "26" || str_eq s "27" || str_eq s "28" || str_eq s "29"

abbrev pub test_host : String
test_host = "test.ubki.ua"

-- `host` is `urlparse(url).hostname or ""`.
unfoldable pub check_args :
    Builtins
    → Reqtype
    → (delreason : Option String) → (host : String) → (prod : Bool) → Option String
check_args py reqtype delreason host prod =
    let check_host =
      if not (str_eq host test_host) && not prod
      then some (
          "UBKI_URL points at "
          <> (py.repr (str host) <> ", not test.ubki.ua: pass --prod to send there"))
      else if str_eq host test_host && prod
      then some "--prod given but UBKI_URL is the test contour"
      else none in
    elim reqtype [
      | deletion ↦
          if not (is_partner_delreason delreason)
          then some "reqtype=d needs --delreason in ['26', '27', '28', '29']"
          else check_host
      | update ↦
          if is_given delreason
          then some "--delreason only makes sense with reqtype=d"
          else check_host
    ]

unfoldable pub read_sessid : Db → Option String
read_sessid db = meta_get db "ubki_sessid"

-- `args.sessid or read_sessid(args.db)`
abbrev pub sessid_of : (given : Option String) → Db → Option String
sessid_of none db = read_sessid db
sessid_of (some s) db = if is_blank s then read_sessid db else some s

-- What `main` prints of a package.
pub record Output : Type 0 where
  pub n : ℕ
  pub dlrefs : List String
  pub envelope : String
  pub result : UploadResult
  pub info : Fields

-- How the loop ends: after all the packages, at a session that is rejected, or with an exception.
pub data Ending : Type 0 where
  all_sent session_rejected exception : Ending

pub record Sent : Type 0 where
  pub outputs : List Output
  pub ending : Ending
  pub requests : ℕ

-- A line of the input, the id that it is sent under, and the answer of the bureau.
pub record Package : Type 0 where
  pub line : String
  pub reqidout : String
  pub reply : Reply

abbrev pub printed : Output → Sent → Sent
printed o s = record s { outputs = o ∷ s.outputs; requests = suc s.requests }

-- `result.response_text or ""`
abbrev pub text_or_empty : Option String → String
text_or_empty none = ""
text_or_empty (some s) = s

-- The entry that is printed of a package that was sent, with none for an exception.
unfoldable pub output_of :
    Builtins
    → (loads : String → Option Json) → Reqtype
    → (delreason : Option String) → Package
    → (n : ℕ) → Option Output
output_of py loads reqtype delreason p n =
    let result = send_prepared py p.reply in
    let text = text_or_empty result.response_text in
    elim (package_dlrefs py (loads p.line)) [
      | none ↦ none
      | some dlrefs ↦ elim (summarize_response text (loads text)) [
        | none ↦ none
        | some info ↦ some (record {
          n = n;
          dlrefs = dlrefs;
          envelope = build_envelope p.line p.reqidout reqtype delreason;
          result = result;
          info = info;
        })
      ]
    ]

-- `if result.session_expired`
abbrev pub stop_or_go : (session_expired : Bool) → Output → (rest : Sent) → Sent
stop_or_go true output rest = record {
  outputs = output ∷ [];
  ending = session_rejected;
  requests = 1;
}
stop_or_go false output rest = printed output rest

abbrev pub after_output : Option Output → (rest : Sent) → Sent
after_output none rest = record { outputs = []; ending = exception; requests = 1 }
after_output (some output) rest = stop_or_go output.result.session_expired output rest

-- The loop of `main`.
unfoldable pub send_packages :
    Builtins
    → (loads : String → Option Json) → Reqtype
    → (delreason : Option String) → List Package
    → (n : ℕ) → Sent
send_packages py loads reqtype delreason [] n = record {
  outputs = [];
  ending = all_sent;
  requests = 0;
}
send_packages py loads reqtype delreason (p ∷ packages) n =
    after_output (output_of py loads reqtype delreason p n)
      (send_packages py loads reqtype delreason packages (suc n))

-- The text that is printed to stderr, or the packages: `main`.
pub data MainResult : Type 0 where
  refused : (text : String) → MainResult
  sent : Sent → MainResult

abbrev pub with_sessid :
    Builtins
    → (loads : String → Option Json) → Reqtype
    → (delreason : Option String) → List Package
    → Option String
    → MainResult
with_sessid py loads reqtype delreason packages none =
    refused "no sessid (seed one with app.set_session or pass --sessid)"
with_sessid py loads reqtype delreason packages (some sessid) =
    if is_blank sessid
    then refused "no sessid (seed one with app.set_session or pass --sessid)"
    else sent (send_packages py loads reqtype delreason packages 1)

unfoldable pub main :
    Builtins
    → (loads : String → Option Json) → Reqtype
    → (delreason : Option String) → (host : String) → (prod : Bool) → (sessid : Option String) → Db
    → List Package
    → MainResult
main py loads reqtype delreason host prod sessid db packages =
    elim (check_args py reqtype delreason host prod) [
      | some text ↦ refused text
      | none ↦ with_sessid py loads reqtype delreason packages (sessid_of sessid db)
    ]

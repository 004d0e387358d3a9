-- ===== src/DeletePeriod/Stops.antt =====
-- What delete_period.py sends, and when it stops.
use ubki_uploader.Prelude.{
  length, ◌≤◌, ℕ, suc, ◌≡◌, ◌↔◌, refl, String, Bool, true, false, not, Option, none, some, List, [],
  ◌∷◌, str_eq, is_blank, arith, Bool-cases, Option-cases, inl, inr, subst,
}
use ubki_uploader.Python.Json.{Json, Builtins}
use ubki_uploader.Db.Schema.{Db}
use ubki_uploader.DeletePeriod.{
  Reqtype, deletion, update, is_given, is_partner_delreason, test_host, check_args, sessid_of,
  Output, Ending, all_sent, session_rejected, exception, Sent, Package, stop_or_go, output_of,
  after_output, send_packages, sent, main,
}

-- A deletion has one of the partner's reasons, an update has none.
abbrev pub Fits : Reqtype → Option String → Type 0
Fits deletion delreason = is_partner_delreason delreason ≡ true
Fits update delreason = is_given delreason ≡ false

-- The host is that of the test contour, or `--prod` is given, and not both.
pub record IsAllowed (reqtype : Reqtype) (delreason : Option String) (host : String) (prod : Bool)
    : Type 0 where
  pub fits : Fits reqtype delreason
  pub right_host : str_eq host test_host ≡ not prod

check_args-IsAllowed :
    (py : Builtins) (reqtype : Reqtype) (delreason : Option String) (host : String) (prod : Bool)
    → check_args py reqtype delreason host prod ≡ none
    → IsAllowed reqtype delreason host prod
unfolding check_args
check_args-IsAllowed py deletion delreason host prod h = record {
  fits = ground arith;
  right_host = ground arith;
}
check_args-IsAllowed py update delreason host prod h = record {
  fits = ground arith;
  right_host = ground arith;
}

check_args_passes :
    (py : Builtins) (reqtype : Reqtype) (delreason : Option String) (host : String) (prod : Bool)
    → IsAllowed reqtype delreason host prod
    → check_args py reqtype delreason host prod ≡ none
unfolding check_args
check_args_passes py deletion delreason host prod h = ground (arith, h.fits, h.right_host)
check_args_passes py update delreason host prod h = ground (arith, h.fits, h.right_host)

-- The arguments are accepted exactly for a deletion with a reason that partners may give, or an
-- update without a reason, sent to the test host without `--prod` or elsewhere with it.
pub check_args-iff-IsAllowed :
    (py : Builtins) (reqtype : Reqtype) (delreason : Option String) (host : String) (prod : Bool)
    → (check_args py reqtype delreason host prod ≡ none) ↔ IsAllowed reqtype delreason host prod
check_args-iff-IsAllowed py reqtype delreason host prod = (
  check_args-IsAllowed py reqtype delreason host prod,
  check_args_passes py reqtype delreason host prod,
)

-- The entries of a run, whose last one alone may be of a session that was rejected.
pub data IsRun : List Output → Ending → Type 0 where
  finished : IsRun [] all_sent
  broken : IsRun [] exception
  last : {o : Output} → o.result.session_expired ≡ true → IsRun (o ∷ []) session_rejected
  next :
      {o : Output} {os : List Output} {ending : Ending}
      → o.result.session_expired ≡ false
      → IsRun os ending
      → IsRun (o ∷ os) ending

stop_or_go-IsRun :
    (expired : Bool) (output : Output) (rest : Sent)
    → output.result.session_expired ≡ expired
    → IsRun rest.outputs rest.ending
    → IsRun (stop_or_go expired output rest).outputs (stop_or_go expired output rest).ending
stop_or_go-IsRun true output rest e h = last e
stop_or_go-IsRun false output rest e h = next e h

after_output-IsRun :
    (o : Option Output) (rest : Sent)
    → IsRun rest.outputs rest.ending
    → IsRun (after_output o rest).outputs (after_output o rest).ending
after_output-IsRun none rest h = broken
after_output-IsRun (some output) rest h =
    stop_or_go-IsRun output.result.session_expired output rest refl h

send_packages-IsRun :
    (py : Builtins) (loads : String → Option Json) (reqtype : Reqtype) (delreason : Option String)
    (packages : List Package) (n : ℕ)
    → IsRun
        (send_packages py loads reqtype delreason packages n).outputs
        (send_packages py loads reqtype delreason packages n).ending
unfolding send_packages
send_packages-IsRun py loads reqtype delreason [] n = finished
send_packages-IsRun py loads reqtype delreason (p ∷ packages) n =
    after_output-IsRun (output_of py loads reqtype delreason p n)
      (send_packages py loads reqtype delreason packages (suc n))
      (send_packages-IsRun py loads reqtype delreason packages (suc n))

same_sent : (s t : Sent) → sent s ≡ sent t → s ≡ t
same_sent s t h = cc

stop_or_go_requests :
    (expired : Bool) (output : Output) (rest : Sent)
    → (stop_or_go expired output rest).requests ≤ suc rest.requests
stop_or_go_requests true output rest = omega arith
stop_or_go_requests false output rest = omega arith

after_output_requests :
    (o : Option Output) (rest : Sent) → (after_output o rest).requests ≤ suc rest.requests
after_output_requests none rest = omega arith
after_output_requests (some output) rest =
    stop_or_go_requests output.result.session_expired output rest

send_packages_requests :
    (py : Builtins) (loads : String → Option Json) (reqtype : Reqtype) (delreason : Option String)
    (packages : List Package) (n : ℕ)
    → (send_packages py loads reqtype delreason packages n).requests ≤ length packages
unfolding send_packages
send_packages_requests py loads reqtype delreason [] n = omega arith
send_packages_requests py loads reqtype delreason (p ∷ packages) n = omega (
  arith,
  after_output_requests (output_of py loads reqtype delreason p n)
      (send_packages py loads reqtype delreason packages (suc n)),
  send_packages_requests py loads reqtype delreason packages (suc n),
)

-- What was sent, and that it could be.
pub record IsSafe (reqtype : Reqtype) (delreason : Option String) (host : String) (prod : Bool)
    (packages : List Package) (s : Sent) : Type 0 where
  pub allowed : IsAllowed reqtype delreason host prod
  pub in_order : IsRun s.outputs s.ending
  pub each_once : s.requests ≤ length packages

-- Packages are sent only with arguments that are accepted, and after a session that was rejected no
-- further one is sent: its entry is the last. There are no more requests than packages.
pub main-IsSafe :
    (py : Builtins) (loads : String → Option Json) (reqtype : Reqtype) (delreason : Option String)
    (host : String) (prod : Bool) (sessid : Option String) (db : Db) (packages : List Package)
    (s : Sent)
    → main py loads reqtype delreason host prod sessid db packages ≡ sent s
    → IsSafe reqtype delreason host prod packages s
unfolding main
main-IsSafe py loads reqtype delreason host prod sessid db packages s h =
    elim (Option-cases (check_args py reqtype delreason host prod)) [
      | inr (text, e) ↦ absurd (ground arith)
      | inl e ↦ elim (Option-cases (sessid_of sessid db)) [
        | inl f ↦ absurd (ground arith)
        | inr (id, f) ↦ elim (Bool-cases (is_blank id)) [
          | inl g ↦ absurd (ground arith)
          | inr g ↦
              subst (λ (t : Sent). IsSafe reqtype delreason host prod packages t)
                (same_sent (send_packages py loads reqtype delreason packages 1) s (ground arith))
                (record {
                  allowed = check_args-IsAllowed py reqtype delreason host prod e;
                  in_order = send_packages-IsRun py loads reqtype delreason packages 1;
                  each_once = send_packages_requests py loads reqtype delreason packages 1;
                })
        ]
      ]
    ]

-- ===== src/Tests/Deletions.antt =====
-- A deletion whose session is rejected at the second of three packages.
use ubki_uploader.Prelude.{◌≡◌, refl, String, false, true, Option, none, some, List, [], ◌∷◌, ◌↔◌}
use ubki_uploader.Python.Json.{Json, to_text, to_int}
use ubki_uploader.Db.Schema.{empty}
use ubki_uploader.Client.UploadResult.{Reply}
use ubki_uploader.Client.Interpret.{
  send_prepared, interpret_response, data_of, is_session_error, session_errcode, map_state,
  is_accepted, state_of,
}
use ubki_uploader.Client.Body.{sentdatainfo, counter}
use ubki_uploader.DeletePeriod.Reading.{package_dlrefs, summarize_response}
use ubki_uploader.DeletePeriod.{
  deletion, check_args, session_rejected, Sent, Package, output_of, send_packages, sent, main,
}
use ubki_uploader.DeletePeriod.Stops.{IsAllowed, check_args-iff-IsAllowed, IsSafe, main-IsSafe}
use ubki_uploader.Tests.Samples.{builtins, accepted, stale}

abbrev package_of : String → Reply → Package
package_of reqidout reply = record { line = "{}"; reqidout = reqidout; reply = reply }

abbrev packages : List Package
packages = package_of "u1" accepted ∷ package_of "u2" stale ∷ package_of "u3" accepted ∷ []

abbrev unread : String → Option Json
unread s = none

abbrev run : Sent
run = send_packages builtins unread deletion (some "27") packages 1

run_done :
    main builtins unread deletion (some "27") "test.ubki.ua" false (some "s") empty packages
    ≡ sent run
unfolding main check_args
run_done = refl

main-IsSafe_example : IsSafe deletion (some "27") "test.ubki.ua" false packages run
main-IsSafe_example =
    main-IsSafe builtins unread deletion (some "27") "test.ubki.ua" false (some "s") empty packages
      run run_done

run_stops : run.ending ≡ session_rejected
unfolding send_packages output_of package_dlrefs summarize_response send_prepared interpret_response
    data_of is_session_error session_errcode map_state is_accepted state_of sentdatainfo counter
    to_text to_int
run_stops = refl

check_args-iff-IsAllowed_example :
    (check_args builtins deletion (some "27") "test.ubki.ua" true ≡ none)
    ↔ IsAllowed deletion (some "27") "test.ubki.ua" true
check_args-iff-IsAllowed_example =
    check_args-iff-IsAllowed builtins deletion (some "27") "test.ubki.ua" true

-- ===== src/Enricher/Line/Wording.antt =====
-- The texts of the reasons for which `enrich_line` and `process_file` of app/enricher.py quarantine a
-- line.
use Prim.Native.String.{◌++◌ as ◌<>◌}
use ubki_uploader.Prelude.{ℕ, String, List, map, join}
use ubki_uploader.Python.Json.{show}
use ubki_uploader.Enricher.Document.{unsupported_format, no_passport_number}
use ubki_uploader.Enricher.Line.{
  Reason, no_inn, no_deals, no_dlref, no_vdate, no_phone, no_name, not_an_object, not_found,
  different_clients, cabinet_has_no_inn, inn_mismatch, no_document, bdate_contradicts, broken_json,
}

-- `str(xs)` of a list of ints
abbrev pub show_list : List ℕ → String
show_list ns = "[" <> (join ", " (map show ns) <> "]")

unfoldable pub reason_text : Reason → String
reason_text no_inn = "line has no inn"
reason_text no_deals = "line has no deals"
reason_text no_dlref = "deal has no dlref"
reason_text (not_found dlref) = "dlref " <> (dlref <> " not found in cabinet DB")
reason_text (different_clients ids) =
    "deals belong to different clients: user_ids=" <> show_list ids
reason_text (cabinet_has_no_inn inn) =
    "cabinet client has no inn (users.social_number is empty), file has " <> inn
reason_text (inn_mismatch inn) =
    "inn mismatch: file has " <> (inn <> ", cabinet client has different inn")
reason_text no_vdate = "application has no applied_at (vdate)"
reason_text (no_document unsupported_format) =
    "unsupported passport format (neither 2 letters + 6 digits nor 9 digits)"
reason_text (no_document no_passport_number) =
    "no passport number in the cabinet (both the application snapshot and users are empty)"
reason_text no_phone = "no valid phone (contacts block is mandatory)"
reason_text no_name = "line is missing lname/fname/bdate"
reason_text (bdate_contradicts bdate inn expected) =
    "bdate "
    <> (bdate
        <> (" contradicts the date encoded in inn "
            <> (inn <> (" (expected " <> (expected <> ")")))))
reason_text (broken_json error) = "broken JSON: " <> error
reason_text not_an_object = "line is not a JSON object"

-- ===== src/Enricher/Summary.antt =====
-- `EnrichSummary` and `build_alert` of app/enricher.py.
use Prim.Native.String.{◌++◌ as ◌<>◌}
use ubki_uploader.Prelude.{
  ℕ, ◌-◌, String, Bool, ◌||◌, Option, none, some, List, [], ◌∷◌, ◌++◌, ltb, join, if◌then◌else◌,
  length, take,
}
use ubki_uploader.Python.Json.{show}
use ubki_uploader.Uploader.Alert.{line_if, is_nonempty}

pub record EnrichSummary : Type 0 where
  pub dry_run : Bool
  pub files_seen : ℕ
  pub files_processed : ℕ
  pub files_skipped : ℕ
  pub files_empty : ℕ
  pub lines_total : ℕ
  pub lines_enriched : ℕ
  pub lines_quarantined : ℕ
  pub lines_issuer_from_peer : ℕ
  pub lines_doc_incomplete : ℕ
  pub quarantine_reasons : List String
  pub errors : List String

abbrev pub has_trouble : EnrichSummary → Bool
has_trouble s =
    ltb 0 s.lines_quarantined
    || ltb 0 s.files_skipped
    || ltb 0 s.files_empty
    || is_nonempty s.errors
    || ltb 0 s.lines_doc_incomplete

-- `if len(reasons) > 5: lines.append(...)`
abbrev pub more_than_five : List String → List String
more_than_five reasons =
    if ltb 5 (length reasons) then ("… та ще " <> show (length reasons - 5)) ∷ [] else []

abbrev pub quarantine_lines : EnrichSummary → List String
quarantine_lines s =
    if ltb 0 s.lines_quarantined
    then ("у карантині: " <> (show s.lines_quarantined <> " рядк."))
      ∷ (take 5 s.quarantine_reasons ++ more_than_five s.quarantine_reasons)
    else []

abbrev pub alert_lines : EnrichSummary → List String
alert_lines s =
    "UBKI enricher: проблеми при збагаченні"
    ∷ (quarantine_lines s
        ++ (line_if s.lines_doc_incomplete
              "документ без видавця/дати видачі (бюро його відкине, дані угоди дійдуть): " " рядк."
            ++ (line_if s.files_skipped "файлів у папці поза маскою FILE_GLOB: " ""
                ++ (line_if s.files_empty "порожніх raw-файлів (0 рядків даних): " ""
                    ++ (s.errors ++ ("збагачено: " <> show s.lines_enriched) ∷ [])))))

unfoldable pub build_alert : EnrichSummary → Option String
build_alert s = if has_trouble s then some (join "\n" (alert_lines s)) else none

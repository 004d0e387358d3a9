-- ===== src/Uploader/Alert.antt =====
-- `build_alert` of app/uploader.py.
use Prim.Native.String.{◌++◌ as ◌<>◌}
use ubki_uploader.Prelude.{
  ℕ, zero, suc, ◌≡◌, ◌↔◌, String, Bool, true, false, ◌||◌, Option, none, some, List, [], ◌∷◌, ◌++◌,
  ltb, join, arith, if◌then◌else◌,
}
use ubki_uploader.Python.Json.{show}
use ubki_uploader.Uploader.Summary.{RunSummary}

-- `if n: lines.append(...)`
abbrev pub line_if : ℕ → (before after : String) → List String
line_if zero before after = []
line_if (suc n) before after = (before <> (show (suc n) <> after)) ∷ []

abbrev pub is_nonempty : List String → Bool
is_nonempty [] = false
is_nonempty (s ∷ ss) = true

abbrev pub has_trouble : RunSummary → Bool
has_trouble s =
    ltb 0 s.records_failed
    || ltb 0 s.records_rejected
    || ltb 0 s.records_warnings
    || ltb 0 s.records_components_dropped
    || ltb 0 s.files_skipped
    || ltb 0 s.files_empty
    || is_nonempty s.errors

abbrev pub alert_lines : RunSummary → List String
alert_lines s =
    "UBKI uploader: проблеми за останній прохід"
    ∷ (line_if s.records_failed "failed: " " (буде ретрай)"
        ++ (line_if s.records_rejected "rejected: " " (потрібен ручний розбір)"
            ++ (line_if s.records_components_dropped
                  "прийнято, але бюро відкинуло компонент (IGNORED): " " — дані втрачені"
                ++ (line_if s.records_warnings "прийнято з зауваженнями (крім типових): " ""
                    ++ (line_if s.files_skipped "файлів у папці поза маскою FILE_GLOB: " ""
                        ++ (line_if s.files_empty "порожніх файлів (0 рядків даних): " ""
                            ++ (s.errors ++ ("sent: " <> show s.records_sent) ∷ [])))))))

unfoldable pub build_alert : RunSummary → Option String
build_alert s = if has_trouble s then some (join "\n" (alert_lines s)) else none

-- The operator gets no message exactly when nothing failed, nothing was rejected, dropped, warned
-- about, skipped or empty, and there is no error.
pub build_alert-none :
    (s : RunSummary)
    → (build_alert s ≡ none) ↔ (
        (s.records_failed ≡ 0)
        × (s.records_rejected ≡ 0)
        × (s.records_warnings ≡ 0)
        × (s.records_components_dropped ≡ 0)
        × (s.files_skipped ≡ 0)
        × (s.files_empty ≡ 0)
        × (s.errors ≡ []))
unfolding build_alert
build_alert-none s = (λ h. ground arith, λ h. ground arith)

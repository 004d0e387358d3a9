-- ===== src/Enricher/Intake/Wrapped.antt =====
-- What a line of a quarantine file is read as.
use ubki_uploader.Prelude.{◌≡◌, refl, sym, ap, Sum-cases, ◌∙◌, String, true, false, inl, inr}
use ubki_uploader.Python.Json.{Json, Fields, null, bool, int, float, str, arr, obj, get}
use ubki_uploader.Enricher.Intake.{
  Codec, Quarantined, quarantine_json, is_wrapper, unwrap_quarantine, object_of, parse_line,
}

-- What `json` promises of the objects that are written to quarantine.
abbrev pub ReadsBack : Codec → Quarantined → Type 0
ReadsBack codec q =
    codec.loads (codec.dumps (obj (quarantine_json q))) ≡ inl (obj (quarantine_json q))

is_wrapper-quarantine_json : (q : Quarantined) → is_wrapper (quarantine_json q) ≡ true
unfolding quarantine_json
is_wrapper-quarantine_json q = refl

line-quarantine_json : (q : Quarantined) → get "line" (quarantine_json q) ≡ str q.line
unfolding quarantine_json
line-quarantine_json q = refl

unwrap-quarantine_json :
    (codec : Codec) (q : Quarantined)
    → unwrap_quarantine codec (obj (quarantine_json q)) ≡ codec.loads q.line
unfolding unwrap_quarantine
unwrap-quarantine_json codec q = rw (is_wrapper-quarantine_json q, line-quarantine_json q) refl

parse_read :
    (codec : Codec) (raw : String) (v : Json)
    → codec.loads raw ≡ inl v
    → parse_line codec raw ≡ object_of (unwrap_quarantine codec v)
unfolding parse_line
parse_read codec raw v e = rw (parse_line, e) refl

-- The line that a quarantine record carries is decoded, and it is not unwrapped again.
once_unwrapped :
    (codec : Codec) (q : Quarantined)
    → ReadsBack codec q
    → parse_line codec (codec.dumps (obj (quarantine_json q))) ≡ object_of (codec.loads q.line)
once_unwrapped codec q back =
    parse_read codec (codec.dumps (obj (quarantine_json q))) (obj (quarantine_json q)) back
    ∙ (ap object_of (unwrap-quarantine_json codec q))

unwrap_plain :
    (codec : Codec) (v : Json)
    → ((fields : Fields) → v ≡ obj fields → is_wrapper fields ≡ false)
    → unwrap_quarantine codec v ≡ inl v
unfolding unwrap_quarantine
unwrap_plain codec (obj fields) plain = rw (plain fields refl) refl
unwrap_plain codec null plain = refl
unwrap_plain codec (bool b) plain = refl
unwrap_plain codec (int n) plain = refl
unwrap_plain codec (float t n z) plain = refl
unwrap_plain codec (str s) plain = refl
unwrap_plain codec (arr items) plain = refl

parse_plain :
    (codec : Codec) (raw : String)
    → ((fields : Fields) → codec.loads raw ≡ inl (obj fields) → is_wrapper fields ≡ false)
    → parse_line codec raw ≡ object_of (codec.loads raw)
unfolding parse_line
parse_plain codec raw plain = elim (Sum-cases (codec.loads raw)) [
  | inl (v, e) ↦
      parse_read codec raw v e
      ∙ ap object_of (unwrap_plain codec v (λ fields same. plain fields (e ∙ ap inl same)))
      ∙ ap object_of (sym e)
  | inr (error, e) ↦ rw (parse_line, e) refl
]

-- Where `json` reads back the record, a line that is no quarantine record itself is read the same from its quarantine record as it was
-- read the first time.
pub parse_line-quarantined :
    (codec : Codec) (q : Quarantined)
    → ReadsBack codec q
    → ((fields : Fields) → codec.loads q.line ≡ inl (obj fields) → is_wrapper fields ≡ false)
    → parse_line codec (codec.dumps (obj (quarantine_json q))) ≡ parse_line codec q.line
parse_line-quarantined codec q back plain =
    once_unwrapped codec q back ∙ sym (parse_plain codec q.line plain)

-- Where `json` reads back both records, a quarantine record that is quarantined again is read as the record that it carries, and not as
-- the line within.
pub parse_line_rewrapped :
    (codec : Codec) (inner outer : Quarantined)
    → ReadsBack codec inner
    → ReadsBack codec outer
    → outer.line ≡ codec.dumps (obj (quarantine_json inner))
    → parse_line codec (codec.dumps (obj (quarantine_json outer))) ≡ inl (quarantine_json inner)
parse_line_rewrapped codec inner outer back back' h =
    once_unwrapped codec outer back' ∙ ap (λ t. object_of (codec.loads t)) h ∙ ap object_of back

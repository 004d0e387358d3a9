-- ===== src/Enricher/Intake.antt =====
-- The reading of a raw file in app/enricher.py: `_read_numbered_lines`, `unwrap_quarantine`, and the
-- loop of `process_file` that parses the lines and collects the references of their deals.
pub mod Wrapped
use Prim.Native.Nat.{Ordering}
use Prim.Native.String.{compare}
use ubki_uploader.Prelude.{
  ℕ, suc, ◌+◌, String, Bool, true, false, ◌||◌, ◌&&◌, not, Option, none, some, List, [], ◌∷◌, ◌++◌,
  str_eq, is_blank, if◌then◌else◌, ◌⊎◌, inl, inr,
}
use ubki_uploader.Prelude.Int.{pos}
use ubki_uploader.Python.Json.{
  Json, Items, Fields, null, bool, int, float, str, arr, obj, nil, cons, end, field, get, has_key,
  truthy, to_text, Builtins,
}
use ubki_uploader.Python.Strip.{strip}
use ubki_uploader.Enricher.Line.{Reason, broken_json, not_an_object}
use ubki_uploader.Enricher.Line.Wording.{reason_text}

-- `json.loads`, with the text of its ValueError, and `json.dumps` of the two forms that are written.
pub record Codec : Type 0 where
  pub loads : String → Json ⊎ String
  pub dumps : Json → String
  pub dumps_compact : Json → String

-- `[(n, line) for n, line in enumerate(lines, start=n) if line.strip()]`
unfoldable pub numbered_lines : List String → (n : ℕ) → List (ℕ × String)
numbered_lines [] n = []
numbered_lines (line ∷ lines) n =
    let rest = numbered_lines lines (suc n) in
    if is_blank (strip line) then rest else (n, line) ∷ rest

pub record Quarantined : Type 0 where
  pub line_no : ℕ
  pub reason : Reason
  pub line : String

-- {"line_no": ..., "reason": ..., "line": ...}
unfoldable pub quarantine_json : Quarantined → Fields
quarantine_json q =
    field "line_no" (int (pos q.line_no))
      (field "reason" (str (reason_text q.reason)) (field "line" (str q.line) end))

-- Every key is one of _QUARANTINE_KEYS.
abbrev pub has_only_keys : Fields → Bool
has_only_keys end = true
has_only_keys (field k v fields) =
    (str_eq k "line_no" || str_eq k "reason" || str_eq k "line") && has_only_keys fields

-- `set(obj.keys()) == _QUARANTINE_KEYS`
abbrev pub is_wrapper : Fields → Bool
is_wrapper fields =
    has_key "line_no" fields
    && has_key "reason" fields
    && has_key "line" fields
    && has_only_keys fields

abbrev pub inner_of : Codec → Json → Json ⊎ String
inner_of codec (str line) = codec.loads line
inner_of codec inner = inl inner

unfoldable pub unwrap_quarantine : Codec → Json → Json ⊎ String
unwrap_quarantine codec (obj fields) =
    if is_wrapper fields then inner_of codec (get "line" fields) else inl (obj fields)
unwrap_quarantine codec v = inl v

-- The object of a line, or the reason why there is none.
abbrev pub object_of : Json ⊎ String → Fields ⊎ Reason
object_of (inr error) = inr (broken_json error)
object_of (inl (obj fields)) = inl fields
object_of (inl _) = inr not_an_object

unfoldable pub parse_line : Codec → (raw : String) → Fields ⊎ Reason
parse_line codec raw = elim (codec.loads raw) [
  | inl v ↦ object_of (unwrap_quarantine codec v)
  | inr error ↦ inr (broken_json error)
]

pub record Parsed : Type 0 where
  pub line_no : ℕ
  pub raw : String
  pub content : Fields ⊎ Reason

unfoldable pub parse_lines : Codec → List (ℕ × String) → List Parsed
parse_lines codec [] = []
parse_lines codec ((n, raw) ∷ lines) =
    record { line_no = n; raw = raw; content = parse_line codec raw } ∷ parse_lines codec lines

-- Insertion into a sorted list without repetitions: `sorted` of a set of texts.
abbrev pub insert_text : String → List String → List String
insert_text s [] = s ∷ []
insert_text s (t ∷ ts) = elim (compare s t) [
  | Ordering.lt ↦ s ∷ t ∷ ts
  | Ordering.eq ↦ t ∷ ts
  | Ordering.gt ↦ t ∷ insert_text s ts
]

-- `dlrefs.add(str(deal["dlref"]))`, of a deal that is a dict with a reference
abbrev pub add_ref : Builtins → Json → List String → List String
add_ref py (obj deal) refs =
    let v = get "dlref" deal in if truthy v then insert_text (to_text py v) refs else refs
add_ref py _ refs = refs

abbrev pub add_refs : Builtins → Items → List String → List String
add_refs py nil refs = refs
add_refs py (cons deal deals) refs = add_refs py deals (add_ref py deal refs)

-- The loop over `obj.get("deals") or []`. The characters of a text and the keys of a dict are no
-- dicts; a number or True has no iterator, which is a TypeError.
unfoldable pub refs_of : Builtins → Json → List String → Option (List String)
refs_of py (arr deals) refs = some (add_refs py deals refs)
refs_of py (str s) refs = some refs
refs_of py (obj fields) refs = some refs
refs_of py v refs = if truthy v then none else some refs

-- `dlrefs`, with none for the TypeError
unfoldable pub dlrefs : Builtins → List Parsed → List String → Option (List String)
dlrefs py [] refs = some refs
dlrefs py (p ∷ parsed) refs = elim p.content [
  | inr reason ↦ dlrefs py parsed refs
  | inl line ↦ elim (refs_of py (get "deals" line) refs) [
    | none ↦ none
    | some more ↦ dlrefs py parsed more
  ]
]

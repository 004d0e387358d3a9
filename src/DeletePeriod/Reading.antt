-- ===== src/DeletePeriod/Reading.antt =====
-- `package_dlrefs` and `summarize_response` of delete_period.py.
use ubki_uploader.Prelude.{String, Option, none, some, List, [], ◌∷◌, take_chars, if◌then◌else◌}
use ubki_uploader.Python.Json.{
  Json, Items, Fields, str, arr, obj, nil, cons, end, field, get, truthy, to_text, Builtins,
}

-- `[str(d.get("dlref")) for d in deals]`, with none for the AttributeError of an item
abbrev pub refs_in : Builtins → Items → Option (List String)
refs_in py nil = some []
refs_in py (cons (obj deal) deals) = elim (refs_in py deals) [
  | none ↦ none
  | some refs ↦ some (to_text py (get "dlref" deal) ∷ refs)
]
refs_in py (cons _ deals) = none

abbrev pub or_none_left : Option (List String) → List String
or_none_left none = []
or_none_left (some refs) = refs

-- What the list comprehension makes of `deals or []`: a text and a dict have items without `get`;
-- none is the TypeError of a number or True, which the function does not catch.
abbrev pub refs_of_deals : Builtins → Json → Option (List String)
refs_of_deals py (arr deals) = some (or_none_left (refs_in py deals))
refs_of_deals py (str s) = some []
refs_of_deals py (obj deals) = some []
refs_of_deals py v = if truthy v then none else some []

-- `loaded` is `json.loads(line)`, with none for its ValueError.
unfoldable pub package_dlrefs : Builtins → (loaded : Option Json) → Option (List String)
package_dlrefs py none = some []
package_dlrefs py (some (obj fields)) = refs_of_deals py (get "deals" fields)
package_dlrefs py (some _) = some []

-- `{"raw": (text or "")[:500]}`
abbrev pub raw_summary : (text : String) → Fields
raw_summary text = field "raw" (str (take_chars 500 text)) end

abbrev pub pick : List String → Fields → Fields
pick [] fields = end
pick (key ∷ keys) fields = field key (get key fields) (pick keys fields)

abbrev pub item_keys : List String
item_keys = "errtype" ∷ "errcode" ∷ "tag" ∷ "msg" ∷ []

abbrev pub counter_keys : List String
counter_keys = "ok" ∷ "nt" ∷ "ig" ∷ "er" ∷ "sy" ∷ []

abbrev pub picked_items : Items → Items
picked_items nil = nil
picked_items (cons (obj item) items) = cons (obj (pick item_keys item)) (picked_items items)
picked_items (cons _ items) = picked_items items

-- `[... for i in info.get("items") or [] if isinstance(i, dict)]`, with none for a TypeError
abbrev pub items_of : Json → Option Items
items_of (arr items) = some (picked_items items)
items_of (str s) = some nil
items_of (obj fields) = some nil
items_of v = if truthy v then none else some nil

abbrev pub fields_of : Json → Fields
fields_of (obj fields) = fields
fields_of _ = end

unfoldable pub summarize_info : (body info : Fields) → Option Fields
summarize_info body info = elim (items_of (get "items" info)) [
  | none ↦ none
  | some items ↦ some (
      field "state" (get "state" info) (
        field "main_errcode" (get "main_errcode" info) (
          field "counters" (obj (pick counter_keys info)) (
            field "reqid" (get "reqid" (fields_of (get "reqinfo" body)))
              (field "items" (arr items) end)))))
]

abbrev pub info_of : Json → Option (Fields × Fields)
info_of (obj body) = elim (get "sentdatainfo" body) [ obj info ↦ some (body, info) | _ ↦ none ]
info_of _ = none

-- `text` is that of the response, or empty, and `loaded` is `json.loads(text)`.
unfoldable pub summarize_response : (text : String) (loaded : Option Json) → Option Fields
summarize_response text none = some (raw_summary text)
summarize_response text (some v) = elim (info_of v) [
  | none ↦ some (raw_summary text)
  | some (body, info) ↦ summarize_info body info
]

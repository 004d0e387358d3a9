-- ===== src/Client/Body.antt =====
-- The helpers of app/ubki_client.py that read the body of a response.
use Prim.Native.String.{compare, ◌++◌ as ◌<>◌}
use Prim.Native.Nat.{Ordering}
use Prim.Native.Char.{code}
use ubki_uploader.Prelude.{
  ℕ, zero, suc, String, Bool, true, false, ◌||◌, ◌&&◌, not, Option, none, some, List, [], ◌∷◌, ◌++◌,
  str_eq, is_blank, take_chars, join, if◌then◌else◌,
}
use ubki_uploader.Prelude.Int.{ℤ, pos}
use ubki_uploader.Python.Json.{
  Json, Items, Fields, null, bool, int, float, str, arr, obj, nil, cons, end, field, is_null,
  truthy, ◌or_else◌, get, has_key, Builtins, to_text, to_int,
}
use ubki_uploader.Python.Strip.{strip}

-- `_find_key`, with `null` for None: a key whose value is None ends the search of its dict.
unfoldable mutual
  pub find_key : String → Json → Json
  find_key key (obj fs) =
      let below = find_fields key fs in if has_key key fs then get key fs else below
  find_key key (arr xs) = find_items key xs
  find_key key null = null
  find_key key (bool b) = null
  find_key key (int n) = null
  find_key key (float t n b) = null
  find_key key (str s) = null

  pub find_items : String → Items → Json
  find_items key nil = null
  find_items key (cons x xs) =
      let found = find_key key x in
      let rest = find_items key xs in if is_null found then rest else found

  pub find_fields : String → Fields → Json
  find_fields key end = null
  find_fields key (field k v fs) =
      let found = find_key key v in
      let rest = find_fields key fs in if is_null found then rest else found

-- `_sentdatainfo`
abbrev info_or : Json → Fields → Fields
info_or (obj info) body = info
info_or _ body = body

unfoldable pub sentdatainfo : Json → Fields
sentdatainfo (obj body) = info_or (get "sentdatainfo" body) body
sentdatainfo _ = end

-- `_counter`
abbrev or_zero : Option ℤ → ℤ
or_zero none = pos 0
or_zero (some n) = n

unfoldable pub counter : Builtins → Fields → String → ℤ
counter py info key = or_zero (to_int py (get key info or_else int (pos 0)))

-- WARN_PREFIX
abbrev pub warn_prefix : String → Option String
warn_prefix errtype =
    if str_eq errtype "IGNORED"
    then some "IG"
    else if str_eq errtype "NOTICE"
    then some "NT"
    else none

-- A set of texts that `sorted` lists: in order, and each once.
abbrev pub insert_text : String → List String → List String
insert_text s [] = s ∷ []
insert_text s (t ∷ ts) = elim (compare s t) [
  | Ordering.lt ↦ s ∷ t ∷ ts
  | Ordering.eq ↦ t ∷ ts
  | Ordering.gt ↦ t ∷ insert_text s ts
]

-- What one element of `items` adds: its prefix and its code.
unfoldable pub warning_of : Builtins → Json → Option (String × String)
unfolding to_text strip
warning_of py (obj item) =
    let code = strip (to_text py (get "errcode" item or_else str "")) in
    elim (warn_prefix (py.upper (to_text py (get "errtype" item or_else str "")))) [
      | none ↦ none
      | some prefix ↦ if is_blank code then none else some (prefix, code)
    ]
warning_of py _ = none

abbrev pub add_warning : Option (String × String) → List String × Bool → List String × Bool
add_warning none found = found
add_warning (some (prefix, code)) (codes, dropped) =
    (insert_text (prefix <> (":" <> code)) codes, dropped || str_eq prefix "IG")

collect_warnings : Builtins → Items → List String × Bool → List String × Bool
unfolding warning_of
collect_warnings py nil found = found
collect_warnings py (cons item items) found =
    collect_warnings py items (add_warning (warning_of py item) found)

-- `_warning_codes`
unfoldable pub warning_codes : Builtins → Fields → List String × Bool
unfolding collect_warnings
warning_codes py info = elim (get "items" info) [
  | arr items ↦ collect_warnings py items ([], false)
  | _ ↦ ([], false)
]

-- `main not in (None, "", 0, "0")`; False and 0.0 are equal to 0
abbrev is_no_code : Json → Bool
is_no_code null = true
is_no_code (bool b) = not b
is_no_code (int (pos zero)) = true
is_no_code (float _ _ nonzero) = not nonzero
is_no_code (str s) = is_blank s || str_eq s "0"
is_no_code _ = false

abbrev text_unless_null : Builtins → Json → List String
text_unless_null py null = []
text_unless_null py v = to_text py v ∷ []

-- What one of the first items adds to the detail.
item_detail : Builtins → Json → List String
unfolding to_text
item_detail py (obj item) =
    let code =
      join " "
        (text_unless_null py (get "errtype" item) ++ text_unless_null py (get "errcode" item)) in
    let msg = get "msg" item in
    if not (is_blank code) && truthy msg
    then ("[" <> (code <> ("] " <> to_text py msg))) ∷ []
    else if truthy msg
    then to_text py msg ∷ []
    else if not (is_blank code)
    then code ∷ []
    else []
item_detail py _ = []

-- `items[:3]`
first_details : ℕ → Builtins → Items → List String
unfolding item_detail
first_details zero py items = []
first_details (suc n) py nil = []
first_details (suc n) py (cons item items) = item_detail py item ++ first_details n py items

-- `_rejection_detail`
unfoldable pub rejection_detail : Builtins → Fields → String
unfolding first_details
rejection_detail py info =
    let main = get "main_errcode" info in
    let head : List String =
      if is_no_code main then [] else ("main_errcode=" <> to_text py main) ∷ [] in
    let tail : List String = elim (get "items" info) [
      | arr items ↦ first_details 3 py items
      | _ ↦ []
    ] in
    take_chars 500 (join "; " (head ++ tail))

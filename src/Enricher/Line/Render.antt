-- ===== src/Enricher/Line/Render.antt =====
-- The objects that `_doc_fields` and `enrich_line` of app/enricher.py make of their data.
use ubki_uploader.Prelude.{
  String, false, Option, none, some, ◌≡◌, refl, arith, Bool-cases, inl, inr, eq_iff, if◌then◌else◌,
  str_eq,
}
use ubki_uploader.Python.Json.{
  Json, Items, Fields, null, str, arr, obj, nil, cons, end, field, get, has_key, show,
}
use ubki_uploader.Python.Date.{Date, isoformat}
use ubki_uploader.Enricher.Document.{Doc, field_unless_blank, build_addr}
use ubki_uploader.Enricher.Line.{Subject}

-- `if value: d[key] = value`, with the date as its text
abbrev pub date_field : String → Option Date → Fields → Fields
date_field key none rest = rest
date_field key (some d) rest = field key (str (isoformat d)) rest

unfoldable pub doc_json : Doc → Fields
doc_json doc = field "vdate" (str (isoformat doc.vdate)) (
    field "lng" (str "1") (
      field "dtype" (str doc.number.dtype) (
        field "dser" (str doc.number.dser) (
          field "dnom" (str doc.number.dnom) (
            field_unless_blank "dwho" doc.dwho
              (date_field "dwdt" doc.dwdt (date_field "dterm" doc.dterm end)))))))

-- `deal.setdefault(key, value)`
unfoldable pub set_default : (key : String) → Json → Fields → Fields
set_default key v end = field key v end
set_default key v (field k w rest) =
    let others = set_default key v rest in field k w (if str_eq k key then rest else others)

unfoldable pub out_deal : (vidobes : String) → Json → Json
out_deal vidobes (obj deal) = obj (set_default "dlvidobes" (str vidobes) deal)
out_deal vidobes v = v

unfoldable pub out_deals : (vidobes : String) → Items → Items
out_deals vidobes nil = nil
out_deals vidobes (cons deal deals) = cons (out_deal vidobes deal) (out_deals vidobes deals)

abbrev pub sex_field : Option String → Fields
sex_field none = end
sex_field (some sex) = field "csex" (str sex) end

unfoldable pub ident_json : Subject → Fields
ident_json s = field "vdate" (str (isoformat s.vdate)) (
    field "lng" (str "1") (
      field "inn" (str s.inn) (
        field "lname" (str s.names.lname) (
          field "fname" (str s.names.fname) (
            field_unless_blank "mname" s.names.mname (
              field "bdate" (str s.names.bdate) (field "cgrag" (str "804") (sex_field s.csex))))))))

abbrev pub one : Fields → Json
one fields = arr (cons (obj fields) nil)

abbrev pub contact_json : Subject → Fields
contact_json s =
    field "vdate" (str (isoformat s.vdate))
      (field "ctype" (str "3") (field "cval" (str s.phone) end))

-- The value that is returned, for the `deal_vidobes` of the settings.
unfoldable pub subject_json : (vidobes : String) → Subject → Json
subject_json vidobes s = obj (
    field "reqlng" (str s.reqlng) (
      field "inn" (str s.inn) (
        field "person_id" (str (show s.newest.user_id)) (
          field "is_gone" (str "0") (
            field "lname" (str s.names.lname) (
              field "fname" (str s.names.fname) (
                field_unless_blank "mname" s.names.mname (
                  field "bdate" (str s.names.bdate) (
                    field "idents" (one (ident_json s)) (
                      field "docs" (one (doc_json s.document.doc)) (
                        field "addrs" (one (build_addr s.newest s.vdate)) (
                          field "deals" (arr (out_deals vidobes s.deals))
                            (field "contacts" (one (contact_json s)) end)))))))))))))

get-absent : (k : String) (fs : Fields) → has_key k fs ≡ false → get k fs ≡ null
get-absent k end h = refl
get-absent k (field l v rest) h = elim (Bool-cases (str_eq l k)) [
  | inl e ↦ absurd (ground arith)
  | inr e ↦ ground (arith, get-absent k rest (ground arith))
]

-- In a deal that is sent every key has the value that it has in the producer's line, and
-- `dlvidobes`, where the line has none, that of the settings.
pub get-set_default :
    (key k : String) (v : Json) (deal : Fields)
    → get k (set_default key v deal)
      ≡ (if has_key k deal then get k deal else if str_eq key k then v else null)
unfolding set_default
get-set_default key k v end = ground arith
get-set_default key k v (field l w rest) = elim (Bool-cases (str_eq l key)) [
  | inl e ↦ elim (Bool-cases (has_key k rest)) [
    | inl f ↦ ground (arith, (eq_iff l key).0 e)
    | inr f ↦ ground (arith, (eq_iff l key).0 e, get-absent k rest f)
  ]
  | inr e ↦ ground (arith, get-set_default key k v rest)
]

-- ===== src/Tests/Enrichment.antt =====
-- A line that becomes a subject.
use ubki_uploader.Prelude.{◌≡◌, refl, true, false, none, some, [], ◌∷◌, ◌⊎◌, keep_chars, not}
use ubki_uploader.Python.Json.{obj, cons, nil, to_text}
use ubki_uploader.Python.Strip.{strip, is_space}
use ubki_uploader.Python.Date.{
  plus_days, find_month, find_year, days_before_month, days_in_month, days_in_year,
  days_before_year, day_number, digits_value, isoformat, four_digits, two_digits, from_isoformat,
  is_leap, plus_years,
}
use ubki_uploader.Enricher.Cabinet.{text, cell_text, iso_date, sort_key}
use ubki_uploader.Enricher.Values.{
  normalize_number, normalize_text, parse_doc_number, normalize_phone, inn_birthday, inn_sex,
}
use ubki_uploader.Enricher.Values.Phone.{all_chars-keep_chars, keep_chars_all}
use ubki_uploader.Enricher.Values.Number.{IsReading, parse_doc_number-IsReading}
use ubki_uploader.Enricher.Document.{
  Doc, built, lacks_issuer, needs_issuer, clients_missing_issuer, build_doc, choose, attempt,
  find_peer_document, doc_fields, doc_term, newest_of,
}
use ubki_uploader.Enricher.Document.Sources.{FromSource, build_doc-FromSource}
use ubki_uploader.Enricher.Document.Peers.{IsNormal, build_doc-peers}
use ubki_uploader.Enricher.Line.{
  value, Subject, enrich_line, ◌and_then◌, require, the, text_at, deal_row, deal_rows, user_ids,
  one_client, newest_row, same_inn, document_of, phone_of, same_birthday, sex_from, subject_of,
}
use ubki_uploader.Enricher.Line.Verified.{IsVerified, enrich_line-IsVerified}
use ubki_uploader.Tests.Samples.{builtins}
use ubki_uploader.Tests.Cabinet.{applied, unsigned, signed, client, peers, rows, deal, line}

phone_given : normalize_phone builtins (text "067 123 45 67") ≡ some "+380671234567"
unfolding normalize_phone keep_chars cell_text
phone_given = refl

number_read :
    parse_doc_number builtins "AB 123456"
    ≡ some (record { dtype = "1"; dser = "AB"; dnom = "123456" })
unfolding parse_doc_number normalize_text keep_chars
number_read = refl

parse_doc_number-IsReading_example :
    IsReading builtins
      (normalize_text builtins "AB 123456")
      (record { dtype = "1"; dser = "AB"; dnom = "123456" })
parse_doc_number-IsReading_example =
    parse_doc_number-IsReading builtins "AB 123456"
      (record { dtype = "1"; dser = "AB"; dnom = "123456" }) number_read

abbrev completed : Doc
completed = record {
  vdate = applied;
  number = record { dtype = "1"; dser = "AB"; dnom = "123456" };
  dwho = "Office 1";
  dwdt = some (record { year = 2001; month = 2; day = 3 });
  dterm = none;
}

abbrev subject : Subject
subject = record {
  inn = "3000000000";
  newest = client;
  vdate = applied;
  document = record { doc = completed; issuer_from_peer = true; doc_incomplete = false };
  phone = "+380671234567";
  names = record { lname = "A"; fname = "B"; mname = ""; bdate = "1982-02-19" };
  csex = some "2";
  deals = cons (obj deal) nil;
  reqlng = "1";
}

doc_built : build_doc builtins client applied peers ≡ built completed true false
unfolding build_doc choose attempt find_peer_document doc_fields doc_term newest_of normalize_number
    normalize_text parse_doc_number cell_text iso_date sort_key strip keep_chars
doc_built = refl

build_doc-FromSource_example :
    FromSource builtins applied peers unsigned completed
    ⊎ FromSource builtins applied peers client.user completed
build_doc-FromSource_example =
    build_doc-FromSource builtins client applied peers completed true false doc_built

line_enriched : enrich_line builtins line rows ((7, peers) ∷ []) ≡ value subject
unfolding enrich_line ◌and_then◌ require the text_at deal_row deal_rows user_ids one_client
    newest_row same_inn document_of phone_of same_birthday sex_from subject_of build_doc choose
    attempt find_peer_document doc_fields doc_term newest_of normalize_number normalize_text
    parse_doc_number normalize_phone inn_birthday inn_sex cell_text iso_date sort_key plus_days
    find_month find_year days_before_month days_in_month days_in_year days_before_year day_number
    digits_value isoformat four_digits two_digits from_isoformat is_leap plus_years strip keep_chars
    to_text
line_enriched = refl

enrich_line-IsVerified_example : IsVerified builtins line rows ((7, peers) ∷ []) subject
enrich_line-IsVerified_example =
    enrich_line-IsVerified builtins line rows ((7, peers) ∷ []) subject refl refl line_enriched

builtins-IsNormal : IsNormal builtins
unfolding normalize_text
builtins-IsNormal = record {
  again = λ s.
      keep_chars_all (λ c. not (is_space c)) (keep_chars (λ c. not (is_space c)) s)
        (all_chars-keep_chars (λ c. not (is_space c)) s);
}

snap_signed : lacks_issuer builtins signed ≡ false
unfolding parse_doc_number normalize_text keep_chars cell_text strip
snap_signed = refl

user_blank : lacks_issuer builtins client.user ≡ false
unfolding parse_doc_number normalize_text keep_chars cell_text strip
user_blank = refl

build_doc-peers_example :
    build_doc builtins (record client { snap = signed }) applied peers
    ≡ build_doc builtins (record client { snap = signed }) applied []
build_doc-peers_example =
    build_doc-peers builtins (record client { snap = signed }) applied peers [] builtins-IsNormal
      snap_signed user_blank

one_client_missing : clients_missing_issuer builtins (("a0", client) ∷ rows) ≡ 7 ∷ []
unfolding clients_missing_issuer needs_issuer parse_doc_number normalize_text keep_chars cell_text
    strip
one_client_missing = refl

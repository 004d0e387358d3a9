-- ===== src/Tests/RawFiles.antt =====
-- Raw files, what quarantine makes of their lines, and a second run.
use ubki_uploader.Prelude.{
  true, some, none, ◌≡◌, ◌+◌, refl, subst, false, keep_chars, List, [], ◌∷◌, inl, arith,
}
use ubki_uploader.Python.Json.{obj, Fields, to_text}
use ubki_uploader.Enricher.Line.Wording.{reason_text}
use ubki_uploader.Db.Meta.{get_enriched_by_identity, insert_enriched_file}
use ubki_uploader.Python.Strip.{strip}
use ubki_uploader.Python.Date.{
  plus_days, find_month, find_year, days_before_month, days_in_month, days_in_year,
  days_before_year, day_number, digits_value, isoformat, four_digits, two_digits, from_isoformat,
  is_leap, plus_years,
}
use ubki_uploader.Enricher.Cabinet.{cell_text, iso_date, sort_key}
use ubki_uploader.Enricher.Values.{
  normalize_number, normalize_text, parse_doc_number, normalize_phone, inn_birthday, inn_sex,
}
use ubki_uploader.Enricher.Document.{
  clients_missing_issuer, needs_issuer, build_doc, choose, attempt, find_peer_document, doc_fields,
  doc_term, newest_of,
}
use ubki_uploader.Enricher.Line.{
  enrich_line, ◌and_then◌, require, the, text_at, deal_row, deal_rows, user_ids, one_client,
  newest_row, same_inn, document_of, phone_of, same_birthday, sex_from, subject_of,
}
use ubki_uploader.Enricher.Intake.{
  numbered_lines, parse_lines, unwrap_quarantine, dlrefs, refs_of, is_wrapper, quarantine_json,
  parse_line,
}
use ubki_uploader.Enricher.Intake.Wrapped.{ReadsBack, parse_line-quarantined, parse_line_rewrapped}
use ubki_uploader.Enricher.Shelf.{Stored, write_enriched}
use ubki_uploader.Enricher.Shelf.Again.{write_enriched_again}
use ubki_uploader.Enricher.Run.Silent.{IsClean, run_enrich-IsClean}
use ubki_uploader.Enricher.Summary.{build_alert}
use ubki_uploader.Enricher.Process.{
  RawFile, Stage, done, process_lines, after_call, finish, enrich_lines, count_document,
  process_file,
}
use ubki_uploader.Enricher.Run.{
  start_run, run_enrich, process_one, process_files, finished, recorded,
}
use ubki_uploader.Enricher.Process.Conserves.{process_file_conserves}
use ubki_uploader.Enricher.Process.Twice.{process_file_twice}
use ubki_uploader.Tests.Samples.{builtins}
use ubki_uploader.Tests.Cabinet.{line, inner, outer, codec, outside, raw_file, stage}

abbrev waiting : List Stored
waiting = record { name = "day.txt"; content = "other" } ∷ []

write_enriched_again_example :
    write_enriched
      (write_enriched waiting "day.txt" "0123456789" "new")
      "day.txt"
      "0123456789"
      "new"
    ≡ write_enriched waiting "day.txt" "0123456789" "new"
write_enriched_again_example = write_enriched_again waiting "day.txt" "0123456789" "new"

inner-ReadsBack : ReadsBack codec inner
unfolding quarantine_json reason_text
inner-ReadsBack = refl

outer-ReadsBack : ReadsBack codec outer
unfolding quarantine_json reason_text
outer-ReadsBack = refl

inner_written : "q1" ≡ codec.dumps (obj (quarantine_json inner))
unfolding quarantine_json
inner_written = refl

line_plain : (fields : Fields) → codec.loads "plain" ≡ inl (obj fields) → is_wrapper fields ≡ false
line_plain fields e = let same : line ≡ fields = cc in subst (λ f. is_wrapper f ≡ false) same refl

parse_line_rewrapped_example :
    parse_line codec (codec.dumps (obj (quarantine_json outer))) ≡ inl (quarantine_json inner)
parse_line_rewrapped_example =
    parse_line_rewrapped codec inner outer inner-ReadsBack outer-ReadsBack inner_written

parse_line-quarantined_example :
    parse_line codec (codec.dumps (obj (quarantine_json inner))) ≡ parse_line codec "plain"
parse_line-quarantined_example = parse_line-quarantined codec inner inner-ReadsBack line_plain

abbrev after : Stage
after =
    recorded (λ failure. "") raw_file (process_file builtins outside "1" "t1" false raw_file stage)

-- The file is processed.
file_done : process_file builtins outside "1" "t1" false raw_file stage ≡ done after
unfolding process_file process_lines after_call finish enrich_lines count_document numbered_lines
    parse_lines parse_line unwrap_quarantine dlrefs refs_of clients_missing_issuer needs_issuer
    get_enriched_by_identity insert_enriched_file enrich_line ◌and_then◌ require the text_at
    deal_row deal_rows user_ids one_client newest_row same_inn document_of phone_of same_birthday
    sex_from subject_of build_doc choose attempt find_peer_document doc_fields doc_term newest_of
    normalize_number normalize_text parse_doc_number normalize_phone inn_birthday inn_sex cell_text
    iso_date sort_key plus_days find_month find_year days_before_month days_in_month days_in_year
    days_before_year day_number digits_value isoformat four_digits two_digits from_isoformat is_leap
    plus_years strip keep_chars to_text
file_done = refl

process_file_conserves_example :
    after.summary.lines_total + 0 + 0
    ≡ 0 + after.summary.lines_enriched + after.summary.lines_quarantined
process_file_conserves_example =
    process_file_conserves builtins outside "1" "t1" raw_file stage after (omega arith) file_done

process_file_twice_example :
    process_file builtins outside "1" "t2" false raw_file after ≡ done after
process_file_twice_example =
    process_file_twice builtins outside "1" "t1" "t2" false raw_file stage after file_done

after_counts :
    (after.summary.lines_total ≡ 2)
    × (after.summary.lines_enriched ≡ 1)
    × (after.summary.lines_quarantined ≡ 1)
unfolding process_file process_lines after_call finish enrich_lines count_document numbered_lines
    parse_lines parse_line unwrap_quarantine dlrefs refs_of clients_missing_issuer needs_issuer
    get_enriched_by_identity insert_enriched_file enrich_line ◌and_then◌ require the text_at
    deal_row deal_rows user_ids one_client newest_row same_inn document_of phone_of same_birthday
    sex_from subject_of build_doc choose attempt find_peer_document doc_fields doc_term newest_of
    normalize_number normalize_text parse_doc_number normalize_phone inn_birthday inn_sex cell_text
    iso_date sort_key plus_days find_month find_year days_before_month days_in_month days_in_year
    days_before_year day_number digits_value isoformat four_digits two_digits from_isoformat is_leap
    plus_years strip keep_chars to_text
after_counts = (refl, refl, refl)

abbrev clean_file : RawFile
clean_file = record raw_file { lines = some ("plain" ∷ []) }

abbrev after_run : Stage
after_run =
    process_files builtins outside "1" "t1" false (λ failure. "") (clean_file ∷ [])
      (start_run 1 0 stage)

run_silent :
    run_enrich builtins outside "1" "t1" false
      (λ failure. "")
      "raw"
      true
      (some (clean_file ∷ [], 0))
      stage
    ≡ finished after_run none
unfolding process_file process_lines after_call finish enrich_lines count_document numbered_lines
    parse_lines parse_line unwrap_quarantine dlrefs refs_of clients_missing_issuer needs_issuer
    get_enriched_by_identity insert_enriched_file enrich_line ◌and_then◌ require the text_at
    deal_row deal_rows user_ids one_client newest_row same_inn document_of phone_of same_birthday
    sex_from subject_of build_doc choose attempt find_peer_document doc_fields doc_term newest_of
    normalize_number normalize_text parse_doc_number normalize_phone inn_birthday inn_sex cell_text
    iso_date sort_key plus_days find_month find_year days_before_month days_in_month days_in_year
    days_before_year day_number digits_value isoformat four_digits two_digits from_isoformat is_leap
    plus_years strip keep_chars to_text run_enrich process_files process_one build_alert
run_silent = refl

run_enrich-IsClean_example : IsClean after_run.summary
run_enrich-IsClean_example =
    run_enrich-IsClean builtins outside "1" "t1" (λ failure. "") "raw" true
      (some (clean_file ∷ [], 0)) stage after_run refl (omega arith) run_silent

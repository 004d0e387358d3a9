-- ===== src/Enricher/Process/Twice.antt =====
-- A raw file that was processed is not processed again.
use ubki_uploader.Prelude.{
  ℕ, ◌≡◌, refl, sym, subst, inl, inr, String, Bool, true, false, Option, none, some, List, [], ◌∷◌,
  ◌++◌, any, length, select_one, eq_iff, arith, Bool-cases, Option-cases,
}
use ubki_uploader.Python.Json.{Builtins}
use ubki_uploader.Db.Schema.{EnrichedRow, Db}
use ubki_uploader.Db.Meta.{is_enriched_as, get_enriched_by_identity, insert_enriched_file}
use ubki_uploader.Enricher.Intake.{Codec, numbered_lines, parse_lines}
use ubki_uploader.Enricher.Summary.{EnrichSummary}
use ubki_uploader.Enricher.Process.{
  RawFile, Outside, Failure, not_iterable, fetch_failed, issuers_failed, Stage, Step, done, failed,
  Work, enrich_lines, count_file, finish, after_call, finish_lines, process_lines, process_file,
}

-- The row of the file is there.
abbrev pub IsKnown : RawFile → Db → Type 0
IsKnown file db =
    (row : EnrichedRow) × (get_enriched_by_identity db file.name file.sha256 ≡ some row)

abbrev pub MakesKnown : RawFile → Step → Type 0
MakesKnown file (done s) = IsKnown file s.db
MakesKnown file (failed failure s) = Unit

select_one_last :
    (p : EnrichedRow → Bool) (rows : List EnrichedRow) (row : EnrichedRow)
    → p row ≡ true
    → (found : EnrichedRow) × (select_one p (rows ++ row ∷ []) ≡ some found)
select_one_last p [] row h = (row, ground arith)
select_one_last p (r ∷ rows) row h = elim (Bool-cases (p r)) [
  | inl e ↦ (r, ground arith)
  | inr e ↦ let (found, e') = select_one_last p rows row h in (found, ground arith)
]

insert-IsKnown :
    (now : String) (db after : Db) (file : RawFile) (total good bad : ℕ)
    → insert_enriched_file now db file.name file.sha256 total good bad ≡ some after
    → IsKnown file after
unfolding insert_enriched_file get_enriched_by_identity
insert-IsKnown now db after file total good bad h =
    elim (Bool-cases (any (is_enriched_as file.name file.sha256) db.enriched_files)) [
      | inl e ↦ absurd (ground arith)
      | inr e ↦
          let row : EnrichedRow = record {
            filename = file.name;
            sha256 = file.sha256;
            lines_total = total;
            lines_enriched = good;
            lines_quarantined = bad;
            created_at = now;
          } in
          let grown : after.enriched_files ≡ db.enriched_files ++ row ∷ [] = ground arith in
          subst
            (λ (rows : List EnrichedRow).
              (found : EnrichedRow) × (select_one (is_enriched_as file.name file.sha256) rows
                ≡ some found))
            (sym grown)
            (select_one_last (is_enriched_as file.name file.sha256) db.enriched_files row
              (ground (arith, eq_iff file.name file.name, eq_iff file.sha256 file.sha256)))
    ]

finish-MakesKnown :
    (now : String) (codec : Codec) (file : RawFile) (n : ℕ) (work : Work) (s : Stage)
    → MakesKnown file (finish now codec file n work s)
unfolding finish
finish-MakesKnown now codec file n work s =
    elim (Option-cases (
      insert_enriched_file now s.db file.name file.sha256 n (length work.enriched)
        (length work.bad))) [
          | inl e ↦ rw (finish, e) tt
          | inr (db, e) ↦
              rw (finish, e)
                (insert-IsKnown now s.db db file n (length work.enriched) (length work.bad) e)
        ]

finish_lines-MakesKnown :
    (now : String) (codec : Codec) (file : RawFile) (n : ℕ) (s : Stage)
    (r : EnrichSummary × Option Work)
    → MakesKnown file (finish_lines now codec file n s r)
finish_lines-MakesKnown now codec file n s (summary, none) = tt
finish_lines-MakesKnown now codec file n s (summary, some work) =
    finish-MakesKnown now codec file n work (record s { summary = summary })

after_call-MakesKnown {ℓ} :
    {A : Type ℓ} (file : RawFile) (o : Option A) (failure : Failure) (s : Stage) (next : A → Step)
    → ((a : A) → MakesKnown file (next a))
    → MakesKnown file (after_call o failure s next)
unfolding after_call
after_call-MakesKnown file none failure s next k = tt
after_call-MakesKnown file (some a) failure s next k = k a

process_file-MakesKnown :
    (py : Builtins) (out : Outside) (vidobes now : String) (file : RawFile) (s : Stage)
    → MakesKnown file (process_file py out vidobes now false file s)
unfolding process_file process_lines
process_file-MakesKnown py out vidobes now file s =
    elim (Option-cases (get_enriched_by_identity s.db file.name file.sha256)) [
      | inr (row, e) ↦ rw (process_file, e) (row, e)
      | inl e ↦ elim (Option-cases file.lines) [
        | inl f ↦ rw (process_file, e, f) tt
        | inr (lines, f) ↦
            let numbered = numbered_lines lines 1 in
            let counted = record s { summary = count_file (length numbered) s.summary } in
            let parsed = parse_lines out.codec numbered in
            rw (process_file, e, f)
              (after_call-MakesKnown file _ not_iterable _ _ (λ refs.
                after_call-MakesKnown file _ fetch_failed _ _ (λ rows.
                  after_call-MakesKnown file _ issuers_failed _ _ (λ peers.
                    finish_lines-MakesKnown now out.codec file (length numbered) counted
                      (enrich_lines py out vidobes rows peers parsed counted.summary)))))
      ]
    ]

-- A file that was processed, and is put into the folder again unchanged, is passed over: the state
-- after it is the state before.
pub process_file_twice :
    (py : Builtins) (out : Outside) (vidobes now later : String) (dry_run : Bool) (file : RawFile)
    (s after : Stage)
    → process_file py out vidobes now false file s ≡ done after
    → process_file py out vidobes later dry_run file after ≡ done after
unfolding process_file
process_file_twice py out vidobes now later dry_run file s after h =
    let (row, e) = subst (MakesKnown file) h (process_file-MakesKnown py out vidobes now file s) in
    rw (process_file, e) refl

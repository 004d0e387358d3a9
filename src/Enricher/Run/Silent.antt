-- ===== src/Enricher/Run/Silent.antt =====
-- What a run of the enricher that sends no message has done.
use ubki_uploader.Prelude.{
  ℕ, ◌≡◌, refl, sym, subst, ◌∙◌, String, Bool, true, false, Option, none, some, List, [], ◌∷◌, ◌++◌,
  length, arith, Option-cases, inl, inr,
}
use ubki_uploader.Python.Json.{Builtins}
use ubki_uploader.Db.Meta.{get_enriched_by_identity, insert_enriched_file}
use ubki_uploader.Enricher.Intake.{Codec, numbered_lines, parse_lines}
use ubki_uploader.Enricher.Summary.{EnrichSummary, build_alert}
use ubki_uploader.Enricher.Process.{
  RawFile, Outside, Failure, not_iterable, fetch_failed, issuers_failed, Stage, Step, done, failed,
  Work, enrich_lines, count_file, finish, after_call, finish_lines, process_lines, process_file,
}
use ubki_uploader.Enricher.Run.{
  recorded, process_one, process_files, finished, start_run, end_run, run_enrich,
}
use ubki_uploader.Enricher.Process.Conserves.{
  IsOwed, LeavesBalanced, enrich_lines-SameLines, process_file-LeavesBalanced,
}

no_end {ℓ} : {A : Type ℓ} (xs : List A) (x : A) → xs ++ x ∷ [] ≡ [] → ⊥
no_end [] x h = absurd cc
no_end (y ∷ ys) x h = absurd cc

-- A file that does not fail adds no error.
abbrev pub KeepsErrors : List String → Step → Type 0
KeepsErrors errors (done s) = s.summary.errors ≡ errors
KeepsErrors errors (failed failure s) = Unit

finish-KeepsErrors :
    (now : String) (codec : Codec) (file : RawFile) (n : ℕ) (work : Work) (s : Stage)
    → KeepsErrors s.summary.errors (finish now codec file n work s)
unfolding finish
finish-KeepsErrors now codec file n work s =
    elim (Option-cases (
      insert_enriched_file now s.db file.name file.sha256 n (length work.enriched)
        (length work.bad))) [ inl e ↦ rw (finish, e) tt | inr (db, e) ↦ rw (finish, e) refl ]

finish_lines-KeepsErrors :
    (now : String) (codec : Codec) (file : RawFile) (n : ℕ) (s : Stage)
    (r : EnrichSummary × Option Work)
    → r.0.errors ≡ s.summary.errors
    → KeepsErrors s.summary.errors (finish_lines now codec file n s r)
finish_lines-KeepsErrors now codec file n s (summary, none) e = tt
finish_lines-KeepsErrors now codec file n s (summary, some work) e =
    subst
      (λ errors. KeepsErrors errors (finish now codec file n work (record s { summary = summary })))
      e (finish-KeepsErrors now codec file n work (record s { summary = summary }))

after_call-KeepsErrors {ℓ} :
    {A : Type ℓ} (errors : List String) (o : Option A) (failure : Failure) (s : Stage)
    (next : A → Step)
    → ((a : A) → KeepsErrors errors (next a))
    → KeepsErrors errors (after_call o failure s next)
unfolding after_call
after_call-KeepsErrors errors none failure s next k = tt
after_call-KeepsErrors errors (some a) failure s next k = k a

module _ (py : Builtins) (out : Outside) (vidobes now : String) where
  process_file-KeepsErrors :
      (file : RawFile) (s : Stage)
      → KeepsErrors s.summary.errors (process_file py out vidobes now false file s)
  unfolding process_file process_lines
  process_file-KeepsErrors file s =
      elim (Option-cases (get_enriched_by_identity s.db file.name file.sha256)) [
        | inr (row, e) ↦ rw (process_file, e) refl
        | inl e ↦ elim (Option-cases file.lines) [
          | inl f ↦ rw (process_file, e, f) tt
          | inr (lines, f) ↦
              let numbered = numbered_lines lines 1 in
              let counted = record s { summary = count_file (length numbered) s.summary } in
              let parsed = parse_lines out.codec numbered in
              rw (process_file, e, f)
                (after_call-KeepsErrors s.summary.errors _ not_iterable _ _ (λ refs.
                  after_call-KeepsErrors s.summary.errors _ fetch_failed _ _ (λ rows.
                    after_call-KeepsErrors s.summary.errors _ issuers_failed _ _ (λ peers.
                      finish_lines-KeepsErrors now out.codec file (length numbered) counted
                        (enrich_lines py out vidobes rows peers parsed counted.summary)
                        (enrich_lines-SameLines py out vidobes rows peers parsed
                          counted.summary).same_errors))))
        ]
      ]

  module _ (describe : Failure → String) where
    -- Where no file failed, every line is counted as enriched or quarantined.
    abbrev pub IsHonest : Stage → Type 0
    IsHonest s = s.summary.errors ≡ [] → IsOwed 0 s.summary

    recorded-IsHonest :
        (file : RawFile) (errors : List String) (step : Step)
        → KeepsErrors errors step
        → (errors ≡ [] → LeavesBalanced 0 step)
        → IsHonest (recorded describe file step)
    recorded-IsHonest file errors (done after) same balanced e = balanced (sym same ∙ e)
    recorded-IsHonest file errors (failed failure after) same balanced e =
        absurd (no_end after.summary.errors _ e)

    process_one-IsHonest :
        (file : RawFile) (s : Stage)
        → IsHonest s
        → IsHonest (process_one py out vidobes now false describe file s)
    unfolding process_one
    process_one-IsHonest file s honest =
        recorded-IsHonest file s.summary.errors (process_file py out vidobes now false file s)
          (process_file-KeepsErrors file s)
          (λ e. process_file-LeavesBalanced 0 py out vidobes now file s (honest e))

    process_files-IsHonest :
        (files : List RawFile) (s : Stage)
        → IsHonest s
        → IsHonest (process_files py out vidobes now false describe files s)
    unfolding process_files
    process_files-IsHonest [] s honest = honest
    process_files-IsHonest (file ∷ files) s honest =
        process_files-IsHonest files (process_one py out vidobes now false describe file s)
          (process_one-IsHonest file s honest)

-- Every line that was read is enriched, and there was no trouble with the files.
pub record IsClean (s : EnrichSummary) : Type 0 where
  pub all_enriched : s.lines_enriched ≡ s.lines_total
  pub none_empty : s.files_empty ≡ 0
  pub none_skipped : s.files_skipped ≡ 0
  pub no_errors : s.errors ≡ []

silent :
    (s : EnrichSummary)
    → build_alert s ≡ none
    → (s.errors ≡ []) × (s.lines_quarantined ≡ 0) × (s.files_empty ≡ 0) × (s.files_skipped ≡ 0)
unfolding build_alert
silent s h = ground arith

end_run_inj :
    (s t : Stage) (alert : Option String)
    → end_run s ≡ finished t alert
    → (s ≡ t) × (build_alert t.summary ≡ alert)
end_run_inj s t alert h =
    let same : s ≡ t = cc in
    let told : build_alert s.summary ≡ alert = cc in
    (same, subst (λ (u : Stage). build_alert u.summary ≡ alert) same told)

-- A run that is no dry run, ends, and of which no message is sent, over a summary without errors whose
-- lines are all counted, has enriched every line that it read, and met no file without lines, none
-- outside the mask and no error.
pub run_enrich-IsClean :
    (py : Builtins) (out : Outside) (vidobes now : String) (describe : Failure → String)
    (raw_folder : String) (lock_free : Bool) (scanned : Option (List RawFile × ℕ)) (s after : Stage)
    → s.summary.errors ≡ []
    → IsOwed 0 s.summary
    → run_enrich py out vidobes now false describe raw_folder lock_free scanned s
      ≡ finished after none
    → IsClean after.summary
unfolding run_enrich
run_enrich-IsClean py out vidobes now describe raw_folder false scanned s after empty owed h =
    absurd (ground arith)
run_enrich-IsClean py out vidobes now describe raw_folder true none s after empty owed h =
    absurd (ground arith)
run_enrich-IsClean py out vidobes now describe raw_folder true (some (files, skipped)) s after empty
      owed h =
    let started = start_run (length files) skipped s in
    let ended = process_files py out vidobes now false describe files started in
    let (same, no_message) = end_run_inj ended after none h in
    let (errors, bad, blank, passed_over) = silent after.summary no_message in
    let honest = process_files-IsHonest py out vidobes now describe files started (λ e. owed) in
    let balanced : IsOwed 0 after.summary =
      subst (λ (t : Stage). IsOwed 0 t.summary) same
        (honest (subst (λ (t : Stage). t.summary.errors ≡ []) (sym same) errors)) in
    record {
      all_enriched = omega (arith, balanced, bad);
      none_empty = blank;
      none_skipped = passed_over;
      no_errors = errors;
    }

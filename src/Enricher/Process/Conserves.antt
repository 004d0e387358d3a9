-- ===== src/Enricher/Process/Conserves.antt =====
-- No line of a raw file is lost: the counters of `process_file` in app/enricher.py.
use ubki_uploader.Prelude.{
  ℕ, suc, ◌+◌, ◌-◌, ◌≡◌, ◌≤◌, refl, sym, ap, subst, inl, inr, String, false, Option, none, some,
  List, [], ◌∷◌, length, arith, Option-cases,
}
use ubki_uploader.Python.Json.{Builtins}
use ubki_uploader.Db.Meta.{get_enriched_by_identity, insert_enriched_file}
use ubki_uploader.Enricher.Cabinet.{Row, Peer}
use ubki_uploader.Enricher.Line.{Outcome, value, quarantine, raises, Subject}
use ubki_uploader.Enricher.Line.Render.{subject_json}
use ubki_uploader.Enricher.Intake.{Codec, numbered_lines, Quarantined, Parsed, parse_lines}
use ubki_uploader.Enricher.Summary.{EnrichSummary}
use ubki_uploader.Enricher.Process.{
  RawFile, Outside, Failure, not_iterable, fetch_failed, issuers_failed, Stage, Step, done, failed,
  Work, count_document, with_bad, with_line, outcome_of, bad_of, enrich_lines, count_file, finish,
  after_call, next_line, finish_lines, process_lines, process_file,
}

-- The counters of lines, and the errors
pub record SameLines (a b : EnrichSummary) : Type 0 where
  pub total : a.lines_total ≡ b.lines_total
  pub good : a.lines_enriched ≡ b.lines_enriched
  pub bad : a.lines_quarantined ≡ b.lines_quarantined
  pub same_errors : a.errors ≡ b.errors

-- Each line was either enriched or quarantined.
abbrev pub HasAll : (n : ℕ) → Option Work → Type 0
HasAll n none = Unit
HasAll n (some work) = length work.enriched + length work.bad ≡ n

with_bad-HasAll :
    (n : ℕ) (q : Quarantined) (r : EnrichSummary × Option Work)
    → HasAll n r.1
    → HasAll (suc n) (with_bad q r).1
with_bad-HasAll n q (s, none) h = tt
with_bad-HasAll n q (s, some work) h = omega (arith, h)

with_line-HasAll :
    (n : ℕ) (line : String) (r : EnrichSummary × Option Work)
    → HasAll n r.1
    → HasAll (suc n) (with_line line r).1
with_line-HasAll n q (s, none) h = tt
with_line-HasAll n q (s, some work) h = omega (arith, h)

with_bad_summary : (q : Quarantined) (r : EnrichSummary × Option Work) → (with_bad q r).0 ≡ r.0
with_bad_summary q (s, none) = refl
with_bad_summary q (s, some work) = refl

with_line_summary : (line : String) (r : EnrichSummary × Option Work) → (with_line line r).0 ≡ r.0
with_line_summary q (s, none) = refl
with_line_summary q (s, some work) = refl

after_document :
    (subject : Subject) (s t : EnrichSummary)
    → SameLines t (count_document subject s)
    → SameLines t s
unfolding count_document
after_document subject s t h = record {
  total = h.total;
  good = h.good;
  bad = h.bad;
  same_errors = h.same_errors;
}

next_line-HasAll :
    (codec : Codec) (vidobes : String) (p : Parsed) (n : ℕ)
    (rest : EnrichSummary → EnrichSummary × Option Work)
    → ((t : EnrichSummary) → HasAll n (rest t).1)
    → (s : EnrichSummary) (o : Outcome Subject)
    → HasAll (suc n) (next_line codec vidobes p rest s o).1
next_line-HasAll codec vidobes p n rest h s raises = tt
next_line-HasAll codec vidobes p n rest h s (quarantine reason) =
    with_bad-HasAll n (bad_of p reason) (rest s) (h s)
next_line-HasAll codec vidobes p n rest h s (value subject) =
    let counted = count_document subject s in
    with_line-HasAll n (codec.dumps_compact (subject_json vidobes subject)) (rest counted)
      (h counted)

next_line-SameLines :
    (codec : Codec) (vidobes : String) (p : Parsed)
    (rest : EnrichSummary → EnrichSummary × Option Work)
    → ((t : EnrichSummary) → SameLines (rest t).0 t)
    → (s : EnrichSummary) (o : Outcome Subject) → SameLines (next_line codec vidobes p rest s o).0 s
next_line-SameLines codec vidobes p rest h s raises = record {
  total = refl;
  good = refl;
  bad = refl;
  same_errors = refl;
}
next_line-SameLines codec vidobes p rest h s (quarantine reason) =
    subst (λ (t : EnrichSummary). SameLines t s) (sym (with_bad_summary (bad_of p reason) (rest s)))
      (h s)
next_line-SameLines codec vidobes p rest h s (value subject) =
    let counted = count_document subject s in
    subst (λ (t : EnrichSummary). SameLines t s)
      (sym (with_line_summary (codec.dumps_compact (subject_json vidobes subject)) (rest counted)))
      (after_document subject s (rest counted).0 (h counted))

module _ (py : Builtins) (out : Outside) (vidobes : String) (rows : List (String × Row))
    (peers : List (ℕ × List Peer)) where
  pub enrich_lines-HasAll :
      (parsed : List Parsed) (s : EnrichSummary)
      → HasAll (length parsed) (enrich_lines py out vidobes rows peers parsed s).1
  unfolding enrich_lines
  enrich_lines-HasAll [] s = refl
  enrich_lines-HasAll (p ∷ parsed) s =
      next_line-HasAll out.codec vidobes p (length parsed)
        (λ t. enrich_lines py out vidobes rows peers parsed t) (λ t. enrich_lines-HasAll parsed t) s
        (outcome_of py p rows peers)

  pub enrich_lines-SameLines :
      (parsed : List Parsed) (s : EnrichSummary)
      → SameLines (enrich_lines py out vidobes rows peers parsed s).0 s
  unfolding enrich_lines
  enrich_lines-SameLines [] s = record { total = refl; good = refl; bad = refl; same_errors = refl }
  enrich_lines-SameLines (p ∷ parsed) s =
      next_line-SameLines out.codec vidobes p (λ t. enrich_lines py out vidobes rows peers parsed t)
        (λ t. enrich_lines-SameLines parsed t) s (outcome_of py p rows peers)

length-parse_lines :
    (codec : Codec) (lines : List (ℕ × String)) → length (parse_lines codec lines) ≡ length lines
unfolding parse_lines
length-parse_lines codec [] = refl
length-parse_lines codec ((n, raw) ∷ lines) = ap suc (length-parse_lines codec lines)

-- `lines_total` has been raised by `n` lines that neither other counter has.
abbrev pub IsOwed : (n : ℕ) → EnrichSummary → Type 0
IsOwed n s = s.lines_enriched + s.lines_quarantined + n ≡ s.lines_total

abbrev pub LeavesBalanced : (lost : ℕ) → Step → Type 0
LeavesBalanced lost (done s) = IsOwed lost s.summary
LeavesBalanced lost (failed failure s) =
    s.summary.lines_enriched + s.summary.lines_quarantined + lost ≤ s.summary.lines_total

finish-LeavesBalanced :
    (lost : ℕ) (now : String) (codec : Codec) (file : RawFile) (n : ℕ) (work : Work) (s : Stage)
    → length work.enriched + length work.bad ≡ n
    → IsOwed (n + lost) s.summary
    → LeavesBalanced lost (finish now codec file n work s)
unfolding finish
finish-LeavesBalanced lost now codec file n work s h k =
    elim (Option-cases (
      insert_enriched_file now s.db file.name file.sha256 n (length work.enriched)
        (length work.bad))) [
          | inl e ↦ rw (finish, e) (omega (arith, h, k))
          | inr (db, e) ↦ rw (finish, e) (omega (arith, h, k))
        ]

finish_lines-LeavesBalanced :
    (lost : ℕ) (now : String) (codec : Codec) (file : RawFile) (n : ℕ) (s : Stage)
    (r : EnrichSummary × Option Work)
    → IsOwed (n + lost) s.summary
    → SameLines r.0 s.summary
    → HasAll n r.1
    → LeavesBalanced lost (finish_lines now codec file n s r)
finish_lines-LeavesBalanced lost now codec file n s (summary, none) h same all =
    omega (arith, h, same.total, same.good, same.bad)
finish_lines-LeavesBalanced lost now codec file n s (summary, some work) h same all =
    finish-LeavesBalanced lost now codec file n work (record s { summary = summary }) all
      (omega (arith, h, same.total, same.good, same.bad))

after_call-LeavesBalanced {ℓ} :
    {A : Type ℓ} (lost : ℕ) (o : Option A) (failure : Failure) (n : ℕ) (s : Stage) (next : A → Step)
    → IsOwed (n + lost) s.summary
    → ((a : A) → LeavesBalanced lost (next a))
    → LeavesBalanced lost (after_call o failure s next)
unfolding after_call
after_call-LeavesBalanced lost none failure n s next h k = omega (arith, h)
after_call-LeavesBalanced lost (some a) failure n s next h k = k a

process_lines-LeavesBalanced :
    (lost : ℕ) (py : Builtins) (out : Outside) (vidobes now : String) (file : RawFile)
    (lines : List (ℕ × String)) (s : Stage)
    → IsOwed (length lines + lost) s.summary
    → LeavesBalanced lost (process_lines py out vidobes now file lines s)
unfolding process_lines
process_lines-LeavesBalanced lost py out vidobes now file lines s h =
    let n = length lines in
    let parsed = parse_lines out.codec lines in
    after_call-LeavesBalanced lost _ not_iterable n s _ h (λ refs.
      after_call-LeavesBalanced lost _ fetch_failed n s _ h (λ rows.
        after_call-LeavesBalanced lost _ issuers_failed n s _ h (λ peers.
          finish_lines-LeavesBalanced lost now out.codec file n s _ h
            (enrich_lines-SameLines py out vidobes rows peers parsed s.summary)
            (subst (λ k. HasAll k (enrich_lines py out vidobes rows peers parsed s.summary).1)
              (length-parse_lines out.codec lines)
              (enrich_lines-HasAll py out vidobes rows peers parsed s.summary)))))

pub process_file-LeavesBalanced :
    (lost : ℕ) (py : Builtins) (out : Outside) (vidobes now : String) (file : RawFile) (s : Stage)
    → IsOwed lost s.summary
    → LeavesBalanced lost (process_file py out vidobes now false file s)
unfolding process_file
process_file-LeavesBalanced lost py out vidobes now file s h =
    elim (Option-cases (get_enriched_by_identity s.db file.name file.sha256)) [
      | inr (row, e) ↦ rw (process_file, e) h
      | inl e ↦ elim (Option-cases file.lines) [
        | inl f ↦ rw (process_file, e, f) (omega (arith, h))
        | inr (lines, f) ↦
            let numbered = numbered_lines lines 1 in
            let counted = record s { summary = count_file (length numbered) s.summary } in
            rw (process_file, e, f)
              (process_lines-LeavesBalanced lost py out vidobes now file numbered counted
                (omega (arith, h)))
      ]
    ]

-- In a run that is no dry run, of a summary with no more lines enriched and quarantined than read, a
-- file that is processed without an exception adds to `lines_total` what it adds to the two other
-- counters together: every line is either enriched or quarantined.
pub process_file_conserves :
    (py : Builtins) (out : Outside) (vidobes now : String) (file : RawFile) (s after : Stage)
    → s.summary.lines_enriched + s.summary.lines_quarantined ≤ s.summary.lines_total
    → process_file py out vidobes now false file s ≡ done after
    → after.summary.lines_total + s.summary.lines_enriched + s.summary.lines_quarantined
      ≡ s.summary.lines_total + after.summary.lines_enriched + after.summary.lines_quarantined
process_file_conserves py out vidobes now file s after room h =
    let lost = s.summary.lines_total - (s.summary.lines_enriched + s.summary.lines_quarantined) in
    let kept =
      subst (LeavesBalanced lost) h
        (process_file-LeavesBalanced lost py out vidobes now file s (omega (arith, room))) in
    omega (arith, kept, room)

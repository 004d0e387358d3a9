-- ===== src/Enricher/Shelf/Again.antt =====
-- A crash after a write of app/enricher.py: the file is written once.
use Prim.Native.String.{◌++◌ as ◌<>◌}
use Prim.Native.String.append
use ubki_uploader.Prelude.{
  ◌+◌, ◌≡◌, refl, subst, ap, ◌∙◌, String, true, false, ◌&&◌, not, List, [], ◌∷◌, str_eq, eq_iff,
  count_chars, take_chars, Bool-cases, inl, inr, arith,
}
use ubki_uploader.Enricher.Shelf.{
  Stored, exists, holds, put, prefixed, target_of, put_once, write_enriched, free_name,
  write_quarantine,
}

-- The quarantine file is written under the name, and with the reuse, that the enriched file would
-- have.
pub write_quarantine-write_enriched :
    (folder : List Stored) (name sha256 content : String)
    → write_quarantine folder name sha256 content ≡ write_enriched folder name sha256 content
unfolding write_quarantine write_enriched target_of free_name put_once
write_quarantine-write_enriched folder name sha256 content =
    elim (Bool-cases (exists folder name)) [ inl e ↦ ground arith | inr e ↦ ground arith ]

count-append : (s t : String) → count_chars (s <> t) ≡ count_chars s + count_chars t
count-append String.[] t = ap count_chars (append.nil t) ∙ (omega arith)
count-append (String.◌∷◌ c s) t =
    ap count_chars (append.cons c s t) ∙ omega (arith, count-append s t)

-- The prefixed name is another name.
prefixed_differs : (name sha256 : String) → str_eq (prefixed name sha256) name ≡ false
prefixed_differs name sha256 = elim (Bool-cases (str_eq (prefixed name sha256) name)) [
  | inl e ↦
      let same = ap count_chars ((eq_iff (prefixed name sha256) name).0 e) in
      absurd (
        omega
          (arith, same, count-append (take_chars 8 sha256) ("_" <> name), count-append "_" name))
  | inr e ↦ e
]

holds-put :
    (folder : List Stored) (name content : String)
    → holds (put folder name content) name content ≡ true
holds-put [] name content = ground (arith, eq_iff name name, eq_iff content content)
holds-put (f ∷ folder) name content = ground (arith, holds-put folder name content)

module _ (name other content : String) (differs : str_eq other name ≡ false) where
  -- A write under another name is not seen under this one.
  exists-put : (folder : List Stored) → exists (put folder other content) name ≡ exists folder name
  exists-put [] = ground (arith, differs)
  exists-put (f ∷ folder) =
      ground (arith, differs, exists-put folder, eq_iff f.name name, eq_iff f.name other)

  holds_before-put :
      (folder : List Stored)
      → holds (put folder other content) name content ≡ holds folder name content
  holds_before-put [] = ground (arith, differs)
  holds_before-put (f ∷ folder) =
      ground (arith, differs, holds_before-put folder, eq_iff f.name name, eq_iff f.name other)

put_once-holds :
    (folder : List Stored) (name content : String)
    → holds (put_once folder name content) name content ≡ true
unfolding put_once
put_once-holds folder name content = elim (Bool-cases (holds folder name content)) [
  | inl e ↦ ground arith
  | inr e ↦ ground (arith, holds-put folder name content)
]

put_once_again :
    (folder : List Stored) (name content : String)
    → holds folder name content ≡ true
    → put_once folder name content ≡ folder
unfolding put_once
put_once_again folder name content h = rw (put_once, h) refl

target_of-exists :
    (folder after : List Stored) (name sha256 content : String)
    → exists after name ≡ exists folder name
    → holds after name content ≡ holds folder name content
    → target_of after name sha256 content ≡ target_of folder name sha256 content
unfolding target_of
target_of-exists folder after name sha256 content e h = rw (e, h) refl

target_of-prefixed :
    (folder : List Stored) (name sha256 content : String)
    → target_of (put_once folder (prefixed name sha256) content) name sha256 content
      ≡ target_of folder name sha256 content
unfolding put_once
target_of-prefixed folder name sha256 content =
    elim (Bool-cases (holds folder (prefixed name sha256) content)) [
      | inl e ↦ rw (put_once, e) refl
      | inr e ↦
          let differs = prefixed_differs name sha256 in
          let after = put folder (prefixed name sha256) content in
          rw (put_once, e)
            (target_of-exists folder after name sha256 content
              (exists-put name (prefixed name sha256) content differs folder)
              (holds_before-put name (prefixed name sha256) content differs folder))
    ]

target_of_held :
    (folder : List Stored) (name sha256 content : String)
    → holds folder name content ≡ true
    → target_of folder name sha256 content ≡ name
unfolding target_of
target_of_held folder name sha256 content h = ground arith

-- The second write goes where the first one went.
same_target :
    (folder : List Stored) (name sha256 content : String)
    → target_of (put_once folder (target_of folder name sha256 content) content) name sha256 content
      ≡ target_of folder name sha256 content
unfolding target_of
same_target folder name sha256 content =
    elim (Bool-cases (exists folder name && not (holds folder name content))) [
      | inl e ↦
          subst
            (λ t.
              target_of (put_once folder t content) name sha256 content
              ≡ target_of folder name sha256 content)
            (ground arith) (target_of-prefixed folder name sha256 content)
      | inr e ↦
          subst (λ t. target_of (put_once folder t content) name sha256 content ≡ t) (ground arith)
            (target_of_held (put_once folder name content) name sha256 content
              (put_once-holds folder name content))
    ]

-- To write the same file again changes nothing: a run that was killed after the write leaves no
-- second file of the same content behind.
pub write_enriched_again :
    (folder : List Stored) (name sha256 content : String)
    → write_enriched (write_enriched folder name sha256 content) name sha256 content
      ≡ write_enriched folder name sha256 content
unfolding write_enriched
write_enriched_again folder name sha256 content =
    let target = target_of folder name sha256 content in
    let after = put_once folder target content in
    ap (λ t. put_once after t content) (same_target folder name sha256 content)
    ∙ put_once_again after target content (put_once-holds folder target content)

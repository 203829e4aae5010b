-- ===== src/Evidence/FileIngestion/Refusals.antt =====
-- src/evidence/file_ingestion.py: which files are taken, and how the others are refused.
use eu_ai_act_compliance.Prelude.{
  ◌≤◌, String, true, false, List, ◌≡◌, inl, inr, ◌⊎◌, refl, sym, ◌∙◌, str_eq_iff, Option-cases,
  arith, ltb, length, is_empty, contains, str_eq, strip, is_nonempty, join, Bool-cases,
}
use eu_ai_act_compliance.Result.{
  Exception, Result, ok, err, file_validation_error, Result-cases, >>=-eq-ok,
}
use eu_ai_act_compliance.Evidence.FileIngestion.{
  Bytes, Parsers, max_file_size_bytes, allowed_extensions, extension_of, refuse, stripped_text,
  extract_txt, extract_pdf, extract_docx, extractor, extract_evidence_text,
}

-- A text, or the refusal that the caller shows to the user.
pub data TextOrRefusal : Result String → Type 0 where
  text : (s : String) → TextOrRefusal (ok s)
  refusal : (message : String) → TextOrRefusal (err (file_validation_error message))

stripped_text-TextOrRefusal :
    (kind message : String) (r : Result (List String))
    → TextOrRefusal (stripped_text kind (refuse message r))
unfolding refuse stripped_text
stripped_text-TextOrRefusal kind message (ok parts) =
    elim (Bool-cases (is_nonempty (strip (join "\n" parts)))) [
      | inl q ↦ rw q (text _)
      | inr q ↦ rw q (refusal _)
    ]
stripped_text-TextOrRefusal kind message (err e) = refusal message

stripped_text-nonempty :
    (kind : String) (r : Result (List String)) {s : String}
    → stripped_text kind r ≡ ok s
    → is_nonempty s ≡ true
unfolding stripped_text
stripped_text-nonempty kind (ok parts) {s} h =
    elim (Bool-cases (is_nonempty (strip (join "\n" parts)))) [
      | inl q ↦ let e : strip (join "\n" parts) ≡ s = ground arith in rw (← e) q
      | inr q ↦ absurd (ground arith)
    ]
stripped_text-nonempty kind (err e) h = cc

str_eq-false_symm : (a b : String) → str_eq a b ≡ false → str_eq b a ≡ false
str_eq-false_symm a b h = elim (Bool-cases (str_eq b a)) [
  | inl q ↦
      let p = (str_eq_iff a b).1 (sym ((str_eq_iff b a).0 q)) in absurd (let z = sym h ∙ p in cc)
  | inr q ↦ q
]

-- The last of the allowed extensions.
is_docx :
    (extension : String)
    → str_eq extension ".txt" ≡ false
    → str_eq extension ".pdf" ≡ false
    → contains extension allowed_extensions ≡ true
    → extension ≡ ".docx"
unfolding contains allowed_extensions
is_docx extension no_txt no_pdf allowed = elim (Bool-cases (str_eq ".docx" extension)) [
  | inl q ↦ sym ((str_eq_iff ".docx" extension).0 q)
  | inr q ↦ absurd (
      let z =
        rw (str_eq-false_symm extension ".txt" no_txt, str_eq-false_symm extension ".pdf" no_pdf, q)
          at allowed in
      cc)
]

module _ (parsers : Parsers) where
  -- A document that opens, but whose paragraphs cannot be read.
  pub record IsUnreadable (filename : String) (content : Bytes) (r : Result String) : Type 0 where
    pub raised : Exception
    pub docx : extension_of parsers filename ≡ ".docx"
    pub opens : parsers.docx_document content ≡ ok tt
    pub raises : parsers.docx_paragraphs content ≡ err raised
    pub passed_on : r ≡ err raised

  abbrev Settled : (filename : String) (content : Bytes) → Result String → Type 0
  Settled filename content r = TextOrRefusal r ⊎ IsUnreadable filename content r

  extract_txt-TextOrRefusal : (content : Bytes) → TextOrRefusal (extract_txt parsers content)
  unfolding extract_txt
  extract_txt-TextOrRefusal content = elim (Option-cases (parsers.decode_utf8 content)) [
    | inl e ↦ rw e (refusal _)
    | inr (s, e) ↦ rw e (text s)
  ]

  extract_docx-Settled :
      (filename : String) (content : Bytes)
      → extension_of parsers filename ≡ ".docx"
      → Settled filename content (extract_docx parsers content)
  unfolding extract_docx refuse
  extract_docx-Settled filename content docx = elim (Result-cases (parsers.docx_document content)) [
    | inr (e, q) ↦ rw q (inl (refusal _))
    | inl (u, q) ↦ elim (Result-cases (parsers.docx_paragraphs content)) [
      | inl (parts, p) ↦ rw (q, p) (inl (stripped_text-TextOrRefusal "DOCX" "" (ok parts)))
      | inr (e, p) ↦
          rw (q, p)
            (inr (record { raised = e; docx = docx; opens = q; raises = p; passed_on = refl }))
    ]
  ]

  extractor-Settled :
      (filename : String) (content : Bytes)
      → contains (extension_of parsers filename) allowed_extensions ≡ true
      → Settled filename content (extractor parsers (extension_of parsers filename) content)
  unfolding extractor extract_pdf
  extractor-Settled filename content allowed =
      let extension = extension_of parsers filename in
      elim (Bool-cases (str_eq extension ".txt")) [
        | inl q ↦ rw q (inl (extract_txt-TextOrRefusal content))
        | inr q ↦ elim (Bool-cases (str_eq extension ".pdf")) [
          | inl p ↦ rw (q, p) (inl (stripped_text-TextOrRefusal "PDF" _ _))
          | inr p ↦
              rw (q, p) (extract_docx-Settled filename content (is_docx extension q p allowed))
        ]
      ]

  -- An upload gives a text or is refused with a `FileValidationError`, which the caller shows: whatever the
  -- decoder or the parser of a PDF raises, and whatever the opening of a DOCX raises, becomes a refusal. The
  -- one exception that gets past the caller's `except` is that of a .docx which opens but whose paragraphs
  -- cannot be read.
  pub extract_evidence_text-TextOrRefusal :
      (filename : String) (content : Bytes)
      → TextOrRefusal (extract_evidence_text parsers filename content)
        ⊎ IsUnreadable filename content (extract_evidence_text parsers filename content)
  unfolding extract_evidence_text
  extract_evidence_text-TextOrRefusal filename content = elim (Bool-cases (is_empty content)) [
    | inl e ↦ rw e (inl (refusal _))
    | inr e ↦ elim (Bool-cases (ltb max_file_size_bytes (length content))) [
      | inl s ↦ rw (e, s) (inl (refusal _))
      | inr s ↦ elim (Bool-cases (contains (extension_of parsers filename) allowed_extensions)) [
        | inl a ↦ rw (e, s, a) (extractor-Settled filename content a)
        | inr a ↦ rw (e, s, a) (inl (refusal _))
      ]
    ]
  ]

  -- An upload that gives a text is not empty, has at most 5 MiB and one of the allowed extensions;
  -- and the text of one that is no `.txt` is not empty.
  pub extract_evidence_text-Accepted :
      (filename : String) (content : Bytes) {s : String}
      → extract_evidence_text parsers filename content ≡ ok s
      → (is_empty content ≡ false)
        × (length content ≤ max_file_size_bytes)
        × (contains (extension_of parsers filename) allowed_extensions ≡ true)
        × (str_eq (extension_of parsers filename) ".txt" ≡ false → is_nonempty s ≡ true)
  unfolding extract_evidence_text extractor extract_pdf extract_docx
  extract_evidence_text-Accepted filename content {s} h = elim (Bool-cases (is_empty content)) [
    | inl e ↦ absurd (ground arith)
    | inr e ↦ elim (Bool-cases (ltb max_file_size_bytes (length content))) [
      | inl q ↦ absurd (ground arith)
      | inr q ↦ elim (Bool-cases (contains (extension_of parsers filename) allowed_extensions)) [
        | inr a ↦ absurd (ground arith)
        | inl a ↦
            let taken = rw (e, q, a) at h in
            (
              e,
              ground arith,
              a,
              λ no_txt. elim (Bool-cases (str_eq (extension_of parsers filename) ".pdf")) [
                | inl p ↦ stripped_text-nonempty "PDF" _ (rw (no_txt, p) at taken)
                | inr p ↦
                    let (u, opened, last) =
                      >>=-eq-ok (refuse "Could not parse DOCX" (parsers.docx_document content))
                        (λ u. stripped_text "DOCX" (parsers.docx_paragraphs content))
                        (rw (no_txt, p) at taken) in
                    stripped_text-nonempty "DOCX" _ last
              ],
            )
      ]
    ]
  ]

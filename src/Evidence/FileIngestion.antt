-- ===== src/Evidence/FileIngestion.antt =====
-- src/evidence/file_ingestion.py: the text of an uploaded file, or its refusal. The UTF-8 codec, pypdf,
-- python-docx and `str.lower` are parameters; a byte is its number.
pub mod Refusals
use eu_ai_act_compliance.Prelude.{
  ℕ, zero, suc, ◌*◌, String, Bool, true, false, List, [], ◌∷◌, map, Option, none, some, ltb, ◌==◌,
  length, is_empty, contains, str_eq, strip, is_nonempty, join, ◌+s◌, if◌then◌else◌,
}
use Prim.Native.Char.{code}
use eu_ai_act_compliance.Result.{Result, ok, err, file_validation_error, ◌>>=◌, ◌>>◌}

abbrev pub Bytes : Type 0
Bytes = List ℕ

pub record Parsers : Type 0 where
  -- `content.decode("utf-8")`, none for the `UnicodeDecodeError` that it raises
  pub decode_utf8 : Bytes → Option String
  -- `page.extract_text()` of each page of `PdfReader(BytesIO(content))`
  pub pdf_pages : Bytes → Result (List (Option String))
  -- `Document(BytesIO(content))`, as whether it raises
  pub docx_document : Bytes → Result (Unit {0})
  -- `p.text` for each p in `document.paragraphs`, for the document of the content
  pub docx_paragraphs : Bytes → Result (List String)
  -- `text.lower()`
  pub lower : String → String

abbrev pub max_file_size_bytes : ℕ
max_file_size_bytes = 5 * 1024 * 1024

unfoldable pub allowed_extensions : List String
allowed_extensions = ".txt" ∷ ".pdf" ∷ ".docx" ∷ []

-- `filename.rsplit(".", 1)[-1]` where there is a dot
unfoldable pub after_last_dot : String → Option String
after_last_dot String.[] = none
after_last_dot (String.◌∷◌ c s) = elim (after_last_dot s) [
  | some tail ↦ some tail
  | none ↦ if code c == 46 then some s else none
]

-- `page.extract_text() or ""`
unfoldable pub page_text : Option String → String
page_text none = ""
page_text (some text) = text

-- `try: ... except Exception as exc: raise FileValidationError(...)`
unfoldable pub refuse : {A : Type 0} → String → Result A → Result A
refuse message (ok a) = ok a
refuse message (err e) = err (file_validation_error message)

-- The end of `_extract_pdf` and of `_extract_docx`
unfoldable pub stripped_text : String → Result (List String) → Result String
stripped_text kind (ok parts) =
    let text = strip (join "\n" parts) in
    if is_nonempty text
    then ok text
    else err (file_validation_error (kind +s " parsed but contained no extractable text."))
stripped_text kind (err e) = err e

page_texts : Result (List (Option String)) → Result (List String)
unfolding page_text
page_texts (ok pages) = ok (map page_text pages)
page_texts (err e) = err e

-- `except UnicodeDecodeError as exc: raise FileValidationError(...)`
decoded : Option String → Result String
decoded (some text) = ok text
decoded none = err (file_validation_error "Could not decode file as UTF-8 text")

module _ (parsers : Parsers) where
  -- `_extension_of`
  unfoldable pub extension_of : String → String
  extension_of filename = elim (after_last_dot filename) [
    | none ↦ ""
    | some tail ↦ "." +s parsers.lower tail
  ]

  unfoldable pub extract_txt : Bytes → Result String
  unfolding decoded
  extract_txt content = decoded (parsers.decode_utf8 content)

  unfoldable pub extract_pdf : Bytes → Result String
  unfolding refuse page_texts stripped_text
  extract_pdf content =
      stripped_text "PDF" (refuse "Could not parse PDF" (page_texts (parsers.pdf_pages content)))

  -- Only the opening of the document is inside the `try`.
  unfoldable pub extract_docx : Bytes → Result String
  unfolding refuse stripped_text
  extract_docx content =
      refuse "Could not parse DOCX" (parsers.docx_document content)
      >> stripped_text "DOCX" (parsers.docx_paragraphs content)

  -- `_EXTRACTORS[extension]`, for an extension that is allowed
  unfoldable pub extractor : String → Bytes → Result String
  unfolding extract_txt extract_pdf extract_docx
  extractor extension content =
      if str_eq extension ".txt"
      then extract_txt content
      else if str_eq extension ".pdf"
      then extract_pdf content
      else extract_docx content

  unfoldable pub extract_evidence_text : (filename : String) (content : Bytes) → Result String
  extract_evidence_text filename content =
      if is_empty content
      then err (file_validation_error "Uploaded file is empty.")
      else if ltb max_file_size_bytes (length content)
      then err (file_validation_error "File exceeds the limit.")
      else if contains (extension_of filename) allowed_extensions
      then extractor (extension_of filename) content
      else err (file_validation_error "File type not allowed.")

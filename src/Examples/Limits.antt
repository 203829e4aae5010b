-- ===== src/Examples/Limits.antt =====
-- Uploads and rate limits at small inputs.
use eu_ai_act_compliance.Prelude.{
  some, ◌⊎◌, ℕ, ◌≤◌, ◌<◌, true, false, [], ◌∷◌, ◌≡◌, ◌↔◌, refl, arith, filter, length, is_nonempty,
  contains, str_eq, strip, join,
}
use eu_ai_act_compliance.Result.{ok, err, overflow_error}
use eu_ai_act_compliance.Evidence.FileIngestion.{
  Parsers, max_file_size_bytes, allowed_extensions, extension_of, extract_evidence_text,
  after_last_dot, extractor,
}
use eu_ai_act_compliance.Evidence.FileIngestion.Refusals.{
  TextOrRefusal, IsUnreadable, extract_evidence_text-TextOrRefusal, extract_evidence_text-Accepted,
}
use eu_ai_act_compliance.Api.RateLimit.{RateLimiter, rate_limiter_of, check, lookup, expire, put}
use eu_ai_act_compliance.Api.RateLimit.Window.{fresh, Reached, start, admit, let_through}
use eu_ai_act_compliance.Api.RateLimit.Sliding.{check-sliding_window, history-bounded}

abbrev pub parsers : Parsers
parsers = record {
  decode_utf8 = λ content. some "text";
  pdf_pages = λ content. err overflow_error;
  docx_document = λ content. ok tt;
  docx_paragraphs = λ content. ok ("text" ∷ []);
  lower = λ s. s;
}

extract_evidence_text-TextOrRefusal_example :
    TextOrRefusal (extract_evidence_text parsers "a.pdf" (37 ∷ []))
    ⊎ IsUnreadable parsers "a.pdf" (37 ∷ []) (extract_evidence_text parsers "a.pdf" (37 ∷ []))
extract_evidence_text-TextOrRefusal_example =
    extract_evidence_text-TextOrRefusal parsers "a.pdf" (37 ∷ [])

extract_evidence_text-Accepted_example :
    (false ≡ false)
    × (length {A = ℕ} (37 ∷ []) ≤ max_file_size_bytes)
    × (contains (extension_of parsers "a.docx") allowed_extensions ≡ true)
    × (str_eq (extension_of parsers "a.docx") ".txt" ≡ false → is_nonempty "text" ≡ true)
unfolding extract_evidence_text extension_of contains allowed_extensions after_last_dot extractor
    strip join
extract_evidence_text-Accepted_example =
    extract_evidence_text-Accepted parsers "a.docx" (37 ∷ []) {s = "text"} refl

abbrev used : RateLimiter
used = record { window_seconds = 10; max_requests = 1; request_log = ("host", 3 ∷ []) ∷ [] }

reached : Reached 10 1 3 used (let_through "host" 3 (λ k. []))
unfolding check rate_limiter_of expire lookup put
reached = admit {now = 3} {after = used} "host" start (omega arith) refl

check-sliding_window_example :
    ((check 5 "host" used).0 ≡ ok tt)
    ↔ (length (filter (fresh 10 5) (let_through "host" 3 (λ k. []) "host")) < 1)
check-sliding_window_example = check-sliding_window reached "host" (omega arith)

history-bounded_example :
    (length (filter (fresh 10 3) (let_through "host" 3 (λ k. []) "host")) ≤ 1)
    × (length (lookup "host" used.request_log) ≤ 1)
history-bounded_example = history-bounded reached "host"

-- ===== src/Retrieval/Words.antt =====
-- `_significant_words` of src/retrieval/retrieval.py: the words of at least three ASCII letters of
-- the lower-cased text that are no stop words, each once. A word is the list of its code points.
use Prim.Native.Char.{code}
use mathlib.Core.List.{◌++◌}
use eu_ai_act_compliance.Prelude.{
  ℕ, ◌+◌, String, Bool, true, false, not, ◌&&◌, ◌||◌, List, [], ◌∷◌, map, filter, leb, ◌==◌,
  if◌then◌else◌, length,
}

abbrev pub Word : Type 0
Word = List ℕ

abbrev pub codes : String → Word
codes String.[] = []
codes (String.◌∷◌ c s) = code c ∷ codes s

-- `str.lower`, as far as the pattern [a-zA-Z] can tell: outside ASCII, only U+0130 and U+212A have a
-- lower case with an ASCII letter in it.
lower_code : ℕ → Word
lower_code c =
    if leb 65 c && leb c 90
    then (c + 32) ∷ []
    else if c == 0x130
    then 105 ∷ 0x307 ∷ []
    else if c == 0x212a
    then 107 ∷ []
    else c ∷ []

lower : Word → Word
unfolding lower_code
lower [] = []
lower (c ∷ cs) = lower_code c ++ lower cs

is_letter : ℕ → Bool
is_letter c = (leb 65 c && leb c 90) || (leb 97 c && leb c 122)

-- A character in front of the runs of letters of the text behind it.
push : ℕ → List Word → List Word
unfolding is_letter
push c [] = []
push c (run ∷ runs) = if is_letter c then (c ∷ run) ∷ runs else [] ∷ run ∷ runs

letter_runs : Word → List Word
unfolding push
letter_runs [] = [] ∷ []
letter_runs (c ∷ cs) = push c (letter_runs cs)

unfoldable pub word_eq : Word → Word → Bool
word_eq [] [] = true
word_eq (a ∷ as') (b ∷ bs) = a == b && word_eq as' bs
word_eq _ _ = false

-- `w in words`
unfoldable pub contains_word : Word → List Word → Bool
unfolding word_eq
contains_word w [] = false
contains_word w (x ∷ xs) = word_eq x w || contains_word w xs

-- The members of the set of a list's words.
distinct : List Word → List Word
unfolding contains_word
distinct [] = []
distinct (w ∷ ws) = let rest = distinct ws in if contains_word w rest then rest else w ∷ rest

unfoldable pub stopwords : List Word
stopwords = map codes (
    "the" ∷ "a" ∷ "an" ∷ "to" ∷ "of" ∷ "in" ∷ "for" ∷ "and" ∷ "or" ∷ "is" ∷ "are" ∷ "that" ∷ "this"
    ∷ "on" ∷ "with" ∷ "by" ∷ "as" ∷ "be" ∷ "it" ∷ "its" ∷ "at" ∷ "from" ∷ "any" ∷ "not" ∷ "shall"
    ∷ [])

unfoldable pub significant_words : String → List Word
unfolding lower letter_runs contains_word distinct stopwords
significant_words text = distinct (
    filter (λ w. not (contains_word w stopwords))
      (filter (λ run. leb 3 (length run)) (letter_runs (lower (codes text)))))

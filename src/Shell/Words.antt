-- ===== src/Shell/Words.antt =====
-- The words of a command line, and a text without what trails behind it.
use sysu_os.Base.{
  ℕ, zero, suc, ◌<◌, ◌≤◌, ◌≡◌, refl, sym, ap, ap₂, ◌∙◌, Bool, true, false, if◌then◌else◌, List, [],
  ◌∷◌, ◌++◌, length, get_or, take, drop, Text, arith, Bool-cases, inl, inr,
}
use sysu_os.Shell.{is_blank, read_word, skip_spaces, words_loop, trim_loop}

abbrev pub extend : ℕ → List Text → List Text
extend c [] = (c ∷ []) ∷ []
extend c (word ∷ words) = (c ∷ word) ∷ words

abbrev pub starts_word : Text → Bool
starts_word [] = false
starts_word (c ∷ s) = if is_blank c then false else true

-- the longest pieces without blanks
unfoldable pub words : Text → List Text
words [] = []
words (c ∷ s) =
    let rest = words s in
    if is_blank c then rest else if starts_word s then extend c rest else (c ∷ []) ∷ rest

words_blank : (c : ℕ) (s : Text) → is_blank c ≡ true → words (c ∷ s) ≡ words s
unfolding words
words_blank c s blank = rw blank refl

words-skip_spaces : (s : Text) → words (skip_spaces s) ≡ words s
unfolding skip_spaces
words-skip_spaces [] = refl
words-skip_spaces (c ∷ s) = elim (Bool-cases (is_blank c)) [
  | inl blank ↦ rw (blank, words_blank c s blank) (words-skip_spaces s)
  | inr other ↦ rw other refl
]

read_word_other :
    (c : ℕ) (s : Text)
    → is_blank c ≡ false
    → read_word (c ∷ s) ≡ (c ∷ (read_word s).0, (read_word s).1)
unfolding read_word
read_word_other c s other = rw other refl

read_word_blank : (c : ℕ) (s : Text) → is_blank c ≡ true → read_word (c ∷ s) ≡ ([], c ∷ s)
unfolding read_word
read_word_blank c s blank = rw blank refl

read_word_end : read_word [] ≡ ([], [])
unfolding read_word
read_word_end = refl

words_glue :
    (c : ℕ) (s : Text)
    → is_blank c ≡ false
    → starts_word s ≡ true
    → words (c ∷ s) ≡ extend c (words s)
unfolding words
words_glue c s other more = rw (other, more) refl

words_end : words [] ≡ []
unfolding words
words_end = refl

words-read_word :
    (c : ℕ) (s : Text)
    → is_blank c ≡ false
    → words (c ∷ s) ≡ (c ∷ (read_word s).0) ∷ words (read_word s).1
unfolding words
words-read_word c [] other = rw (other, read_word_end) refl
words-read_word c (d ∷ s) other = elim (Bool-cases (is_blank d)) [
  | inl blank ↦ rw (other, read_word_blank d s blank, blank) refl
  | inr more ↦
      let starts : starts_word (d ∷ s) ≡ true = rw more refl in
      words_glue c (d ∷ s) other starts
      ∙ ap (extend c) (words-read_word d s more)
      ∙ ap (λ r. (c ∷ r.0) ∷ words r.1) (sym (read_word_other d s more))
]

words-behind : (s : Text) → words (drop 1 (read_word s).1) ≡ words (read_word s).1
words-behind [] = rw read_word_end refl
words-behind (c ∷ s) = elim (Bool-cases (is_blank c)) [
  | inl blank ↦ rw (read_word_blank c s blank) (sym (words_blank c s blank))
  | inr other ↦ rw (read_word_other c s other) (words-behind s)
]

abbrev pub IsSkipped : Text → Type 0
IsSkipped [] = Unit
IsSkipped (c ∷ s) = is_blank c ≡ false

pub skip_spaces-IsSkipped : (s : Text) → IsSkipped (skip_spaces s)
unfolding skip_spaces
skip_spaces-IsSkipped [] = tt
skip_spaces-IsSkipped (c ∷ s) = elim (Bool-cases (is_blank c)) [
  | inl blank ↦ rw blank (skip_spaces-IsSkipped s)
  | inr other ↦ rw other other
]

pub words_loop_lem : (room : ℕ) (s : Text) → IsSkipped s → words_loop room s ≡ take room (words s)
unfolding words_loop
words_loop_lem zero s skipped = refl
words_loop_lem (suc room) [] skipped = rw words_end refl
words_loop_lem (suc room) (c ∷ s) skipped =
    let after = (read_word s).1 in
    let rest =
      words_loop_lem room (skip_spaces (drop 1 after)) (skip_spaces-IsSkipped (drop 1 after)) in
    rw (skipped, words-read_word c s skipped)
      (ap ((c ∷ (read_word s).0) ∷◌)
        (rest ∙ ap (take room) (words-skip_spaces (drop 1 after) ∙ words-behind s)))

-- a text without the bytes at its end that pass a test
abbrev pub keep : (ℕ → Bool) → ℕ → Text → Text
keep test c [] = if test c then [] else c ∷ []
keep test c (d ∷ s) = c ∷ d ∷ s

unfoldable pub strip : (ℕ → Bool) → Text → Text
strip test [] = []
strip test (c ∷ s) = keep test c (strip test s)

starts_word-keep : (c : ℕ) (s : Text) → starts_word (keep is_blank c s) ≡ starts_word (c ∷ s)
starts_word-keep c [] = elim (Bool-cases (is_blank c)) [
  | inl blank ↦ rw blank refl
  | inr other ↦ rw other (rw other refl)
]
starts_word-keep c (d ∷ s) = refl

starts_word-strip : (s : Text) → starts_word (strip is_blank s) ≡ starts_word s
unfolding strip
starts_word-strip [] = refl
starts_word-strip (c ∷ s) = starts_word-keep c (strip is_blank s)

words-keep : (c : ℕ) (s : Text) → words (keep is_blank c s) ≡ words (c ∷ s)
unfolding words
words-keep c [] = elim (Bool-cases (is_blank c)) [
  | inl blank ↦ rw blank refl
  | inr other ↦ rw other (rw other refl)
]
words-keep c (d ∷ s) = refl

words_same :
    (c : ℕ) (s t : Text)
    → words s ≡ words t
    → starts_word s ≡ starts_word t
    → words (c ∷ s) ≡ words (c ∷ t)
unfolding words
words_same c s t e h =
    ap₂ (λ b rest. if is_blank c then rest else if b then extend c rest else (c ∷ []) ∷ rest) h e

-- Blanks at the end of a text do not matter to its words.
pub words-strip : (s : Text) → words (strip is_blank s) ≡ words s
unfolding strip
words-strip [] = refl
words-strip (c ∷ s) =
    words-keep c (strip is_blank s)
    ∙ words_same c (strip is_blank s) s (words-strip s) (starts_word-strip s)

keep_snoc :
    (test : ℕ → Bool) (d : ℕ) (t : Text) (c : ℕ) → keep test d (t ++ (c ∷ [])) ≡ d ∷ (t ++ (c ∷ []))
keep_snoc test d [] c = refl
keep_snoc test d (e ∷ t) c = refl

strip_snoc :
    (test : ℕ → Bool) (t : Text) (c : ℕ)
    → strip test (t ++ (c ∷ [])) ≡ (if test c then strip test t else t ++ (c ∷ []))
unfolding strip
strip_snoc test [] c = refl
strip_snoc test (d ∷ t) c = elim (Bool-cases (test c)) [
  | inl hit ↦ rw (strip_snoc test t c, hit) refl
  | inr miss ↦ rw (strip_snoc test t c, miss) (keep_snoc test d t c)
]

take_snoc : (s : Text) (n : ℕ) → n < length s → take (suc n) s ≡ take n s ++ (get_or s n 0 ∷ [])
take_snoc [] n less = absurd (omega arith)
take_snoc (c ∷ s) zero less = refl
take_snoc (c ∷ s) (suc n) less = ap (c ∷◌) (take_snoc s n (omega arith))

strip_end : (test : ℕ → Bool) → strip test [] ≡ []
unfolding strip
strip_end test = refl

pub trim_loop-strip :
    (test : ℕ → Bool) (n : ℕ) (s : Text) → n ≤ length s → trim_loop test n s ≡ strip test (take n s)
unfolding trim_loop
trim_loop-strip test zero s fits = sym (strip_end test)
trim_loop-strip test (suc n) s fits = elim (Bool-cases (test (get_or s n 0))) [
  | inl hit ↦
      rw (take_snoc s n (omega arith), strip_snoc test (take n s) (get_or s n 0), hit)
        (trim_loop-strip test n s (omega arith))
  | inr miss ↦
      rw (take_snoc s n (omega arith), strip_snoc test (take n s) (get_or s n 0), miss) refl
]

take_all : (s : Text) → take (length s) s ≡ s
take_all [] = refl
take_all (c ∷ s) = ap (c ∷◌) (take_all s)

pub trim_all : (test : ℕ → Bool) (s : Text) → trim_loop test (length s) s ≡ strip test s
trim_all test s = trim_loop-strip test (length s) s (omega arith) ∙ ap (strip test) (take_all s)

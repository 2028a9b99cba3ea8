-- ===== src/Shell/Line.antt =====
-- `parse_line` against the words of the line.
use sysu_os.Base.{
  ℕ, zero, suc, ltb, ◌≡◌, refl, ap, ◌∙◌, Bool, true, false, if◌then◌else◌, [], ◌∷◌, length, take,
  Text,
}
use sysu_os.Shell.{
  is_blank, is_newline, trim_newline, trim_tail, skip_spaces, words_loop, ends_in, Command,
  parse_command, parse_line,
}
use sysu_os.Shell.Words.{
  keep, words, strip, words-strip, words_loop_lem, IsSkipped, skip_spaces-IsSkipped, trim_all,
}

trim_newline-strip : (s : Text) → trim_newline s ≡ strip is_newline s
unfolding trim_newline
trim_newline-strip s = trim_all is_newline s

trim_tail-strip : (s : Text) → trim_tail s ≡ strip is_blank s
unfolding trim_tail
trim_tail-strip s = trim_all is_blank s

-- a command that has words: the first 15 of them, but for an ampersand at its end
abbrev pub command : Text → Command
command [] = ([], false, false)
command (c ∷ cmd) =
    let bg = ends_in b'&' (c ∷ cmd) in
    let argv = take 15 (words (if bg then take (length cmd) (c ∷ cmd) else c ∷ cmd)) in
    (argv, bg, ltb 0 (length argv))

keep-IsSkipped : (c : ℕ) (s : Text) → is_blank c ≡ false → IsSkipped (keep is_blank c s)
keep-IsSkipped c [] other = rw other other
keep-IsSkipped c (d ∷ s) other = other

strip-IsSkipped : (s : Text) → IsSkipped s → IsSkipped (strip is_blank s)
unfolding strip
strip-IsSkipped [] skipped = tt
strip-IsSkipped (c ∷ s) skipped = keep-IsSkipped c (strip is_blank s) skipped

take-IsSkipped : (n : ℕ) (s : Text) → IsSkipped s → IsSkipped (take n s)
take-IsSkipped zero s skipped = tt
take-IsSkipped (suc n) [] skipped = tt
take-IsSkipped (suc n) (c ∷ s) skipped = skipped

-- the words of a command, with or without the ampersand
words_loop_bg :
    (bg : Bool) (s t : Text)
    → IsSkipped s
    → IsSkipped t
    → words_loop 15 (if bg then trim_tail s else t) ≡ take 15 (words (if bg then s else t))
words_loop_bg true s t skipped skipped' =
    ap (words_loop 15) (trim_tail-strip s)
    ∙ words_loop_lem 15 (strip is_blank s) (strip-IsSkipped s skipped)
    ∙ ap (take 15) (words-strip s)
words_loop_bg false s t skipped skipped' = words_loop_lem 15 t skipped'

parse_command-command : (cmd : Text) → IsSkipped cmd → parse_command cmd ≡ command cmd
unfolding parse_command
parse_command-command [] skipped = refl
parse_command-command (c ∷ cmd) skipped =
    ap (λ argv. (argv, ends_in b'&' (c ∷ cmd), ltb 0 (length argv)))
      (words_loop_bg (ends_in b'&' (c ∷ cmd)) (take (length cmd) (c ∷ cmd)) (c ∷ cmd)
        (take-IsSkipped (length cmd) (c ∷ cmd) skipped) skipped)

-- `parse_line` drops the line breaks and then the blanks at the end of the line and the blanks at its
-- start. Of what is left, unless it is empty, it takes the first 15 words to `argv`, and an
-- ampersand at the end sets `bg` and is no part of the words.
pub parse_line-command :
    (line : Text) → parse_line line ≡ command (skip_spaces (strip is_blank (strip is_newline line)))
unfolding parse_line
parse_line-command line =
    ap parse_command (
      ap skip_spaces
        (trim_tail-strip (trim_newline line) ∙ ap (strip is_blank) (trim_newline-strip line)))
    ∙ parse_command-command (skip_spaces (strip is_blank (strip is_newline line)))
        (skip_spaces-IsSkipped (strip is_blank (strip is_newline line)))

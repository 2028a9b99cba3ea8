-- ===== src/Printf/Plain.antt =====
-- Plain text in the format of `vsprintf_callback`.
use sysu_os.Base.{
  ℕ, zero, suc, ◌+◌, ◌<◌, ◌==◌, ◌≡◌, refl, sym, ap, ◌∙◌, true, false, if◌then◌else◌, List, [], ◌∷◌,
  ◌++◌, length, Text, arith, Bool-cases, inl, inr, ==→eq, subst,
}
use sysu_os.Printf.{
  Argument, Printed, printed, rejected, undefined, spent, after, print_loop, vsprintf_callback,
}
use sysu_os.Printf.Ends.{print_loop_enough}

-- a text as a format that prints it
pub escape : Text → Text
escape [] = []
escape (c ∷ t) = let rest = escape t in if c == b'%' then c ∷ c ∷ rest else c ∷ rest

print_plain :
    (fuel c : ℕ) (fmt : Text) (args : List Argument)
    → (c == b'%') ≡ false
    → print_loop (suc fuel) (c ∷ fmt) args ≡ after (c ∷ [], 1) (print_loop fuel fmt args)
unfolding print_loop
print_plain fuel c [] args plain = rw plain refl
print_plain fuel c (d ∷ fmt) args plain = rw plain refl

print_percent :
    (fuel c : ℕ) (fmt : Text) (args : List Argument)
    → (c == b'%') ≡ true
    → print_loop (suc fuel) (c ∷ c ∷ fmt) args ≡ after (c ∷ [], 1) (print_loop fuel fmt args)
unfolding print_loop
print_percent fuel c fmt args percent = rw (==→eq c b'%' percent) refl

escape_percent : (c : ℕ) (t : Text) → (c == b'%') ≡ true → escape (c ∷ t) ≡ c ∷ c ∷ escape t
unfolding escape
escape_percent c t percent = rw percent refl

escape_plain : (c : ℕ) (t : Text) → (c == b'%') ≡ false → escape (c ∷ t) ≡ c ∷ escape t
unfolding escape
escape_plain c t plain = rw plain refl

after-after :
    (c n : ℕ) (t : Text) (p : Printed) → after (c ∷ [], 1) (after (t, n) p) ≡ after (c ∷ t, suc n) p
after-after c n t (printed s m) = ap (printed (c ∷ (t ++ s))) (omega arith)
after-after c n t (rejected s) = refl
after-after c n t undefined = refl
after-after c n t spent = refl

after_nothing : (p : Printed) → p ≡ after ([], 0) p
after_nothing (printed s m) = ap (printed s) (omega arith)
after_nothing (rejected s) = refl
after_nothing undefined = refl
after_nothing spent = refl

print_loop-escape :
    (fuel : ℕ) (t fmt : Text) (args : List Argument)
    → length (escape t ++ fmt) < fuel
    → print_loop fuel (escape t ++ fmt) args
      ≡ after (t, length t) (print_loop (length fmt + 1) fmt args)
unfolding escape
print_loop-escape zero t fmt args enough = absurd (omega arith)
print_loop-escape (suc fuel) [] fmt args enough =
    print_loop_enough (suc fuel) (length fmt + 1) fmt args enough (omega arith)
    ∙ after_nothing (print_loop (length fmt + 1) fmt args)
print_loop-escape (suc fuel) (c ∷ t) fmt args enough =
    let rest = print_loop (length fmt + 1) fmt args in
    elim (Bool-cases (c == b'%')) [
      | inl percent ↦
          let e = escape_percent c t percent in
          let short = subst (λ s. length (s ++ fmt) < suc fuel) e enough in
          subst (λ s. print_loop (suc fuel) (s ++ fmt) args ≡ after (c ∷ t, suc (length t)) rest)
            (sym e)
            (print_percent fuel c (escape t ++ fmt) args percent
              ∙ ap (after (c ∷ [], 1)) (print_loop-escape fuel t fmt args (omega arith))
              ∙ after-after c (length t) t rest)
      | inr plain ↦
          let e = escape_plain c t plain in
          let short = subst (λ s. length (s ++ fmt) < suc fuel) e enough in
          subst (λ s. print_loop (suc fuel) (s ++ fmt) args ≡ after (c ∷ t, suc (length t)) rest)
            (sym e)
            (print_plain fuel c (escape t ++ fmt) args plain
              ∙ ap (after (c ∷ [], 1)) (print_loop-escape fuel t fmt args (omega arith))
              ∙ after-after c (length t) t rest)
    ]

-- A text whose percent signs are doubled, in front of any format, is printed and counted as it is,
-- and the rest of the format then as on its own.
pub vsprintf_callback-escape :
    (t fmt : Text) (args : List Argument)
    → vsprintf_callback (escape t ++ fmt) args ≡ after (t, length t) (vsprintf_callback fmt args)
unfolding vsprintf_callback
vsprintf_callback-escape t fmt args =
    print_loop-escape (length (escape t ++ fmt) + 1) t fmt args (omega arith)

-- ===== src/Printf/Ends.antt =====
-- The walk of `vsprintf_callback` over a format ends: the fuel of its loops is enough.
use sysu_os.Base.{
  ℕ, zero, suc, ◌+◌, ◌-◌, ◌*◌, ◌%◌, ◌^◌, ◌≤◌, ◌<◌, ◌==◌, ◌≡◌, refl, ap, true, false, if◌then◌else◌,
  Option, none, some, List, [], ◌∷◌, length, Text, arith, Bool-cases, inl, inr,
}
use sysu_os.Printf.{
  Format, init_format, is_digit, is_specifier, read_width, modifier, analyse_format, Argument,
  Printed, rejected, undefined, after, converted, analysed, print_loop, default_width, convert,
}

-- The width that `read_width` reads is in front of the rest.
read_width_shorter : (fmt : Text) (sum : ℕ) → length (read_width fmt sum).1 ≤ length fmt
unfolding read_width
read_width_shorter [] sum = omega arith
read_width_shorter (c ∷ fmt) sum = elim (Bool-cases (is_digit c)) [
  | inl digit ↦ rw digit (omega (arith, read_width_shorter fmt ((sum * 10 + (c - b'0')) % 2 ^ 32)))
  | inr other ↦ rw other (omega arith)
]

read_width_digit :
    (c : ℕ) (fmt : Text) (sum : ℕ)
    → is_digit c ≡ true
    → read_width (c ∷ fmt) sum ≡ read_width fmt ((sum * 10 + (c - b'0')) % 2 ^ 32)
unfolding read_width
read_width_digit c fmt sum digit = rw digit refl

modifier_shorter : (f : Format) (c : ℕ) (fmt : Text) → length (modifier f c fmt).1 ≤ length fmt
unfolding modifier
modifier_shorter f c fmt = elim (Bool-cases (c == b'0')) [
  | inl h ↦ rw h (omega arith)
  | inr h₀ ↦ rw h₀ (elim (Bool-cases (c == b'-')) [
    | inl h ↦ rw h (omega arith)
    | inr h₁ ↦ rw h₁ (elim (Bool-cases (c == b'l')) [
      | inl h ↦ rw h (omega arith)
      | inr h₂ ↦ rw h₂ (elim (Bool-cases (is_digit c)) [
        | inl digit ↦ rw digit (elim (Bool-cases (f.width == default_width)) [
          | inl h ↦ rw h (read_width_shorter fmt ((0 * 10 + (c - b'0')) % 2 ^ 32))
          | inr h ↦ rw h (omega arith)
        ])
        | inr h ↦ rw h (omega arith)
      ])
    ])
  ])
]

-- what `analyse_format` makes of a format, with enough fuel
abbrev IsAnalysed : Text → Option (Format × Text) → Type 0
IsAnalysed fmt o = (f : Format) × (rest : Text) × (o ≡ some (f, rest)) × (length rest ≤ length fmt)

analyse_format-IsAnalysed :
    (fuel : ℕ) (fmt : Text) (f : Format)
    → length fmt < fuel
    → IsAnalysed fmt (analyse_format fuel fmt f)
unfolding analyse_format
analyse_format-IsAnalysed zero fmt f enough = absurd (omega arith)
analyse_format-IsAnalysed (suc fuel) [] f enough =
    (record f { valid = false }, [], refl, omega arith)
analyse_format-IsAnalysed (suc fuel) (c ∷ fmt) f enough = elim (Bool-cases (is_specifier c)) [
  | inl last ↦ rw last (record f { specifier = c }, fmt, refl, omega arith)
  | inr other ↦
      let f' = (modifier f c fmt).0 in
      let rest = (modifier f c fmt).1 in
      let shorter = modifier_shorter f c fmt in
      rw other (elim (Bool-cases f'.valid) [
        | inl valid ↦
            let (f'', rest', e, short) = analyse_format-IsAnalysed fuel rest f' (omega arith) in
            rw valid (f'', rest', e, omega arith)
        | inr bad ↦ rw bad (f', rest, refl, omega arith)
      ])
]

converted_same :
    (go go' : Text → List Argument → Printed) (f : Format) (fmt : Text) (args : List Argument)
    → ((args' : List Argument) → go fmt args' ≡ go' fmt args')
    → converted go f fmt args ≡ converted go' f fmt args
converted_same go go' f fmt [] h = refl
converted_same go go' f fmt (a ∷ args) h =
    ap (λ p. elim (convert f a) [ none ↦ undefined | some o ↦ after o p ]) (h args)

pub print_loop_enough :
    (m n : ℕ) (fmt : Text) (args : List Argument)
    → length fmt < m
    → length fmt < n
    → print_loop m fmt args ≡ print_loop n fmt args
unfolding print_loop
print_loop_enough zero n fmt args h k = absurd (omega arith)
print_loop_enough (suc m) zero fmt args h k = absurd (omega arith)
print_loop_enough (suc m) (suc n) [] args h k = refl
print_loop_enough (suc m) (suc n) (c ∷ []) args h k =
    rw (print_loop_enough m n [] args (omega arith) (omega arith)) refl
print_loop_enough (suc m) (suc n) (c ∷ d ∷ fmt) args h k =
    let (f, rest, e, short) =
      analyse_format-IsAnalysed (length fmt + 2) (d ∷ fmt) init_format (omega arith) in
    let conversion : analysed (λ fmt' args'. print_loop m fmt' args') args (some (f, rest))
        ≡ analysed (λ fmt' args'. print_loop n fmt' args') args (some (f, rest)) =
      ap (λ p. if f.valid then p else rejected [])
        (converted_same (λ fmt' args'. print_loop m fmt' args')
          (λ fmt' args'. print_loop n fmt' args') f rest args
          (λ args'. print_loop_enough m n rest args' (omega arith) (omega arith))) in
    rw
      (
        print_loop_enough m n fmt args (omega arith) (omega arith),
        print_loop_enough m n (d ∷ fmt) args (omega arith) (omega arith),
        e,
        conversion,
      )
      refl

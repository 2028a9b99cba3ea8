-- ===== src/Printf/Numbers.antt =====
-- The digits that `unsign_decify`, `sign_decify` and `hexify` write, against readers of them.
use sysu_os.Base.{
  ℕ, zero, suc, ◌+◌, ◌-◌, ◌*◌, ◌/◌, ◌%◌, ◌^◌, ◌<◌, ◌==◌, ◌≡◌, refl, sym, ap, ◌∙◌, true, false,
  if◌then◌else◌, ltb, leb, [], ◌∷◌, Text, arith, Bool-cases, inl, inr, ==→eq, ltb→le, subst,
}
use sysu_os.Printf.{decify_loop, unsign_decify, sign_decify, hexify_loop, hexify, is_negative}
use sysu_os.Shell.{parse_int, parse_loop}

-- do `fuel` divisions by ten, by 16, bring a number to 0?
abbrev pub TenEnough : ℕ → ℕ → Type 0
TenEnough zero n = n ≡ 0
TenEnough (suc fuel) n = TenEnough fuel (n / 10)

abbrev pub HexEnough : ℕ → ℕ → Type 0
HexEnough zero n = n ≡ 0
HexEnough (suc fuel) n = HexEnough fuel (n / 16)

parse_loop_digit :
    (n : ℕ) (out : Text)
    → n < 2 ^ 32
    → parse_loop (n / 10) ((b'0' + n % 10) ∷ out) ≡ parse_loop n out
unfolding parse_loop
parse_loop_digit n out small =
    let value : (n / 10 * 10 + (b'0' + n % 10 - b'0')) % 2 ^ 32 ≡ n = omega arith in
    let low : leb b'0' (b'0' + n % 10) ≡ true = ground arith in
    let high : leb (b'0' + n % 10) b'9' ≡ true = ground arith in rw (value, low, high) refl

-- The digits of `n` in front of a text are read as `n`.
parse_loop-decify_loop :
    (fuel n : ℕ) (out : Text)
    → n < 2 ^ 32
    → TenEnough fuel n
    → parse_loop 0 (decify_loop fuel n out) ≡ parse_loop n out
unfolding decify_loop
parse_loop-decify_loop zero n out small enough = rw enough refl
parse_loop-decify_loop (suc fuel) n out small enough = elim (Bool-cases (n == 0)) [
  | inl done ↦ rw (done, ==→eq n 0 done) refl
  | inr more ↦ rw more (
      parse_loop-decify_loop fuel (n / 10) ((b'0' + n % 10) ∷ out) (omega arith) enough
      ∙ parse_loop_digit n out small)
]

ten_enough : (n : ℕ) → n < 2 ^ 32 → TenEnough 10 n
ten_enough n small = omega arith

hex_enough : (n : ℕ) → n < 2 ^ 32 → HexEnough 8 n
hex_enough n small = omega arith

unsign_some : (n : ℕ) → (n == 0) ≡ false → unsign_decify n ≡ decify_loop 10 n []
unfolding unsign_decify
unsign_some n some = ap (λ b. if b then b'0' ∷ [] else decify_loop 10 n []) some

unsign_zero : unsign_decify 0 ≡ b'0' ∷ []
unfolding unsign_decify
unsign_zero = refl

parse_int_lem : (s : Text) → parse_int s ≡ parse_loop 0 s
unfolding parse_int
parse_int_lem s = refl

parse_zero : parse_loop 0 (b'0' ∷ []) ≡ 0
unfolding parse_loop
parse_zero = refl

parse_end : (n : ℕ) → parse_loop n [] ≡ n
unfolding parse_loop
parse_end n = refl

-- For a number of 32 bits `parse_int` of the shell reads what `unsign_decify` writes.
pub parse_int-unsign_decify : (n : ℕ) → n < 2 ^ 32 → parse_int (unsign_decify n) ≡ n
parse_int-unsign_decify n small = elim (Bool-cases (n == 0)) [
  | inl none ↦ rw (==→eq n 0 none, unsign_zero, parse_int_lem (b'0' ∷ [])) parse_zero
  | inr more ↦
      rw (unsign_some n more, parse_int_lem (decify_loop 10 n []))
        (parse_loop-decify_loop 10 n [] small (ten_enough n small) ∙ parse_end n)
]

-- what `sign_decify` writes behind the sign
digits : ℕ → Text
digits number =
    if number == 0 then b'0' ∷ [] else if is_negative number then [] else decify_loop 10 number []

sign_plus : (n : ℕ) → is_negative n ≡ false → sign_decify n ≡ digits n
unfolding sign_decify digits
sign_plus n plus =
    ap
      (λ b.
        let number = if b then (2 ^ 32 - n) % 2 ^ 32 else n in
        if b then b'-' ∷ digits number else digits number)
      plus

sign_minus : (n : ℕ) → is_negative n ≡ true → sign_decify n ≡ b'-' ∷ digits ((2 ^ 32 - n) % 2 ^ 32)
unfolding sign_decify digits
sign_minus n minus =
    ap
      (λ b.
        let number = if b then (2 ^ 32 - n) % 2 ^ 32 else n in
        if b then b'-' ∷ digits number else digits number)
      minus

digits_least : digits (2 ^ 31) ≡ []
unfolding digits
digits_least = refl

digits-unsign_decify : (n : ℕ) → is_negative n ≡ false → digits n ≡ unsign_decify n
unfolding digits unsign_decify
digits-unsign_decify n plus =
    ap (λ b. if n == 0 then b'0' ∷ [] else if b then [] else decify_loop 10 n []) plus

negative_digits :
    (n : ℕ)
    → n < 2 ^ 32
    → ltb n (2 ^ 31) ≡ false
    → b'-' ∷ digits (2 ^ 32 - n)
      ≡ (if n == 2 ^ 31 then b'-' ∷ [] else b'-' ∷ unsign_decify (2 ^ 32 - n))
negative_digits n small more = elim (Bool-cases (n == 2 ^ 31)) [
  | inl least ↦ rw (least, ==→eq n (2 ^ 31) least) (ap (b'-' ∷◌) digits_least)
  | inr other ↦
      let plus : is_negative (2 ^ 32 - n) ≡ false = ground arith in
      rw other (ap (b'-' ∷◌) (digits-unsign_decify (2 ^ 32 - n) plus))
]

-- For a number of 32 bits `sign_decify` writes the digits of a number below 2^31 as `unsign_decify`
-- does; for a negative one a minus in front of the digits of its absolute value, but for the least
-- number, which it writes as a minus alone.
pub sign_decify-unsign_decify :
    (n : ℕ)
    → n < 2 ^ 32
    → sign_decify n ≡ (
        if ltb n (2 ^ 31)
        then unsign_decify n
        else if n == 2 ^ 31
        then b'-' ∷ []
        else b'-' ∷ unsign_decify (2 ^ 32 - n))
sign_decify-unsign_decify n small = elim (Bool-cases (ltb n (2 ^ 31))) [
  | inl less ↦
      let sign : is_negative n ≡ false = ground arith in
      rw (less, sign_plus n sign) (digits-unsign_decify n sign)
  | inr more ↦
      let sign : is_negative n ≡ true = ground arith in
      let value : (2 ^ 32 - n) % 2 ^ 32 ≡ 2 ^ 32 - n = omega (arith, ltb→le n (2 ^ 31) more) in
      rw (more, sign_minus n sign, value) (negative_digits n small more)
]

-- the value of a digit of `hexify`, and of a text of them
abbrev pub hex_digit : ℕ → ℕ
hex_digit c = if ltb c b'a' then c - b'0' else c + 10 - b'a'

unfoldable pub hex_value : ℕ → Text → ℕ
hex_value v [] = v
hex_value v (c ∷ s) = hex_value (v * 16 + hex_digit c) s

hex_value-digit :
    (n : ℕ) (out : Text)
    → hex_value (n / 16) ((if ltb (n % 16) 10 then b'0' + n % 16 else b'a' + n % 16 - 10) ∷ out)
      ≡ hex_value n out
unfolding hex_value
hex_value-digit n out = ap (λ v. hex_value v out) (ground arith)

hex_value-hexify_loop :
    (fuel n : ℕ) (out : Text)
    → HexEnough fuel n
    → hex_value 0 (hexify_loop fuel n out) ≡ hex_value n out
unfolding hexify_loop
hex_value-hexify_loop zero n out enough = rw enough refl
hex_value-hexify_loop (suc fuel) n out enough = elim (Bool-cases (n == 0)) [
  | inl done ↦ rw (done, ==→eq n 0 done) refl
  | inr more ↦ rw more (
      hex_value-hexify_loop fuel (n / 16)
        ((if ltb (n % 16) 10 then b'0' + n % 16 else b'a' + n % 16 - 10) ∷ out) enough
      ∙ hex_value-digit n out)
]

-- For a number of 32 bits the digits that `hexify` writes have its value in base 16.
pub hex_value-hexify : (n : ℕ) → n < 2 ^ 32 → hex_value 0 (hexify n) ≡ n
unfolding hexify hex_value
hex_value-hexify n small = elim (Bool-cases (n == 0)) [
  | inl none ↦ subst (λ k. hex_value 0 (hexify k) ≡ k) (sym (==→eq n 0 none)) refl
  | inr more ↦
      ap (λ b. hex_value 0 (if b then b'0' ∷ [] else hexify_loop 8 n [])) more
      ∙ hex_value-hexify_loop 8 n [] (hex_enough n small)
]

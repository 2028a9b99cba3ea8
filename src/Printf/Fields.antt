-- ===== src/Printf/Fields.antt =====
-- The fields of `%d`, `%u` and `%x`: the sign, the padding and the digits, and the count.
use sysu_os.Base.{
  ℕ, suc, ◌-◌, ◌<◌, ◌^◌, ◌==◌, ◌≡◌, refl, sym, ap, ap₂, true, false, not, ◌&&◌, if◌then◌else◌, ltb,
  max, [], ◌∷◌, ◌++◌, length, Text, arith, Bool-cases, inl, inr, ==→eq,
}
use mathlib.Core.List.{append-nil}
use sysu_os.Printf.{Format, Output, repeat, tail, starts_with_minus, signed_field, is_negative}

-- the minus of a number, and what stands behind it
abbrev pub sign : Text → Text
sign str = if starts_with_minus str then b'-' ∷ [] else []

abbrev pub magnitude : Text → Text
magnitude str = if starts_with_minus str then tail str else str

-- a number in a field of a width
abbrev pub layout : Format → Text → Text
layout f str =
    let pad = f.width - length str in
    if f.left_align
    then str ++ repeat pad b' '
    else if f.zero_pad
    then sign str ++ (repeat pad b'0' ++ magnitude str)
    else repeat pad b' ' ++ str

sign-magnitude : (str : Text) → sign str ++ magnitude str ≡ str
sign-magnitude [] = refl
sign-magnitude (c ∷ str) = elim (Bool-cases (c == b'-')) [
  | inl minus ↦ rw minus (ap (◌∷ str) (sym (==→eq c b'-' minus)))
  | inr plus ↦ rw plus refl
]

minus_tail : (str : Text) → starts_with_minus str ≡ true → b'-' ∷ tail str ≡ str
minus_tail [] minus = absurd (ground arith)
minus_tail (c ∷ str) minus = ap (◌∷ str) (sym (==→eq c b'-' minus))

minus_length : (str : Text) → starts_with_minus str ≡ true → length str ≡ suc (length (tail str))
minus_length str minus = ap length (sym (minus_tail str minus))

same : {s t : Text} {n m : ℕ} → s ≡ t → n ≡ m → Path Output (s, n) (t, m)
same e h = ap₂ (λ s n. (s, n)) e h

-- is there a minus that is not counted?
abbrev pub uncounted : Format → Text → ℕ
uncounted f str =
    if starts_with_minus str && not f.left_align && ltb (length str) f.width then 1 else 0

module _ (f : Format) (str : Text) (small : f.width < 2 ^ 31) where
  plus : is_negative (f.width - length str) ≡ false
  plus = ground arith

  -- a width of at most the length of the text
  tight : ltb (length str) f.width ≡ false → layout f str ≡ str
  tight less =
      let none : f.width - length str ≡ 0 = ground arith in
      rw none (elim (Bool-cases f.left_align) [
        | inl left ↦ rw left (append-nil str)
        | inr right ↦ rw right (elim (Bool-cases f.zero_pad) [
          | inl zeros ↦ rw zeros (sign-magnitude str)
          | inr blanks ↦ rw blanks refl
        ])
      ])

  wide :
      ltb (length str) f.width ≡ true
      → signed_field f str ≡ (layout f str, max f.width (length str) - uncounted f str)
  unfolding signed_field
  wide more =
      rw (more, plus)
        (elim (Bool-cases f.left_align) [
          | inl left ↦ rw left (same refl (ground arith))
          | inr right ↦ rw right (elim (Bool-cases (starts_with_minus str)) [
            | inl minus ↦ rw minus (elim (Bool-cases f.zero_pad) [
              | inl zeros ↦ rw zeros (same refl (ground (arith, minus_length str minus)))
              | inr blanks ↦ rw blanks (
                  same (ap (repeat (f.width - length str) b' ' ++◌) (minus_tail str minus))
                    (ground (arith, minus_length str minus)))
            ])
            | inr other ↦ rw other (elim (Bool-cases f.zero_pad) [
              | inl zeros ↦ rw zeros (same refl (ground arith))
              | inr blanks ↦ rw blanks (same refl (ground arith))
            ])
          ])
        ])

  -- In a field of less than 2^31 bytes a number stands with its sign, its digits and the padding that
  -- the flags ask for, and the count is the length of the field, but one less where a minus stands
  -- in a padded field that is not aligned to the left.
  pub signed_field-layout :
      signed_field f str ≡ (layout f str, max f.width (length str) - uncounted f str)
  unfolding signed_field
  signed_field-layout = elim (Bool-cases (ltb (length str) f.width)) [
    | inl more ↦ wide more
    | inr less ↦ rw less (same (sym (tight less)) (ground arith))
  ]

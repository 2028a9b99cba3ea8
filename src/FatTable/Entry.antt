-- ===== src/FatTable/Entry.antt =====
-- An entry of 12 bits in the buffer: writing it and reading it back.
use sysu_os.Base.{
  ℕ, ◌+◌, ◌*◌, ◌/◌, ◌%◌, ◌<◌, ◌==◌, ◌≡◌, refl, true, false, if◌then◌else◌, arith, Bool-cases, inl,
  inr,
}
use sysu_os.FatTable.{Buffer, decode_entry, encode_entry}

abbrev pub IsBytes : Buffer → Type 0
IsBytes buf = (o : ℕ) → buf o < 256

-- An even entry `2 * a` takes the byte `3 * a` and the low half of the next one, the odd entry
-- after it the high half of that one and the byte behind.
pub decode_even :
    (buf : Buffer) (idx j a : ℕ)
    → idx % 2 ≡ 0
    → j ≡ 2 * a
    → decode_entry buf idx j ≡ buf (3 * a) + buf (3 * a + 1) % 16 * 256
unfolding decode_entry
decode_even buf idx j a e h =
    let at : j + j / 2 ≡ 3 * a = omega arith in
    let even : (idx % 2 == 0) ≡ true = ground arith in rw (even, at) refl

pub decode_odd :
    (buf : Buffer) (idx j a : ℕ)
    → idx % 2 ≡ 1
    → j ≡ 2 * a + 1
    → decode_entry buf idx j ≡ buf (3 * a + 1) / 16 + buf (3 * a + 2) * 16
unfolding decode_entry
decode_odd buf idx j a e h =
    let at : j + j / 2 ≡ 3 * a + 1 = omega arith in
    let next : 3 * a + 1 + 1 ≡ 3 * a + 2 = omega arith in
    let odd : (idx % 2 == 0) ≡ false = ground arith in rw (odd, at, next) refl

encode_even :
    (buf : Buffer) (idx j a value o : ℕ)
    → idx % 2 ≡ 0
    → j ≡ 2 * a
    → encode_entry buf idx j value o ≡ (
        if o == 3 * a + 1
        then buf (3 * a + 1) / 16 % 16 * 16 + value / 256 % 16
        else if o == 3 * a
        then value % 256
        else buf o)
unfolding encode_entry
encode_even buf idx j a value o e h =
    let at : j + j / 2 ≡ 3 * a = omega arith in
    let even : (idx % 2 == 0) ≡ true = ground arith in
    let apart : (3 * a + 1 == 3 * a) ≡ false = ground arith in rw (even, at, apart) refl

encode_odd :
    (buf : Buffer) (idx j a value o : ℕ)
    → idx % 2 ≡ 1
    → j ≡ 2 * a + 1
    → encode_entry buf idx j value o ≡ (
        if o == 3 * a + 2
        then value / 16 % 256
        else if o == 3 * a + 1
        then buf (3 * a + 1) % 16 + value % 16 * 16
        else buf o)
unfolding encode_entry
encode_odd buf idx j a value o e h =
    let at : j + j / 2 ≡ 3 * a + 1 = omega arith in
    let next : 3 * a + 1 + 1 ≡ 3 * a + 2 = omega arith in
    let odd : (idx % 2 == 0) ≡ false = ground arith in rw (odd, at, next) refl

pub encode_entry-IsBytes :
    (buf : Buffer) (idx j value : ℕ)
    → idx % 2 ≡ j % 2
    → IsBytes buf
    → IsBytes (encode_entry buf idx j value)
encode_entry-IsBytes buf idx j value e bytes o = elim (Bool-cases (j % 2 == 0)) [
  | inl h ↦ ground (arith, encode_even buf idx j (j / 2) value o, bytes o)
  | inr h ↦ ground (arith, encode_odd buf idx j (j / 2) value o, bytes o)
]

module _ (buf : Buffer) (bytes : IsBytes buf) (idx j idx' k value : ℕ) (small : value < 4096) where
  even_even :
      (a b : ℕ)
      → idx % 2 ≡ 0
      → j ≡ 2 * a
      → idx' % 2 ≡ 0
      → k ≡ 2 * b
      → decode_entry (encode_entry buf idx j value) idx' k
        ≡ (if k == j then value else decode_entry buf idx' k)
  even_even a b e h e' h' =
      rw
        (
          decode_even (encode_entry buf idx j value) idx' k b e' h',
          decode_even buf idx' k b e' h',
          encode_even buf idx j a value (3 * b) e h,
          encode_even buf idx j a value (3 * b + 1) e h,
        )
        (ground arith)

  even_odd :
      (a b : ℕ)
      → idx % 2 ≡ 0
      → j ≡ 2 * a
      → idx' % 2 ≡ 1
      → k ≡ 2 * b + 1
      → decode_entry (encode_entry buf idx j value) idx' k
        ≡ (if k == j then value else decode_entry buf idx' k)
  even_odd a b e h e' h' =
      let byte = bytes (3 * a + 1) in
      rw
        (
          decode_odd (encode_entry buf idx j value) idx' k b e' h',
          decode_odd buf idx' k b e' h',
          encode_even buf idx j a value (3 * b + 1) e h,
          encode_even buf idx j a value (3 * b + 2) e h,
        )
        (ground arith)

  odd_even :
      (a b : ℕ)
      → idx % 2 ≡ 1
      → j ≡ 2 * a + 1
      → idx' % 2 ≡ 0
      → k ≡ 2 * b
      → decode_entry (encode_entry buf idx j value) idx' k
        ≡ (if k == j then value else decode_entry buf idx' k)
  odd_even a b e h e' h' =
      rw
        (
          decode_even (encode_entry buf idx j value) idx' k b e' h',
          decode_even buf idx' k b e' h',
          encode_odd buf idx j a value (3 * b) e h,
          encode_odd buf idx j a value (3 * b + 1) e h,
        )
        (ground arith)

  odd_odd :
      (a b : ℕ)
      → idx % 2 ≡ 1
      → j ≡ 2 * a + 1
      → idx' % 2 ≡ 1
      → k ≡ 2 * b + 1
      → decode_entry (encode_entry buf idx j value) idx' k
        ≡ (if k == j then value else decode_entry buf idx' k)
  odd_odd a b e h e' h' =
      rw
        (
          decode_odd (encode_entry buf idx j value) idx' k b e' h',
          decode_odd buf idx' k b e' h',
          encode_odd buf idx j a value (3 * b + 1) e h,
          encode_odd buf idx j a value (3 * b + 2) e h,
        )
        (ground arith)

  -- In a buffer of bytes a written entry of 12 bits reads back, and every other one reads as before.
  pub decode_entry-encode_entry :
      idx % 2 ≡ j % 2
      → idx' % 2 ≡ k % 2
      → decode_entry (encode_entry buf idx j value) idx' k
        ≡ (if k == j then value else decode_entry buf idx' k)
  decode_entry-encode_entry e e' = elim (Bool-cases (j % 2 == 0)) [
    | inl h ↦ elim (Bool-cases (k % 2 == 0)) [
      | inl h' ↦
          even_even (j / 2) (k / 2) (ground arith) (ground arith) (ground arith) (ground arith)
      | inr h' ↦
          even_odd (j / 2) (k / 2) (ground arith) (ground arith) (ground arith) (ground arith)
    ]
    | inr h ↦ elim (Bool-cases (k % 2 == 0)) [
      | inl h' ↦
          odd_even (j / 2) (k / 2) (ground arith) (ground arith) (ground arith) (ground arith)
      | inr h' ↦ odd_odd (j / 2) (k / 2) (ground arith) (ground arith) (ground arith) (ground arith)
    ]
  ]

-- ===== src/Bitmap/Bits.antt =====
-- The bits of a `BitMap`: what `get` answers after a `set`, for every byte and position.
use sysu_os.Base.{
  ℕ, suc, ◌+◌, ◌*◌, ◌/◌, ◌%◌, ◌<◌, ◌≤◌, ◌≡◌, refl, ◌==◌, ltb, leb, Bool, true, false, not, ◌&&◌,
  if◌then◌else◌, arith, every, every-at, Bool-cases, inl, inr, ltb→lt, ◌≢◌, zero, ==→eq, ==→ne, ap,
  sym, ◌∙◌, ◌-◌,
}
use sysu_os.Bitmap.{
  Memory, store, BitMap, bit_test, bit_write, get, set, clear_bytes, initialize, ceil, set_up,
  set_down,
}

abbrev same : Bool → Bool → Bool
same true b = b
same false b = not b

abbrev write_is_right : Bool → ℕ → ℕ → ℕ → Bool
write_is_right s i v j = same (bit_test (bit_write v i s) j) (if i == j then s else bit_test v j)

abbrev write_is_byte : Bool → ℕ → ℕ → Bool
write_is_byte s i v = ltb (bit_write v i s) 256

writes_are_right : ℕ → Bool → Bool
writes_are_right i s = every (λ v. write_is_byte s i v && every (write_is_right s i v) 8) 256

same→eq : (a b : Bool) → same a b ≡ true → a ≡ b
same→eq a b h = ground arith

zero_table : every (λ i. not (bit_test 0 i)) 8 ≡ true
unfolding every bit_test
zero_table = refl

and_parts : (a b : Bool) → (a && b) ≡ true → (a ≡ true) × (b ≡ true)
and_parts a b h = ground arith

no_bit : (i : ℕ) → i < 8 → bit_test 0 i ≡ false
no_bit i h =
    sym (same→eq false (bit_test 0 i) (every-at (λ i. not (bit_test 0 i)) 8 i h zero_table))

table : (s : Bool) → every (λ i. writes_are_right i s) 8 ≡ true
unfolding every bit_test bit_write writes_are_right
table true = refl
table false = refl

bit_table :
    (s : Bool) (v i j : ℕ)
    → v < 256
    → i < 8
    → j < 8
    → (bit_write v i s < 256)
      × (bit_test (bit_write v i s) j ≡ (if i == j then s else bit_test v j))
unfolding writes_are_right
bit_table s v i j hv hi hj =
    let at_i = every-at (λ i. writes_are_right i s) 8 i hi (table s) in
    let at_v =
      every-at (λ v. write_is_byte s i v && every (write_is_right s i v) 8) 256 v hv at_i in
    let parts = and_parts (write_is_byte s i v) (every (write_is_right s i v) 8) at_v in
    (ltb→lt _ _ parts.0, same→eq _ _ (every-at (write_is_right s i v) 8 j hj parts.1))

-- every cell of the memory holds a byte
abbrev pub IsBytes : Memory → Type 0
IsBytes m = (p : ℕ) → m p < 256

pub set-IsBytes : (b : BitMap) (i : ℕ) (s : Bool) → IsBytes b.bitmap → IsBytes (set b i s).bitmap
unfolding set
set-IsBytes b i s bytes p =
    let fits =
      (bit_table s (b.bitmap (i / 8)) (i % 8) 0 (bytes (i / 8)) (omega arith) (omega arith)).0 in
    ground (arith, bytes p)

pub length-set : (b : BitMap) (i : ℕ) (s : Bool) → (set b i s).length ≡ b.length
unfolding set
length-set b i s = refl

-- A `set` changes the bit of its index and no other.
pub get-set :
    (b : BitMap) (i j : ℕ) (s : Bool)
    → IsBytes b.bitmap
    → get (set b i s) j ≡ (if i == j then s else get b j)
unfolding get set
get-set b i j s bytes =
    let law =
      (bit_table s (b.bitmap (i / 8)) (i % 8) (j % 8) (bytes (i / 8)) (omega arith)
        (omega arith)).1 in
    elim (Bool-cases (i / 8 == j / 8)) [
      | inl e ↦
          let at : i / 8 ≡ j / 8 = ==→eq _ _ e in
          elim (Bool-cases (i == j)) [
            | inl e' ↦ let k : i ≡ j = ==→eq _ _ e' in ground (arith, law)
            | inr ne ↦
                let k : i % 8 ≢ j % 8 = λ q. omega (arith, ==→ne _ _ ne) in
                ground (arith, law, ap b.bitmap at)
          ]
      | inr ne ↦ ground arith
    ]

pub set_up_lem :
    (n : ℕ) (b : BitMap) (start : ℕ) (s : Bool)
    → IsBytes b.bitmap
    → IsBytes (set_up n b start s).bitmap
      × ((set_up n b start s).length ≡ b.length)
      × ((j : ℕ)
          → get (set_up n b start s) j ≡ (if leb start j && ltb j (start + n) then s else get b j))
unfolding set_up
set_up_lem zero b start s bytes = (bytes, refl, λ j. ground arith)
set_up_lem (suc n) b start s bytes =
    let rest = set_up_lem n (set b start s) (start + 1) s (set-IsBytes b start s bytes) in
    (
      rest.0,
      rest.1 ∙ length-set b start s,
      λ j. ground (arith, rest.2 j, get-set b start j s bytes),
    )

pub set_down_lem :
    (n : ℕ) (b : BitMap) (start : ℕ)
    → IsBytes b.bitmap
    → n ≤ start + 1
    → IsBytes (set_down n b start).bitmap
      × ((set_down n b start).length ≡ b.length)
      × ((j : ℕ)
          → get (set_down n b start) j
            ≡ (if leb (start + 1) (j + n) && leb j start then true else get b j))
unfolding set_down
set_down_lem zero b start bytes h = (bytes, refl, λ j. ground arith)
set_down_lem (suc zero) b start bytes h = (
  set-IsBytes b start true bytes,
  length-set b start true,
  λ j. ground (arith, get-set b start j true bytes),
)
set_down_lem (suc (suc n)) b start bytes h =
    let rest =
      set_down_lem (suc n) (set b start true) (start - 1) (set-IsBytes b start true bytes)
        (omega arith) in
    (
      rest.0,
      rest.1 ∙ length-set b start true,
      λ j. ground (arith, rest.2 j, get-set b start j true bytes),
    )

clear_bytes_lem :
    (n i : ℕ) (m : Memory) (p : ℕ)
    → clear_bytes n i m p ≡ (if leb i p && ltb p (i + n) then 0 else m p)
unfolding clear_bytes
clear_bytes_lem zero i m p = ground arith
clear_bytes_lem (suc n) i m p = ground (arith, clear_bytes_lem n (i + 1) (store m i 0) p)

pub initialize_lem :
    (m : Memory) (n : ℕ)
    → ((j : ℕ) → j < n → get (initialize m n) j ≡ false)
      × ((p : ℕ) → n ≤ 8 * p → (initialize m n).bitmap p ≡ m p)
      × (IsBytes m → IsBytes (initialize m n).bitmap)
      × ((initialize m n).length ≡ n)
unfolding initialize get ceil
initialize_lem m n = (
  λ j h. rw (cleared_at j h) (no_bit (j % 8) (omega arith)),
  λ p h. ground (arith, clear_bytes_lem ((n + 8 - 1) / 8) 0 m p),
  λ bytes p. ground (arith, clear_bytes_lem ((n + 8 - 1) / 8) 0 m p, bytes p),
  refl,
)
  where
    bound : (j : ℕ) → j < n → j / 8 < 0 + (n + 8 - 1) / 8
    bound j h = omega arith

    cleared_at : (j : ℕ) → j < n → clear_bytes ((n + 8 - 1) / 8) 0 m (j / 8) ≡ 0
    cleared_at j h = ground (arith, clear_bytes_lem ((n + 8 - 1) / 8) 0 m (j / 8), bound j h)

pub length-initialize : (m : Memory) (n : ℕ) → (initialize m n).length ≡ n
unfolding initialize
length-initialize m n = refl

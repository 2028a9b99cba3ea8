-- ===== src/FatTable/Packed.antt =====
-- The packed form of the table in FAT12, and the buffer that `encode_loop` fills.
use sysu_os.Base.{
  ℕ, zero, suc, ◌+◌, ◌-◌, ◌*◌, ◌/◌, ◌%◌, ◌≤◌, ◌<◌, ◌==◌, ltb, leb, ◌≡◌, refl, ◌∙◌, true, ◌&&◌,
  if◌then◌else◌, arith, Bool-cases, inl, inr, ◌⊎◌,
}
use sysu_os.FatTable.{Buffer, Table, Device, decode_entry, encode_entry, encode_loop, encode_group}
use sysu_os.FatTable.Entry.{
  IsBytes, decode_even, decode_odd, encode_entry-IsBytes, decode_entry-encode_entry,
}

-- FAT12: three bytes hold a little-endian number of 24 bits, whose low half is the even entry and
-- whose high half the odd one.
abbrev pub word : Buffer → ℕ → ℕ
word buf a = buf (3 * a) + 256 * buf (3 * a + 1) + 65536 * buf (3 * a + 2)

abbrev pub packed : Buffer → ℕ → ℕ
packed buf m = if m % 2 == 0 then word buf (m / 2) % 4096 else word buf (m / 2) / 4096

-- the bytes of the table on the disk
abbrev pub fat_area : Device → ℕ → Buffer
fat_area d start o = d.sectors (start + o / 512) (o % 512)

abbrev pub Fits : Table → Type 0
Fits t = (m : ℕ) → t m < 4096

abbrev pub AllAnswer : Device → Type 0
AllAnswer d = (s : ℕ) → d.answers s ≡ true

pub decode_entry-packed :
    (buf : Buffer) (idx k : ℕ)
    → IsBytes buf
    → idx % 2 ≡ k % 2
    → decode_entry buf idx k ≡ packed buf k
decode_entry-packed buf idx k bytes e =
    let b₀ = bytes (3 * (k / 2)) in
    let b₁ = bytes (3 * (k / 2) + 1) in
    elim (Bool-cases (k % 2 == 0)) [
      | inl h ↦ rw h (decode_even buf idx k (k / 2) (ground arith) (ground arith) ∙ omega arith)
      | inr h ↦ rw h (decode_odd buf idx k (k / 2) (ground arith) (ground arith) ∙ omega arith)
    ]

pub encode_loop-IsBytes :
    (n j idx : ℕ) (t : Table) (buf : Buffer)
    → idx % 2 ≡ j % 2
    → IsBytes buf
    → IsBytes (encode_loop n j idx t buf)
unfolding encode_loop
encode_loop-IsBytes zero j idx t buf e bytes = bytes
encode_loop-IsBytes (suc n) j idx t buf e bytes =
    encode_loop-IsBytes n (j + 1) (idx + 1) t (encode_entry buf idx j (t idx)) (omega arith)
      (encode_entry-IsBytes buf idx j (t idx) e bytes)

-- After the loop the buffer holds the entries of its range, the others as before.
pub decode_entry-encode_loop :
    (n j idx idx' k : ℕ) (t : Table) (buf : Buffer)
    → IsBytes buf
    → Fits t
    → idx % 2 ≡ j % 2
    → idx' % 2 ≡ k % 2
    → decode_entry (encode_loop n j idx t buf) idx' k
      ≡ (if leb j k && ltb k (j + n) then t (idx + (k - j)) else decode_entry buf idx' k)
unfolding encode_loop
decode_entry-encode_loop zero j idx idx' k t buf bytes fits e e' = ground arith
decode_entry-encode_loop (suc n) j idx idx' k t buf bytes fits e e' =
    let here = decode_entry-encode_entry buf bytes idx j idx' k (t idx) (fits idx) e e' in
    let rest =
      decode_entry-encode_loop n (j + 1) (idx + 1) idx' k t (encode_entry buf idx j (t idx))
        (encode_entry-IsBytes buf idx j (t idx) e bytes) fits (omega arith) e' in
    elim (Bool-cases (k == j)) [
      | inl at ↦
          let first : idx + (k - j) ≡ idx = ground arith in rest ∙ rw (here, first) (ground arith)
      | inr other ↦
          let same : idx + 1 + (k - (j + 1)) ≡ (if leb j k then idx + (k - j) else idx + 1) =
            ground arith in
          rest ∙ rw (here, same) (ground arith)
    ]

pub encode_group-IsBytes :
    (g : ℕ) (t : Table) (buf : Buffer) → IsBytes buf → IsBytes (encode_group (1024 * g) t buf)
unfolding encode_group
encode_group-IsBytes g t buf bytes = encode_loop-IsBytes 1024 0 (1024 * g) t buf (omega arith) bytes

pub decode_entry-encode_group :
    (g idx' k : ℕ) (t : Table) (buf : Buffer)
    → IsBytes buf
    → Fits t
    → idx' % 2 ≡ k % 2
    → decode_entry (encode_group (1024 * g) t buf) idx' k
      ≡ (if leb 0 k && ltb k (0 + 1024) then t (1024 * g + (k - 0)) else decode_entry buf idx' k)
unfolding encode_group
decode_entry-encode_group g idx' k t buf bytes fits e =
    decode_entry-encode_loop 1024 0 (1024 * g) idx' k t buf bytes fits (omega arith) e

-- a shift by whole groups of 1024 entries, which are 1536 bytes
pub packed_shift :
    (f b : Buffer) (g m : ℕ)
    → 1024 * g ≤ m
    → m < 1024 * g + 1024
    → ((o : ℕ) → o < 1536 → f (1536 * g + o) ≡ b o)
    → packed f m ≡ packed b (m - 1024 * g)
packed_shift f b g m low high same =
    let a = (m - 1024 * g) / 2 in
    let at₀ : 3 * (m / 2) ≡ 1536 * g + 3 * a = omega arith in
    let at₁ : 3 * (m / 2) + 1 ≡ 1536 * g + (3 * a + 1) = omega arith in
    let at₂ : 3 * (m / 2) + 2 ≡ 1536 * g + (3 * a + 2) = omega arith in
    let parity : m % 2 ≡ (m - 1024 * g) % 2 = omega arith in
    rw
      (
        at₁,
        at₂,
        at₀,
        same (3 * a) (omega arith),
        same (3 * a + 1) (omega arith),
        same (3 * a + 2) (omega arith),
        parity,
      )
      refl

-- entries whose bytes agree
pub packed_same :
    (f b : Buffer) (g m : ℕ)
    → (m < 1024 * g) ⊎ (1024 * g + 1024 ≤ m)
    → ((o : ℕ) → (o < 1536 * g) ⊎ (1536 * g + 1536 ≤ o) → f o ≡ b o)
    → packed f m ≡ packed b m
packed_same f b g m (inl low) same =
    rw
      (
        same (3 * (m / 2)) (inl (omega arith)),
        same (3 * (m / 2) + 1) (inl (omega arith)),
        same (3 * (m / 2) + 2) (inl (omega arith)),
      )
      refl
packed_same f b g m (inr high) same =
    rw
      (
        same (3 * (m / 2)) (inr (omega arith)),
        same (3 * (m / 2) + 1) (inr (omega arith)),
        same (3 * (m / 2) + 2) (inr (omega arith)),
      )
      refl

-- two ranges that meet
pub range_step :
    (low mid mid' high high' m x y : ℕ)
    → low ≤ mid
    → mid ≤ high
    → mid' ≡ mid
    → high' ≡ high
    → (if leb mid' m && ltb m high' then x else if leb low m && ltb m mid then x else y)
      ≡ (if leb low m && ltb m high then x else y)
range_step low mid mid' high high' m x y l h e e' = ground arith

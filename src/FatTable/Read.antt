-- ===== src/FatTable/Read.antt =====
-- `read_fat_table` on a disk with sectors of 512 bytes.
use sysu_os.Base.{
  ℕ, zero, suc, ◌+◌, ◌-◌, ◌*◌, ◌/◌, ◌%◌, ◌<◌, ◌≤◌, ◌==◌, ltb, leb, ◌≡◌, refl, ap, ap₂, ◌∙◌, sym,
  true, ◌&&◌, if◌then◌else◌, arith, Bool-cases, inl, inr, ==→eq,
}
use sysu_os.FatTable.{
  Buffer, Table, Device, put, decode_entry, decode_loop, read_group, read_groups, read_rest,
  read_fat_table,
}
use sysu_os.FatTable.Entry.{IsBytes}
use sysu_os.FatTable.Packed.{
  packed, fat_area, AllAnswer, decode_entry-packed, packed_shift, range_step,
}

decode_loop-decode_entry :
    (n j idx : ℕ) (buf : Buffer) (t : Table) (m : ℕ)
    → decode_loop n j idx buf t m
      ≡ (if leb idx m && ltb m (idx + n) then decode_entry buf m (j + (m - idx)) else t m)
unfolding decode_loop
decode_loop-decode_entry zero j idx buf t m = ground arith
decode_loop-decode_entry (suc n) j idx buf t m =
    decode_loop-decode_entry n (j + 1) (idx + 1) buf (put t idx (decode_entry buf idx j)) m
    ∙ elim (Bool-cases (m == idx)) [
      | inl at ↦ first (==→eq m idx at)
      | inr other ↦ elim (Bool-cases (leb idx m)) [
        | inl low ↦
            let e : j + 1 + (m - (idx + 1)) ≡ j + (m - idx) = ground arith in rw e (ground arith)
        | inr high ↦ ground arith
      ]
    ]
  where
    first :
        m ≡ idx
        → (if leb (idx + 1) m && ltb m (idx + 1 + n)
            then decode_entry buf m (j + 1 + (m - (idx + 1)))
            else put t idx (decode_entry buf idx j) m)
          ≡ (if leb idx m && ltb m (idx + suc n) then decode_entry buf m (j + (m - idx)) else t m)
    first e = let off : j + (idx - idx) ≡ j = omega arith in rw (e, off) (ground arith)

read_group-fat_area :
    (d : Device) (start g i : ℕ) (buf : Buffer) (o : ℕ)
    → AllAnswer d
    → i ≡ 3 * g
    → o < 1536
    → (read_group d start i buf).1 o ≡ fat_area d start (1536 * g + o)
unfolding read_group
read_group-fat_area d start g i buf o all e inside =
    let at : start + (1536 * g + o) / 512 ≡ i + o / 512 + start = omega arith in
    let off : (1536 * g + o) % 512 ≡ o % 512 = omega arith in
    let area : d.sectors (i + o / 512 + start) (o % 512) ≡ fat_area d start (1536 * g + o) =
      sym (ap₂ d.sectors at off) in
    rw (all (i + start), all (i + 1 + start), all (i + 2 + start))
      (elim (Bool-cases (ltb o 512)) [
        | inl h₀ ↦
            let q : i + start ≡ i + o / 512 + start = ground arith in
            let r : o - 0 ≡ o % 512 = ground arith in ground (arith, ap₂ d.sectors q r)
        | inr h₀ ↦ elim (Bool-cases (ltb o 1024)) [
          | inl h₁ ↦
              let q : i + 1 + start ≡ i + o / 512 + start = ground arith in
              let r : o - 512 ≡ o % 512 = ground arith in ground (arith, ap₂ d.sectors q r)
          | inr h₁ ↦
              let q : i + 2 + start ≡ i + o / 512 + start = ground arith in
              let r : o - 512 * 2 ≡ o % 512 = ground arith in ground (arith, ap₂ d.sectors q r)
        ]
      ])
    ∙ area

read_group-answers :
    (d : Device) (start i : ℕ) (buf : Buffer)
    → AllAnswer d
    → ((s : ℕ) → IsBytes (d.sectors s))
    → IsBytes buf
    → ((read_group d start i buf).0 ≡ true) × IsBytes (read_group d start i buf).1
unfolding read_group
read_group-answers d start i buf all disk bytes = (
  rw (all (i + start), all (i + 1 + start), all (i + 2 + start)) refl,
  λ o.
      let b₀ = disk (i + start) (o - 0) in
      let b₁ = disk (i + 1 + start) (o - 512) in
      let b₂ = disk (i + 2 + start) (o - 512 * 2) in ground (arith, bytes o),
)

-- the entry that `fat_table[m]` is read from: 256 of the 1024 entries of every group
abbrev pub source : ℕ → ℕ
source m = 1024 * (m / 256) + m % 256

module _ (start : ℕ) (d : Device) (m : ℕ) (all : AllAnswer d)
    (disk : (s : ℕ) → IsBytes (d.sectors s)) where
  read_one :
      (g i idx : ℕ) (t : Table) (buf : Buffer)
      → IsBytes buf
      → i ≡ 3 * g
      → idx ≡ 256 * g
      → decode_loop 256 0 idx (read_group d start i buf).1 t m ≡ (
          if leb (256 * g) m && ltb m (256 * g + 256)
          then packed (fat_area d start) (source m)
          else t m)
  read_one g i idx t buf bytes e e' =
      let buf' = (read_group d start i buf).1 in
      let bytes' = (read_group-answers d start i buf all disk bytes).1 in
      let loop = decode_loop-decode_entry 256 0 idx buf' t m in
      elim (Bool-cases (leb (256 * g) m && ltb m (256 * g + 256))) [
        | inl inside ↦
            let k = 0 + (m - idx) in
            let at : source m - 1024 * g ≡ k = ground arith in
            let entry : decode_entry buf' m k ≡ packed (fat_area d start) (source m) =
              decode_entry-packed buf' m k bytes' (ground arith)
              ∙ ap (packed buf') (sym at)
              ∙ sym (
                  packed_shift (fat_area d start) buf' g (source m) (ground arith) (ground arith)
                    (λ o o_in. sym (read_group-fat_area d start g i buf o all e o_in))) in
            loop ∙ rw (entry, e', inside) refl
        | inr outside ↦ loop ∙ rw (e', outside) refl
      ]

  read_groups-packed :
      (n g i idx : ℕ) (t : Table) (buf : Buffer)
      → IsBytes buf
      → i ≡ 3 * g
      → idx ≡ 256 * g
      → ((read_groups n 256 start i idx d buf t).0 ≡ true)
        × ((read_groups n 256 start i idx d buf t).2 m ≡ (
            if leb (256 * g) m && ltb m (256 * (g + n))
            then packed (fat_area d start) (source m)
            else t m))
  unfolding read_groups
  read_groups-packed zero g i idx t buf bytes e e' = (refl, ground arith)
  read_groups-packed (suc n) g i idx t buf bytes e e' =
      let done = read_group-answers d start i buf all disk bytes in
      let buf' = (read_group d start i buf).1 in
      let here = read_one g i idx t buf bytes e e' in
      let rest =
        read_groups-packed n (g + 1) (i + 3) (idx + 256) (decode_loop 256 0 idx buf' t) buf' done.1
          (omega arith) (omega arith) in
      let entry = packed (fat_area d start) (source m) in
      rw done.0 (
        rest.0,
        rest.1
            ∙ ap (λ y. if leb (256 * (g + 1)) m && ltb m (256 * (g + 1 + n)) then entry else y) here
            ∙ range_step (256 * g) (256 * g + 256) (256 * (g + 1)) (256 * (g + suc n))
                (256 * (g + 1 + n)) m entry (t m) (omega arith) (omega arith) (omega arith)
                (omega arith),
      )

  -- On a table of at most 48 sectors, in whole groups of three, on a disk with sectors of 512
  -- bytes that answers for every sector, `read_fat_table` succeeds, and for each group it fills
  -- 256 entries, one after the other, with the first 256 of the 1024 entries that the group
  -- holds in the form of FAT12; the entries behind stay as they were.
  pub read_fat_table-packed :
      (total : ℕ) (t : Table) (buf : Buffer)
      → IsBytes buf
      → total % 3 ≡ 0
      → total ≤ 48
      → ((read_fat_table 512 total start d buf t).0 ≡ true)
        × ((read_fat_table 512 total start d buf t).1 m
            ≡ (if ltb m (256 * (total / 3)) then packed (fat_area d start) (source m) else t m))
  unfolding read_fat_table read_rest
  read_fat_table-packed total t buf bytes whole fits =
      let groups = read_groups-packed (total / 3) 0 0 0 t buf bytes refl refl in
      rw (groups.0, whole) (refl, groups.1 ∙ ground arith)

-- ===== src/FatTable/Flush.antt =====
-- `flush_fat_table` and the packed form of the table on the disk.
use sysu_os.Base.{
  ℕ, zero, suc, ◌+◌, ◌-◌, ◌*◌, ◌/◌, ◌%◌, ◌≤◌, ◌<◌, ltb, leb, ◌≡◌, refl, ap, ◌∙◌, sym, true, ◌&&◌,
  if◌then◌else◌, arith, Bool-cases, inl, inr, ◌⊎◌,
}
use sysu_os.FatTable.{
  Buffer, Table, Device, encode_group, write_group, flush_groups, flush_fat_table,
}
use sysu_os.FatTable.Entry.{IsBytes}
use sysu_os.FatTable.Packed.{
  packed, fat_area, Fits, AllAnswer, decode_entry-packed, encode_group-IsBytes,
  decode_entry-encode_group, packed_shift, packed_same, range_step,
}

write_group-inside :
    (d : Device) (start g : ℕ) (buf : Buffer) (o : ℕ)
    → AllAnswer d
    → o < 1536
    → fat_area (write_group d start (3 * g) buf).1 start (1536 * g + o) ≡ buf o
unfolding write_group
write_group-inside d start g buf o all inside =
    let a₀ = all (3 * g + start) in
    let a₁ = all (3 * g + 1 + start) in
    let a₂ = all (3 * g + 2 + start) in
    let at : (1536 * g + o) / 512 ≡ 3 * g + o / 512 = omega arith in
    let off : (1536 * g + o) % 512 ≡ o % 512 = omega arith in
    let e₀ : 0 + o % 512 ≡ o % 512 = omega arith in
    rw (a₀, a₁, a₂, at, off, e₀)
      (elim (third (o / 512) (omega arith)) [
        | inl h ↦ let e : o % 512 ≡ o = omega arith in rw e (ground arith)
        | inr (inl h) ↦ let e : 512 + o % 512 ≡ o = omega arith in rw e (ground arith)
        | inr (inr h) ↦ let e : 512 * 2 + o % 512 ≡ o = omega arith in rw e (ground arith)
      ])
  where
    third : (q : ℕ) → q < 3 → (q ≡ 0) ⊎ ((q ≡ 1) ⊎ (q ≡ 2))
    third zero h = inl refl
    third (suc zero) h = inr (inl refl)
    third (suc (suc q)) h = inr (inr (omega arith))

write_group-outside :
    (d : Device) (start g : ℕ) (buf : Buffer) (o : ℕ)
    → (o < 1536 * g) ⊎ (1536 * g + 1536 ≤ o)
    → fat_area (write_group d start (3 * g) buf).1 start o ≡ fat_area d start o
unfolding write_group
write_group-outside d start g buf o (inl low) = ground arith
write_group-outside d start g buf o (inr high) = ground arith

-- one group of entries
flush_one :
    (d : Device) (start g : ℕ) (t : Table) (buf : Buffer) (m : ℕ)
    → AllAnswer d
    → IsBytes buf
    → Fits t
    → packed (fat_area (write_group d start (3 * g) (encode_group (1024 * g) t buf)).1 start) m
      ≡ (if leb (1024 * g) m && ltb m (1024 * g + 1024) then t m else packed (fat_area d start) m)
flush_one d start g t buf m all bytes fits =
    let buf' = encode_group (1024 * g) t buf in
    let area = fat_area (write_group d start (3 * g) buf').1 start in
    let bytes' = encode_group-IsBytes g t buf bytes in
    elim (Bool-cases (leb (1024 * g) m)) [
      | inl low ↦ elim (Bool-cases (ltb m (1024 * g + 1024))) [
        | inl high ↦
            let k = m - 1024 * g in
            let at : 1024 * g + (k - 0) ≡ m = ground arith in
            packed_shift area buf' g m (ground arith) (ground arith)
              (λ o inside. write_group-inside d start g buf' o all inside)
            ∙ sym (decode_entry-packed buf' m k bytes' (omega arith))
            ∙ decode_entry-encode_group g m k t buf bytes fits (omega arith)
            ∙ rw (low, high, at) (ground arith)
        | inr high ↦
            packed_same area (fat_area d start) g m (inr (ground arith))
              (λ o out. write_group-outside d start g buf' o out)
            ∙ ground arith
      ]
      | inr low ↦
          packed_same area (fat_area d start) g m (inl (ground arith))
            (λ o out. write_group-outside d start g buf' o out)
          ∙ ground arith
    ]

write_group-answers :
    (d : Device) (start i : ℕ) (buf : Buffer)
    → AllAnswer d
    → ((write_group d start i buf).0 ≡ true) × AllAnswer (write_group d start i buf).1
unfolding write_group
write_group-answers d start i buf all =
    (rw (all (i + start), all (i + 1 + start), all (i + 2 + start)) refl, all)

-- the same, with the sector and the entry that the loop counts
flush_next :
    (d : Device) (start g i idx : ℕ) (t : Table) (buf : Buffer) (m : ℕ)
    → AllAnswer d
    → IsBytes buf
    → Fits t
    → i ≡ 3 * g
    → idx ≡ 1024 * g
    → IsBytes (encode_group idx t buf)
      × (packed (fat_area (write_group d start i (encode_group idx t buf)).1 start) m ≡ (
          if leb (1024 * g) m && ltb m (1024 * g + 1024) then t m else packed (fat_area d start) m))
flush_next d start g i idx t buf m all bytes fits e e' =
    rw (e, e') (encode_group-IsBytes g t buf bytes, flush_one d start g t buf m all bytes fits)

flush_groups-packed :
    (n start g i idx : ℕ) (t : Table) (d : Device) (buf : Buffer) (m : ℕ)
    → AllAnswer d
    → IsBytes buf
    → Fits t
    → i ≡ 3 * g
    → idx ≡ 1024 * g
    → ((flush_groups n start i idx t d buf).0 ≡ true)
      × (packed (fat_area (flush_groups n start i idx t d buf).1 start) m ≡ (
          if leb (1024 * g) m && ltb m (1024 * (g + n)) then t m else packed (fat_area d start) m))
unfolding flush_groups
flush_groups-packed zero start g i idx t d buf m all bytes fits e e' = (refl, ground arith)
flush_groups-packed (suc n) start g i idx t d buf m all bytes fits e e' =
    let buf' = encode_group idx t buf in
    let done = write_group-answers d start i buf' all in
    let here = flush_next d start g i idx t buf m all bytes fits e e' in
    let rest =
      flush_groups-packed n start (g + 1) (i + 3) (idx + 1024) t (write_group d start i buf').1 buf'
        m done.1 here.0 fits (omega arith) (omega arith) in
    rw done.0 (
      rest.0,
      rest.1
          ∙ ap (λ y. if leb (1024 * (g + 1)) m && ltb m (1024 * (g + 1 + n)) then t m else y) here.1
          ∙ range_step (1024 * g) (1024 * g + 1024) (1024 * (g + 1)) (1024 * (g + suc n))
              (1024 * (g + 1 + n)) m (t m) (packed (fat_area d start) m) (omega arith) (omega arith)
              (omega arith) (omega arith),
    )

-- When the disk answers for every sector, `flush_fat_table` succeeds, and the area of the table on
-- the disk holds each of its entries, up to a whole group of three sectors, in the form of FAT12;
-- the entries behind are as before.
pub flush_fat_table-packed :
    (total start : ℕ) (t : Table) (d : Device) (buf : Buffer) (m : ℕ)
    → AllAnswer d
    → IsBytes buf
    → Fits t
    → ((flush_fat_table total start t d buf).0 ≡ true)
      × (packed (fat_area (flush_fat_table total start t d buf).1 start) m
          ≡ (if ltb m (1024 * ((total + 2) / 3)) then t m else packed (fat_area d start) m))
unfolding flush_fat_table
flush_fat_table-packed total start t d buf m all bytes fits =
    let groups =
      flush_groups-packed ((total + 2) / 3) start 0 0 0 t d buf m all bytes fits refl refl in
    (groups.0, groups.1 ∙ ground arith)

-- ===== src/ClusterCache/Sectors.antt =====
-- What the loops of `read_cluster` and `write_cluster` do to the buffer and to the disk.
use sysu_os.Base.{
  ℕ, zero, suc, ◌+◌, ◌-◌, ◌*◌, ◌/◌, ◌%◌, ◌==◌, ltb, leb, ◌≡◌, refl, sym, ap, ◌∙◌, Bool, true, false,
  ◌&&◌, if◌then◌else◌, Bool-cases, inl, inr, arith,
}
use sysu_os.FatTable.{Buffer, Device, sector_size, ide_read_sector, ide_write_sector}
use sysu_os.ClusterCache.{read_sectors, write_sectors}

-- the byte of the sectors from a sector on
abbrev pub byte_at : Device → ℕ → Buffer
byte_at d sector o = d.sectors (sector + o / 512) (o % 512)

read_step :
    (i sector : ℕ) (d : Device) (buf : Buffer) (o : ℕ)
    → d.answers (sector + i) ≡ true
    → (ide_read_sector d (sector + i) buf (i * sector_size)).1 o
      ≡ (if leb (i * 512) o && ltb o ((i + 1) * 512) then byte_at d sector o else buf o)
read_step i sector d buf o ok = elim (Bool-cases (leb (i * 512) o && ltb o ((i + 1) * 512))) [
  | inl inside ↦
      let sector_is : o / 512 ≡ i = ground arith in
      let place : o - i * 512 ≡ o % 512 = ground arith in
      let here : (d.answers (sector + i)
            && leb (i * sector_size) o
            && ltb o (i * sector_size + sector_size))
          ≡ true =
        ground arith in
      rw (here, inside, place) (ap (λ k. d.sectors (sector + k) (o % 512)) (sym sector_is))
  | inr outside ↦
      let away : (d.answers (sector + i)
            && leb (i * sector_size) o
            && ltb o (i * sector_size + sector_size))
          ≡ false =
        ground arith in
      rw (away, outside) refl
]

join_range :
    (i n o value old : ℕ)
    → (if leb ((i + 1) * 512) o && ltb o ((i + 1 + n) * 512)
        then value
        else if leb (i * 512) o && ltb o ((i + 1) * 512)
        then value
        else old)
      ≡ (if leb (i * 512) o && ltb o ((i + suc n) * 512) then value else old)
join_range i n o value old = ground arith

join_sectors :
    (i n sector lba o value old : ℕ)
    → (if leb (sector + (i + 1)) lba && ltb lba (sector + (i + 1) + n) && ltb o 512
        then value
        else if lba == sector + i && ltb o 512
        then value
        else old)
      ≡ (if leb (sector + i) lba && ltb lba (sector + i + suc n) && ltb o 512 then value else old)
join_sectors i n sector lba o value old = ground arith

untouched : (a b c : Bool) → b ≡ false → (a && b && c) ≡ false
untouched a b c h = ground arith

-- Where every sector is answered, the bytes of the sectors `i` to `i + n - 1` are read into their
-- place, and no other byte of the buffer changes.
pub read_sectors_lem :
    (n i sector : ℕ) (d : Device) (buf : Buffer)
    → (read_sectors n i sector d buf).0 ≡ true
    → (o : ℕ)
    → (read_sectors n i sector d buf).1 o
      ≡ (if leb (i * 512) o && ltb o ((i + n) * 512) then byte_at d sector o else buf o)
unfolding read_sectors
read_sectors_lem zero i sector d buf ok o =
    let empty : (leb (i * 512) o && ltb o ((i + 0) * 512)) ≡ false = ground arith in rw empty refl
read_sectors_lem (suc n) i sector d buf ok o =
    let buf' = (ide_read_sector d (sector + i) buf (i * sector_size)).1 in
    let rest = read_sectors n (i + 1) sector d buf' in
    elim (Bool-cases (d.answers (sector + i))) [
      | inl hit ↦
          let ok' : rest.0 ≡ true =
            sym (ap (λ b. (if b then rest else (false, buf')).0) hit) ∙ ok in
          ap (λ b. (if b then rest else (false, buf')).1 o) hit
          ∙ read_sectors_lem n (i + 1) sector d buf' ok' o
          ∙ ap
              (λ v.
                if leb ((i + 1) * 512) o && ltb o ((i + 1 + n) * 512)
                then byte_at d sector o
                else v)
              (read_step i sector d buf o hit)
          ∙ join_range i n o (byte_at d sector o) (buf o)
      | inr miss ↦
          absurd (ground (arith, sym (ap (λ b. (if b then rest else (false, buf')).0) miss) ∙ ok))
    ]

write_step :
    (i sector : ℕ) (d : Device) (buf : Buffer) (lba o : ℕ)
    → d.answers (sector + i) ≡ true
    → (ide_write_sector d (sector + i) buf (i * sector_size)).1.sectors lba o
      ≡ (if lba == sector + i && ltb o 512 then buf ((lba - sector) * 512 + o) else d.sectors lba o)
write_step i sector d buf lba o hit = elim (Bool-cases (lba == sector + i)) [
  | inl same ↦
      let place : i * 512 + o ≡ (lba - sector) * 512 + o = ground arith in
      rw (hit, same, place) refl
  | inr other ↦ rw (hit, other) refl
]

-- Where every sector is answered, the sectors `sector + i` to `sector + i + n - 1` hold their part of
-- the buffer, and no other sector changes.
pub write_sectors_lem :
    (n i sector : ℕ) (d : Device) (buf : Buffer)
    → (write_sectors n i sector d buf).0 ≡ true
    → (lba o : ℕ)
    → (write_sectors n i sector d buf).1.sectors lba o ≡ (
        if leb (sector + i) lba && ltb lba (sector + i + n) && ltb o 512
        then buf ((lba - sector) * 512 + o)
        else d.sectors lba o)
unfolding write_sectors
write_sectors_lem zero i sector d buf ok lba o =
    let empty : (leb (sector + i) lba && ltb lba (sector + i + 0) && ltb o 512) ≡ false =
      ground arith in
    rw empty refl
write_sectors_lem (suc n) i sector d buf ok lba o =
    let d' = (ide_write_sector d (sector + i) buf (i * sector_size)).1 in
    let rest = write_sectors n (i + 1) sector d' buf in
    let value = buf ((lba - sector) * 512 + o) in
    elim (Bool-cases (d.answers (sector + i))) [
      | inl hit ↦
          let ok' : rest.0 ≡ true = sym (ap (λ b. (if b then rest else (false, d')).0) hit) ∙ ok in
          ap (λ b. (if b then rest else (false, d')).1.sectors lba o) hit
          ∙ write_sectors_lem n (i + 1) sector d' buf ok' lba o
          ∙ ap
              (λ v.
                if leb (sector + (i + 1)) lba && ltb lba (sector + (i + 1) + n) && ltb o 512
                then value
                else v)
              (write_step i sector d buf lba o hit)
          ∙ join_sectors i n sector lba o value (d.sectors lba o)
      | inr miss ↦
          absurd (ground (arith, sym (ap (λ b. (if b then rest else (false, d')).0) miss) ∙ ok))
    ]

-- A write of sectors changes no other sector, also where it fails.
pub write_sectors_outside :
    (n i sector : ℕ) (d : Device) (buf : Buffer) (lba o : ℕ)
    → (leb (sector + i) lba && ltb lba (sector + i + n)) ≡ false
    → (write_sectors n i sector d buf).1.sectors lba o ≡ d.sectors lba o
unfolding write_sectors
write_sectors_outside zero i sector d buf lba o away = refl
write_sectors_outside (suc n) i sector d buf lba o away =
    let d' = (ide_write_sector d (sector + i) buf (i * sector_size)).1 in
    let rest = write_sectors n (i + 1) sector d' buf in
    let other : (lba == sector + i) ≡ false = ground arith in
    let one : d'.sectors lba o ≡ d.sectors lba o =
      ap (λ b. if b then buf (i * sector_size + o) else d.sectors lba o)
        (untouched (d.answers (sector + i)) (lba == sector + i) (ltb o sector_size) other) in
    elim (Bool-cases (d.answers (sector + i))) [
      | inl hit ↦
          ap (λ b. (if b then rest else (false, d')).1.sectors lba o) hit
          ∙ write_sectors_outside n (i + 1) sector d' buf lba o (ground arith)
          ∙ one
      | inr miss ↦ ap (λ b. (if b then rest else (false, d')).1.sectors lba o) miss ∙ one
    ]

pub write_sectors_answers :
    (n i sector : ℕ) (d : Device) (buf : Buffer)
    → (write_sectors n i sector d buf).1.answers ≡ d.answers
unfolding write_sectors
write_sectors_answers zero i sector d buf = refl
write_sectors_answers (suc n) i sector d buf =
    let d' = (ide_write_sector d (sector + i) buf (i * sector_size)).1 in
    let rest = write_sectors n (i + 1) sector d' buf in
    elim (Bool-cases (d.answers (sector + i))) [
      | inl hit ↦
          ap (λ b. (if b then rest else (false, d')).1.answers) hit
          ∙ write_sectors_answers n (i + 1) sector d' buf
      | inr miss ↦ ap (λ b. (if b then rest else (false, d')).1.answers) miss
    ]

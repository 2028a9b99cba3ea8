-- ===== src/FatTable.antt =====
-- The file allocation table of src/kernel/fileSys/fat12_fs.cpp: `read_fat_table` and
-- `flush_fat_table`, which unpack and pack its entries of 12 bits, and `allocate_cluster` and
-- `free_cluster`. The disk controller behind `ide_read_sector` and `ide_write_sector` is a record:
-- the bytes of the sectors and which sectors it answers for; a sector that it does not answer for
-- leaves the buffer or the disk as it was. Where the operands of `|` share no bit it is written `+`,
-- and `&`, `<<` and `>>` by constants are written with `%`, `*` and `/`.
pub mod Entry
pub mod Packed
pub mod Flush
pub mod Read
pub mod Clusters
pub mod Elsewhere
mod Examples
use sysu_os.Base.{
  ℕ, zero, suc, ◌+◌, ◌-◌, ◌*◌, ◌/◌, ◌%◌, ◌==◌, ltb, leb, Bool, true, false, not, ◌&&◌,
  if◌then◌else◌,
}

-- bytes by their offset
abbrev pub Buffer : Type 0
Buffer = ℕ → ℕ

-- `fat_table`; the array of the code has 4096 entries, and what `flush_fat_table` reads behind them, on a
-- table of more than twelve sectors, are the values of the function there
abbrev pub Table : Type 0
Table = ℕ → ℕ

abbrev pub put : (ℕ → ℕ) → ℕ → ℕ → ℕ → ℕ
put f i v o = if o == i then v else f o

pub record Device : Type 0 where
  pub sectors : ℕ → Buffer
  pub answers : ℕ → Bool

abbrev pub sector_size : ℕ
sector_size = 512

-- `ide_read_sector(device, lba, buf + at)`
abbrev pub ide_read_sector : Device → ℕ → Buffer → ℕ → Bool × Buffer
ide_read_sector d lba buf at = (
  d.answers lba,
  λ o.
      if d.answers lba && leb at o && ltb o (at + sector_size)
      then d.sectors lba (o - at)
      else buf o,
)

-- `ide_write_sector(device, lba, buf + at)`
abbrev pub ide_write_sector : Device → ℕ → Buffer → ℕ → Bool × Device
ide_write_sector d lba buf at = (
  d.answers lba,
  record d {
    sectors = λ s o.
        if d.answers lba && s == lba && ltb o sector_size then buf (at + o) else d.sectors s o;
  },
)

-- the value of entry `idx`, the `j`-th in the buffer
pub decode_entry : Buffer → ℕ → ℕ → ℕ
decode_entry buf idx j =
    let offset = j + j / 2 in
    if idx % 2 == 0
    then buf offset + buf (offset + 1) % 16 * 256
    else buf offset / 16 + buf (offset + 1) * 16

pub decode_loop : ℕ → ℕ → ℕ → Buffer → Table → Table
unfolding decode_entry
decode_loop zero j idx buf t = t
decode_loop (suc n) j idx buf t =
    decode_loop n (j + 1) (idx + 1) buf (put t idx (decode_entry buf idx j))

-- the three sectors of a group
pub read_group : Device → ℕ → ℕ → Buffer → Bool × Buffer
read_group d start i buf =
    let (ok₀, buf₀) = ide_read_sector d (i + start) buf 0 in
    let (ok₁, buf₁) = ide_read_sector d (i + 1 + start) buf₀ sector_size in
    let (ok₂, buf₂) = ide_read_sector d (i + 2 + start) buf₁ (sector_size * 2) in
    (ok₀ && ok₁ && ok₂, buf₂)

-- the whole groups of three sectors, of which `n` are left; `entries` is `bytes_per_sector / 2`
pub read_groups : ℕ → ℕ → ℕ → ℕ → ℕ → Device → Buffer → Table → Bool × Buffer × Table
unfolding decode_loop
read_groups zero entries start i idx d buf t = (true, buf, t)
read_groups (suc n) entries start i idx d buf t =
    let (ok, buf') = read_group d start i buf in
    let rest =
      read_groups n entries start (i + 3) (idx + entries) d buf'
        (decode_loop entries 0 idx buf' t) in
    if ok then rest else (false, buf', t)

-- the sectors that are left over; `entries` is `bytes_per_sector * 8 / 12`
pub read_rest : ℕ → ℕ → ℕ → ℕ → ℕ → Device → Bool → Buffer → Table → Bool × Table
unfolding decode_loop
read_rest zero entries start i idx d res buf t = (res, t)
read_rest (suc n) entries start i idx d res buf t =
    let (ok, buf') = ide_read_sector d (i + start) buf 0 in
    read_rest n entries start (i + 1) (idx + entries) d (res && ok) buf'
      (decode_loop entries 0 idx buf' t)

-- `total` is `bpb.fat_size_16`, `start` is `bpb.reserved_sector_count`. Each group of three sectors of
-- 512 bytes fills 256 entries, so more than 48 sectors make the code write behind its array.
pub read_fat_table : ℕ → ℕ → ℕ → Device → Buffer → Table → Bool × Table
unfolding read_groups read_rest
read_fat_table bytes_per_sector total start d buf t =
    let first_part = total - total % 3 in
    let (ok, buf', t') = read_groups (total / 3) (bytes_per_sector / 2) start 0 0 d buf t in
    let rest =
      read_rest (total % 3) (bytes_per_sector * 8 / 12) start first_part
        (total / 3 * (bytes_per_sector / 2)) d true buf' t' in
    if ok then rest else (false, t')

pub encode_entry : Buffer → ℕ → ℕ → ℕ → Buffer
encode_entry buf idx j value =
    let offset = j + j / 2 in
    if idx % 2 == 0
    then (let low = put buf offset (value % 256) in
        put low (offset + 1) (low (offset + 1) / 16 % 16 * 16 + value / 256 % 16))
    else (let high = put buf offset (buf offset % 16 + value % 16 * 16) in
        put high (offset + 1) (value / 16 % 256))

pub encode_loop : ℕ → ℕ → ℕ → Table → Buffer → Buffer
unfolding encode_entry
encode_loop zero j idx t buf = buf
encode_loop (suc n) j idx t buf = encode_loop n (j + 1) (idx + 1) t (encode_entry buf idx j (t idx))

-- the entries of a group, from `idx` on: 512 * 3 / 1.5 of them
pub encode_group : ℕ → Table → Buffer → Buffer
unfolding encode_loop
encode_group idx t buf = encode_loop 1024 0 idx t buf

-- the three sectors of a group
pub write_group : Device → ℕ → ℕ → Buffer → Bool × Device
write_group d start i buf =
    let (ok₀, d₀) = ide_write_sector d (i + start) buf 0 in
    let (ok₁, d₁) = ide_write_sector d₀ (i + 1 + start) buf sector_size in
    let (ok₂, d₂) = ide_write_sector d₁ (i + 2 + start) buf (sector_size * 2) in
    (ok₀ && ok₁ && ok₂, d₂)

-- the groups of `flush_fat_table`, of which `n` are left
pub flush_groups : ℕ → ℕ → ℕ → ℕ → Table → Device → Buffer → Bool × Device
flush_groups zero start i idx t d buf = (true, d)
flush_groups (suc n) start i idx t d buf =
    let buf' = encode_group idx t buf in
    let (ok, d') = write_group d start i buf' in
    let rest = flush_groups n start (i + 3) (idx + 1024) t d' buf' in
    if ok then rest else (false, d')

-- `for (i = 0; i < total; i += 3)` makes as many rounds as `total` holds groups, the last one rounded up
pub flush_fat_table : ℕ → ℕ → Table → Device → Buffer → Bool × Device
unfolding flush_groups
flush_fat_table total start t d buf = flush_groups ((total + 2) / 3) start 0 0 t d buf

-- `for (idx = 2; idx < cluster_count; idx++)`, of which `n` rounds are left
pub allocate_loop : ℕ → ℕ → Table → ℕ
allocate_loop zero idx t = 0
allocate_loop (suc n) idx t =
    let rest = allocate_loop n (idx + 1) t in if t idx == 0 then idx else rest

pub allocate_cluster : ℕ → Table → ℕ
unfolding allocate_loop
allocate_cluster cluster_count t = allocate_loop (cluster_count - 2) 2 t

pub free_cluster : Table → ℕ → Table
free_cluster t idx = put t idx 0

-- ===== src/DirEntry/Layout.antt =====
-- The 32 bytes of an entry hold its fields.
use sysu_os.Base.{
  ℕ, ◌+◌, ◌-◌, ◌/◌, ◌%◌, ◌^◌, ◌<◌, ltb, leb, ◌≡◌, refl, ap, ◌∙◌, true, ◌&&◌, arith, get_or,
}
use sysu_os.FatTable.{Buffer}
use sysu_os.DirEntry.{SfnEntry, load_sfn, store_sfn, sfn_byte, tail_bytes, word, low, high}

-- The numbers fit the fields of the structure.
pub record IsPacked (e : SfnEntry) : Type 0 where
  pub create_time : e.create_time < 2 ^ 16
  pub create_date : e.create_date < 2 ^ 16
  pub last_access_date : e.last_access_date < 2 ^ 16
  pub first_cluster_high : e.first_cluster_high < 2 ^ 16
  pub write_time : e.write_time < 2 ^ 16
  pub write_date : e.write_date < 2 ^ 16
  pub first_cluster_low : e.first_cluster_low < 2 ^ 16
  pub file_size : e.file_size < 2 ^ 32

module _ (b : Buffer) (p : ℕ) (e : SfnEntry) where
  stored : (i : ℕ) → i < 32 → store_sfn b p e (p + i) ≡ sfn_byte e i
  stored i inside =
      let here : (leb p (p + i) && ltb (p + i) (p + 32)) ≡ true = ground (arith, inside) in
      let place : p + i - p ≡ i = omega arith in rw (here, place) refl

  pub name_lem : (i : ℕ) → i < 8 → (load_sfn (store_sfn b p e) p).name i ≡ e.name i
  unfolding sfn_byte
  name_lem i inside = stored i (omega arith) ∙ ground (arith, inside)

  pub ext_lem : (i : ℕ) → i < 3 → (load_sfn (store_sfn b p e) p).ext i ≡ e.ext i
  unfolding sfn_byte
  ext_lem i inside =
      let place : 8 + i - 8 ≡ i = omega arith in
      stored (8 + i) (omega arith) ∙ rw place (ground (arith, inside))

  -- a byte behind the name
  tail_lem : (i : ℕ) → i < 21 → store_sfn b p e (p + (11 + i)) ≡ get_or (tail_bytes e) i 0
  unfolding sfn_byte
  tail_lem i inside =
      let place : 11 + i - 11 ≡ i = omega arith in
      stored (11 + i) (omega arith) ∙ rw place (ground (arith, inside))

  pub attr_lem : (load_sfn (store_sfn b p e) p).attr ≡ e.attr
  attr_lem = tail_lem 0 (omega arith)

  word_lem :
      (i v : ℕ)
      → i < 20
      → v < 2 ^ 16
      → get_or (tail_bytes e) i 0 ≡ low v
      → get_or (tail_bytes e) (i + 1) 0 ≡ high v
      → word (store_sfn b p e) (p + (11 + i)) ≡ v
  word_lem i v inside small lo hi =
      let place : p + (11 + i) + 1 ≡ p + (11 + (i + 1)) = omega arith in
      let at_low = tail_lem i (omega arith) ∙ lo in
      let at_high = ap (store_sfn b p e) place ∙ tail_lem (i + 1) (omega arith) ∙ hi in
      rw (at_low, at_high) (omega arith)

  -- the fields behind the name
  pub fields_lem :
      IsPacked e
      → ((load_sfn (store_sfn b p e) p).attr ≡ e.attr)
        × ((load_sfn (store_sfn b p e) p).create_time_tenths ≡ e.create_time_tenths)
        × ((load_sfn (store_sfn b p e) p).create_time ≡ e.create_time)
        × ((load_sfn (store_sfn b p e) p).create_date ≡ e.create_date)
        × ((load_sfn (store_sfn b p e) p).last_access_date ≡ e.last_access_date)
        × ((load_sfn (store_sfn b p e) p).write_time ≡ e.write_time)
        × ((load_sfn (store_sfn b p e) p).write_date ≡ e.write_date)
        × ((load_sfn (store_sfn b p e) p).first_cluster_low ≡ e.first_cluster_low)
        × ((load_sfn (store_sfn b p e) p).file_size ≡ e.file_size)
  fields_lem packed = (
    attr_lem,
    tail_lem 2 (omega arith),
    word_lem 3 e.create_time (omega arith) packed.create_time refl refl,
    word_lem 5 e.create_date (omega arith) packed.create_date refl refl,
    word_lem 7 e.last_access_date (omega arith) packed.last_access_date refl refl,
    word_lem 11 e.write_time (omega arith) packed.write_time refl refl,
    word_lem 13 e.write_date (omega arith) packed.write_date refl refl,
    word_lem 15 e.first_cluster_low (omega arith) packed.first_cluster_low refl refl,
    (let lo =
          word_lem 17 (e.file_size % 65536) (omega arith) (omega arith) (omega arith)
            (omega arith) in
        let hi =
          word_lem 19 (e.file_size / 65536) (omega arith) (omega (arith, packed.file_size)) refl
            refl in
        rw (lo, hi) (omega arith)),
  )

-- ===== src/RootDir/Flush.antt =====
-- Where `flush_root_dir` leaves the entries on the disk.
use sysu_os.Base.{
  ℕ, zero, suc, ◌+◌, ◌*◌, ◌<◌, ◌≤◌, ◌==◌, ltb, leb, min, ◌≡◌, refl, sym, ap, ◌∙◌, subst, Bool, true,
  false, ◌&&◌, if◌then◌else◌, Bool-cases, inl, inr, arith, fun_ext, ==_refl, ltb→lt,
}
use sysu_os.FatTable.{Buffer, Device, ide_write_sector}
use sysu_os.DirEntry.{NormalizedEntry}
use sysu_os.RootDir.{RootDir, empty_entry, store_entry, fill_loop, flush_loop}
use sysu_os.RootDir.Slots.{
  IsSlot, IsStorable, zeros-IsSlot, store_entry-IsSlot, IsSlot-cong, store_entry_outside,
}

-- the entry that belongs to a place of the directory; behind the table nothing is stored
abbrev pub entry_at : RootDir → ℕ → NormalizedEntry
entry_at d g = if ltb g d.root_entries then d.root_dir g else empty_entry

module _ (d : RootDir) (storable : (k : ℕ) → k < d.root_entries → IsStorable (d.root_dir k)) where
  abbrev next_buffer : ℕ → ℕ → Buffer → Buffer
  next_buffer i idx buf =
      if ltb idx d.root_entries then store_entry (d.root_dir idx) buf (32 * i) else buf

  next_buffer_outside :
      (i idx : ℕ) (buf : Buffer) (o : ℕ)
      → (leb (32 * i) o && ltb o (32 * i + 32)) ≡ false
      → next_buffer i idx buf o ≡ buf o
  next_buffer_outside i idx buf o outside = elim (Bool-cases (ltb idx d.root_entries)) [
    | inl here ↦ rw here (store_entry_outside (d.root_dir idx) buf (32 * i) o outside)
    | inr behind ↦ rw behind refl
  ]

  next_buffer-IsSlot :
      (i idx g : ℕ) (buf : Buffer)
      → idx ≡ min g d.root_entries
      → ((o : ℕ) → o < 32 → buf (32 * i + o) ≡ 0)
      → IsSlot (entry_at d g) (next_buffer i idx buf) (32 * i)
  next_buffer-IsSlot i idx g buf is_g zeros = elim (Bool-cases (ltb idx d.root_entries)) [
    | inl here ↦
        let e : idx ≡ g = ground (arith, is_g, here) in
        let here' : ltb g d.root_entries ≡ true = ground (arith, is_g, here) in
        rw (here, here', e)
          (store_entry-IsSlot (d.root_dir g) buf (32 * i)
            (storable g (ltb→lt g d.root_entries here')) zeros)
    | inr behind ↦
        let behind' : ltb g d.root_entries ≡ false = ground (arith, is_g, behind) in
        rw (behind, behind') (zeros-IsSlot empty_entry buf (32 * i) refl zeros)
  ]

  fill_kept :
      (n i idx : ℕ) (buf : Buffer) (o : ℕ) → o < 32 * i → (fill_loop n i idx d buf).0 o ≡ buf o
  unfolding fill_loop
  fill_kept zero i idx buf o before = refl
  fill_kept (suc n) i idx buf o before =
      fill_kept n (suc i) (if ltb idx d.root_entries then suc idx else idx) (next_buffer i idx buf)
        o (omega arith)
      ∙ next_buffer_outside i idx buf o (ground (arith, before))

  next_idx :
      (idx g : ℕ)
      → idx ≡ min g d.root_entries
      → (if ltb idx d.root_entries then suc idx else idx) ≡ min (suc g) d.root_entries
  next_idx idx g is_g = ground (arith, is_g)

  fill_idx :
      (n i idx g : ℕ) (buf : Buffer)
      → idx ≡ min g d.root_entries
      → (fill_loop n i idx d buf).1 ≡ min (g + n) d.root_entries
  unfolding fill_loop
  fill_idx zero i idx g buf is_g = omega arith
  fill_idx (suc n) i idx g buf is_g =
      fill_idx n (suc i) (if ltb idx d.root_entries then suc idx else idx) (suc g)
        (next_buffer i idx buf) (next_idx idx g is_g)
      ∙ omega arith

  fill_slots :
      (n i idx g : ℕ) (buf : Buffer)
      → idx ≡ min g d.root_entries
      → ((o : ℕ) → 32 * i ≤ o → buf o ≡ 0)
      → (j : ℕ) → j < n
      → IsSlot (entry_at d (g + j)) (fill_loop n i idx d buf).0 (32 * (i + j))
  unfolding fill_loop
  fill_slots zero i idx g buf is_g zeros j less = absurd (omega arith)
  fill_slots (suc n) i idx g buf is_g zeros zero less =
      let here : i + 0 ≡ i = omega arith in
      let first : g + 0 ≡ g = omega arith in
      let idx' = if ltb idx d.root_entries then suc idx else idx in
      let buf' = next_buffer i idx buf in
      rw (here, first)
        (IsSlot-cong (entry_at d g) buf' (fill_loop n (suc i) idx' d buf').0 (32 * i)
          (λ o inside. fill_kept n (suc i) idx' buf' (32 * i + o) (omega arith))
          (next_buffer-IsSlot i idx g buf is_g (λ o inside. zeros (32 * i + o) (omega arith))))
  fill_slots (suc n) i idx g buf is_g zeros (suc j) less =
      let place : suc i + j ≡ i + suc j = omega arith in
      let entry : suc g + j ≡ g + suc j = omega arith in
      let idx' = if ltb idx d.root_entries then suc idx else idx in
      let buf' = next_buffer i idx buf in
      rw (← place, ← entry)
        (fill_slots n (suc i) idx' (suc g) buf' (next_idx idx g is_g)
          (λ o behind.
            next_buffer_outside i idx buf o (ground (arith, behind)) ∙ zeros o (omega arith))
          j (omega arith))

  pub flush_answers :
      (n sector idx : ℕ) (res : Bool) (disk : Device)
      → (flush_loop n sector idx d res disk).1.answers ≡ disk.answers
  unfolding flush_loop
  flush_answers zero sector idx res disk = refl
  flush_answers (suc n) sector idx res disk =
      let (buf, idx') = fill_loop 16 0 idx d (λ o. 0) in
      let (ok, disk') = ide_write_sector disk sector buf 0 in
      flush_answers n (suc sector) idx' (res && ok) disk'

  flush_kept :
      (n sector idx : ℕ) (res : Bool) (disk : Device) (t : ℕ)
      → t < sector
      → (flush_loop n sector idx d res disk).1.sectors t ≡ disk.sectors t
  unfolding flush_loop
  flush_kept zero sector idx res disk t before = refl
  flush_kept (suc n) sector idx res disk t before =
      let (buf, idx') = fill_loop 16 0 idx d (λ o. 0) in
      let (ok, disk') = ide_write_sector disk sector buf 0 in
      flush_kept n (suc sector) idx' (res && ok) disk' t (omega arith)
      ∙ let other : (t == sector) ≡ false = ground (arith, before) in
        fun_ext (λ o. elim (Bool-cases (disk.answers sector)) [
          | inl hit ↦ rw (hit, other) refl
          | inr miss ↦ rw miss refl
        ])

  -- Every place of the root directory holds its entry afterwards.
  pub flush_slots :
      (n sector idx g : ℕ) (res : Bool) (disk : Device)
      → idx ≡ min g d.root_entries
      → ((s : ℕ) → s < n → disk.answers (sector + s) ≡ true)
      → (s j : ℕ) → s < n
      → j < 16
      → IsSlot
          (entry_at d (g + 16 * s + j))
          ((flush_loop n sector idx d res disk).1.sectors (sector + s))
          (32 * j)
  unfolding flush_loop
  flush_slots zero sector idx g res disk is_g answers s j less inside = absurd (omega arith)
  flush_slots (suc n) sector idx g res disk is_g answers zero j less inside =
      let (buf, idx') = fill_loop 16 0 idx d (λ o. 0) in
      let (ok, disk') = ide_write_sector disk sector buf 0 in
      let final = (flush_loop n (suc sector) idx' d (res && ok) disk').1.sectors in
      let here : sector + 0 ≡ sector = omega arith in
      let first : g + 0 ≡ g = omega arith in
      let place : 0 + j ≡ j = omega arith in
      let answered : disk.answers sector ≡ true =
        sym (ap disk.answers here) ∙ answers 0 (omega arith) in
      let kept = flush_kept n (suc sector) idx' (res && ok) disk' sector (omega arith) in
      rw (here, first)
        (IsSlot-cong (entry_at d (g + j)) buf (final sector) (32 * j)
          (λ o less'.
            let low : ltb (32 * j + o) 512 ≡ true = ground (arith, inside, less') in
            let all : 0 + (32 * j + o) ≡ 32 * j + o = omega arith in
            ap (λ (b : Buffer). b (32 * j + o)) kept ∙ rw (answered, ==_refl sector, low, all) refl)
          (subst (λ k. IsSlot (entry_at d (g + j)) buf (32 * k)) place
            (fill_slots 16 0 idx g (λ o. 0) is_g (λ o behind. refl) j inside)))
  flush_slots (suc n) sector idx g res disk is_g answers (suc s) j less inside =
      let (buf, idx') = fill_loop 16 0 idx d (λ o. 0) in
      let (ok, disk') = ide_write_sector disk sector buf 0 in
      let place : suc sector + s ≡ sector + suc s = omega arith in
      let entry : g + 16 + 16 * s + j ≡ g + 16 * suc s + j = omega arith in
      rw (← place, ← entry)
        (flush_slots n (suc sector) idx' (g + 16) (res && ok) disk'
          (fill_idx 16 0 idx g (λ o. 0) is_g)
          (λ t less'.
            let next : suc sector + t ≡ sector + suc t = omega arith in
            ap disk.answers next ∙ answers (suc t) (omega arith))
          s j (omega arith) inside)

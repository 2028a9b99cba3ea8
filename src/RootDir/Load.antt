-- ===== src/RootDir/Load.antt =====
-- What `init_root_dir` makes of the entries that `flush_root_dir` left on the disk.
use sysu_os.Base.{
  ℕ, zero, suc, ◌+◌, ◌-◌, ◌*◌, ◌<◌, ◌≤◌, ◌==◌, ltb, leb, ◌≡◌, ◌⊎◌, refl, sym, ap, ◌∙◌, subst, Bool,
  true, false, ◌&&◌, if◌then◌else◌, Bool-cases, inl, inr, arith, ltb→lt, List, [], ◌∷◌, ◌++◌,
  length, get_or, length-append,
}
use mathlib.Core.List.{append_assoc, append-nil}
use sysu_os.FatTable.{Buffer, Device, ide_read_sector}
use sysu_os.DirEntry.{NormalizedEntry, valid, delete, is_skip_lfn, load_sfn, read}
use sysu_os.RootDir.{
  RootDir, empty_entry, fresh, Scan, keep_entry, scan_loop, load_loop, flush_root_dir,
  init_root_dir, flush_loop,
}
use sysu_os.RootDir.Slots.{is_empty, is_deleted, read_back, IsSlot, IsStorable, IsSlot-cong}
use sysu_os.RootDir.Flush.{entry_at, flush_slots, flush_answers}

-- The entries that are not deleted, of `n` places from place `g` on, up to the first empty one.
unfoldable pub live_entries : ℕ → ℕ → RootDir → List NormalizedEntry
live_entries zero g d = []
live_entries (suc n) g d =
    let rest = live_entries n (suc g) d in
    if is_empty (entry_at d g)
    then []
    else if is_deleted (entry_at d g)
    then rest
    else entry_at d g ∷ rest

-- The table holds these entries, and is empty behind them.
abbrev pub IsFilled : List NormalizedEntry → Scan → Type 0
IsFilled es s =
    ((k : ℕ) → s.table k ≡ get_or es k empty_entry)
    × (s.entry_idx ≡ length es)
    × (is_skip_lfn s.entry_buf.status ≡ false)

-- What a scan of `n` of `m` places leaves: it ended, or the rest of the places is left.
abbrev pub IsScanned : RootDir → ℕ → ℕ → ℕ → List NormalizedEntry → Scan → Type 0
IsScanned d n m g es s =
    ((s.finish ≡ true) × IsFilled (es ++ live_entries m g d) s)
    ⊎ ((es' : List NormalizedEntry) × (s.finish ≡ false)
        × IsFilled es' s
        × (length es' ≤ g + n)
        × (es' ++ live_entries (m - n) (g + n) d ≡ es ++ live_entries m g d))

get_or-end :
    (es : List NormalizedEntry) (e : NormalizedEntry) (k : ℕ)
    → get_or (es ++ e ∷ []) k empty_entry ≡ (if k == length es then e else get_or es k empty_entry)
get_or-end [] e zero = refl
get_or-end [] e (suc k) = ground arith
get_or-end (x ∷ es) e zero = ground arith
get_or-end (x ∷ es) e (suc k) = get_or-end es e k ∙ ground arith

module _ (d : RootDir) where
  -- One place more was scanned.
  step-IsScanned :
      (n m g : ℕ) (es es' : List NormalizedEntry) (s : Scan)
      → es' ++ live_entries m (suc g) d ≡ es ++ live_entries (suc m) g d
      → IsScanned d n m (suc g) es' s
      → IsScanned d (suc n) (suc m) g es s
  step-IsScanned n m g es es' s e (inl (done, filled)) =
      inl (done, subst (λ l. IsFilled l s) e filled)
  step-IsScanned n m g es es' s e (inr (es'', more, filled, small, rest)) =
      let left : suc m - suc n ≡ m - n = omega arith in
      let place : g + suc n ≡ suc g + n = omega arith in
      inr (es'', more, filled, omega arith, rw (left, place) (rest ∙ e))

  live_next :
      (m g : ℕ)
      → live_entries (suc m) g d ≡ (
          if is_empty (entry_at d g)
          then []
          else if is_deleted (entry_at d g)
          then live_entries m (suc g) d
          else entry_at d g ∷ live_entries m (suc g) d)
  unfolding live_entries
  live_next m g = refl

  -- An entry that is not empty is one of the table.
  in_table : (g : ℕ) → is_empty (entry_at d g) ≡ false → g < d.root_entries
  in_table g more = elim (Bool-cases (ltb g d.root_entries)) [
    | inl here ↦ ltb→lt g d.root_entries here
    | inr behind ↦
        let e = ap (λ b. is_empty (if b then d.root_dir g else empty_entry)) behind in
        absurd (cc (e, more))
  ]

  -- A live entry is put behind the others.
  kept-IsFilled :
      (es : List NormalizedEntry) (e : NormalizedEntry) (s : Scan)
      → IsFilled es s
      → length es < d.root_entries
      → IsFilled (es ++ e ∷ []) (
          keep_entry d.root_entries true
            (record s { entry_buf = record { entry = e; status = valid } }))
  kept-IsFilled es e s (table, idx, open_run) room =
      let fits : ltb s.entry_idx d.root_entries ≡ true = ground (arith, idx, room) in
      rw fits (
        λ k.
            ap (λ n. if k == n then e else s.table k) idx
            ∙ ap (λ x. if k == length es then e else x) (table k)
            ∙ sym (get_or-end es e k),
        ap (λ n. n + 1) idx ∙ sym (length-append es (e ∷ [])),
        refl,
      )

  kept_finish : (s : Scan) → (keep_entry d.root_entries true s).finish ≡ s.finish
  kept_finish s = elim (Bool-cases (ltb s.entry_idx d.root_entries)) [
    | inl room ↦ rw room refl
    | inr full ↦ rw full refl
  ]

  scan_loop-IsScanned :
      (n i m g : ℕ) (buf : Buffer) (es : List NormalizedEntry) (s : Scan)
      → n ≤ m
      → ((j : ℕ) → j < n → IsSlot (entry_at d (g + j)) buf (32 * (i + j)))
      → s.finish ≡ false
      → IsFilled es s
      → length es ≤ g
      → IsScanned d n m g es (scan_loop n i d.root_entries buf s)
  unfolding scan_loop
  scan_loop-IsScanned zero i m g buf es s fits slots open_run filled small =
      let all : m - 0 ≡ m = omega arith in
      let first : g + 0 ≡ g = omega arith in
      inr (es, open_run, filled, omega arith, rw (all, first) refl)
  scan_loop-IsScanned (suc n) i zero g buf es s fits slots open_run filled small =
      absurd (omega arith)
  scan_loop-IsScanned (suc n) i (suc m) g buf es s fits slots open_run filled small =
      let here : i + 0 ≡ i = omega arith in
      let first : g + 0 ≡ g = omega arith in
      let e = entry_at d g in
      let slot : read s.entry_buf (load_sfn buf (32 * i)) ≡ read_back e s.entry_buf =
        subst (λ k. read s.entry_buf (load_sfn buf (32 * i)) ≡ read_back (entry_at d k) s.entry_buf)
          first
          (subst
            (λ k.
              read s.entry_buf (load_sfn buf (32 * k)) ≡ read_back (entry_at d (g + 0)) s.entry_buf)
            here (slots 0 (omega arith) s.entry_buf filled.2)) in
      let later = λ (j : ℕ) (less : j < n).
        let place : suc i + j ≡ i + suc j = omega arith in
        let entry : suc g + j ≡ g + suc j = omega arith in
        subst (λ k. IsSlot (entry_at d (suc g + j)) buf (32 * k)) (sym place)
          (subst (λ k. IsSlot (entry_at d k) buf (32 * (i + suc j))) (sym entry)
            (slots (suc j) (omega arith))) in
      elim (Bool-cases (is_empty e)) [
        | inl ends ↦
            let none : live_entries (suc m) g d ≡ [] = live_next m g ∙ rw ends refl in
            rw (slot, ends) (inl (refl, rw (none, append-nil) (filled.0, filled.1, refl)))
        | inr more ↦ elim (Bool-cases (is_deleted e)) [
          | inl gone ↦
              let same : live_entries (suc m) g d ≡ live_entries m (suc g) d =
                live_next m g ∙ rw (more, gone) refl in
              rw (slot, more, gone)
                (step-IsScanned n m g es es
                  (scan_loop n (suc i) d.root_entries buf
                    (record s { entry_buf = record s.entry_buf { status = delete } }))
                  (ap (λ l. es ++ l) (sym same))
                  (scan_loop-IsScanned n (suc i) m (suc g) buf es
                    (record s { entry_buf = record s.entry_buf { status = delete } }) (omega arith)
                    later open_run (filled.0, filled.1, refl) (omega arith)))
          | inr live ↦
              let same : live_entries (suc m) g d ≡ e ∷ live_entries m (suc g) d =
                live_next m g ∙ rw (more, live) refl in
              let s' =
                keep_entry d.root_entries true
                  (record s { entry_buf = record { entry = e; status = valid } }) in
              rw (slot, more, live)
                (step-IsScanned n m g es (es ++ e ∷ []) (scan_loop n (suc i) d.root_entries buf s')
                  (append_assoc es (e ∷ []) (live_entries m (suc g) d)
                    ∙ ap (λ l. es ++ l) (sym same))
                  (scan_loop-IsScanned n (suc i) m (suc g) buf (es ++ e ∷ []) s' (omega arith) later
                    (kept_finish (record s { entry_buf = record { entry = e; status = valid } })
                      ∙ open_run)
                    (kept-IsFilled es e s filled (omega (arith, in_table g more)))
                    (omega (arith, length-append es (e ∷ [])))))
        ]
      ]

  none_left : (g : ℕ) → live_entries 0 g d ≡ []
  unfolding live_entries
  none_left g = refl

  load_done :
      (n sector : ℕ) (disk : Device) (tmp : Buffer) (s : Scan)
      → s.finish ≡ true
      → load_loop n sector d.root_entries disk tmp s ≡ s
  unfolding load_loop
  load_done zero sector disk tmp s done = refl
  load_done (suc n) sector disk tmp s done = rw done refl

  -- the outer loop, over `n` sectors
  load_loop-IsFilled :
      (n sector g : ℕ) (disk : Device) (tmp : Buffer) (es : List NormalizedEntry) (s : Scan)
      → ((t : ℕ) → t < n → disk.answers (sector + t) ≡ true)
      → ((t j : ℕ)
          → t < n
          → j < 16
          → IsSlot (entry_at d (g + 16 * t + j)) (disk.sectors (sector + t)) (32 * j))
      → s.finish ≡ false
      → IsFilled es s
      → length es ≤ g
      → IsFilled (es ++ live_entries (16 * n) g d) (load_loop n sector d.root_entries disk tmp s)
  unfolding load_loop
  load_loop-IsFilled zero sector g disk tmp es s answers slots open_run filled small =
      let none : es ++ live_entries 0 g d ≡ es = rw (none_left g) (append-nil es) in
      subst (λ l. IsFilled l s) (sym none) filled
  load_loop-IsFilled (suc n) sector g disk tmp es s answers slots open_run filled small =
      let tmp' = (ide_read_sector disk sector tmp 0).1 in
      let s1 = scan_loop 16 0 d.root_entries tmp' s in
      let here : sector + 0 ≡ sector = omega arith in
      let answered : disk.answers sector ≡ true =
        sym (ap disk.answers here) ∙ answers 0 (omega arith) in
      let slots' : (j : ℕ) → j < 16 → IsSlot (entry_at d (g + j)) tmp' (32 * (0 + j)) = λ j less.
        let place : 0 + j ≡ j = omega arith in
        let entry : g + 16 * 0 + j ≡ g + j = omega arith in
        rw (place, ← entry)
          (IsSlot-cong (entry_at d (g + 16 * 0 + j)) (disk.sectors (sector + 0)) tmp' (32 * j)
            (λ o inside.
              let low : (leb 0 (32 * j + o) && ltb (32 * j + o) (0 + 512)) ≡ true =
                ground (arith, less, inside) in
              let all : 32 * j + o - 0 ≡ 32 * j + o = omega arith in
              rw (answered, low, all, here) refl)
            (slots 0 j (omega arith) less)) in
      subst
        (λ b.
          IsFilled (es ++ live_entries (16 * suc n) g d)
            (if b then s else load_loop n (suc sector) d.root_entries disk tmp' s1))
        (sym open_run)
        (elim (scan_loop-IsScanned 16 0 (16 * suc n) g tmp' es s (omega arith) slots' open_run
          filled small) [
            | inl (done, filled') ↦
                subst (IsFilled (es ++ live_entries (16 * suc n) g d))
                  (sym (load_done n (suc sector) disk tmp' s1 done)) filled'
            | inr (es', more, filled', small', e) ↦
                let left : 16 * suc n - 16 ≡ 16 * n = omega arith in
                subst (λ l. IsFilled l (load_loop n (suc sector) d.root_entries disk tmp' s1))
                  (ap (λ m. es' ++ live_entries m (g + 16) d) (sym left) ∙ e)
                  (load_loop-IsFilled n (suc sector) (g + 16) disk tmp' es' s1
                    (λ t less.
                      let next : suc sector + t ≡ sector + suc t = omega arith in
                      ap disk.answers next ∙ answers (suc t) (omega arith))
                    (λ t j less inside.
                      let next : suc sector + t ≡ sector + suc t = omega arith in
                      let entry : g + 16 + 16 * t + j ≡ g + 16 * suc t + j = omega arith in
                      rw (next, entry) (slots (suc t) j (omega arith) inside))
                    more filled' small')
          ])

  -- On a disk that answers for the sectors of the root directory, and with entries that are empty,
  -- deleted or have short names, what `flush_root_dir` writes is read by `init_root_dir` as the live
  -- entries up to the first empty one, in their order, with empty ones behind.
  pub init_root_dir-flush_root_dir :
      (disk : Device) (tmp : Buffer)
      → ((k : ℕ) → k < d.root_entries → IsStorable (d.root_dir k))
      → ((t : ℕ) → t < d.root_sector_count → disk.answers (d.root_start_sector + t) ≡ true)
      → (k : ℕ)
      → (init_root_dir d (flush_root_dir d disk).0.1 tmp).root_dir k
        ≡ get_or (live_entries (16 * d.root_sector_count) 0 d) k empty_entry
  unfolding init_root_dir flush_root_dir
  init_root_dir-flush_root_dir disk tmp storable answers k =
      let start : Scan = record {
        entry_buf = fresh;
        entry_idx = 0;
        table = λ k. empty_entry;
        finish = false;
      } in
      let n = d.root_sector_count in
      let disk' = (flush_loop n d.root_start_sector 0 d true disk).1 in
      (load_loop-IsFilled n d.root_start_sector 0 disk' tmp [] start
          (λ t less.
            ap (λ (a : ℕ → Bool). a (d.root_start_sector + t))
              (flush_answers d storable n d.root_start_sector 0 true disk)
            ∙ answers t less)
          (λ t j less inside.
            flush_slots d storable n d.root_start_sector 0 0 true disk (omega arith) answers t j
              less inside)
          refl (λ k. refl, refl, refl) (omega arith)).0
        k

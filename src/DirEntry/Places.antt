-- ===== src/DirEntry/Places.antt =====
-- `read` looks at 32 bytes, and what it makes of zeros and of a deleted entry.
use sysu_os.Base.{ℕ, zero, suc, ◌+◌, ◌*◌, ◌<◌, ◌≡◌, refl, sym, ap, ap₂, ◌∙◌, true, false, arith}
use sysu_os.FatTable.{Buffer}
use sysu_os.DirEntry.{
  SfnEntry, EntryBuf, delete, end_of_dir, load_sfn, store_sfn, read_chars, read_name, read, write,
}
use sysu_os.DirEntry.Layout.{name_lem, attr_lem}

read_chars_cong :
    (n i : ℕ) (b b' : Buffer)
    → ((k : ℕ) → k < n → b (i + k) ≡ b' (i + k))
    → read_chars n b i ≡ read_chars n b' i
unfolding read_chars
read_chars_cong zero i b b' same = refl
read_chars_cong (suc n) i b b' same =
    let e : i + 0 ≡ i = omega arith in
    let here : b i ≡ b' i = sym (ap b e) ∙ same 0 (omega arith) ∙ ap b' e in
    rw
      (
        here,
        read_chars_cong n (suc i) b b' (λ k less.
            let next : suc i + k ≡ i + suc k = omega arith in
            ap b next ∙ same (suc k) (omega arith) ∙ ap b' (sym next)),
      )
      refl

-- Structures with the same fields and the same bytes of the name are read alike.
fields-cong :
    (s t : SfnEntry) (b : EntryBuf)
    → ((k : ℕ) → k < 8 → s.name k ≡ t.name k)
    → ((k : ℕ) → k < 3 → s.ext k ≡ t.ext k)
    → s.attr ≡ t.attr
    → s.create_time_tenths ≡ t.create_time_tenths
    → s.create_time ≡ t.create_time
    → s.create_date ≡ t.create_date
    → s.last_access_date ≡ t.last_access_date
    → s.write_time ≡ t.write_time
    → s.write_date ≡ t.write_date
    → s.first_cluster_low ≡ t.first_cluster_low
    → s.file_size ≡ t.file_size
    → read b s ≡ read b t
unfolding read read_name
fields-cong s t b names exts attr tenths time date access wtime wdate cluster size =
    let bounded =
      λ (n : ℕ) (f g : Buffer) (same : (k : ℕ) → k < n → f k ≡ g k) (k : ℕ) (less : k < n).
        let e : 0 + k ≡ k = omega arith in ap f e ∙ same k less ∙ ap g (sym e) in
    let base = read_chars_cong 8 0 s.name t.name (bounded 8 s.name t.name names) in
    let ext = read_chars_cong 3 0 s.ext t.ext (bounded 3 s.ext t.ext exts) in
    rw
      (
        names 0 (omega arith),
        exts 0 (omega arith),
        base,
        ext,
        attr,
        tenths,
        time,
        date,
        access,
        wtime,
        wdate,
        cluster,
        size,
      )
      refl

pub read-cong :
    (buf buf' : Buffer) (p : ℕ) (b : EntryBuf)
    → ((o : ℕ) → o < 32 → buf (p + o) ≡ buf' (p + o))
    → read b (load_sfn buf p) ≡ read b (load_sfn buf' p)
read-cong buf buf' p b same =
    let words = λ (o : ℕ) (less : o + 1 < 32).
      let next : p + o + 1 ≡ p + (o + 1) = omega arith in
      ap₂ (λ x y. x + 256 * y) (same o (omega arith))
        (ap buf next ∙ same (o + 1) less ∙ ap buf' (sym next)) in
    fields-cong (load_sfn buf p) (load_sfn buf' p) b (λ k less. same k (omega arith))
      (λ k less. same (8 + k) (omega arith)) (same 11 (omega arith)) (same 13 (omega arith))
      (words 14 (omega arith)) (words 16 (omega arith)) (words 18 (omega arith))
      (words 22 (omega arith)) (words 24 (omega arith)) (words 26 (omega arith))
      (ap₂ (λ x y. x + 65536 * y) (words 28 (omega arith)) (words 30 (omega arith)))

module _ (buf : Buffer) (p : ℕ) (b : EntryBuf) (zeros : (o : ℕ) → o < 32 → buf (p + o) ≡ 0) where
  -- Zeros end the directory.
  pub read-zeros : read b (load_sfn buf p) ≡ (false, record b { status = end_of_dir })
  unfolding read
  read-zeros = rw (zeros 11 (omega arith), zeros 0 (omega arith)) refl

  -- An entry that is marked as deleted in a place of zeros is read as one.
  pub read-deleted :
      (w : EntryBuf)
      → read b (load_sfn (store_sfn buf p (write w (load_sfn buf p) true).0) p)
        ≡ (false, record b { status = delete })
  unfolding read write
  read-deleted w =
      let marked = (write w (load_sfn buf p) true).0 in
      let first : (load_sfn (store_sfn buf p marked) p).name 0 ≡ 0xe5 =
        name_lem buf p marked 0 (omega arith) in
      rw (attr_lem buf p marked ∙ zeros 11 (omega arith), first) refl

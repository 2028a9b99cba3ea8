-- ===== src/DirEntry/RoundTrip.antt =====
-- An entry with a short name is read as it was written.
use sysu_os.Base.{
  ℕ, ◌+◌, ◌-◌, ◌^◌, ◌<◌, ◌≤◌, ◌==◌, ltb, ◌≡◌, ◌≢◌, refl, ap, ◌∙◌, true, false, if◌then◌else◌,
  Bool-cases, inl, inr, arith, [], ◌∷◌, ◌++◌, Text, get_or, length,
}
use sysu_os.FatTable.{Buffer}
use sysu_os.DirEntry.{
  SfnEntry, NormalizedEntry, EntryBuf, Status, valid, load_sfn, store_sfn, is_directory,
  is_skip_lfn, to_upper, read_chars, read_name, read, store_chars, blank, write_name, write,
}
use sysu_os.DirEntry.Names.{
  AreNameBytes, HasNoDot, short_name, store_chars_lem, read_chars-stored, split_name-short,
  upper_lem,
}
use sysu_os.DirEntry.Layout.{IsPacked, name_lem, ext_lem, fields_lem}

-- The name is `base`, or `base.ext` for a file, in small letters; the numbers fit; and the entry is
-- not taken for a part of a long name or for a deleted one.
pub record IsShort (e : NormalizedEntry) (base ext : Text) : Type 0 where
  pub name : e.name ≡ short_name base ext
  pub base_bytes : AreNameBytes base
  pub ext_bytes : AreNameBytes ext
  pub base_fits : length base ≤ 8
  pub ext_fits : length ext ≤ 3
  pub one_dot : HasNoDot ext
  pub no_dot : ext ≡ [] → is_directory e.attr ≡ false → HasNoDot base
  pub of_directory : is_directory e.attr ≡ true → ext ≡ []
  pub not_long : e.attr ≢ 0x0f
  pub not_deleted : get_or base 0 0 ≢ 0xe5
  pub start_cluster : e.start_cluster < 2 ^ 16
  pub create_time : e.create_time < 2 ^ 16
  pub create_date : e.create_date < 2 ^ 16
  pub last_access_date : e.last_access_date < 2 ^ 16
  pub write_time : e.write_time < 2 ^ 16
  pub write_date : e.write_date < 2 ^ 16
  pub file_size : e.file_size < 2 ^ 32

-- what the two parts of the name hold
abbrev Holds : ℕ → Text → Buffer → Type 0
Holds n s b = (k : ℕ) → k < n → b k ≡ (if ltb k (length s) then to_upper (get_or s k 0) else b' ')

store_chars-Holds :
    (n : ℕ) (s : Text) → AreNameBytes s → length s ≤ n → Holds n s (store_chars n s 0 blank)
store_chars-Holds n s names fits k inside =
    let from : k - 0 ≡ k = omega arith in
    store_chars_lem n s 0 blank names fits k ∙ rw from (ground arith)

-- the bytes of a text, in small letters again
chars_lem :
    (n : ℕ) (s : Text) (b : Buffer)
    → AreNameBytes s
    → length s ≤ n
    → Holds n s b
    → read_chars n b 0 ≡ s
chars_lem n s b names fits stored =
    read_chars-stored n s b 0 names fits
      (λ k less. let e : 0 + k ≡ k = omega arith in ap b e ∙ stored k less)

-- the name of a file from its two parts
joined :
    (base ext : Text) (b : Buffer)
    → AreNameBytes ext
    → length ext ≤ 3
    → Holds 3 ext b
    → (if b 0 == b' ' then base else base ++ b'.' ∷ read_chars 3 b 0) ≡ short_name base ext
joined base [] b names fits stored =
    let first : b 0 ≡ b' ' = stored 0 (omega arith) ∙ ground arith in rw first refl
joined base (c ∷ ext) b names fits stored =
    let first : b 0 ≡ to_upper c = stored 0 (omega arith) ∙ ground arith in
    rw (chars_lem 3 (c ∷ ext) b names fits stored) (rw (first, (upper_lem c names.0).1) refl)

-- The first byte marks no end and no deleted entry.
first_byte :
    (base : Text)
    → AreNameBytes base
    → get_or base 0 0 ≢ 0xe5
    → (first : ℕ) → first ≡ (if ltb 0 (length base) then to_upper (get_or base 0 0) else b' ')
    → ((first == 0) ≡ false) × ((first == 0xe5) ≡ false)
unfolding to_upper
first_byte [] names kept first e = ground arith
first_byte (c ∷ base) names kept first e = ground arith

module _ (e : NormalizedEntry) (base ext : Text) (short : IsShort e base ext) where
  write_name_lem : write_name e ≡ (store_chars 8 base 0 blank, store_chars 3 ext 0 blank)
  unfolding write_name store_chars
  write_name_lem = elim (Bool-cases (is_directory e.attr)) [
    | inl dir ↦ rw (dir, short.name, short.of_directory dir) refl
    | inr file ↦
        rw (file, short.name)
          (split_name-short base ext short.base_bytes short.ext_bytes short.base_fits short.one_dot
            (λ empty. short.no_dot empty file))
  ]

  -- the name from the stored parts
  read_name_lem :
      (s : SfnEntry)
      → s.attr ≡ e.attr
      → Holds 8 base s.name
      → Holds 3 ext s.ext
      → read_name s ≡ e.name
  unfolding read_name
  read_name_lem s same in_name in_ext =
      let read_base = chars_lem 8 base s.name short.base_bytes short.base_fits in_name in
      elim (Bool-cases (is_directory e.attr)) [
        | inl dir ↦ rw (same, dir, read_base, short.name, short.of_directory dir) refl
        | inr file ↦
            rw (same, file, read_base, short.name)
              (joined base ext s.ext short.ext_bytes short.ext_fits in_ext)
      ]

  read-short :
      (b : EntryBuf) (s : SfnEntry)
      → is_skip_lfn b.status ≡ false
      → read_name s ≡ e.name
      → Holds 8 base s.name
      → s.attr ≡ e.attr
      → s.create_time_tenths ≡ e.create_time_tenths
      → s.create_time ≡ e.create_time
      → s.create_date ≡ e.create_date
      → s.last_access_date ≡ e.last_access_date
      → s.write_time ≡ e.write_time
      → s.write_date ≡ e.write_date
      → s.first_cluster_low ≡ e.start_cluster
      → s.file_size ≡ e.file_size
      → read b s ≡ (true, record { entry = e; status = valid })
  unfolding read
  read-short b s open_run name in_name attr tenths time date access wtime wdate cluster size =
      let (some_name, kept) =
        first_byte base short.base_bytes short.not_deleted (s.name 0) (in_name 0 (omega arith)) in
      let no_long : (s.attr == 0x0f) ≡ false = ground (arith, short.not_long) in
      rw (no_long, some_name, kept, open_run)
        (rw (name, attr, tenths, time, date, access, wtime, wdate, cluster, size) refl)

  -- An entry with a short name that is written is read again as it was, in any place of a buffer,
  -- unless the entry read before it belongs to a long name.
  pub read-write :
      (old : Buffer) (p : ℕ) (t : Status) (b : EntryBuf) (s : SfnEntry)
      → is_skip_lfn b.status ≡ false
      → read b (load_sfn (store_sfn old p (write (record { entry = e; status = t }) s false).0) p)
        ≡ (true, record { entry = e; status = valid })
  unfolding write
  read-write old p t b s open_run =
      let sfn = (write (record { entry = e; status = t }) s false).0 in
      let l = load_sfn (store_sfn old p sfn) p in
      let packed : IsPacked sfn = record {
        create_time = short.create_time;
        create_date = short.create_date;
        last_access_date = short.last_access_date;
        first_cluster_high = omega arith;
        write_time = short.write_time;
        write_date = short.write_date;
        first_cluster_low = short.start_cluster;
        file_size = short.file_size;
      } in
      let in_name : Holds 8 base l.name = λ k less.
        name_lem old p sfn k less
        ∙ ap (λ (q : Buffer × Buffer). q.0 k) write_name_lem
        ∙ store_chars-Holds 8 base short.base_bytes short.base_fits k less in
      let in_ext : Holds 3 ext l.ext = λ k less.
        ext_lem old p sfn k less
        ∙ ap (λ (q : Buffer × Buffer). q.1 k) write_name_lem
        ∙ store_chars-Holds 3 ext short.ext_bytes short.ext_fits k less in
      let (attr, tenths, time, date, access, wtime, wdate, cluster, size) =
        fields_lem old p sfn packed in
      read-short b l open_run (read_name_lem l attr in_name in_ext) in_name attr tenths time date
        access wtime wdate cluster size

-- ===== src/FileWrite/Bytes.antt =====
-- The bytes of a file while `write` goes along its chain of clusters.
use sysu_os.Base.{
  ℕ, ◌+◌, ◌-◌, ◌*◌, ◌/◌, ◌%◌, ◌<◌, ◌≤◌, ◌==◌, ltb, leb, ◌≡◌, ◌≢◌, refl, sym, ap, ◌∙◌, subst, true,
  false, ◌&&◌, if◌then◌else◌, Bool-cases, inl, inr, arith, ==→eq, ==→ne, ==_refl, ne→==,
}
use native.Mathlib.Nat.{div-eq_of_lt-le, div-add-mod'}
use sysu_os.FatTable.{Buffer, Table}
use sysu_os.FileData.Chain.{nth_cluster, cluster_of, file_byte}
use sysu_os.FileWrite.Edit.{edit_contents}

-- No two places of the chain have the same cluster.
abbrev pub IsDistinct : Table → ℕ → ℕ → ℕ → Type 0
IsDistinct table size start total =
    (k l : ℕ)
    → k < total
    → l < total
    → cluster_of table size start k ≡ cluster_of table size start l
    → k / size ≡ l / size

-- The bytes of a file from an offset on are those of `src`, `n` of them; the other bytes are as before,
-- and so are the clusters that are not of the file.
abbrev pub IsSpliced : Table → ℕ → ℕ → ℕ → (ℕ → Buffer) → (ℕ → Buffer) → ℕ → ℕ → Buffer → Type 0
IsSpliced table size start total old new offset n src =
    ((k : ℕ)
      → k < total
      → file_byte new table size start k ≡ (
          if leb offset k && ltb k (offset + n)
          then src (k - offset)
          else file_byte old table size start k))
    × ((c : ℕ) → ((k : ℕ) → k < total → c ≢ cluster_of table size start k) → new c ≡ old c)

pub div_lem : (size k q p : ℕ) → p < size → k ≡ q * size + p → k / size ≡ q
div_lem size k q p small e = div-eq_of_lt-le {k = q} size {m = k} (omega arith) (grind arith)

-- A byte is in the part of a cluster that is written, or else it stays as it was.
spliced_here :
    (offset at n p r base : ℕ) (src : Buffer) (was old : ℕ)
    → offset + at ≡ base + p
    → was ≡ (
        if leb offset (base + r) && ltb (base + r) (offset + at)
        then src (base + r - offset)
        else old)
    → (if leb p r && ltb r (p + n) then src (at + (r - p)) else was) ≡ (
        if leb offset (base + r) && ltb (base + r) (offset + (at + n))
        then src (base + r - offset)
        else old)
spliced_here offset at n p r base src was old e before =
    elim (Bool-cases (leb p r && ltb r (p + n))) [
      | inl inside ↦
          let there : (leb offset (base + r) && ltb (base + r) (offset + (at + n))) ≡ true =
            ground (arith, inside, e) in
          let place : at + (r - p) ≡ base + r - offset = ground (arith, inside, e) in
          rw (inside, there, place) refl
      | inr outside ↦
          let same : (leb offset (base + r) && ltb (base + r) (offset + (at + n)))
              ≡ (leb offset (base + r) && ltb (base + r) (offset + at)) =
            ground (arith, outside, e) in
          rw (outside, same) before
    ]

spliced_away :
    (offset at n p k base size : ℕ) (src : Buffer) (was old : ℕ)
    → offset + at ≡ base + p
    → p + n ≤ size
    → (leb base k && ltb k (base + size)) ≡ false
    → was ≡ (if leb offset k && ltb k (offset + at) then src (k - offset) else old)
    → was ≡ (if leb offset k && ltb k (offset + (at + n)) then src (k - offset) else old)
spliced_away offset at n p k base size src was old e fits away before =
    let same : (leb offset k && ltb k (offset + (at + n))) ≡ (leb offset k && ltb k (offset + at)) =
      ground (arith, away, e, fits) in
    rw same before

module _ (table : Table) (size : ℕ) (some_size : 0 < size) (start total : ℕ)
    (distinct : IsDistinct table size start total) (src : Buffer) where
  -- byte `k` of the spliced file, with the place `m` for the test
  abbrev spliced_byte : (ℕ → Buffer) → ℕ → ℕ → ℕ → ℕ → ℕ
  spliced_byte old offset n k m =
      if leb offset m && ltb m (offset + n)
      then src (m - offset)
      else file_byte old table size start k

  outside : (k q : ℕ) → k / size ≢ q → (leb (q * size) k && ltb k (q * size + size)) ≡ false
  outside k q not_q = elim (Bool-cases (leb (q * size) k && ltb k (q * size + size))) [
    | inl inside ↦
        absurd (
          not_q (div_lem size k q (k - q * size) (ground (arith, inside)) (ground (arith, inside))))
    | inr away ↦ away
  ]

  -- The bytes after one more round, which changes `n` bytes of a cluster of the file from place `p` on.
  pub IsSpliced-edit :
      (old new : ℕ → Buffer) (offset at n p q : ℕ)
      → offset + at ≡ q * size + p
      → offset + at < total
      → p < size
      → p + n ≤ size
      → IsSpliced table size start total old new offset at src
      → IsSpliced table size start total old
          (edit_contents new (nth_cluster table start q) p at n src)
          offset
          (at + n)
          src
  IsSpliced-edit old new offset at n p q e inside small fits (bytes, rest) =
      let is_q : (offset + at) / size ≡ q = div_lem size (offset + at) q p small e in
      (
        λ k less. elim (Bool-cases (k / size == q)) [
          | inl same ↦
              let is_k = ==→eq (k / size) q same in
              let here : (cluster_of table size start k == nth_cluster table start q) ≡ true =
                ap (λ m. nth_cluster table start m == nth_cluster table start q) is_k
                ∙ ==_refl (nth_cluster table start q) in
              let split : k ≡ q * size + k % size =
                sym (div-add-mod' k size) ∙ ap (λ m. m * size + k % size) is_k in
              let was = new (nth_cluster table start q) (k % size) in
              let before =
                subst (λ m. was ≡ spliced_byte old offset at k m) split
                  (sym (ap (λ m. new (nth_cluster table start m) (k % size)) is_k)
                    ∙ bytes k less) in
              rw here (
                subst
                  (λ m.
                    (if leb p (k % size) && ltb (k % size) (p + n)
                      then src (at + (k % size - p))
                      else was)
                    ≡ spliced_byte old offset (at + n) k m)
                  (sym split)
                  (spliced_here offset at n p (k % size) (q * size) src was
                    (file_byte old table size start k) e before))
          | inr other ↦
              let not_q = ==→ne (k / size) q other in
              let there : (cluster_of table size start k == nth_cluster table start q) ≡ false =
                ne→== (cluster_of table size start k) (nth_cluster table start q) (λ met. not_q (
                  distinct k (offset + at) less inside
                    (met ∙ sym (ap (nth_cluster table start) is_q))
                  ∙ is_q)) in
              let away = outside k q not_q in
              rw there (
                spliced_away offset at n p k (q * size) size src (file_byte new table size start k)
                  (file_byte old table size start k) e fits away (bytes k less))
        ],
        λ c apart.
            let other : (c == nth_cluster table start q) ≡ false =
              ne→== c (nth_cluster table start q) (λ met.
                apart (offset + at) inside (met ∙ sym (ap (nth_cluster table start) is_q))) in
            rw other (rest c apart),
      )

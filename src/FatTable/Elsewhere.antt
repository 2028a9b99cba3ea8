-- ===== src/FatTable/Elsewhere.antt =====
-- What `flush_fat_table` does not touch, and why it fails.
use sysu_os.Base.{
  ℕ, zero, suc, ◌+◌, ◌*◌, ◌/◌, ◌≤◌, ◌≡◌, refl, sym, ap, subst, ◌∙◌, Bool, false, ◌&&◌, Bool-cases,
  inl, inr, arith,
}
use sysu_os.FatTable.{
  Buffer, Table, Device, encode_group, write_group, flush_groups, flush_fat_table,
}

-- what a run of the disk driver leaves as it was: the answers, and the sectors from `from` on; where it
-- fails, a sector is not answered
pub record IsElsewhere (d : Device) (from : ℕ) (r : Bool × Device) : Type 0 where
  pub answers : r.1.answers ≡ d.answers
  pub sectors : (s o : ℕ) → from ≤ s → r.1.sectors s o ≡ d.sectors s o
  pub fails : r.0 ≡ false → (lba : ℕ) × (d.answers lba ≡ false)

one_of_three :
    (d : Device) (a b c : ℕ)
    → (d.answers a && d.answers b && d.answers c) ≡ false
    → (lba : ℕ) × (d.answers lba ≡ false)
one_of_three d a b c bad = elim (Bool-cases (d.answers a)) [
  | inr miss ↦ (a, miss)
  | inl first ↦ elim (Bool-cases (d.answers b)) [
    | inr miss ↦ (b, miss)
    | inl second ↦ (c, ground (arith, bad, first, second))
  ]
]

write_group-IsElsewhere :
    (d : Device) (start i : ℕ) (buf : Buffer)
    → IsElsewhere d (start + i + 3) (write_group d start i buf)
unfolding write_group
write_group-IsElsewhere d start i buf = record {
  answers = refl;
  sectors = λ s o behind. ground arith;
  fails = one_of_three d (i + start) (i + 1 + start) (i + 2 + start);
}

flush_groups-IsElsewhere :
    (n start i idx : ℕ) (t : Table) (d : Device) (buf : Buffer)
    → IsElsewhere d (start + i + 3 * n) (flush_groups n start i idx t d buf)
unfolding flush_groups
flush_groups-IsElsewhere zero start i idx t d buf = record {
  answers = refl;
  sectors = λ s o behind. refl;
  fails = λ e. absurd (ground (arith, e));
}
flush_groups-IsElsewhere (suc n) start i idx t d buf =
    let buf' = encode_group idx t buf in
    let w = write_group-IsElsewhere d start i buf' in
    let d' = (write_group d start i buf').1 in
    let rest = flush_groups-IsElsewhere n start (i + 3) (idx + 1024) t d' buf' in
    elim (Bool-cases (write_group d start i buf').0) [
      | inl ok ↦ rw ok (record {
        answers = rest.answers ∙ w.answers;
        sectors = λ s o behind. rest.sectors s o (omega arith) ∙ w.sectors s o (omega arith);
        fails = λ e.
            let (lba, bad) = rest.fails e in
            (lba, sym (ap (λ (a : ℕ → Bool). a lba) w.answers) ∙ bad);
      })
      | inr bad ↦ rw bad (record {
        answers = w.answers;
        sectors = λ s o behind. w.sectors s o (omega arith);
        fails = λ e. w.fails bad;
      })
    ]

pub flush_fat_table-IsElsewhere :
    (total start : ℕ) (t : Table) (d : Device) (buf : Buffer)
    → IsElsewhere d (start + 3 * ((total + 2) / 3)) (flush_fat_table total start t d buf)
unfolding flush_fat_table
flush_fat_table-IsElsewhere total start t d buf =
    subst (λ k. IsElsewhere d (k + 3 * ((total + 2) / 3)) (flush_fat_table total start t d buf))
      (omega arith) (flush_groups-IsElsewhere ((total + 2) / 3) start 0 0 t d buf)

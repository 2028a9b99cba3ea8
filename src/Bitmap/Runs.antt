-- ===== src/Bitmap/Runs.antt =====
-- Runs of free bits, and what the two inner loops of `allocate(count, false)` find.
use sysu_os.Base.{
  ℕ, zero, suc, ◌+◌, ◌≤◌, ◌<◌, ◌≡◌, inl, inr, true, false, arith, ltb, Bool-cases, ltb→lt, ltb→le,
  ◌&&◌, not,
}
use sysu_os.Bitmap.{BitMap, get, skip_used, count_free}

-- the `n` bits from `i` on are clear
abbrev pub IsFree : BitMap → ℕ → ℕ → Type 0
IsFree b i n = (k : ℕ) → k < n → get b (i + k) ≡ false

-- no run of `n` clear bits begins at `i`
abbrev pub Blocked : BitMap → ℕ → ℕ → Type 0
Blocked b n i = (k : ℕ) × (k < n) × (get b (i + k) ≡ true)

-- Where `skip_used` stops: the bits that it passed are set, and it stands on a clear one.
pub record Skipped (b : BitMap) (index stop : ℕ) : Type 0 where
  pub onward : index ≤ stop
  pub within : stop ≤ b.length
  pub used : (j : ℕ) → index ≤ j → j < stop → get b j ≡ true
  pub clear : stop < b.length → get b stop ≡ false

pub skip_used-Skipped :
    (fuel : ℕ) (b : BitMap) (index : ℕ)
    → index ≤ b.length
    → b.length ≤ index + fuel
    → Skipped b index (skip_used fuel b index)
unfolding skip_used
skip_used-Skipped zero b index le enough = record {
  onward = omega arith;
  within = le;
  used = λ j p q. absurd (omega arith);
  clear = λ lt. absurd (omega arith);
}
skip_used-Skipped (suc fuel) b index le enough = elim (Bool-cases (ltb index b.length)) [
  | inl lt ↦ elim (Bool-cases (get b index)) [
    | inl on ↦
        let below = ltb→lt _ _ lt in
        let rest = skip_used-Skipped fuel b (index + 1) (omega arith) (omega arith) in
        rw (lt, on)
          (record {
            onward = omega (arith, rest.onward);
            within = rest.within;
            used = λ j p q. elim (Bool-cases (ltb index j)) [
              | inl past ↦ rest.used j (omega (arith, ltb→lt _ _ past)) q
              | inr here ↦ let e : j ≡ index = omega (arith, ltb→le _ _ here) in rw e on
            ];
            clear = rest.clear;
          })
    | inr off ↦
        rw (lt, off)
          (record {
            onward = omega arith;
            within = le;
            used = λ j p q. absurd (omega arith);
            clear = λ _. off;
          })
  ]
  | inr ge ↦ rw ge (record {
    onward = omega arith;
    within = le;
    used = λ j p q. absurd (omega arith);
    clear = λ lt. absurd (omega (arith, ltb→le _ _ ge));
  })
]

-- Where `count_free` stops: it counted clear bits, up to `count`, the end or a set bit.
pub record Counted (b : BitMap) (count start : ℕ) (run : ℕ × ℕ) : Type 0 where
  pub position : run.1 ≡ start + run.0
  pub at_most : run.0 ≤ count
  pub within : run.1 ≤ b.length
  pub free : IsFree b start run.0
  pub stopped : run.0 < count → run.1 < b.length → get b run.1 ≡ true

pub count_free-Counted :
    (fuel : ℕ) (b : BitMap) (count start empty index : ℕ)
    → index ≡ start + empty
    → empty ≤ count
    → index ≤ b.length
    → count ≤ empty + fuel
    → IsFree b start empty
    → Counted b count start (count_free fuel b count empty index)
unfolding count_free
count_free-Counted zero b count start empty index e le within enough free = record {
  position = e;
  at_most = le;
  within = within;
  free = free;
  stopped = λ p q. absurd (omega arith);
}
count_free-Counted (suc fuel) b count start empty index e le within enough free =
    elim (Bool-cases (ltb index b.length && not (get b index) && ltb empty count)) [
      | inl more ↦
          let off : get b index ≡ false = ground arith in
          rw more (
            count_free-Counted fuel b count start (empty + 1) (index + 1) (omega arith)
              (ground arith) (ground arith) (omega arith)
              λ k lt. elim (Bool-cases (ltb k empty)) [
                | inl old ↦ free k (ltb→lt _ _ old)
                | inr new ↦
                    let here : start + k ≡ index = omega (arith, ltb→le _ _ new) in rw here off
              ])
      | inr done ↦ rw done (record {
        position = e;
        at_most = le;
        within = within;
        free = free;
        stopped = λ p q. ground arith;
      })
    ]

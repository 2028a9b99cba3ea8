-- ===== src/Bitmap/Backward.antt =====
-- `allocate(count, true)` is a last-fit search, the mirror image of `Forward`.
use sysu_os.Base.{
  ℕ, zero, suc, ◌+◌, ◌-◌, ◌≤◌, ◌<◌, ◌≡◌, inl, inr, true, false, arith, ltb, Bool-cases, ltb→lt,
  ltb→le, ◌==◌, ==→eq, ==→ne, ◌≢◌, ◌&&◌, not, ap,
}
use sysu_os.Bitmap.{
  BitMap, get, skip_used_down, count_free_down, Search, found, missing, search_backward,
}
use sysu_os.Bitmap.Runs.{IsFree, Blocked}

-- Where `skip_used_down` stops, as one past the index.
record Skipped (b : BitMap) (above stop : ℕ) : Type 0 where
  downward : stop ≤ above
  used : (j : ℕ) → stop ≤ j → j < above → get b j ≡ true
  clear : 0 < stop → get b (stop - 1) ≡ false

skip_used_down-Skipped :
    (fuel : ℕ) (b : BitMap) (above : ℕ)
    → above ≤ fuel
    → Skipped b above (skip_used_down fuel b above)
unfolding skip_used_down
skip_used_down-Skipped zero b above enough = record {
  downward = omega arith;
  used = λ j p q. absurd (omega arith);
  clear = λ lt. absurd (omega arith);
}
skip_used_down-Skipped (suc fuel) b above enough =
    elim (Bool-cases (ltb 0 above && get b (above - 1))) [
      | inl more ↦
          let on : get b (above - 1) ≡ true = ground arith in
          let pos : 0 < above = ground arith in
          let rest = skip_used_down-Skipped fuel b (above - 1) (omega arith) in
          rw more (record {
            downward = omega (arith, rest.downward);
            used = λ j p q. elim (Bool-cases (ltb j (above - 1))) [
              | inl below ↦ rest.used j p (ltb→lt _ _ below)
              | inr here ↦ let e : j ≡ above - 1 = omega (arith, ltb→le _ _ here) in rw e on
            ];
            clear = rest.clear;
          })
      | inr done ↦ rw done (record {
        downward = omega arith;
        used = λ j p q. absurd (omega arith);
        clear = λ lt. ground arith;
      })
    ]

record Counted (b : BitMap) (count start : ℕ) (run : ℕ × ℕ) : Type 0 where
  position : run.1 + run.0 ≡ start
  at_most : run.0 ≤ count
  free : (j : ℕ) → run.1 ≤ j → j < start → get b j ≡ false
  stopped : run.0 < count → 0 < run.1 → get b (run.1 - 1) ≡ true

count_free_down-Counted :
    (fuel : ℕ) (b : BitMap) (count start empty above : ℕ)
    → above + empty ≡ start
    → empty ≤ count
    → count ≤ empty + fuel
    → ((j : ℕ) → above ≤ j → j < start → get b j ≡ false)
    → Counted b count start (count_free_down fuel b count empty above)
unfolding count_free_down
count_free_down-Counted zero b count start empty above e le enough free = record {
  position = e;
  at_most = le;
  free = free;
  stopped = λ p q. absurd (omega arith);
}
count_free_down-Counted (suc fuel) b count start empty above e le enough free =
    elim (Bool-cases (ltb 0 above && not (get b (above - 1)) && ltb empty count)) [
      | inl more ↦
          let off : get b (above - 1) ≡ false = ground arith in
          let pos : 0 < above = ground arith in
          rw more (
            count_free_down-Counted fuel b count start (empty + 1) (above - 1) (omega arith)
              (ground arith) (omega arith)
              λ j p q. elim (Bool-cases (ltb j above)) [
                | inl new ↦ let here : j ≡ above - 1 = omega (arith, ltb→lt _ _ new) in rw here off
                | inr old ↦ free j (ltb→le _ _ old) q
              ])
      | inr done ↦
          rw done
            (record { position = e; at_most = le; free = free; stopped = λ p q. ground arith })
    ]

-- The outcome of a search for the highest run of `count` clear bits; `top` is its last index.
pub data LastFit (b : BitMap) (count : ℕ) : Search → Type 0 where
  fits :
      (top : ℕ)
      → count ≤ top + 1
      → top < b.length
      → IsFree b (top + 1 - count) count
      → ((t : ℕ) → top + 1 - count < t → t + count ≤ b.length → Blocked b count t)
      → LastFit b count (found top)
  none_fits : ((t : ℕ) → t + count ≤ b.length → Blocked b count t) → LastFit b count missing

module _ (b : BitMap) (count : ℕ) (positive : 0 < count) where
  -- every run that would end above `above` meets a set bit
  abbrev Tried : ℕ → Type 0
  Tried above = (t : ℕ) → above < t + count → t + count ≤ b.length → Blocked b count t

  Tried-skip : {above stop : ℕ} → Tried above → Skipped b above stop → Tried stop
  Tried-skip {above} {stop} tried s t lt room = elim (Bool-cases (ltb above (t + count))) [
    | inl old ↦ tried t (ltb→lt _ _ old) room
    | inr new ↦ (
      count - 1,
      omega arith,
      s.used (t + (count - 1)) (omega arith) (omega (arith, ltb→le _ _ new)),
    )
  ]

  Tried-count :
      {start : ℕ} {run : ℕ × ℕ}
      → Tried start
      → Counted b count start run
      → run.0 < count
      → Tried run.1
  Tried-count {start} {run} tried c short t lt room = elim (Bool-cases (ltb start (t + count))) [
    | inl old ↦ tried t (ltb→lt _ _ old) room
    | inr new ↦
        let below = ltb→le _ _ new in
        let at : t + (run.1 - 1 - t) ≡ run.1 - 1 = omega (arith, c.position) in
        (
          run.1 - 1 - t,
          omega (arith, c.position),
          rw at (c.stopped short (omega (arith, c.position))),
        )
  ]

  Counted-some :
      {above start : ℕ} {run : ℕ × ℕ}
      → Skipped b above start
      → Counted b count start run
      → start ≢ 0
      → 0 < run.0
  Counted-some {above} {start} {run} s c inside = elim (Bool-cases (ltb 0 run.0)) [
    | inl some_free ↦ ltb→lt _ _ some_free
    | inr zero_free ↦
        let at : run.1 ≡ start = omega (arith, c.position, ltb→le _ _ zero_free) in
        let clear = s.clear (omega arith) in
        let on = c.stopped (omega (arith, ltb→le _ _ zero_free)) (omega arith) in
        absurd (ground (arith, ap (λ i. get b (i - 1)) at))
  ]

  pub search_backward-LastFit :
      (fuel above : ℕ)
      → above ≤ b.length
      → above < fuel
      → Tried above
      → LastFit b count (search_backward fuel b count above)
  unfolding search_backward
  search_backward-LastFit zero above le enough tried = absurd (omega arith)
  search_backward-LastFit (suc fuel) above le enough tried =
      let start = skip_used_down b.length b above in
      let run = count_free_down count b count 0 start in
      let s = skip_used_down-Skipped b.length b above le in
      let c =
        count_free_down-Counted count b count start 0 start (omega arith) (omega arith)
          (omega arith) (λ j p q. absurd (omega arith)) in
      let after = Tried-skip tried s in
      elim (Bool-cases (ltb 0 above)) [
        | inl lt ↦ elim (Bool-cases (start == 0)) [
          | inl end ↦ rw (lt, end) (none_fits λ t h. after t (omega (arith, ==→eq start 0 end)) h)
          | inr inside ↦
              let ne = ==→ne start 0 inside in
              elim (Bool-cases (run.0 == count)) [
                | inl all ↦
                    rw (lt, inside, all)
                      (let n : run.0 ≡ count = ==→eq _ _ all in
                        fits (start - 1) (omega (arith, c.position)) (omega (arith, s.downward))
                          (λ k h.
                            c.free (start - 1 + 1 - count + k) (omega (arith, c.position))
                              (omega (arith, c.position)))
                          λ t h. after t (omega (arith, c.position)))
                | inr short ↦
                    rw (lt, inside, short)
                      (let less : run.0 < count = omega (arith, c.at_most, ==→ne _ _ short) in
                        search_backward-LastFit fuel run.1 (omega (arith, c.position, s.downward))
                          (omega (arith, c.position, s.downward, Counted-some s c ne))
                          (Tried-count after c less))
              ]
        ]
        | inr ge ↦ rw ge (none_fits λ t h. tried t (omega (arith, ltb→le _ _ ge)) h)
      ]

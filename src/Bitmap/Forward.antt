-- ===== src/Bitmap/Forward.antt =====
-- `allocate(count, false)` is a first-fit search: it finds the lowest run of `count` clear bits,
-- reports a failure only when there is none, and always comes to an end.
use sysu_os.Base.{
  ℕ, zero, suc, ◌+◌, ◌-◌, ◌≤◌, ◌<◌, ◌≡◌, inl, inr, arith, ltb, Bool-cases, ltb→lt, ltb→le, ◌==◌,
  ==→eq, ==→ne, ◌≢◌, ap,
}
use sysu_os.Bitmap.{BitMap, get, skip_used, count_free, Search, found, missing, search_forward}
use sysu_os.Bitmap.Runs.{IsFree, Blocked, Skipped, skip_used-Skipped, Counted, count_free-Counted}

-- The outcome of a search for the lowest run of `count` clear bits.
pub data FirstFit (b : BitMap) (count : ℕ) : Search → Type 0 where
  fits :
      (start : ℕ)
      → start + count ≤ b.length
      → IsFree b start count
      → ((t : ℕ) → t < start → Blocked b count t)
      → FirstFit b count (found start)
  none_fits : ((t : ℕ) → t + count ≤ b.length → Blocked b count t) → FirstFit b count missing

module _ (b : BitMap) (count : ℕ) (positive : 0 < count) where
  -- every position below `i` is the start of no run
  abbrev Tried : ℕ → Type 0
  Tried i = (t : ℕ) → t < i → t + count ≤ b.length → Blocked b count t

  Tried-skip : {i stop : ℕ} → Tried i → Skipped b i stop → Tried stop
  Tried-skip {i} tried s t lt room = elim (Bool-cases (ltb t i)) [
    | inl old ↦ tried t (ltb→lt _ _ old) room
    | inr new ↦ (0, positive, rw (at t) (s.used t (ltb→le _ _ new) lt))
  ]
    where
      at : (t : ℕ) → t + 0 ≡ t
      at t = omega arith

  Tried-count :
      {start : ℕ} {run : ℕ × ℕ}
      → Tried start
      → Counted b count start run
      → run.0 < count
      → Tried run.1
  Tried-count {start} {run} tried c short t lt room = elim (Bool-cases (ltb t start)) [
    | inl old ↦ tried t (ltb→lt _ _ old) room
    | inr new ↦
        let past = ltb→le _ _ new in
        let at : t + (run.1 - t) ≡ run.1 = omega arith in
        (run.1 - t, omega (arith, c.position), rw at (c.stopped short (omega (arith, c.position))))
  ]

  -- A run that begins on a clear bit is not empty, so the search moves on.
  Counted-some :
      {index start : ℕ} {run : ℕ × ℕ}
      → Skipped b index start
      → Counted b count start run
      → start ≢ b.length
      → 0 < run.0
  Counted-some {start} {run} s c inside = elim (Bool-cases (ltb 0 run.0)) [
    | inl some_free ↦ ltb→lt _ _ some_free
    | inr zero_free ↦
        let at : run.1 ≡ start = omega (arith, c.position, ltb→le _ _ zero_free) in
        let below : start < b.length = omega (arith, s.within) in
        let clear = s.clear below in
        let on = c.stopped (omega (arith, ltb→le _ _ zero_free)) (omega arith) in
        absurd (ground (arith, ap (get b) at))
  ]

  pub search_forward-FirstFit :
      (fuel index : ℕ)
      → index ≤ b.length
      → b.length < index + fuel
      → Tried index
      → FirstFit b count (search_forward fuel b count index)
  unfolding search_forward
  search_forward-FirstFit zero index le enough tried = absurd (omega arith)
  search_forward-FirstFit (suc fuel) index le enough tried =
      let start = skip_used b.length b index in
      let run = count_free count b count 0 start in
      let s = skip_used-Skipped b.length b index le (omega arith) in
      let c =
        count_free-Counted count b count start 0 start (omega arith) (omega arith) s.within
          (omega arith) (λ k h. elim h [ ]) in
      let after = Tried-skip tried s in
      elim (Bool-cases (ltb index b.length)) [
        | inl lt ↦ elim (Bool-cases (start == b.length)) [
          | inl end ↦
              rw (lt, end) (none_fits λ t h. after t (omega (arith, ==→eq start b.length end)) h)
          | inr inside ↦ elim (Bool-cases (run.0 == count)) [
            | inl all ↦
                rw (lt, inside, all)
                  (let n : run.0 ≡ count = ==→eq _ _ all in
                    fits start (omega (arith, c.within, c.position)) (λ k h. c.free k (omega arith))
                      λ t h. after t h (omega (arith, c.within, c.position)))
            | inr short ↦
                rw (lt, inside, short)
                  (let less : run.0 < count = omega (arith, c.at_most, ==→ne _ _ short) in
                    search_forward-FirstFit fuel run.1 c.within
                      (omega (arith, c.position, s.onward, Counted-some s c (==→ne _ _ inside)))
                      (Tried-count after c less))
          ]
        ]
        | inr ge ↦ rw ge (none_fits λ t h. tried t (omega (arith, ltb→le _ _ ge)) h)
      ]

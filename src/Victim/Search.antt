-- ===== src/Victim/Search.antt =====
-- How far a search for a victim comes.
use sysu_os.Base.{
  ℕ, suc, ◌+◌, ◌-◌, ◌%◌, ◌<◌, ◌≤◌, ◌==◌, ◌≡◌, ◌≢◌, refl, ap, ◌∙◌, subst, Bool, true, false, not,
  ◌&&◌, Bool-cases, inl, inr, arith, ==→eq, ==→ne,
}
use native.Mathlib.Nat.{mod-eq_of_lt}
use sysu_os.Victim.{
  PagePool, State, Outcome, going, picked, failed, no_victim, is_accessed, is_alloc, is_mapped_once,
  pte_of, priority_of, victim_of, visit, move_on, and_then, page_loop, round_loop, choose, window,
  find_victim,
}

-- A page that a visit picks at once: its number is a multiple of 8, it is in use, one entry maps it,
-- and neither bit is set.
abbrev pub IsPickable : PagePool → (ℕ → ℕ) → ℕ → Type 0
IsPickable p ptes idx =
    (idx % 8 ≡ 0)
    × (p.bitmap idx ≡ true)
    × (is_mapped_once p idx ≡ true)
    × (priority_of (ptes (pte_of p idx)) ≡ 0)

-- What a visit of a page comes to: it fails, picks the page, or goes on.
abbrev pub IsVisited : PagePool → State → Outcome → Type 0
IsVisited p s failed = ¬ IsPickable p s.ptes s.victim_idx
IsVisited p s (picked v s') = (v ≡ victim_of p s.victim_idx) × IsPickable p s.ptes s.victim_idx
IsVisited p s (going s') = (s'.victim_idx ≡ s.victim_idx) × (¬ IsPickable p s.ptes s.victim_idx)

-- What the search comes to: it picks the page at which it starts, which is one that a visit picks at
-- once, or fails, and then that page is none.
abbrev pub IsStopped : PagePool → (ℕ → ℕ) → ℕ → Outcome → Type 0
IsStopped p ptes saved failed = ¬ IsPickable p ptes saved
IsStopped p ptes saved (picked v s) = (v ≡ victim_of p saved) × IsPickable p ptes saved
IsStopped p ptes saved (going s) = ⊥

and-right : (a b : Bool) → (a && b) ≡ true → b ≡ true
and-right true b e = e
and-right false b e = cc

accessed_busy : (word : ℕ) → is_accessed word ≡ true → priority_of word ≢ 0
accessed_busy word set e = ground (arith, set, e)

eq→== : (m n : ℕ) → m ≡ n → (m == n) ≡ true
eq→== m n e = ground (arith, e)

module _ (p : PagePool) where
  -- `isAlloc` holds of the pages in use whose number is a multiple of 8.
  eighth_alloc : (idx : ℕ) → idx % 8 ≡ 0 → p.bitmap idx ≡ true → is_alloc p idx ≡ true
  eighth_alloc idx eighth used = rw (used, eq→== (idx % 8) 0 eighth) refl

  alloc_eighth : (idx : ℕ) → is_alloc p idx ≡ true → (idx % 8 ≡ 0) × (p.bitmap idx ≡ true)
  alloc_eighth idx e = elim (Bool-cases (p.bitmap idx)) [
    | inl used ↦ (==→eq (idx % 8) 0 (and-right (p.bitmap idx) (idx % 8 == 0) e), used)
    | inr free ↦ cc (e, ap (λ b. b && (idx % 8 == 0)) free)
  ]

  visit-IsVisited :
      (last : Bool) (s : State)
      → ((i : ℕ) → (s.victims i).paddr ≡ 0)
      → IsVisited p s (visit p last s)
  unfolding visit
  visit-IsVisited last s none_yet =
      let idx = s.victim_idx in
      let word = s.ptes (pte_of p idx) in
      let empty : ((s.victims (priority_of word)).paddr == 0) ≡ true =
        ap (λ a. a == 0) (none_yet (priority_of word)) in
      elim (Bool-cases (is_alloc p idx)) [
        | inr free ↦ rw free (λ idle. cc (free, eighth_alloc idx idle.0 idle.1))
        | inl used ↦
            let alloc = alloc_eighth idx used in
            elim (Bool-cases (is_mapped_once p idx)) [
              | inr many ↦ rw (used, many) (refl, λ idle. cc (many, idle.2))
              | inl once ↦ elim (Bool-cases (not last && is_accessed word)) [
                | inl again ↦
                    rw (used, once, again)
                      (
                        refl,
                        λ idle.
                            accessed_busy word (and-right (not last) (is_accessed word) again)
                              idle.3,
                      )
                | inr now ↦ elim (Bool-cases (priority_of word == 0)) [
                  | inl idle ↦
                      rw (used, once, now, empty, idle)
                        (refl, (alloc.0, alloc.1, once, ==→eq (priority_of word) 0 idle))
                  | inr busy ↦
                      rw (used, once, now, empty, busy)
                        (refl, λ idle. ==→ne (priority_of word) 0 busy idle.3)
                ]
              ]
            ]
      ]

  visit-fails :
      (last : Bool) (s : State) → is_alloc p s.victim_idx ≡ false → visit p last s ≡ failed
  unfolding visit
  visit-fails last s free = rw free refl

  -- The page behind the first one has a number that is no multiple of 8, or the first one has.
  next-IsStopped :
      (n saved : ℕ) (last : Bool) (s : State)
      → saved + 1 < p.length
      → saved % 8 ≡ 0
      → s.victim_idx ≡ saved
      → (o : Outcome) → IsVisited p s o
      → IsStopped p s.ptes s.victim_idx (and_then o (λ s'. page_loop (suc n) p last (move_on p s')))
  unfolding page_loop
  next-IsStopped n saved last s room first here failed bad = bad
  next-IsStopped n saved last s room first here (picked v s') done = done
  next-IsStopped n saved last s room first here (going s') (same, not_idle) =
      let next : (s'.victim_idx + 1) % p.length ≡ saved + 1 =
        ap (λ i. (i + 1) % p.length) (same ∙ here) ∙ mod-eq_of_lt room in
      let odd : ((saved + 1) % 8 == 0) ≡ false = ground (arith, first) in
      let free : is_alloc p ((s'.victim_idx + 1) % p.length) ≡ false =
        ap (is_alloc p) next ∙ elim (Bool-cases (p.bitmap (saved + 1))) [
          | inl set ↦ rw (set, odd) refl
          | inr clear ↦ rw clear refl
        ] in
      rw (visit-fails last (move_on p s') free) not_idle

  page_loop-IsStopped :
      (n : ℕ) (last : Bool) (s : State)
      → s.victim_idx + 1 < p.length
      → ((i : ℕ) → (s.victims i).paddr ≡ 0)
      → IsStopped p s.ptes s.victim_idx (page_loop (suc (suc n)) p last s)
  unfolding page_loop
  page_loop-IsStopped n last s room none_yet = elim (Bool-cases (s.victim_idx % 8 == 0)) [
    | inl first ↦
        next-IsStopped n s.victim_idx last s room (==→eq (s.victim_idx % 8) 0 first) refl
          (visit p last s) (visit-IsVisited last s none_yet)
    | inr odd ↦
        let free : is_alloc p s.victim_idx ≡ false = elim (Bool-cases (p.bitmap s.victim_idx)) [
          | inl set ↦ rw (set, odd) refl
          | inr clear ↦ rw clear refl
        ] in
        rw (visit-fails last s free) (λ idle. cc (free, eighth_alloc s.victim_idx idle.0 idle.1))
  ]

  choose-IsStopped :
      (ptes : ℕ → ℕ) (saved : ℕ) (go : State → Outcome) (o : Outcome)
      → IsStopped p ptes saved o
      → IsStopped p ptes saved (choose (and_then o go))
  choose-IsStopped ptes saved go failed bad = bad
  choose-IsStopped ptes saved go (picked v s) done = done
  choose-IsStopped ptes saved go (going s) none = absurd none

  -- A search of at least one round over two pages or more, from a page that is not the last one
  -- of the pool, picks the page at which it starts, if that page's number is a multiple of 8 and
  -- it is in use, mapped once, and neither accessed nor dirty; otherwise it fails an `ASSERT`.
  pub find_victim-IsStopped :
      (saved search_length rounds : ℕ) (ptes : ℕ → ℕ)
      → saved + 1 < p.length
      → 2 ≤ window p search_length
      → IsStopped p ptes saved (find_victim p saved ptes search_length (suc rounds))
  unfolding find_victim round_loop
  find_victim-IsStopped saved search_length rounds ptes room wide =
      let start : State = record { victim_idx = saved; ptes = ptes; victims = λ i. no_victim } in
      let n = window p search_length in
      let two : suc (suc (n - 2)) ≡ n = omega arith in
      choose-IsStopped ptes saved (round_loop rounds p n saved) (page_loop n p (rounds == 0) start)
        (subst (λ m. IsStopped p ptes saved (page_loop m p (rounds == 0) start)) two
          (page_loop-IsStopped (n - 2) (rounds == 0) start room (λ i. refl)))

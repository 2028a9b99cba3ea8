-- ===== src/Semaphore/Wait.antt =====
-- `P`: when it goes through, and what becomes of a process that has to wait.
use sysu_os.Base.{
  ℕ, ◌-◌, ◌<◌, ltb, Bool-cases, inl, inr, ◌∙◌, ◌≡◌, ◌≢◌, refl, sym, subst, true, false, List, [],
  ◌∷◌, ◌++◌, arith, length, some,
}
use sysu_os.LinkedList.{Item, Links, null, push_back}
use sysu_os.LinkedList.Chain.{IsList, has}
use sysu_os.LinkedList.Frame.{SameOutside-IsList}
use sysu_os.LinkedList.Push.{push_back-Inserted}
use sysu_os.LinkedList.Splice.{ne_of_has}
use mathlib.Core.List.{append-nil}
use sysu_os.Process.{
  Kernel, ready, running, blocked, is_dead, ready_list, general_tag, ok, set_status,
}
use sysu_os.Process.Schedule.{general_tags, length-tags, SameBut, schedule_live}
use sysu_os.Semaphore.{Semaphore, Passed, entered, switched, unlock, p_round}
use sysu_os.Semaphore.Queued.{IsQueued, lock_free}

-- the kernel after a process had to wait: the first ready one runs, and the one that waits is again
-- ready, at the end of the ready list
abbrev pub IsYielded : Kernel → ℕ → List ℕ → Kernel → Type 0
IsYielded k next rs k' =
    (k'.current ≡ next)
    × IsList k'.links (ready_list k') (general_tags (rs ++ k.current ∷ []))
    × ((k'.pcb next).status ≡ running)
    × ((k'.pcb k.current).status ≡ ready)
    × SameBut next k.current k k'

-- what a round of `P` comes to
abbrev pub IsPassed : Semaphore → Kernel → ℕ → List ℕ → Passed → Type 0
IsPassed s k next rs (entered s' k') =
    (0 < s.counter) × (s' ≡ unlock (record s { counter = s.counter - 1 })) × (k' ≡ k)
IsPassed s k next rs (switched s' (ok k')) =
    (s.counter ≡ 0) × (s' ≡ unlock s) × IsYielded k next rs k'
IsPassed s k next rs r = ⊥

not_item :
    (item a : Item) (xs ys : List Item)
    → has item xs ≡ false
    → has a xs ≡ true
    → has a ys ≡ false
    → has a (item ∷ ys) ≡ false
not_item item a xs ys out h apart = let ne = ne_of_has a item xs h out in ground (arith, ne, apart)

module _ (fuel : ℕ) (s : Semaphore) (k : Kernel) (ws : List ℕ) (next : ℕ) (rs : List ℕ)
    (q : IsQueued k s.waiting ws (next ∷ rs))
    (not_waiting : has (general_tag k.current) (s.waiting ∷ general_tags ws) ≡ false)
    (not_ready : has (general_tag k.current) (ready_list k ∷ general_tags (next ∷ rs)) ≡ false)
    (exists : next ≢ null) where
  -- `push_back` into the waiting list leaves the ready list as it is.
  push_back-IsList :
      length ws < fuel
      → (l' : Links) × (push_back fuel k.links s.waiting (general_tag k.current) ≡ some l')
        × IsList l' (ready_list k) (general_tags (next ∷ rs))
  push_back-IsList enough =
      let item = general_tag k.current in
      let tags = general_tags ws in
      let ready_items = ready_list k ∷ general_tags (next ∷ rs) in
      let room : length tags < fuel = omega (arith, length-tags ws) in
      let (l', done, inserted) =
        push_back-Inserted item (omega arith) fuel q.waiters not_waiting room in
      let written = item ∷ s.waiting ∷ (tags ++ []) in
      let outside : (a : Item) → has a ready_items ≡ true → has a written ≡ false = λ a h.
        subst (λ xs. has a (item ∷ s.waiting ∷ xs) ≡ false) (sym (append-nil tags))
          (not_item item a ready_items (s.waiting ∷ tags) not_ready h (q.apart a h)) in
      (
        l',
        done,
        SameOutside-IsList k.links l' (ready_list k) (general_tags (next ∷ rs)) written q.readies
            inserted.1 outside,
      )

  -- A round of `P` on a free lock, by a process that is in neither list, while `next` is the first one
  -- that is ready: where the semaphore is above 0, it is counted down and `P` returns; at 0 it stays
  -- so, `next` runs, and the process that has to wait is made ready, not blocked, at the end of the
  -- ready list. The lock is free again.
  pub p_round-IsPassed :
      s.bolt ≡ 0 → length ws < fuel → length rs < fuel → IsPassed s k next rs (p_round fuel s k)
  unfolding p_round
  p_round-IsPassed free enough fits =
      let (l', done, v) = push_back-IsList enough in
      let stopped : Kernel = set_status (record k { links = l' }) k.current blocked in
      let live : is_dead (stopped.pcb k.current).status ≡ false = ground arith in
      let (k', scheduled, at, list, runs, again, same) =
        schedule_live stopped next rs v exists fuel fits not_ready live in
      let unlocked = lock_free fuel s.bolt free (omega arith) in
      elim (Bool-cases (ltb 0 s.counter)) [
        | inl more ↦ rw (unlocked, more) (ground arith, refl, refl)
        | inr empty ↦
            rw (unlocked, empty, done, scheduled)
              (ground arith, refl, (at, list, runs, again, λ r a b. same r a b ∙ ground arith))
      ]

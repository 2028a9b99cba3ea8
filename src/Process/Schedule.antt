-- ===== src/Process/Schedule.antt =====
-- `schedule` and the ready list.
use mathlib.Core.List.{map-append}
use sysu_os.Base.{
  ℕ, suc, ◌<◌, ◌==◌, ◌≡◌, ◌≢◌, refl, sym, ap, subst, true, false, List, [], ◌∷◌, ◌++◌, map, arith,
  length, ne→==, ==_refl,
}
use sysu_os.LinkedList.{Item, Links, null, pop_front}
use sysu_os.LinkedList.Chain.{IsList, has}
use sysu_os.LinkedList.Push.{push_back-Inserted}
use sysu_os.LinkedList.Erase.{pop_front-IsList}
use sysu_os.Process.{
  Kernel, running, ready, general_tag, ready_list, set_status, is_dead, schedule, ok, pick_next,
  enqueue,
}

abbrev pub general_tags : List ℕ → List Item
general_tags = map general_tag

pub length-tags : (ps : List ℕ) → length (general_tags ps) ≡ length ps
length-tags [] = refl
length-tags (p ∷ ps) = ap suc (length-tags ps)

-- the PCBs other than `p` and `q` are as before
abbrev pub SameBut : ℕ → ℕ → Kernel → Kernel → Type 0
SameBut p q k k' = (r : ℕ) → (r == p) ≡ false → (r == q) ≡ false → k'.pcb r ≡ k.pcb r

pick_next-cons :
    (l : Links) (head next : ℕ) (ps : List ℕ)
    → IsList l head (general_tags (next ∷ ps))
    → pick_next l head ≡ (next, pop_front l head)
unfolding pick_next
pick_next-cons l head next ps v = ground (arith, v.seg.0)

module _ (k : Kernel) (next : ℕ) (ps : List ℕ)
    (v : IsList k.links (ready_list k) (general_tags (next ∷ ps))) (exists : next ≢ null) where
  -- A live process goes to the end of the ready list, and the first process of the list runs.
  pub schedule_live :
      (fuel : ℕ)
      → length ps < fuel
      → has (general_tag k.current) (ready_list k ∷ general_tags (next ∷ ps)) ≡ false
      → is_dead (k.pcb k.current).status ≡ false
      → (k' : Kernel) × (schedule fuel k ≡ ok k')
        × (k'.current ≡ next)
        × IsList k'.links (ready_list k') (general_tags (ps ++ k.current ∷ []))
        × ((k'.pcb next).status ≡ running)
        × ((k'.pcb k.current).status ≡ ready)
        × SameBut next k.current k k'
  unfolding schedule
  schedule_live fuel enough out live =
      let popped = (pop_front-IsList (general_tag next) (general_tags ps) v).0 in
      let fits : length (general_tags ps) < fuel = omega (arith, length-tags ps) in
      let (l', done, inserted) =
        push_back-Inserted (general_tag k.current) (omega arith) fuel popped (ground arith) fits in
      let apart : (k.current == next) ≡ false = ground arith in
      (
        record (set_status
            (set_status (record k { links = pop_front k.links (ready_list k) }) next running)
            k.current ready) { links = l'; current = next },
        rw
            (
              live,
              pick_next-cons k.links (ready_list k) next ps v,
              ne→== next null exists,
              done,
              enqueue,
            )
            refl,
        refl,
        subst (IsList l' (ready_list k)) (sym (map-append general_tag ps (k.current ∷ [])))
            inserted.0,
        ground arith,
        ground arith,
        λ r p q. ground arith,
      )

  -- A dead process does not: it is in no ready list, and the first process of the list runs.
  pub schedule_dead :
      (fuel : ℕ)
      → is_dead (k.pcb k.current).status ≡ true
      → (k' : Kernel) × (schedule fuel k ≡ ok k')
        × (k'.current ≡ next)
        × IsList k'.links (ready_list k') (general_tags ps)
        × (k'.pcb next ≡ record (k.pcb next) { status = running })
        × SameBut next next k k'
  unfolding schedule
  schedule_dead fuel gone = (
    record (set_status (record k { links = pop_front k.links (ready_list k) }) next running) {
      current = next;
    },
    rw (gone, pick_next-cons k.links (ready_list k) next ps v, ne→== next null exists) refl,
    refl,
    (pop_front-IsList (general_tag next) (general_tags ps) v).0,
    (let here = ==_refl next in rw here refl),
    λ r p q. ground arith,
  )

-- ===== src/Process/Slots.antt =====
-- `MESA_WakeUp`, and the table of PCBs.
use sysu_os.Base.{
  ℕ, zero, suc, ◌+◌, ◌*◌, ◌≤◌, ◌<◌, ◌==◌, ◌≡◌, refl, ap, subst, sym, Bool, true, false, List, ◌∷◌,
  arith, none, some, Option-cases, Bool-cases, inl, inr, if◌then◌else◌, ==→eq,
}
use sysu_os.LinkedList.Chain.{IsList, has}
use sysu_os.LinkedList.Push.{push_front-Inserted}
use sysu_os.Process.Schedule.{general_tags, SameBut}
use sysu_os.Process.{
  Kernel, ready, general_tag, ready_list, wake_up, mesa_wakeup, allocate_pcb, allocate_loop,
  max_program_amount, pcb_size, zero_pcb, allocated,
}

-- `MESA_WakeUp` makes a process that is not in the ready list the first one of it, and ready.
pub wake_up-IsList :
    (k : Kernel) (p : ℕ) (ps : List ℕ)
    → IsList k.links (ready_list k) (general_tags ps)
    → has (general_tag p) (ready_list k ∷ general_tags ps) ≡ false
    → IsList (wake_up k p).links (ready_list k) (general_tags (p ∷ ps))
      × (((wake_up k p).pcb p).status ≡ ready)
      × SameBut p p k (wake_up k p)
unfolding wake_up mesa_wakeup
wake_up-IsList k p ps v out = (
  (push_front-Inserted (general_tag p) (omega arith) v out).0,
  ground arith,
  λ r ne _. ground arith,
)

-- what `allocatePCB` answers: the first free slot, marked and cleared, or null when there is none
pub data IsAllocated (k : Kernel) : Kernel × ℕ → Type 0 where
  full : ((i : ℕ) → i < max_program_amount → k.pcb_set_status i ≡ true) → IsAllocated k (k, 0)
  slot :
      (i : ℕ) (k' : Kernel)
      → i < max_program_amount
      → k.pcb_set_status i ≡ false
      → ((j : ℕ) → j < i → k.pcb_set_status j ≡ true)
      → ((j : ℕ) → k'.pcb_set_status j ≡ (if j == i then true else k.pcb_set_status j))
      → ((p : ℕ) → k'.pcb p ≡ (if p == k.pcb_set + pcb_size * i then zero_pcb else k.pcb p))
      → IsAllocated k (k', k.pcb_set + pcb_size * i)

allocate_loop-none :
    (n : ℕ) (used : ℕ → Bool) (i j : ℕ)
    → allocate_loop n used i ≡ none
    → i ≤ j
    → j < i + n
    → used j ≡ true
unfolding allocate_loop
allocate_loop-none zero used i j e low high = absurd (omega arith)
allocate_loop-none (suc n) used i j e low high = elim (Bool-cases (used i)) [
  | inl u ↦ elim (Bool-cases (j == i)) [
    | inl at ↦ ground (arith, ap used (==→eq j i at))
    | inr other ↦ allocate_loop-none n used (i + 1) j (rw u at e) (ground arith) (omega arith)
  ]
  | inr free ↦ absurd (ground arith)
]

allocate_loop-some :
    (n : ℕ) (used : ℕ → Bool) (i r : ℕ)
    → allocate_loop n used i ≡ some r
    → (i ≤ r) × (r < i + n) × (used r ≡ false) × ((j : ℕ) → i ≤ j → j < r → used j ≡ true)
unfolding allocate_loop
allocate_loop-some zero used i r e = absurd (ground arith)
allocate_loop-some (suc n) used i r e = elim (Bool-cases (used i)) [
  | inl u ↦
      let rest = allocate_loop-some n used (i + 1) r (rw u at e) in
      (
        omega (arith, rest.0),
        omega (arith, rest.1),
        rest.2,
        λ j low high. elim (Bool-cases (j == i)) [
          | inl at ↦ ground (arith, ap used (==→eq j i at))
          | inr other ↦ rest.3 j (ground arith) high
        ],
      )
  | inr free ↦
      let here : i ≡ r = ground arith in
      (
        omega arith,
        omega arith,
        subst (λ s. used s ≡ false) here free,
        λ j low high. absurd (omega arith),
      )
]

-- `allocatePCB` takes the first free slot of the table: it marks that slot and no other, and clears
-- the PCB there and no other; or it answers null, and then every slot is taken.
pub allocate_pcb-IsAllocated : (k : Kernel) → IsAllocated k (allocate_pcb k)
unfolding allocate_pcb
allocate_pcb-IsAllocated k =
    elim (Option-cases (allocate_loop max_program_amount k.pcb_set_status 0)) [
      | inl e ↦
          subst (λ o. IsAllocated k (allocated k o)) (sym e)
            (full (λ i inside.
              allocate_loop-none max_program_amount k.pcb_set_status 0 i e (omega arith)
                (omega arith)))
      | inr (i, e) ↦
          let (low, inside, free, before) =
            allocate_loop-some max_program_amount k.pcb_set_status 0 i e in
          subst (λ o. IsAllocated k (allocated k o)) (sym e)
            (slot i _ (omega arith) free (λ j h. before j (omega arith) h) (λ j. refl) (λ p. refl))
    ]

-- ===== src/Process/Turns.antt =====
-- Repeated calls of `schedule`: every ready process comes to run.
use mathlib.Core.List.{append_assoc, map-append}
use sysu_os.Base.{
  ℕ, zero, suc, ◌<◌, ◌≤◌, ◌==◌, ◌≡◌, ◌≢◌, refl, sym, ap, ◌∙◌, subst, Bool, true, false,
  if◌then◌else◌, List, [], ◌∷◌, ◌++◌, arith, length, length-append, Option, none, some,
}
use sysu_os.LinkedList.{Links, null}
use sysu_os.LinkedList.Chain.{IsList, Distinct, has, has-append}
use sysu_os.Process.{
  Kernel, Outcome, ok, panic, out_of_fuel, running, ready, set_status, general_tag, ready_list,
  is_dead, schedule, switch_to, enqueue, pick_next, or_out_of_fuel,
}
use sysu_os.Process.Schedule.{general_tags, schedule_live}

abbrev pub and_then : Outcome → (Kernel → Outcome) → Outcome
and_then (ok k) f = f k
and_then panic f = panic
and_then out_of_fuel f = out_of_fuel

-- `n` calls of `schedule`
pub turns : ℕ → ℕ → Kernel → Outcome
turns zero fuel k = ok k
turns (suc n) fuel k = and_then (schedule fuel k) (turns n fuel)

-- the list of the scheduler in use is the same one
abbrev pub IsSameReady : Kernel → Outcome → Type 0
IsSameReady k (ok k') = ready_list k' ≡ ready_list k
IsSameReady k panic = Unit {0}
IsSameReady k out_of_fuel = Unit {0}

switch_to-IsSameReady :
    (fuel : ℕ) (k : Kernel) (dead : Bool) (next : ℕ) (l : Links)
    → IsSameReady k (switch_to fuel k dead next l)
unfolding switch_to
switch_to-IsSameReady fuel k true next l = refl
switch_to-IsSameReady fuel k false next l = queued (enqueue fuel l (ready_list k) k.current)
  where
    queued :
        (o : Option Links)
        → IsSameReady k (
            or_out_of_fuel o (λ l'.
              ok
                (record (set_status
                  (set_status (record k { links = l }) next running)
                  k.current
                  ready) { links = l'; current = next })))
    queued none = tt
    queued (some l') = refl

branches :
    (k : Kernel) (a b : Bool) (x y z : Outcome)
    → IsSameReady k x
    → IsSameReady k y
    → IsSameReady k z
    → IsSameReady k (if a then (if b then x else y) else z)
branches k true true x y z in_x in_y in_z = in_x
branches k true false x y z in_x in_y in_z = in_y
branches k false b x y z in_x in_y in_z = in_z

schedule-IsSameReady : (fuel : ℕ) (k : Kernel) → IsSameReady k (schedule fuel k)
unfolding schedule
schedule-IsSameReady fuel k =
    let (next, l) = pick_next k.links (ready_list k) in
    let dead = is_dead (k.pcb k.current).status in
    branches k (next == null) dead panic (ok (record k { links = l }))
      (switch_to fuel k dead next l) tt refl (switch_to-IsSameReady fuel k dead next l)

-- `p` is in the ready list behind `xs`, and the running process is not in it
abbrev pub IsWaiting : Kernel → List ℕ → Type 0
IsWaiting k ps =
    IsList k.links (ready_list k) (general_tags ps)
    × (has (general_tag k.current) (ready_list k ∷ general_tags ps) ≡ false)
    × (has null ps ≡ false)
    × (is_dead (k.pcb k.current).status ≡ false)

-- the first item of a list is not in the rest of it with another item behind
requeued :
    (head c p : ℕ) (ps : List ℕ)
    → Distinct (head ∷ general_tags (p ∷ ps))
    → has (general_tag c) (head ∷ general_tags (p ∷ ps)) ≡ false
    → has (general_tag p) (head ∷ general_tags (ps ++ c ∷ [])) ≡ false
requeued head c p ps d out =
    let e =
      ap (has (general_tag p)) (map-append general_tag ps (c ∷ []))
      ∙ has-append (general_tag p) (general_tags ps) (general_tag c ∷ []) in
    ground (arith, d.0, d.1.0, out, e)

turn :
    (fuel : ℕ) (k : Kernel) (p : ℕ) (ps : List ℕ)
    → IsWaiting k (p ∷ ps)
    → k.current ≢ null
    → length ps < fuel
    → (k' : Kernel) × (schedule fuel k ≡ ok k')
      × (k'.current ≡ p)
      × IsWaiting k' (ps ++ k.current ∷ [])
turn fuel k p ps (v, out, real, live) exists enough =
    let ne : p ≢ null = ground arith in
    let (k', done, at, list, runs, again, same) = schedule_live k p ps v ne fuel enough out live in
    let same_list = subst (IsSameReady k) done (schedule-IsSameReady fuel k) in
    let tags = general_tags (ps ++ k.current ∷ []) in
    let out' = requeued (ready_list k) k.current p ps v.distinct out in
    (
      k',
      done,
      at,
      (
        list,
        subst (λ q. has (general_tag q) (ready_list k' ∷ tags) ≡ false) (sym at)
            (subst (λ h. has (general_tag p) (h ∷ tags) ≡ false) (sym same_list) out'),
        ground (arith, real, exists, has-append null ps (k.current ∷ [])),
        subst (λ q. is_dead (k'.pcb q).status ≡ false) (sym at) (ap is_dead runs),
      ),
    )

-- While a live process that is not in the ready list runs, a process behind `xs` in that list runs
-- after one more call of `schedule` than `xs` has items; those and the process that ran stand behind
-- the others in the list then.
pub turns_run :
    (fuel : ℕ) (k : Kernel) (xs : List ℕ) (p : ℕ) (ys : List ℕ)
    → IsWaiting k (xs ++ p ∷ ys)
    → k.current ≢ null
    → length (xs ++ p ∷ ys) ≤ fuel
    → (k' : Kernel) × (turns (suc (length xs)) fuel k ≡ ok k')
      × (k'.current ≡ p)
      × IsWaiting k' (ys ++ k.current ∷ xs)
unfolding turns
turns_run fuel k [] p ys waits exists enough =
    let (k', done, at, waits') = turn fuel k p ys waits exists (omega arith) in
    (k', ap (λ o. and_then o ok) done, at, waits')
turns_run fuel k (x ∷ xs) p ys waits exists enough =
    let (k1, done, at, waits1) = turn fuel k x (xs ++ p ∷ ys) waits exists (omega arith) in
    let exists1 : k1.current ≢ null = subst (λ q. q ≢ null) (sym at) (ground (arith, waits.2)) in
    let last = k.current ∷ [] in
    let short : length (xs ++ p ∷ (ys ++ last)) ≤ fuel = omega (
      arith,
      length-append xs (p ∷ ys),
      length-append xs (p ∷ (ys ++ last)),
      length-append ys last,
    ) in
    let (k', rest, at', waits') =
      turns_run fuel k1 xs p (ys ++ last)
        (subst (IsWaiting k1) (append_assoc xs (p ∷ ys) last) waits1) exists1 short in
    (
      k',
      ap (λ o. and_then o (turns (suc (length xs)) fuel)) done ∙ rest,
      at',
      subst (IsWaiting k') (append_assoc ys last (x ∷ xs))
          (subst (λ q. IsWaiting k' ((ys ++ last) ++ q ∷ xs)) at waits'),
    )

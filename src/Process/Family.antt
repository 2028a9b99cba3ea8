-- ===== src/Process/Family.antt =====
-- `exit` and `waitpid`: what becomes of the children of a process, and of a zombie.
use mathlib.Core.List.{map-append}
use sysu_os.Base.{
  ℕ, zero, suc, ◌<◌, ◌==◌, ◌≡◌, ◌≢◌, refl, sym, ap, subst, ◌∙◌, Bool, true, false, ◌&&◌, ◌||◌, List,
  [], ◌∷◌, ◌++◌, map, arith, if◌then◌else◌, length, ne→==, some, Option, Bool-cases, inl, inr,
}
use sysu_os.LinkedList.{Item, null}
use sysu_os.LinkedList.Chain.{IsList, has, Forward, Seg-Forward, Distinct}
use sysu_os.LinkedList.Erase.{erase-IsList}
use sysu_os.Process.Schedule.{general_tags, schedule_dead, SameBut}
use sysu_os.Process.{
  ready_list, running, ok, Kernel, Pcb, dead, all_tag, of_all_tag, set_pcb, is_dead, is_child,
  is_orphan, adopt, reparent_loop, exit, schedule, scan_loop, release_pcb, no_child, reaped,
  must_wait, waitpid, settle, free_slot, slot, or_out_of_fuel,
}

abbrev pub all_tags : List ℕ → List Item
all_tags = map all_tag

length-tags : (ps : List ℕ) → length (all_tags ps) ≡ length ps
length-tags [] = refl
length-tags (p ∷ ps) = ap suc (length-tags ps)

-- the PCBs `f` are those of `k` but for the orphans among `qs`, which now belong to pid 1
abbrev pub Adopted : Kernel → List ℕ → (ℕ → Pcb) → Type 0
Adopted k qs f =
    (p : ℕ)
    → f p ≡ (if has p qs && is_orphan k p then record (k.pcb p) { parent_pid = 1 } else k.pcb p)

reparent_loop-Adopted :
    (fuel : ℕ) (k : Kernel) (item : Item) (qs : List ℕ)
    → Forward k.links item (all_tags qs)
    → Distinct qs
    → length qs < fuel
    → (f : ℕ → Pcb) × (reparent_loop fuel k item ≡ some (record k { pcb = f })) × Adopted k qs f
unfolding reparent_loop
reparent_loop-Adopted zero k item qs w d enough = absurd (omega arith)
reparent_loop-Adopted (suc fuel) k item [] w d enough = (k.pcb, rw w refl, λ p. refl)
reparent_loop-Adopted (suc fuel) k item (q ∷ qs) w d enough =
    let at : of_all_tag (all_tag q) ≡ q = omega arith in
    let here : (all_tag q == null) ≡ false = ground arith in
    elim (Bool-cases (is_orphan k q)) [
      | inl mine ↦
          let (f, done, adopted) =
            reparent_loop-Adopted fuel (adopt k q) (k.links.next (all_tag q)) qs w.2 d.1
              (omega arith) in
          (f, rw (w.0, here, at, mine) done, λ p. ground (arith, adopted p))
      | inr other ↦
          let (f, done, adopted) =
            reparent_loop-Adopted fuel k (k.links.next (all_tag q)) qs w.2 d.1 (omega arith) in
          (f, rw (w.0, here, at, other) done, λ p. ground (arith, adopted p))
    ]

Distinct-tags : (ps : List ℕ) → Distinct (all_tags ps) → Distinct ps
Distinct-tags [] d = tt
Distinct-tags (p ∷ ps) d = (has_tag p ps d.0, Distinct-tags ps d.1)
  where
    has_tag : (p : ℕ) (qs : List ℕ) → has (all_tag p) (all_tags qs) ≡ false → has p qs ≡ false
    has_tag p [] h = refl
    has_tag p (q ∷ qs) h = ground (arith, has_tag p qs)

-- the state of `exit` before its last step: the running process is dead with its return value, and
-- its children among `qs` belong to pid 1
abbrev pub dying : Kernel → ℕ → Kernel
dying k ret = set_pcb k k.current (record (k.pcb k.current) { ret_value = ret; status = dead })

exit-schedule :
    (fuel : ℕ) (k : Kernel) (ret : ℕ) (qs : List ℕ)
    → IsList k.links k.all_programs (all_tags qs)
    → length qs < fuel
    → (f : ℕ → Pcb) × (exit fuel k ret ≡ schedule fuel (record k { pcb = f }))
      × Adopted (dying k ret) qs f
unfolding exit
exit-schedule fuel k ret qs v enough =
    let (f, done, adopted) =
      reparent_loop-Adopted fuel (dying k ret) (k.links.next k.all_programs) qs
        (Seg-Forward k.links k.all_programs (all_tags qs) v.seg v.ends)
        (Distinct-tags qs v.distinct.1) enough in
    (f, ap (λ r. or_out_of_fuel r (schedule fuel)) done, adopted)

-- `exit` marks the running process dead with its return value and hands its children among `qs` over
-- to pid 1; then the first ready process runs and leaves the ready list. No other PCB changes, and of
-- that process but for this only the status. The dead process is in no ready list.
pub exit_lem :
    (fuel : ℕ) (k : Kernel) (ret next : ℕ) (ps qs : List ℕ)
    → IsList k.links k.all_programs (all_tags qs)
    → IsList k.links (ready_list k) (general_tags (next ∷ ps))
    → next ≢ null
    → length qs < fuel
    → (f : ℕ → Pcb) × (k' : Kernel) × (exit fuel k ret ≡ ok k')
      × Adopted (dying k ret) qs f
      × SameBut next next (record k { pcb = f }) k'
      × (k'.pcb next ≡ record (f next) { status = running })
      × (k'.current ≡ next)
      × IsList k'.links (ready_list k') (general_tags ps)
exit_lem fuel k ret next ps qs v r ne enough =
    let (f, done, adopted) = exit-schedule fuel k ret qs v enough in
    let gone : is_dead (f k.current).status ≡ true = ground (arith, adopted k.current) in
    let (k', switched, at, list, runs, same) =
      schedule_dead (record k { pcb = f }) next ps r ne fuel gone in
    (f, k', done ∙ switched, adopted, same, runs, at, list)

-- the first zombie among `qs` that `waitpid(pid)` takes, and whether there is a child to wait for
abbrev pub is_zombie : Kernel → Option ℕ → ℕ → Bool
is_zombie k pid p = is_child k pid p && is_dead (k.pcb p).status

abbrev pub has_zombie : Kernel → Option ℕ → List ℕ → Bool
has_zombie k pid [] = false
has_zombie k pid (q ∷ qs) = is_zombie k pid q || has_zombie k pid qs

abbrev pub has_child : Kernel → Option ℕ → List ℕ → Bool
has_child k pid [] = false
has_child k pid (q ∷ qs) = is_child k pid q || has_child k pid qs

module _ (k : Kernel) (pid : Option ℕ) where
  scan_loop-none :
      (fuel : ℕ) (item : Item) (qs : List ℕ) (seen : Bool)
      → Forward k.links item (all_tags qs)
      → length qs < fuel
      → has_zombie k pid qs ≡ false
      → scan_loop fuel k pid item seen ≡ some (seen || has_child k pid qs, null)
  unfolding scan_loop
  scan_loop-none zero item qs seen w enough none_dead = absurd (omega arith)
  scan_loop-none (suc fuel) item [] seen w enough none_dead = rw w (ground arith)
  scan_loop-none (suc fuel) item (q ∷ qs) seen w enough none_dead =
      let at : of_all_tag (all_tag q) ≡ q = omega arith in
      let here : (all_tag q == null) ≡ false = ground arith in
      let not_this : is_zombie k pid q ≡ false = ground arith in
      rw (w.0, here, at, not_this)
        (scan_loop-none fuel (k.links.next (all_tag q)) qs (seen || is_child k pid q) w.2
            (omega arith) (ground arith)
          ∙ ground arith)

  scan_loop-zombie :
      (fuel : ℕ) (item : Item) (qs : List ℕ) (z : ℕ) (rest : List ℕ) (seen : Bool)
      → Forward k.links item (all_tags (qs ++ z ∷ rest))
      → length qs < fuel
      → has_zombie k pid qs ≡ false
      → is_zombie k pid z ≡ true
      → scan_loop fuel k pid item seen ≡ some (true, z)
  unfolding scan_loop
  scan_loop-zombie zero item qs z rest seen w enough none_dead found = absurd (omega arith)
  scan_loop-zombie (suc fuel) item [] z rest seen w enough none_dead found =
      let at : of_all_tag (all_tag z) ≡ z = omega arith in
      let here : (all_tag z == null) ≡ false = ground arith in rw (w.0, here, at, found) refl
  scan_loop-zombie (suc fuel) item (q ∷ qs) z rest seen w enough none_dead found =
      let at : of_all_tag (all_tag q) ≡ q = omega arith in
      let here : (all_tag q == null) ≡ false = ground arith in
      let not_this : is_zombie k pid q ≡ false = ground arith in
      rw (w.0, here, at, not_this)
        (scan_loop-zombie fuel (k.links.next (all_tag q)) qs z rest (seen || is_child k pid q) w.2
          (omega arith) (ground arith) found)

-- While no child that `waitpid` asks for is dead, it answers -1 if no process of the list is such
-- a child, and waits if there is one.
pub waitpid-none :
    (fuel : ℕ) (k : Kernel) (pid : Option ℕ) (qs : List ℕ)
    → IsList k.links k.all_programs (all_tags qs)
    → length qs < fuel
    → has_zombie k pid qs ≡ false
    → waitpid fuel k pid ≡ (if has_child k pid qs then must_wait else no_child)
unfolding waitpid
waitpid-none fuel k pid qs v enough none_dead =
    let w = Seg-Forward k.links k.all_programs (all_tags qs) v.seg v.ends in
    ap (settle fuel k)
      (scan_loop-none k pid fuel (k.links.next k.all_programs) qs false w enough none_dead)
    ∙ ground arith

-- Of the dead children that `waitpid` asks for it takes the first: it hands over the pid and the
-- return value, takes the PCB and no other out of the list of all processes, and frees its slot.
pub waitpid-reaped :
    (fuel : ℕ) (k : Kernel) (pid : Option ℕ) (qs : List ℕ) (z : ℕ) (rest : List ℕ)
    → IsList k.links k.all_programs (all_tags (qs ++ z ∷ rest))
    → length qs < fuel
    → has_zombie k pid qs ≡ false
    → is_zombie k pid z ≡ true
    → z ≢ null
    → (k' : Kernel) × (waitpid fuel k pid ≡ reaped (k.pcb z).pid (k.pcb z).ret_value k')
      × IsList k'.links k.all_programs (all_tags (qs ++ rest))
      × (k'.pcb_set_status (slot k z) ≡ false)
unfolding waitpid release_pcb
waitpid-reaped fuel k pid qs z rest v enough none_dead found ne =
    let w = Seg-Forward k.links k.all_programs (all_tags (qs ++ z ∷ rest)) v.seg v.ends in
    let v' : IsList k.links k.all_programs (all_tags qs ++ all_tag z ∷ all_tags rest) =
      subst (IsList k.links k.all_programs) (map-append all_tag qs (z ∷ rest)) v in
    let (l', done, list) =
      erase-IsList fuel (all_tags qs) (all_tag z) (all_tags rest) v'
        (omega (arith, length-tags qs)) in
    (
      free_slot k z l',
      ap (settle fuel k) (
            scan_loop-zombie k pid fuel (k.links.next k.all_programs) qs z rest false w enough
              none_dead found)
          ∙ rw (ne→== z null ne, done) refl,
      subst (IsList l' k.all_programs) (sym (map-append all_tag qs rest)) list,
      ground arith,
    )

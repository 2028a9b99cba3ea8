-- ===== src/Process.antt =====
-- src/kernel/program.cpp and src/kernel/schduler.cpp: the life of a process. A PCB is its address,
-- 0 is null; what the fields below do not hold (page tables, open files, the kernel stack that
-- `asm_switch_thread` saves) is left to other parts. `tagInGeneralList` and `tagInAllList` are the
-- items through which the PCB stands in a ready or waiting list and in `allPrograms`; their offsets
-- in the PCB are those of the i386 layout. Interrupts are off in all of these operations, so each
-- is one step. Loops over a list run on fuel.
pub mod Schedule
pub mod Family
pub mod Slots
pub mod Turns
mod Examples
use sysu_os.Base.{
  ℕ, zero, suc, ◌+◌, ◌-◌, ◌*◌, ◌/◌, ◌%◌, ◌^◌, ◌==◌, ltb, leb, Bool, true, false, not, ◌&&◌, ◌||◌,
  if◌then◌else◌, Option, none, some,
}
use mathlib.Core.Option.{map}
use sysu_os.LinkedList.{Item, Links, null, front, pop_front, push_front, push_back, erase}

pub data ProgramStatus : Type 0 where
  created running ready blocked dead : ProgramStatus

pub data SchedulerType : Type 0 where
  rr fifs : SchedulerType

-- `ticks` and `ticks_passed_by` are 32-bit patterns.
pub record Pcb : Type 0 where
  pub status : ProgramStatus
  pub pid : ℕ
  pub parent_pid : ℕ
  pub ret_value : ℕ
  pub ticks : ℕ
  pub ticks_passed_by : ℕ

abbrev pub max_program_amount : ℕ
max_program_amount = 16

abbrev pub pcb_size : ℕ
pcb_size = 4096

pub record Kernel : Type 0 where
  pub links : Links
  pub pcb : ℕ → Pcb
  pub current : ℕ
  pub s_type : SchedulerType
  pub rr_ready : Item
  pub fifs_ready : Item
  pub all_programs : Item
  pub pcb_set : ℕ
  pub pcb_set_status : ℕ → Bool

-- `&(p->tagInGeneralList)` and `ListItem2PCB(item, tagInGeneralList)`
abbrev pub general_tag : ℕ → Item
general_tag p = p + 44

abbrev pub of_general_tag : Item → ℕ
of_general_tag t = t - 44

abbrev pub all_tag : ℕ → Item
all_tag p = p + 52

abbrev pub of_all_tag : Item → ℕ
of_all_tag t = t - 52

abbrev pub is_ready : ProgramStatus → Bool
is_ready ready = true
is_ready _ = false

abbrev pub is_dead : ProgramStatus → Bool
is_dead dead = true
is_dead _ = false

abbrev pub is_running : ProgramStatus → Bool
is_running running = true
is_running _ = false

abbrev pub set_pcb : Kernel → ℕ → Pcb → Kernel
set_pcb k p v = record k { pcb = λ q. if q == p then v else k.pcb q }

abbrev pub set_status : Kernel → ℕ → ProgramStatus → Kernel
set_status k p s = set_pcb k p (record (k.pcb p) { status = s })

-- the ready list of the scheduler in use
abbrev pub ready_list : Kernel → Item
ready_list k = elim k.s_type [ rr ↦ k.rr_ready | fifs ↦ k.fifs_ready ]

-- `pickNext` of both schedulers
pub pick_next : Links → Item → ℕ × Links
unfolding front
pick_next l head =
    let item = front l head in
    let l' = pop_front l head in if item == null then (null, l') else (of_general_tag item, l')

-- `enqueue` of both schedulers; a wrong status is only logged
pub enqueue : ℕ → Links → Item → ℕ → Option Links
enqueue fuel l head p = push_back fuel l head (general_tag p)

-- `MESA_Wakeup` of both schedulers
pub mesa_wakeup : Links → Item → ℕ → Links
mesa_wakeup l head p = push_front l head (general_tag p)

-- `RRScheduler::onTick`: the new PCB, and whether to schedule; a null `running` is `none`
pub rr_on_tick : Option Pcb → Option Pcb × Bool
rr_on_tick none = (none, true)
rr_on_tick (some p) =
    if not (is_running p.status)
    then (some p, true)
    else (let left = (p.ticks + 2 ^ 32 - 1) % 2 ^ 32 in
        (
          some (record p { ticks = left; ticks_passed_by = (p.ticks_passed_by + 1) % 2 ^ 32 }),
          left == 0 || leb (2 ^ 31) left,
        ))

-- `FIFSScheduler::onTick`
pub fifs_on_tick : Option Pcb → Bool
fifs_on_tick none = true
fifs_on_tick (some p) = not (is_running p.status)

pub data Outcome : Type 0 where
  ok : Kernel → Outcome
  panic : Outcome
  out_of_fuel : Outcome

abbrev pub or_out_of_fuel {ℓ} : {A : Type ℓ} → Option A → (A → Outcome) → Outcome
or_out_of_fuel none f = out_of_fuel
or_out_of_fuel (some a) f = f a

-- the branch of `schedule` that has found a program to switch to
switch_to : ℕ → Kernel → Bool → ℕ → Links → Outcome
unfolding enqueue
switch_to fuel k is_dead next l =
    let k' = set_status (record k { links = l }) next running in
    if is_dead
    then ok (record k' { current = next })
    else or_out_of_fuel (enqueue fuel l (ready_list k) k.current)
        (λ l'. ok (record (set_status k' k.current ready) { links = l'; current = next }))

-- The switch itself (`activateProgramPage`, the reload of an `execve`, `asm_switch_thread`) changes
-- registers and kernel stacks only.
pub schedule : ℕ → Kernel → Outcome
unfolding pick_next switch_to
schedule fuel k =
    let is_dead = is_dead (k.pcb k.current).status in
    let (next, l) = pick_next k.links (ready_list k) in
    if next == null
    then (if is_dead then panic else ok (record k { links = l }))
    else switch_to fuel k is_dead next l

-- `MESA_WakeUp`
pub wake_up : Kernel → ℕ → Kernel
unfolding mesa_wakeup
wake_up k p = record (set_status k p ready) { links = mesa_wakeup k.links (ready_list k) p }

-- is `p` a child that the running process leaves behind?
abbrev pub is_orphan : Kernel → ℕ → Bool
is_orphan k p = not (p == k.current) && (k.pcb p).parent_pid == (k.pcb k.current).pid

abbrev pub adopt : Kernel → ℕ → Kernel
adopt k p = set_pcb k p (record (k.pcb p) { parent_pid = 1 })

-- the loop of `exit` that hands the children of the running process over to pid 1
pub reparent_loop : ℕ → Kernel → Item → Option Kernel
reparent_loop zero k item = none
reparent_loop (suc fuel) k item =
    let child = of_all_tag item in
    let k' = if is_orphan k child then adopt k child else k in
    let rest = reparent_loop fuel k' (k'.links.next item) in if item == null then some k else rest

pub exit : ℕ → Kernel → ℕ → Outcome
exit fuel k ret =
    let dying = record (k.pcb k.current) { ret_value = ret; status = dead } in
    let k' = set_pcb k k.current dying in
    or_out_of_fuel (reparent_loop fuel k' (k'.links.next k'.all_programs)) (schedule fuel)

-- does `waitpid(pid)` ask for a process with the given pid? `none` is the pid -1
abbrev pub asks_for : Option ℕ → ℕ → Bool
asks_for none n = true
asks_for (some m) n = n == m

-- does `waitpid(pid)` of the running process ask for `p`?
abbrev pub is_child : Kernel → Option ℕ → ℕ → Bool
is_child k pid p = (k.pcb p).parent_pid == (k.pcb k.current).pid && asks_for pid (k.pcb p).pid

-- the scan of `waitpid`: `hasChild`, and the zombie or null
pub scan_loop : ℕ → Kernel → Option ℕ → Item → Bool → Option (Bool × ℕ)
scan_loop zero k pid item has_child = none
scan_loop (suc fuel) k pid item has_child =
    let p = of_all_tag item in
    let rest = scan_loop fuel k pid (k.links.next item) (has_child || is_child k pid p) in
    if item == null
    then some (has_child, null)
    else if is_child k pid p && is_dead (k.pcb p).status
    then some (true, p)
    else rest

-- the slot of `PCB_SET_STATUS` that a PCB stands in
abbrev pub slot : Kernel → ℕ → ℕ
slot k p = (p - k.pcb_set) / pcb_size

abbrev pub free_slot : Kernel → ℕ → Links → Kernel
free_slot k p l = record k {
  links = l;
  pcb_set_status = λ i. if i == slot k p then false else k.pcb_set_status i;
}

-- `releasePCB`, without the release of its open files and of its page of arguments
pub release_pcb : ℕ → Kernel → ℕ → Option Kernel
release_pcb fuel k p = map (free_slot k p) (erase fuel k.links k.all_programs (all_tag p))

-- One round of `waitpid`: it answers -1, takes a zombie (its pid and return value), or yields the
-- processor and scans again.
pub data Waited : Type 0 where
  no_child : Waited
  reaped : (pid ret_value : ℕ) → Kernel → Waited
  must_wait : Waited
  no_fuel : Waited

abbrev pub hand_over : Pcb → Option Kernel → Waited
hand_over p none = no_fuel
hand_over p (some k) = reaped p.pid p.ret_value k

-- what `waitpid` does with the result of its scan
abbrev pub settle : ℕ → Kernel → Option (Bool × ℕ) → Waited
settle fuel k none = no_fuel
settle fuel k (some (has_child, zombie)) =
    if not has_child
    then no_child
    else if zombie == null
    then must_wait
    else hand_over (k.pcb zombie) (release_pcb fuel k zombie)

pub waitpid : ℕ → Kernel → Option ℕ → Waited
waitpid fuel k pid = settle fuel k (scan_loop fuel k pid (k.links.next k.all_programs) false)

-- the loop of `allocatePCB` over the slots from `i` on; `memset` leaves a PCB of zeros
pub allocate_loop : ℕ → (ℕ → Bool) → ℕ → Option ℕ
allocate_loop zero used i = none
allocate_loop (suc n) used i =
    let rest = allocate_loop n used (i + 1) in if used i then rest else some i

abbrev pub zero_pcb : Pcb
zero_pcb = record {
  status = created;
  pid = 0;
  parent_pid = 0;
  ret_value = 0;
  ticks = 0;
  ticks_passed_by = 0;
}

abbrev pub allocated : Kernel → Option ℕ → Kernel × ℕ
allocated k none = (k, null)
allocated k (some i) =
    let p = k.pcb_set + pcb_size * i in
    (
      record (set_pcb k p zero_pcb) {
        pcb_set_status = λ j. if j == i then true else k.pcb_set_status j;
      },
      p,
    )

pub allocate_pcb : Kernel → Kernel × ℕ
allocate_pcb k = allocated k (allocate_loop max_program_amount k.pcb_set_status 0)

-- ===== src/Process/Examples.antt =====
-- A kernel in which process 1 at address 4096 runs, and the theorems of `Process` there.
use sysu_os.Base.{ℕ, ◌≡◌, refl, false, none, arith, if◌then◌else◌, ◌==◌, [], ◌∷◌, ltb}
use sysu_os.LinkedList.Chain.{IsList}
use sysu_os.Process.Turns.{turns, IsWaiting, turns_run}
use sysu_os.Process.Schedule.{general_tags, SameBut, schedule_live}
use sysu_os.Process.Family.{all_tags, Adopted, dying, exit_lem, waitpid-reaped}
use sysu_os.Process.{
  Kernel, Pcb, running, ready, dead, rr, schedule, exit, waitpid, ok, reaped, slot, ready_list,
}

-- the init process at 4096 runs, 8192 is its child and ready, 12288 a grandchild and ready
abbrev start : Kernel
start = record {
  links = record {
    next = λ a.
        if a == 100
        then 8236
        else if a == 8236
        then 12332
        else if a == 200
        then 4148
        else if a == 4148
        then 8244
        else if a == 8244
        then 12340
        else 0;
    previous = λ a.
        if a == 8236
        then 100
        else if a == 12332
        then 8236
        else if a == 4148
        then 200
        else if a == 8244
        then 4148
        else if a == 12340
        then 8244
        else 0;
  };
  pcb = λ p. record {
    status = if p == 4096 then running else ready;
    pid = if p == 4096 then 5 else if p == 8192 then 6 else 7;
    parent_pid = if p == 4096 then 1 else if p == 8192 then 5 else 6;
    ret_value = 0;
    ticks = 10;
    ticks_passed_by = 0;
  };
  current = 4096;
  s_type = rr;
  rr_ready = 100;
  fifs_ready = 104;
  all_programs = 200;
  pcb_set = 4096;
  pcb_set_status = λ i. ltb i 3;
}

-- its child has ended
abbrev ended : Kernel
ended = record start {
  pcb = λ p. record (start.pcb p) { status = if p == 4096 then running else dead; ret_value = 42 };
}

start-ready : IsList start.links 100 (general_tags (8192 ∷ 12288 ∷ []))
start-ready = record {
  head_ne = omega arith;
  seg = (refl, omega arith, refl, (refl, omega arith, refl, tt));
  ends = refl;
  distinct = (refl, (refl, (refl, tt)));
}

start-all : IsList start.links 200 (all_tags (4096 ∷ 8192 ∷ 12288 ∷ []))
start-all = record {
  head_ne = omega arith;
  seg = (refl, omega arith, refl, (refl, omega arith, refl, (refl, omega arith, refl, tt)));
  ends = refl;
  distinct = (refl, (refl, (refl, (refl, tt))));
}

schedule_live_example :
    (k' : Kernel) × (schedule 3 start ≡ ok k')
    × (k'.current ≡ 8192)
    × IsList k'.links (ready_list k') (general_tags (12288 ∷ 4096 ∷ []))
    × ((k'.pcb 8192).status ≡ running)
    × ((k'.pcb 4096).status ≡ ready)
    × SameBut 8192 4096 start k'
schedule_live_example =
    schedule_live start 8192 (12288 ∷ []) start-ready (omega arith) 3 (omega arith) refl refl

exit_lem_example :
    (f : ℕ → Pcb) × (k' : Kernel) × (exit 4 start 9 ≡ ok k')
    × Adopted (dying start 9) (4096 ∷ 8192 ∷ 12288 ∷ []) f
    × SameBut 8192 8192 (record start { pcb = f }) k'
    × (k'.pcb 8192 ≡ record (f 8192) { status = running })
    × (k'.current ≡ 8192)
    × IsList k'.links (ready_list k') (general_tags (12288 ∷ []))
exit_lem_example =
    exit_lem 4 start 9 8192 (12288 ∷ []) (4096 ∷ 8192 ∷ 12288 ∷ []) start-all start-ready
      (omega arith) (omega arith)

waitpid-reaped_example :
    (k' : Kernel) × (waitpid 4 ended none ≡ reaped 6 42 k')
    × IsList k'.links 200 (all_tags (4096 ∷ 12288 ∷ []))
    × (k'.pcb_set_status (slot ended 8192) ≡ false)
waitpid-reaped_example =
    waitpid-reaped 4 ended none (4096 ∷ []) 8192 (12288 ∷ []) start-all (omega arith) refl refl
      (omega arith)

turns_run_example :
    (k' : Kernel) × (turns 2 3 start ≡ ok k')
    × (k'.current ≡ 12288)
    × IsWaiting k' (4096 ∷ 8192 ∷ [])
turns_run_example =
    turns_run 3 start (8192 ∷ []) 12288 [] (start-ready, refl, refl, refl) (omega arith)
      (omega arith)

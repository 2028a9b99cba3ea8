-- ===== src/Semaphore/Examples.antt =====
-- A semaphore at address 300 of a kernel in which process 4096 runs, 8192 is ready, and 12288 may wait.
use sysu_os.Base.{◌/◌, ltb, ◌==◌, refl, arith, if◌then◌else◌, [], ◌∷◌}
use sysu_os.Process.{Kernel, running, ready, blocked, rr}
use sysu_os.Semaphore.{Semaphore, p_round}
use sysu_os.Semaphore.Queued.{IsQueued}
use sysu_os.Semaphore.Wait.{IsPassed, p_round-IsPassed}

abbrev kernel : Kernel
kernel = record {
  links = record {
    next = λ a. if a == 100 then 8236 else if a == 300 then 12332 else 0;
    previous = λ a. if a == 8236 then 100 else if a == 12332 then 300 else 0;
  };
  pcb = λ p. record {
    status = if p == 4096 then running else if p == 8192 then ready else blocked;
    pid = p / 4096;
    parent_pid = 1;
    ret_value = 0;
    ticks = 10;
    ticks_passed_by = 0;
  };
  current = 4096;
  s_type = rr;
  rr_ready = 100;
  fifs_ready = 104;
  all_programs = 200;
  pcb_set = 4096;
  pcb_set_status = λ i. ltb i 3;
}

abbrev closed : Semaphore
closed = record { counter = 0; waiting = 300; bolt = 0 }

kernel-IsQueued : IsQueued kernel 300 (12288 ∷ []) (8192 ∷ [])
kernel-IsQueued = record {
  waiters = record {
    head_ne = omega arith;
    seg = (refl, omega arith, refl, tt);
    ends = refl;
    distinct = (refl, (refl, tt));
  };
  readies = record {
    head_ne = omega arith;
    seg = (refl, omega arith, refl, tt);
    ends = refl;
    distinct = (refl, (refl, tt));
  };
  apart = λ a h. ground (arith, h);
}

p_round-IsPassed_example : IsPassed closed kernel 8192 [] (p_round 3 closed kernel)
p_round-IsPassed_example =
    p_round-IsPassed 3 closed kernel (12288 ∷ []) 8192 [] kernel-IsQueued refl refl (omega arith)
      refl (omega arith) (omega arith)

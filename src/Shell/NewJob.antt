-- ===== src/Shell/NewJob.antt =====
-- `add_job` on the table of jobs as a map from process ids to jobs.
use sysu_os.Base.{
  ℕ, ◌^◌, ◌<◌, ◌==◌, leb, ◌≡◌, ◌≢◌, refl, sym, ◌∙◌, ◌⊎◌, true, false, ◌||◌, Bool-cases, inl, inr,
  Option, none, some, List, [], ◌∷◌, Text, arith, ==→eq, ==→ne, ne→==,
}
use sysu_os.Shell.{Job, Table, behind, added, get_job_pid, add_loop, add_job}
use sysu_os.Shell.Jobs.{
  job_of, IsDistinct, IsFull, IsAdded, job_of_here, job_of_behind, job_of_cons, pid_loop-Found,
}

module _ (new : Job) (real : new.pid ≢ 0) where
  -- what `add_loop` does to a table without the process
  abbrev AddLoop : List Job → Option (List Job) → Type 0
  AddLoop jobs none = IsFull jobs
  AddLoop jobs (some jobs') = IsAdded new jobs jobs'

  behind-AddLoop :
      (job : Job) (jobs : List Job) (o : Option (List Job))
      → job.pid ≢ 0
      → job.pid ≢ new.pid
      → (job_of job.pid jobs ≡ none)
      → AddLoop jobs o
      → AddLoop (job ∷ jobs) (behind job o)
  behind-AddLoop job jobs none used other alone full = (used, full)
  behind-AddLoop job jobs (some jobs') used other alone (distinct, found) =
      let apart : (job.pid == new.pid) ≡ false = ne→== job.pid new.pid other in
      let head : job_of job.pid jobs' ≡ none = found job.pid used ∙ rw apart alone in
      (
        (inr head, distinct),
        λ p some_p. elim (Bool-cases (job.pid == p)) [
          | inl here ↦
              let e = ==→eq job.pid p here in
              let new_p : (p == new.pid) ≡ false = ground arith in
              rw (job_of_here p job jobs' e, job_of_here p job jobs e, new_p) refl
          | inr more ↦
              let e = ==→ne job.pid p more in
              rw (job_of_behind p job jobs' e, job_of_behind p job jobs e) (found p some_p)
        ],
      )

  added-AddLoop :
      (t : Table) (o : Option (List Job))
      → AddLoop t.jobs o
      → ((added t o ≡ (false, t)) × IsFull t.jobs)
        ⊎ (((added t o).0 ≡ true) × IsAdded new t.jobs (added t o).1.jobs)
  added-AddLoop t none full = inl (refl, full)
  added-AddLoop t (some jobs) is_added = inr (refl, is_added)

  first-IsAdded :
      (job : Job) (jobs : List Job)
      → job.pid ≡ 0
      → IsDistinct jobs
      → job_of new.pid jobs ≡ none
      → IsAdded new (job ∷ jobs) (new ∷ jobs)
  first-IsAdded job jobs free distinct fresh = (
    (inr fresh, distinct),
    λ p some_p. elim (Bool-cases (p == new.pid)) [
      | inl here ↦ rw (here, job_of_here p new jobs (sym (==→eq p new.pid here))) refl
      | inr other ↦
          rw
            (
              other,
              job_of_behind p new jobs (λ e. ==→ne p new.pid other (sym e)),
              job_of_behind p job jobs (λ e. some_p (sym e ∙ free)),
            )
            refl
    ],
  )

  add_loop-AddLoop :
      (jobs : List Job)
      → IsDistinct jobs
      → job_of new.pid jobs ≡ none
      → AddLoop jobs (add_loop new jobs)
  unfolding add_loop
  add_loop-AddLoop [] distinct fresh = tt
  add_loop-AddLoop (job ∷ jobs) (head, distinct) fresh =
      let (apart, rest) = job_of_cons new.pid job jobs fresh in
      elim (Bool-cases (job.pid == 0)) [
        | inl free ↦ rw free (first-IsAdded job jobs (==→eq job.pid 0 free) distinct rest)
        | inr more ↦
            let used = ==→ne job.pid 0 more in
            rw more (elim head [
              | inl free ↦ absurd (used free)
              | inr alone ↦
                  behind-AddLoop job jobs (add_loop new jobs) used apart alone
                    (add_loop-AddLoop jobs distinct rest)
            ])
      ]

-- `add_job` of a process that has no job, in a table of distinct jobs: where every slot is taken it
-- answers false and changes nothing; else it answers true, the process has the new job with the
-- next job id, every other process the job that it had, and the jobs are still distinct.
pub add_job-IsAdded :
    (pid state : ℕ) (cmdline : Text) (t : Table)
    → pid ≢ 0
    → pid < 2 ^ 31
    → IsDistinct t.jobs
    → get_job_pid pid t ≡ none
    → ((add_job pid state cmdline t ≡ (false, t)) × IsFull t.jobs)
      ⊎ (((add_job pid state cmdline t).0 ≡ true)
          × IsAdded
              (record { pid = pid; jid = t.next_jid; state = state; cmdline = cmdline })
              t.jobs
              (add_job pid state cmdline t).1.jobs)
unfolding add_job get_job_pid
add_job-IsAdded pid state cmdline t real small distinct unknown =
    let new : Job = record { pid = pid; jid = t.next_jid; state = state; cmdline = cmdline } in
    let fresh : job_of pid t.jobs ≡ none = elim (pid_loop-Found pid real 0 t.jobs) [
      | inl (nowhere, none_known) ↦ none_known
      | inr (k, job, at, known, cleared) ↦ absurd (ground (arith, sym at ∙ unknown))
    ] in
    let good : (pid == 0 || leb (2 ^ 31) pid) ≡ false = ground arith in
    rw good (
      added-AddLoop new real t (add_loop new t.jobs)
        (add_loop-AddLoop new real t.jobs distinct fresh))

-- ===== src/Shell/Jobs.antt =====
-- The table of jobs as a map from process ids to jobs.
use sysu_os.Base.{
  ℕ, suc, ◌+◌, ◌==◌, ◌≡◌, ◌≢◌, refl, sym, ap, ◌∙◌, ◌⊎◌, true, false, if◌then◌else◌, Bool-cases, inl,
  inr, Option, none, some, List, [], ◌∷◌, arith, ==→eq, ==→ne, ne→==,
}
use sysu_os.Shell.{Job, Table, clear_job, pid_loop, get_job_pid, clear_at, delete_job}

-- the job of a process
unfoldable pub job_of : ℕ → List Job → Option Job
job_of p [] = none
job_of p (job ∷ jobs) = let rest = job_of p jobs in if job.pid == p then some job else rest

-- no two jobs have the same process
abbrev pub IsDistinct : List Job → Type 0
IsDistinct [] = Unit
IsDistinct (job ∷ jobs) = ((job.pid ≡ 0) ⊎ (job_of job.pid jobs ≡ none)) × IsDistinct jobs

-- every slot is taken
abbrev pub IsFull : List Job → Type 0
IsFull [] = Unit
IsFull (job ∷ jobs) = (job.pid ≢ 0) × IsFull jobs

-- a table with a new job for a process, and one without the job of a process
abbrev pub IsAdded : Job → List Job → List Job → Type 0
IsAdded new jobs jobs' =
    IsDistinct jobs'
    × ((p : ℕ) → p ≢ 0 → job_of p jobs' ≡ (if p == new.pid then some new else job_of p jobs))

abbrev pub IsDeleted : ℕ → List Job → List Job → Type 0
IsDeleted pid jobs jobs' =
    IsDistinct jobs'
    × ((p : ℕ) → p ≢ 0 → job_of p jobs' ≡ (if p == pid then none else job_of p jobs))

pub job_of_here :
    (p : ℕ) (job : Job) (jobs : List Job) → job.pid ≡ p → job_of p (job ∷ jobs) ≡ some job
unfolding job_of
job_of_here p job jobs e = let here : (job.pid == p) ≡ true = ground arith in rw here refl

pub job_of_behind :
    (p : ℕ) (job : Job) (jobs : List Job) → job.pid ≢ p → job_of p (job ∷ jobs) ≡ job_of p jobs
unfolding job_of
job_of_behind p job jobs e = let other : (job.pid == p) ≡ false = ground arith in rw other refl

pub job_of_cons :
    (p : ℕ) (job : Job) (jobs : List Job)
    → job_of p (job ∷ jobs) ≡ none
    → (job.pid ≢ p) × (job_of p jobs ≡ none)
job_of_cons p job jobs fresh = elim (Bool-cases (job.pid == p)) [
  | inl here ↦
      let found = sym (job_of_here p job jobs (==→eq job.pid p here)) ∙ fresh in
      absurd (ground (arith, found))
  | inr other ↦
      let apart = ==→ne job.pid p other in (apart, sym (job_of_behind p job jobs apart) ∙ fresh)
]

module _ (pid : ℕ) (real : pid ≢ 0) where
  -- what `pid_loop` finds from an index on
  abbrev pub Found : ℕ → List Job → Option ℕ → Type 0
  Found i jobs o =
      ((o ≡ none) × (job_of pid jobs ≡ none))
      ⊎ ((k : ℕ) × (job : Job) × (o ≡ some (i + k))
          × (job_of pid jobs ≡ some job)
          × (IsDistinct jobs → IsDeleted pid jobs (clear_at k jobs)))

  clear_here :
      (job : Job) (jobs : List Job)
      → job.pid ≡ pid
      → IsDistinct (job ∷ jobs)
      → IsDeleted pid (job ∷ jobs) (clear_job ∷ jobs)
  clear_here job jobs e (head, distinct) = (
    (inl refl, distinct),
    λ p some_p. elim (Bool-cases (p == pid)) [
      | inl here ↦
          let alone : job_of job.pid jobs ≡ none = elim head [
            | inl free ↦ absurd (real (sym e ∙ free))
            | inr alone ↦ alone
          ] in
          let p_is = ==→eq p pid here in
          rw (here, job_of_behind p clear_job jobs (λ z. some_p (sym z)), p_is ∙ sym e) alone
      | inr other ↦
          let apart = ==→ne p pid other in
          rw
            (
              other,
              job_of_behind p clear_job jobs (λ z. some_p (sym z)),
              job_of_behind p job jobs (λ z. apart (sym z ∙ e)),
            )
            refl
    ],
  )

  clear_behind :
      (job : Job) (jobs jobs' : List Job)
      → job.pid ≢ pid
      → (IsDistinct jobs → IsDeleted pid jobs jobs')
      → IsDistinct (job ∷ jobs)
      → IsDeleted pid (job ∷ jobs) (job ∷ jobs')
  clear_behind job jobs jobs' other h (head, distinct) =
      let (distinct', found) = h distinct in
      let apart : (job.pid == pid) ≡ false = ne→== job.pid pid other in
      let head' : (job.pid ≡ 0) ⊎ (job_of job.pid jobs' ≡ none) = elim (Bool-cases (job.pid == 0)) [
        | inl free ↦ inl (==→eq job.pid 0 free)
        | inr used ↦
            let some_pid = ==→ne job.pid 0 used in
            elim head [
              | inl free ↦ inl free
              | inr alone ↦ inr (found job.pid some_pid ∙ rw apart alone)
            ]
      ] in
      (
        (head', distinct'),
        λ p some_p. elim (Bool-cases (job.pid == p)) [
          | inl here ↦
              let e = ==→eq job.pid p here in
              let not_pid : (p == pid) ≡ false = ne→== p pid (λ z. other (e ∙ z)) in
              rw (job_of_here p job jobs' e, job_of_here p job jobs e, not_pid) refl
          | inr more ↦
              let e = ==→ne job.pid p more in
              rw (job_of_behind p job jobs' e, job_of_behind p job jobs e) (found p some_p)
        ],
      )

  job_of_end : job_of pid [] ≡ none
  unfolding job_of
  job_of_end = refl

  pub pid_loop-Found : (i : ℕ) (jobs : List Job) → Found i jobs (pid_loop pid i jobs)
  unfolding pid_loop
  pid_loop-Found i [] = inl (refl, job_of_end)
  pid_loop-Found i (job ∷ jobs) = elim (Bool-cases (job.pid == pid)) [
    | inl here ↦
        let e = ==→eq job.pid pid here in
        rw here
          (inr (0, job, ap some (omega arith), job_of_here pid job jobs e, clear_here job jobs e))
    | inr other ↦
        let apart = ==→ne job.pid pid other in
        rw other (elim (pid_loop-Found (i + 1) jobs) [
          | inl (nowhere, unknown) ↦ inl (nowhere, job_of_behind pid job jobs apart ∙ unknown)
          | inr (k, found, at, known, cleared) ↦ inr (
            suc k,
            found,
            at ∙ ap some (omega arith),
            job_of_behind pid job jobs apart ∙ known,
            clear_behind job jobs (clear_at k jobs) apart cleared,
          )
        ])
  ]

-- `delete_job` in a table of distinct jobs: for a process without a job it answers false and changes
-- nothing; else it answers true, the process has no job any more, every other process the job that
-- it had, and the jobs are still distinct.
pub delete_job-IsDeleted :
    (pid : ℕ) (t : Table)
    → pid ≢ 0
    → IsDistinct t.jobs
    → ((delete_job pid t ≡ (false, t)) × (job_of pid t.jobs ≡ none))
      ⊎ (((delete_job pid t).0 ≡ true)
          × (job_of pid t.jobs ≢ none)
          × IsDeleted pid t.jobs (delete_job pid t).1.jobs)
unfolding delete_job get_job_pid
delete_job-IsDeleted pid t real distinct = elim (pid_loop-Found pid real 0 t.jobs) [
  | inl (nowhere, unknown) ↦ rw nowhere (inl (refl, unknown))
  | inr (k, job, at, known, cleared) ↦
      let here : pid_loop pid 0 t.jobs ≡ some k = at ∙ ap some (omega arith) in
      rw here (inr (refl, (λ e. absurd (ground (arith, sym known ∙ e))), cleared distinct))
]

-- ===== src/Shell/Examples.antt =====
-- Runs of the shell's functions on concrete inputs.
use sysu_os.Base.{ℕ, ◌≡◌, ◌≢◌, refl, ◌⊎◌, true, false, inl, inr, none, [], ◌∷◌, ◌++◌, Text, arith}
use sysu_os.Shell.{
  Job, Table, clear_job, get_job_pid, add_job, delete_job, parse_line, is_blank, is_newline,
  skip_spaces,
}
use sysu_os.Shell.Words.{strip}
use sysu_os.Shell.Line.{command, parse_line-command}
use sysu_os.Shell.NewJob.{add_job-IsAdded}
use sysu_os.Shell.Jobs.{IsDistinct, IsFull, IsAdded, IsDeleted, job_of, delete_job-IsDeleted}

abbrev sleep : Text
sleep = b's' ∷ b'l' ∷ b'e' ∷ b'e' ∷ b'p' ∷ []

-- `sleep 5 &`
abbrev line : Text
line = sleep ++ (b' ' ∷ b'5' ∷ b' ' ∷ b'&' ∷ b'\n' ∷ [])

parse_line-command_example :
    parse_line line ≡ command (skip_spaces (strip is_blank (strip is_newline line)))
parse_line-command_example = parse_line-command line

parsed : parse_line line ≡ (sleep ∷ (b'5' ∷ []) ∷ [], true, true)
unfolding parse_line
parsed = refl

abbrev bin : Text
bin = b'/' ∷ b'b' ∷ []

-- one job, and free slots
abbrev shell : Job
shell = record { pid = 7; jid = 1; state = 2; cmdline = sleep }

abbrev one_job : Table
one_job = record { jobs = shell ∷ clear_job ∷ clear_job ∷ []; next_jid = 2 }

one_job-IsDistinct : IsDistinct one_job.jobs
unfolding job_of
one_job-IsDistinct = (inr refl, (inl refl, (inl refl, tt)))

nine_unknown : get_job_pid 9 one_job ≡ none
unfolding get_job_pid
nine_unknown = refl

nine_real : ◌≢◌ {A = ℕ} 9 0
nine_real = omega arith

seven_real : ◌≢◌ {A = ℕ} 7 0
seven_real = omega arith

add_job-IsAdded_example :
    ((add_job 9 1 sleep one_job ≡ (false, one_job)) × IsFull one_job.jobs)
    ⊎ (((add_job 9 1 sleep one_job).0 ≡ true)
        × IsAdded
            (record { pid = 9; jid = 2; state = 1; cmdline = sleep })
            one_job.jobs
            (add_job 9 1 sleep one_job).1.jobs)
add_job-IsAdded_example =
    add_job-IsAdded 9 1 sleep one_job nine_real (omega arith) one_job-IsDistinct nine_unknown

delete_job-IsDeleted_example :
    ((delete_job 7 one_job ≡ (false, one_job)) × (job_of 7 one_job.jobs ≡ none))
    ⊎ (((delete_job 7 one_job).0 ≡ true)
        × (job_of 7 one_job.jobs ≢ none)
        × IsDeleted 7 one_job.jobs (delete_job 7 one_job).1.jobs)
delete_job-IsDeleted_example = delete_job-IsDeleted 7 one_job seven_real one_job-IsDistinct

-- ===== src/Shell.antt =====
-- src/bin/osh.cpp: the table of jobs, the command line and the search for a program. A text is the
-- list of its bytes before the NUL; an `int` is a 32-bit pattern. An index of the table stands for
-- a pointer to a job, and `none` for the null pointer. `execve` is a parameter.
pub mod Words
pub mod Line
pub mod Jobs
pub mod NewJob
pub mod Paths
mod Examples
use sysu_os.Base.{
  ℕ, zero, suc, ◌+◌, ◌-◌, ◌*◌, ◌%◌, ◌^◌, ◌==◌, ltb, leb, Bool, true, false, not, ◌&&◌, ◌||◌,
  if◌then◌else◌, Option, none, some, List, [], ◌∷◌, ◌++◌, length, get_or, take, drop, Text,
}

pub record Job : Type 0 where
  pub pid : ℕ
  pub jid : ℕ
  pub state : ℕ
  pub cmdline : Text

-- `SHELL_MAX_JOBS`, `SHELL_MAX_ARGS` and `SHELL_PATH_MAX`
abbrev pub max_jobs : ℕ
max_jobs = 16

abbrev pub max_args : ℕ
max_args = 16

abbrev pub path_max : ℕ
path_max = 256

abbrev pub clear_job : Job
clear_job = record { pid = 0; jid = 0; state = 0; cmdline = [] }

-- `jobs` and `next_jid`
pub record Table : Type 0 where
  pub jobs : List Job
  pub next_jid : ℕ

unfoldable pub init_loop : ℕ → List Job
init_loop zero = []
init_loop (suc n) = clear_job ∷ init_loop n

pub init_jobs : Table
unfolding init_loop
init_jobs = record { jobs = init_loop max_jobs; next_jid = 1 }

unfoldable pub max_loop : ℕ → List Job → ℕ
max_loop max [] = max
max_loop max (job ∷ jobs) = max_loop (if ltb max job.jid then job.jid else max) jobs

pub max_jid : Table → ℕ
unfolding max_loop
max_jid t = max_loop 0 t.jobs

unfoldable pub pid_loop : ℕ → ℕ → List Job → Option ℕ
pid_loop pid i [] = none
pid_loop pid i (job ∷ jobs) =
    let rest = pid_loop pid (i + 1) jobs in if job.pid == pid then some i else rest

pub get_job_pid : ℕ → Table → Option ℕ
unfolding pid_loop
get_job_pid pid t = pid_loop pid 0 t.jobs

unfoldable pub jid_loop : ℕ → ℕ → List Job → Option ℕ
jid_loop jid i [] = none
jid_loop jid i (job ∷ jobs) =
    let rest = jid_loop jid (i + 1) jobs in if job.jid == jid then some i else rest

pub get_job_jid : ℕ → Table → Option ℕ
unfolding jid_loop
get_job_jid jid t = jid_loop jid 0 t.jobs

abbrev pub behind : Job → Option (List Job) → Option (List Job)
behind job none = none
behind job (some jobs) = some (job ∷ jobs)

-- the first slot whose pid is 0 takes the new job
unfoldable pub add_loop : Job → List Job → Option (List Job)
add_loop new [] = none
add_loop new (job ∷ jobs) =
    let rest = behind job (add_loop new jobs) in if job.pid == 0 then some (new ∷ jobs) else rest

abbrev pub added : Table → Option (List Job) → Bool × Table
added t none = (false, t)
added t (some jobs) =
    let next = t.next_jid + 1 in
    (true, record { jobs = jobs; next_jid = if ltb max_jobs next then 1 else next })

-- `add_job`; the code copies `cmdline` with `strcpy` to a buffer of 128 bytes, which its caller's line
-- fits
pub add_job : ℕ → ℕ → Text → Table → Bool × Table
unfolding add_loop
add_job pid state cmdline t =
    let new : Job = record { pid = pid; jid = t.next_jid; state = state; cmdline = cmdline } in
    if pid == 0 || leb (2 ^ 31) pid then (false, t) else added t (add_loop new t.jobs)

abbrev pub clear_at : ℕ → List Job → List Job
clear_at i [] = []
clear_at zero (job ∷ jobs) = clear_job ∷ jobs
clear_at (suc i) (job ∷ jobs) = job ∷ clear_at i jobs

abbrev pub deleted : Table → Option ℕ → Bool × Table
deleted t none = (false, t)
deleted t (some i) =
    let jobs = clear_at i t.jobs in
    let next = (max_jid (record t { jobs = jobs }) + 1) % 2 ^ 32 in
    (true, record { jobs = jobs; next_jid = if next == 0 || leb (2 ^ 31) next then 1 else next })

pub delete_job : ℕ → Table → Bool × Table
unfolding get_job_pid
delete_job pid t = deleted t (get_job_pid pid t)

abbrev pub is_newline : ℕ → Bool
is_newline c = c == b'\n' || c == b'\r'

abbrev pub is_blank : ℕ → Bool
is_blank c = c == b' ' || c == b'\t'

-- the loop of `trim_newline` and of `trim_tail` from a length on
unfoldable pub trim_loop : (ℕ → Bool) → ℕ → Text → Text
trim_loop test zero s = take 0 s
trim_loop test (suc len) s =
    let rest = trim_loop test len s in if test (get_or s len 0) then rest else take (suc len) s

pub trim_newline : Text → Text
unfolding trim_loop
trim_newline s = trim_loop is_newline (length s) s

pub trim_tail : Text → Text
unfolding trim_loop
trim_tail s = trim_loop is_blank (length s) s

pub skip_spaces : Text → Text
skip_spaces [] = []
skip_spaces (c ∷ s) = let rest = skip_spaces s in if is_blank c then rest else c ∷ s

unfoldable pub parse_loop : ℕ → Text → ℕ
parse_loop v [] = v
parse_loop v (c ∷ s) =
    let rest = parse_loop ((v * 10 + (c - b'0')) % 2 ^ 32) s in
    if leb b'0' c && leb c b'9' then rest else v

unfoldable pub parse_int : Text → ℕ
unfolding parse_loop
parse_int s = parse_loop 0 s

-- the bytes up to a blank, and the text from it on
pub read_word : Text → Text × Text
read_word [] = ([], [])
read_word (c ∷ s) =
    let (word, rest) = read_word s in if is_blank c then ([], c ∷ s) else (c ∷ word, rest)

-- the loop of `parse_line` over the words, with `room` elements of `argv` left
pub words_loop : ℕ → Text → List Text
unfolding read_word skip_spaces
words_loop zero cmd = []
words_loop (suc room) [] = []
words_loop (suc room) (c ∷ cmd) =
    let (word, rest) = read_word (c ∷ cmd) in word ∷ words_loop room (skip_spaces (drop 1 rest))

abbrev pub ends_in : ℕ → Text → Bool
ends_in c [] = false
ends_in c (d ∷ []) = d == c
ends_in c (d ∷ e ∷ s) = ends_in c (e ∷ s)

-- `argv`, `bg` and the result
abbrev pub Command : Type 0
Command = List Text × Bool × Bool

-- `parse_line` from the command on
pub parse_command : Text → Command
unfolding trim_tail words_loop
parse_command [] = ([], false, false)
parse_command (c ∷ cmd) =
    let bg = ends_in b'&' (c ∷ cmd) in
    let rest = if bg then trim_tail (take (length cmd) (c ∷ cmd)) else c ∷ cmd in
    let argv = words_loop (max_args - 1) rest in (argv, bg, ltb 0 (length argv))

pub parse_line : Text → Command
unfolding parse_command trim_newline
parse_line line = parse_command (skip_spaces (trim_tail (trim_newline line)))

pub has_slash : Text → Bool
has_slash [] = false
has_slash (c ∷ cmd) = let rest = has_slash cmd in if c == b'/' then true else rest

-- a loop of `join_path`, with `room` bytes left: what it writes
pub copy_loop : ℕ → Text → Text
copy_loop zero s = []
copy_loop (suc room) [] = []
copy_loop (suc room) (c ∷ s) = c ∷ copy_loop room s

pub join_path : Text → Text → Text
unfolding copy_loop
join_path dir cmd =
    let out = copy_loop (path_max - 1) dir in
    let slashed =
      if ltb 0 (length out) && not (ends_in b'/' out) && ltb (length out) (path_max - 1)
      then out ++ (b'/' ∷ [])
      else out in
    slashed ++ copy_loop (path_max - 1 - length slashed) cmd

-- `path_dirs`
abbrev pub path_dirs : List Text
path_dirs =
    (b'/' ∷ b'b' ∷ b'i' ∷ b'n' ∷ [])
    ∷ (b'/' ∷ b'u' ∷ b's' ∷ b'r' ∷ b'/' ∷ b'b' ∷ b'i' ∷ b'n' ∷ [])
    ∷ []

abbrev pub minus_one : ℕ
minus_one = 2 ^ 32 - 1

-- `execve` gives a result only where it fails; `calls` lists the paths that are tried
pub search_loop : (Text → ℕ) → Text → List Text → List Text × ℕ
unfolding join_path
search_loop execve cmd [] = ([], minus_one)
search_loop execve cmd (dir ∷ dirs) =
    let path = join_path dir cmd in
    let (calls, ret) = search_loop execve cmd dirs in
    if execve path == minus_one then (path ∷ calls, ret) else (path ∷ [], execve path)

pub exec_command : (Text → ℕ) → Text → List Text × ℕ
unfolding search_loop has_slash
exec_command execve cmd =
    let search = search_loop execve cmd path_dirs in
    if has_slash cmd then (cmd ∷ [], execve cmd) else search

-- the job of an argument of `fg` and `bg`
pub parse_job_arg : Text → Table → Option ℕ
unfolding parse_int get_job_jid get_job_pid
parse_job_arg [] t = none
parse_job_arg (c ∷ arg) t =
    if c == b'%' then get_job_jid (parse_int arg) t else get_job_pid (parse_int (c ∷ arg)) t

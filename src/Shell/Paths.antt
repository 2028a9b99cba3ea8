-- ===== src/Shell/Paths.antt =====
-- The path that `join_path` writes, and the programs that `exec_command` tries.
use sysu_os.Base.{
  ℕ, zero, suc, ◌+◌, ◌-◌, ◌≤◌, ltb, ◌≡◌, refl, sym, ap, ◌∙◌, Bool, true, false, not, ◌&&◌,
  if◌then◌else◌, Bool-cases, inl, inr, [], ◌∷◌, ◌++◌, length, take, Text, arith, length-append,
}
use mathlib.Core.List.{append-nil}
use sysu_os.Shell.{path_max, copy_loop, ends_in, join_path}

copy_loop-take : (room : ℕ) (s : Text) → copy_loop room s ≡ take room s
unfolding copy_loop
copy_loop-take zero s = refl
copy_loop-take (suc room) [] = refl
copy_loop-take (suc room) (c ∷ s) = ap (c ∷◌) (copy_loop-take room s)

-- the slash between a directory and a name
abbrev pub separator : Text → Text
separator dir = if ltb 0 (length dir) && not (ends_in b'/' dir) then b'/' ∷ [] else []

take-append_beyond : (xs ys : Text) (n : ℕ) → n ≤ length xs → take n (xs ++ ys) ≡ take n xs
take-append_beyond xs ys zero h = refl
take-append_beyond [] ys (suc n) h = absurd (omega arith)
take-append_beyond (x ∷ xs) ys (suc n) h = ap (x ∷◌) (take-append_beyond xs ys n (omega arith))

take-append_within :
    (xs ys : Text) (n : ℕ) → length xs ≤ n → take n (xs ++ ys) ≡ xs ++ take (n - length xs) ys
take-append_within [] ys n h = let e : n ≡ n - 0 = omega arith in ap (λ k. take k ys) e
take-append_within (x ∷ xs) ys zero h = absurd (omega arith)
take-append_within (x ∷ xs) ys (suc n) h =
    let e : n - length xs ≡ suc n - suc (length xs) = omega arith in
    ap (x ∷◌) (take-append_within xs ys n (omega arith) ∙ ap (λ k. xs ++ take k ys) e)

take_short : (xs : Text) (n : ℕ) → length xs ≤ n → take n xs ≡ xs
take_short [] zero h = refl
take_short [] (suc n) h = refl
take_short (x ∷ xs) zero h = absurd (omega arith)
take_short (x ∷ xs) (suc n) h = ap (x ∷◌) (take_short xs n (omega arith))

-- what `join_path` writes with room for `room` bytes
unfoldable joined : ℕ → Text → Text → Text
joined room dir cmd =
    let out = copy_loop room dir in
    let slashed =
      if ltb 0 (length out) && not (ends_in b'/' out) && ltb (length out) room
      then out ++ (b'/' ∷ [])
      else out in
    slashed ++ copy_loop (room - length slashed) cmd

join_path-joined : (dir cmd : Text) → join_path dir cmd ≡ joined (path_max - 1) dir cmd
unfolding join_path joined
join_path-joined dir cmd = refl

length-take : (xs : Text) (n : ℕ) → n ≤ length xs → length (take n xs) ≡ n
length-take xs zero h = refl
length-take [] (suc n) h = absurd (omega arith)
length-take (x ∷ xs) (suc n) h = omega (arith, length-take xs n)

and_true : (a b : Bool) → (a && b && true) ≡ (a && b)
and_true true true = refl
and_true true false = refl
and_true false b = refl

and_false : (a b : Bool) → (a && b && false) ≡ false
and_false true true = refl
and_false true false = refl
and_false false b = refl

slashed_lem :
    (b : Bool) (dir : Text)
    → (if b then dir ++ (b'/' ∷ []) else dir) ≡ dir ++ (if b then b'/' ∷ [] else [])
slashed_lem true dir = refl
slashed_lem false dir = sym (append-nil dir)

separator_short : (dir : Text) → length (dir ++ separator dir) ≤ length dir + 1
separator_short dir = elim (Bool-cases (ltb 0 (length dir) && not (ends_in b'/' dir))) [
  | inl slash ↦ rw slash (omega (arith, length-append dir (b'/' ∷ [])))
  | inr bare ↦ rw (bare, append-nil dir) (omega arith)
]

behind-take :
    (room : ℕ) (out cmd : Text)
    → length out ≤ room
    → out ++ copy_loop (room - length out) cmd ≡ take room (out ++ cmd)
behind-take room out cmd fits =
    ap (out ++◌) (copy_loop-take (room - length out) cmd)
    ∙ sym (take-append_within out cmd room fits)

joined-take :
    (room : ℕ) (dir cmd : Text) → joined room dir cmd ≡ take room (dir ++ separator dir ++ cmd)
unfolding joined
joined-take room dir cmd = elim (Bool-cases (ltb (length dir) room)) [
  | inl less ↦
      let out = copy_loop-take room dir ∙ take_short dir room (ground arith) in
      let slash = ltb 0 (length dir) && not (ends_in b'/' dir) in
      rw (out, less, and_true (ltb 0 (length dir)) (not (ends_in b'/' dir)), slashed_lem slash dir)
        (behind-take room (dir ++ separator dir) cmd (ground (arith, separator_short dir)))
  | inr more ↦
      let out = copy_loop-take room dir in
      let size = length-take dir room (ground arith) in
      let full : ltb room room ≡ false = ground arith in
      let long : room ≤ length (dir ++ separator dir) =
        ground (arith, length-append dir (separator dir)) in
      rw
        (
          out,
          size,
          full,
          and_false (ltb 0 room) (not (ends_in b'/' (take room dir))),
          take-append_beyond (dir ++ separator dir) cmd room long,
          take-append_beyond dir (separator dir) room (ground arith),
        )
        (behind-take room (take room dir) cmd (omega (arith, size))
          ∙ take-append_beyond (take room dir) cmd room (omega (arith, size))
          ∙ take_short (take room dir) room (omega (arith, size)))
]

-- `join_path` writes the directory, a slash unless the directory is empty or ends in one, and the
-- name, cut off behind 255 bytes.
pub join_path-take : (dir cmd : Text) → join_path dir cmd ≡ take 255 (dir ++ separator dir ++ cmd)
join_path-take dir cmd = join_path-joined dir cmd ∙ joined-take 255 dir cmd

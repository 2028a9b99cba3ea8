-- ===== src/PathName/Pop.antt =====
-- `path_pop_component` and `path_append_component` beside the steps on a stack of names.
use sysu_os.Base.{
  Text, ℕ, zero, suc, ◌+◌, ◌-◌, ◌≤◌, ◌<◌, ◌==◌, ltb, leb, ◌≡◌, refl, ap, true, false, not, ◌&&◌,
  if◌then◌else◌, Bool-cases, inl, inr, none, some, List, [], ◌∷◌, ◌++◌, length, take, get_or, arith,
  length-append, get_or-append, take-append,
}
use mathlib.Core.List.{append_assoc}
use sysu_os.PathName.{
  made, refused, max_path_length, slash, dot, dot_dot, root, back_up, path_pop_component,
  path_append_component, component_equals,
}
use sysu_os.PathName.Names.{equal_texts, render, text, parent, step, written, no_slash, Good}

pub no_slash_at :
    (t : Text) (i : ℕ) → no_slash t ≡ true → i < length t → (get_or t i 0 == slash) ≡ false
no_slash_at [] i h l = absurd (omega arith)
no_slash_at (c ∷ t) zero h l = ground arith
no_slash_at (c ∷ t) (suc i) h l = no_slash_at t i (ground arith) (omega arith)

back_up-slash :
    (xs name : Text) (k m : ℕ)
    → no_slash name ≡ true
    → k ≤ length name
    → m ≡ length xs + suc k
    → back_up m (xs ++ (slash ∷ name)) ≡ suc (length xs)
unfolding back_up
back_up-slash xs name k zero h l e = absurd (omega arith)
back_up-slash xs name zero (suc m) h l e =
    let here : m ≡ length xs + 0 = omega arith in
    rw (here, get_or-append xs (slash ∷ name) 0 0) (ground arith)
back_up-slash xs name (suc k) (suc m) h l e =
    let here : m ≡ length xs + suc k = omega arith in
    let more : ltb 1 (suc m) ≡ true = ground arith in
    let other : (get_or (xs ++ (slash ∷ name)) m 0 == slash) ≡ false =
      rw (here, get_or-append xs (slash ∷ name) (suc k) 0) (no_slash_at name k h (omega arith)) in
    rw (more, other) (back_up-slash xs name k m h (omega arith) here)

pub path_pop_component-text :
    (up : List Text) (name : Text)
    → no_slash name ≡ true
    → 0 < length name
    → path_pop_component (text (name ∷ up)) ≡ text up
unfolding path_pop_component
path_pop_component-text up name h long =
    let size : length (render up ++ (slash ∷ name)) ≡ length (render up) + suc (length name) =
      length-append (render up) (slash ∷ name) in
    let at : length (render up) + suc (length name) - 1
        ≡ length (render up) + suc (length name - 1) =
      omega arith in
    let other : (get_or (render up ++ (slash ∷ name)) (length (render up) + suc (length name) - 1) 0
          == slash)
        ≡ false =
      rw (at, get_or-append (render up) (slash ∷ name) (suc (length name - 1)) 0)
        (no_slash_at name (length name - 1) h (omega arith)) in
    let big : leb (length (render up) + suc (length name)) 1 ≡ false = ground arith in
    rw
      (
        size,
        big,
        other,
        back_up-slash (render up) name (length name) (length (render up) + suc (length name)) h
            (omega arith) refl,
      )
      (cut up)
  where
    cut :
        (us : List Text)
        → (if suc (length (render us)) == 1
            then take 1 (render us ++ (slash ∷ name))
            else take (suc (length (render us)) - 1) (render us ++ (slash ∷ name)))
          ≡ text us
    cut [] = refl
    cut (n ∷ us) =
        let size = length-append (render us) (slash ∷ n) in
        let other : (suc (length (render us ++ (slash ∷ n))) == 1) ≡ false = ground arith in
        let less : suc (length (render us ++ (slash ∷ n))) - 1 ≡ length (render us ++ (slash ∷ n)) =
          omega arith in
        rw (other, less) (take-append (render us ++ (slash ∷ n)) (slash ∷ name))

component_equals-equal_texts :
    (target c : Text) (len : ℕ)
    → len ≤ length c
    → component_equals c len target ≡ equal_texts (take len c) target
unfolding component_equals
component_equals-equal_texts [] [] zero l = refl
component_equals-equal_texts [] [] (suc len) l = absurd (omega arith)
component_equals-equal_texts [] (x ∷ c) zero l = refl
component_equals-equal_texts [] (x ∷ c) (suc len) l = ground arith
component_equals-equal_texts (t ∷ target) [] zero l = refl
component_equals-equal_texts (t ∷ target) [] (suc len) l = absurd (omega arith)
component_equals-equal_texts (t ∷ target) (x ∷ c) zero l = refl
component_equals-equal_texts (t ∷ target) (x ∷ c) (suc len) l =
    ap ((x == t) &&◌) (component_equals-equal_texts target c len (omega arith))

pub length-take : (len : ℕ) (c : Text) → len ≤ length c → length (take len c) ≡ len
length-take zero c l = refl
length-take (suc len) [] l = absurd (omega arith)
length-take (suc len) (x ∷ c) l = ap suc (length-take len c (omega arith))

path_pop_component-parent :
    (up : List Text) → Good up → path_pop_component (text up) ≡ text (parent up)
unfolding path_pop_component
path_pop_component-parent [] g = refl
path_pop_component-parent (name ∷ up) g = path_pop_component-text up name g.0 g.1

-- the end of `path_append_component`, for a name that is neither `.` nor `..`
push_name :
    (up : List Text) (name : Text) (len : ℕ)
    → Good up
    → length name ≡ len
    → let need_slash = not (length (text up) == 1 && get_or (text up) 0 0 == slash) in
      (if leb max_path_length (length (text up) + (if need_slash then 1 else 0) + len)
        then refused
        else made ((if need_slash then text up ++ root else text up) ++ name))
      ≡ written
          (if leb max_path_length (length (render (name ∷ up))) then none else some (name ∷ up))
push_name [] name len g e = ground arith
push_name (n ∷ up) name len g e =
    let size = length-append (render up) (slash ∷ n) in
    let size' = length-append (render up ++ (slash ∷ n)) (slash ∷ name) in
    let long : (length (render up ++ (slash ∷ n)) == 1) ≡ false = ground arith in
    rw (long, append_assoc (render up ++ (slash ∷ n)) root name) (ground arith)

-- What `path_append_component` makes of a directory is a step of its stack of names.
pub path_append_component-step :
    (up : List Text) (component : Text) (len : ℕ)
    → Good up
    → 0 < len
    → len ≤ length component
    → path_append_component (text up) component len ≡ written (step up (take len component))
unfolding path_append_component
path_append_component-step up component len g long l =
    let some_name : (len == 0) ≡ false = ground arith in
    let end = push_name up (take len component) len g (length-take len component l) in
    rw
      (
        some_name,
        component_equals-equal_texts dot component len l,
        component_equals-equal_texts dot_dot component len l,
        path_pop_component-parent up g,
      )
      (elim (Bool-cases (equal_texts (take len component) dot)) [
        | inl e ↦ rw e refl
        | inr ne ↦ elim (Bool-cases (equal_texts (take len component) dot_dot)) [
          | inl e ↦ rw (ne, e) refl
          | inr other ↦ rw (ne, other) end
        ]
      ])

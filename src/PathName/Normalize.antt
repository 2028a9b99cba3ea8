-- ===== src/PathName/Normalize.antt =====
-- `normalizePath` and the resolution of the names of a path.
use sysu_os.Base.{
  Text, ℕ, zero, suc, ◌+◌, ◌-◌, ◌≤◌, ◌<◌, ◌==◌, leb, ◌≡◌, refl, sym, ap, subst, ◌∙◌, Bool, true,
  false, not, ◌&&◌, ◌||◌, if◌then◌else◌, Bool-cases, Option-cases, inl, inr, Option, none, some,
  List, [], ◌∷◌, ◌++◌, length, take, drop, arith, length-append,
}
use sysu_os.PathName.{
  made, refused, ◌>>=◌, max_path_length, slash, dot, dot_dot, root, skip_slashes, component_length,
  consume_loop, path_consume_part, path_append_component, normalize_path, start_of, too_long,
  is_absolute,
}
use sysu_os.PathName.Names.{
  equal_texts, render, text, parent, step, written, no_slash, Good, Good-names_from, resolve,
  and_then, names, names-skip_slashes, names_from-component, emit,
}
use sysu_os.PathName.Pop.{path_append_component-step, length-take}

length-skip_slashes : (part : Text) → length (skip_slashes part) ≤ length part
unfolding skip_slashes
length-skip_slashes [] = omega arith
length-skip_slashes (c ∷ part) = ground (arith, length-skip_slashes part)

component_length_le : (part : Text) → component_length part ≤ length part
unfolding component_length
component_length_le [] = omega arith
component_length_le (c ∷ part) = ground (arith, component_length_le part)

component_length_pos :
    (part : Text)
    → (length (skip_slashes part) == 0) ≡ false
    → 0 < component_length (skip_slashes part)
unfolding skip_slashes component_length
component_length_pos [] h = ground arith
component_length_pos (c ∷ part) h = ground (arith, component_length_pos part)

component-no_slash : (part : Text) → no_slash (take (component_length part) part) ≡ true
unfolding component_length
component-no_slash [] = refl
component-no_slash (c ∷ part) = elim (Bool-cases (c == slash)) [
  | inl e ↦ rw e refl
  | inr ne ↦ rw (ne, ne) (component-no_slash part)
]

length-drop : (n : ℕ) (part : Text) → length (drop n part) ≤ length part - n
length-drop zero part = omega arith
length-drop (suc n) [] = omega arith
length-drop (suc n) (c ∷ part) = omega (arith, length-drop n part)

length_of_equal_texts : (s t : Text) → equal_texts s t ≡ true → length s ≡ length t
length_of_equal_texts [] [] e = refl
length_of_equal_texts [] (d ∷ t) e = ground arith
length_of_equal_texts (c ∷ s) [] e = ground arith
length_of_equal_texts (c ∷ s) (d ∷ t) e = ap suc (length_of_equal_texts s t (ground arith))

emit_pos : (t : Text) (ns : List Text) → 0 < length t → emit t ns ≡ t ∷ ns
emit_pos [] ns l = absurd (omega arith)
emit_pos (c ∷ t) ns l = refl

-- a name of the greatest length or more is refused
step_long :
    (up : List Text) (name : Text) → leb max_path_length (length name) ≡ true → step up name ≡ none
step_long up name l = ground (
  arith,
  length_of_equal_texts name dot,
  length_of_equal_texts name dot_dot,
  length-append (render up) (slash ∷ name),
)

Good-parent : (up : List Text) → Good up → Good (parent up)
Good-parent [] g = tt
Good-parent (n ∷ up) g = g.2

pub Good-step :
    (up : List Text) (name : Text) (next : List Text)
    → Good up
    → no_slash name ≡ true
    → 0 < length name
    → step up name ≡ some next
    → Good next
Good-step up name next g h l e = elim (Bool-cases (equal_texts name dot)) [
  | inl is_dot ↦ subst Good (ground arith) g
  | inr not_dot ↦ elim (Bool-cases (equal_texts name dot_dot)) [
    | inl up_one ↦ subst Good (ground arith) (Good-parent up g)
    | inr other ↦
        let both : Good (name ∷ up) = (h, l, g) in subst Good {x = name ∷ up} (ground arith) both
  ]
]

-- one component of the loop is one step
consume_one :
    (up : List Text) (start : Text)
    → Good up
    → 0 < component_length start
    → (if leb max_path_length (component_length start)
        then refused
        else path_append_component (text up) start (component_length start))
      ≡ written (step up (take (component_length start) start))
consume_one up start g long =
    let fits = component_length_le start in
    elim (Bool-cases (leb max_path_length (component_length start))) [
      | inl e ↦
          let wide : leb max_path_length (length (take (component_length start) start)) ≡ true =
            rw (length-take (component_length start) start fits) e in
          rw (e, step_long up (take (component_length start) start) wide) refl
      | inr ne ↦ rw ne (path_append_component-step up start (component_length start) g long fits)
    ]

-- The loop resolves the names of the path against the directory in `out`; the fuel is enough when
-- it exceeds the length of the path.
pub consume_loop-resolve :
    (fuel : ℕ) (part : Text) (up : List Text)
    → Good up
    → length part < fuel
    → consume_loop fuel part (text up) ≡ written (resolve up (names part))
unfolding consume_loop
consume_loop-resolve zero part up g enough = absurd (omega arith)
consume_loop-resolve (suc fuel) part up g enough =
    let start = skip_slashes part in
    let len = component_length start in
    let less = length-skip_slashes part in
    elim (Bool-cases (length start == 0)) [
      | inl e ↦ rw (e, sym (names-skip_slashes part)) (at_end start e)
      | inr ne ↦
          let long : 0 < len = component_length_pos part ne in
          let name = take len start in
          let name_long : 0 < length name =
            omega (arith, length-take len start (component_length_le start)) in
          let these : names part ≡ name ∷ names (drop len start) =
            sym (names-skip_slashes part)
            ∙ names_from-component [] start
            ∙ emit_pos name (names (drop len start)) name_long in
          rw (ne, consume_one up start g long, these)
            (elim (Option-cases (step up name)) [
              | inl e ↦ rw e refl
              | inr (next, e) ↦ rw e (
                  consume_loop-resolve fuel (drop len start) next
                    (Good-step up name next g (component-no_slash start) name_long e)
                    (omega (arith, length-drop len start, component_length_le start)))
            ])
    ]
  where
    at_end :
        (start : Text)
        → (length start == 0) ≡ true
        → made (text up) ≡ written (resolve up (names start))
    at_end [] e = refl
    at_end (c ∷ start) e = ground arith

pub resolve-append :
    (up a b : List Text) → resolve up (a ++ b) ≡ and_then (resolve up a) (λ next. resolve next b)
resolve-append up [] b = refl
resolve-append up (name ∷ a) b = elim (Option-cases (step up name)) [
  | inl e ↦ rw e refl
  | inr (next, e) ↦ rw e (resolve-append next a b)
]

pub Good-resolve :
    (up path up' : List Text) → Good up → Good path → resolve up path ≡ some up' → Good up'
Good-resolve up [] up' g h e = subst Good {x = up} (ground arith) g
Good-resolve up (name ∷ path) up' g h e = elim (Option-cases (step up name)) [
  | inl none_made ↦ absurd (ground arith)
  | inr (next, made_next) ↦
      Good-resolve next path up' (Good-step up name next g h.0 h.1 made_next) h.2
        (rw made_next at e)
]

abbrev pub cwd_names : Option Text → List Text
cwd_names none = []
cwd_names (some cwd) = names cwd

-- the names that a path stands for in a directory
abbrev pub whole : Option Text → Text → List Text
whole cwd path = if is_absolute path then names path else cwd_names cwd ++ names path

-- a relative path in a directory that is neither empty nor absolute
abbrev pub is_unrooted : Option Text → Text → Bool
is_unrooted none path = false
is_unrooted (some []) path = false
is_unrooted (some (c ∷ cwd)) path = not (is_absolute path) && not (c == slash)

pub path_consume_part-resolve :
    (part : Text) (up : List Text)
    → Good up
    → path_consume_part part (text up) ≡ written (resolve up (names part))
unfolding path_consume_part
path_consume_part-resolve part up g = consume_loop-resolve (length part + 1) part up g (omega arith)

from_cwd :
    (cwd path : Text)
    → (path_consume_part cwd root >>= path_consume_part path)
      ≡ written (resolve [] (names cwd ++ names path))
from_cwd cwd path =
    rw (path_consume_part-resolve cwd [] tt, resolve-append [] (names cwd) (names path))
      (elim (Option-cases (resolve [] (names cwd))) [
        | inl e ↦ rw e refl
        | inr (up, e) ↦ rw e (
            path_consume_part-resolve path up
              (Good-resolve [] (names cwd) up tt (Good-names_from [] cwd refl) e))
      ])

-- `normalizePath` refuses a path or a directory of 256 bytes or more and a relative path in a
-- directory that is neither empty nor absolute; else it writes the directory that the names of the
-- path lead to, from the root or from the names of `cwd`, or refuses where a step is refused.
pub normalize_path-resolve :
    (cwd : Option Text) (path : Text)
    → normalize_path cwd (some path) ≡ (
        if leb max_path_length (length path) || too_long cwd || is_unrooted cwd path
        then refused
        else written (resolve [] (whole cwd path)))
unfolding normalize_path start_of
normalize_path-resolve cwd path = elim (Bool-cases (is_absolute path)) [
  | inl e ↦ absolute cwd e
  | inr e ↦ relative cwd e
]
  where
    absolute :
        (cwd : Option Text)
        → is_absolute path ≡ true
        → normalize_path cwd (some path) ≡ (
            if leb max_path_length (length path) || too_long cwd || is_unrooted cwd path
            then refused
            else written (resolve [] (whole cwd path)))
    absolute none e = ground (arith, path_consume_part-resolve path [] tt)
    absolute (some []) e = ground (arith, path_consume_part-resolve path [] tt)
    absolute (some (c ∷ cwd)) e = ground (arith, path_consume_part-resolve path [] tt)

    relative :
        (cwd : Option Text)
        → is_absolute path ≡ false
        → normalize_path cwd (some path) ≡ (
            if leb max_path_length (length path) || too_long cwd || is_unrooted cwd path
            then refused
            else written (resolve [] (whole cwd path)))
    relative none e = ground (arith, path_consume_part-resolve path [] tt)
    relative (some []) e = ground (arith, path_consume_part-resolve path [] tt)
    relative (some (c ∷ cwd)) e = ground (arith, from_cwd (c ∷ cwd) path)

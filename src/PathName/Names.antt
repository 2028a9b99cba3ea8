-- ===== src/PathName/Names.antt =====
-- What a path means: the names between its slashes, and the stack of names that they lead to.
use sysu_os.Base.{
  Text, ◌<◌, ◌==◌, leb, ◌≡◌, refl, sym, ap, ◌∙◌, Bool, true, false, not, ◌&&◌, if◌then◌else◌,
  Bool-cases, inl, inr, Option, none, some, List, [], ◌∷◌, ◌++◌, length, take, drop, arith,
}
use mathlib.Core.List.{append-nil, append_assoc}
use sysu_os.PathName.{
  Made, made, refused, max_path_length, slash, dot, dot_dot, root, skip_slashes, component_length,
}

abbrev pub emit : Text → List Text → List Text
emit [] names = names
emit (c ∷ name) names = (c ∷ name) ∷ names

-- the names of a path, of which `name` is what the first one begins with
abbrev pub names_from : Text → Text → List Text
names_from name [] = emit name []
names_from name (c ∷ path) =
    if c == slash then emit name (names_from [] path) else names_from (name ++ (c ∷ [])) path

abbrev pub names : Text → List Text
names = names_from []

abbrev pub equal_texts : Text → Text → Bool
equal_texts [] [] = true
equal_texts [] (d ∷ t) = false
equal_texts (c ∷ s) [] = false
equal_texts (c ∷ s) (d ∷ t) = (c == d) && equal_texts s t

-- A directory is the stack of the names that lead to it, the last one on top.
abbrev pub render : List Text → Text
render [] = []
render (name ∷ up) = render up ++ (slash ∷ name)

abbrev pub text : List Text → Text
text [] = root
text (name ∷ up) = render (name ∷ up)

abbrev pub parent : List Text → List Text
parent [] = []
parent (name ∷ up) = up

abbrev pub step : List Text → Text → Option (List Text)
step up name =
    if equal_texts name dot
    then some up
    else if equal_texts name dot_dot
    then some (parent up)
    else if leb max_path_length (length (render (name ∷ up)))
    then none
    else some (name ∷ up)

abbrev pub and_then : Option (List Text) → (List Text → Option (List Text)) → Option (List Text)
and_then none f = none
and_then (some up) f = f up

abbrev pub resolve : List Text → List Text → Option (List Text)
resolve up [] = some up
resolve up (name ∷ path) = and_then (step up name) (λ next. resolve next path)

abbrev pub written : Option (List Text) → Made
written none = refused
written (some up) = made (text up)

abbrev pub no_slash : Text → Bool
no_slash [] = true
no_slash (c ∷ t) = not (c == slash) && no_slash t

-- every name is one that can stand between two slashes
abbrev pub Good : List Text → Type 0
Good [] = Unit {0}
Good (name ∷ up) = (no_slash name ≡ true) × (0 < length name) × Good up

pub no_slash-append : (s t : Text) → no_slash (s ++ t) ≡ (no_slash s && no_slash t)
no_slash-append [] t = refl
no_slash-append (c ∷ s) t = ground (arith, no_slash-append s t)

pub Good-emit : (t : Text) (ns : List Text) → no_slash t ≡ true → Good ns → Good (emit t ns)
Good-emit [] ns h g = g
Good-emit (c ∷ t) ns h g = (h, omega arith, g)

pub Good-names_from : (t path : Text) → no_slash t ≡ true → Good (names_from t path)
Good-names_from t [] h = Good-emit t [] h tt
Good-names_from t (c ∷ path) h = elim (Bool-cases (c == slash)) [
  | inl e ↦ rw e (Good-emit t (names_from [] path) h (Good-names_from [] path refl))
  | inr ne ↦
      rw ne (Good-names_from (t ++ (c ∷ [])) path (ground (arith, no_slash-append t (c ∷ []))))
]

pub names-skip_slashes : (path : Text) → names (skip_slashes path) ≡ names path
unfolding skip_slashes
names-skip_slashes [] = refl
names-skip_slashes (c ∷ path) = elim (Bool-cases (c == slash)) [
  | inl e ↦ rw e (names-skip_slashes path)
  | inr ne ↦ rw (ne, ne) refl
]

-- The names of a path are its first component and the names of the rest.
pub names_from-component :
    (t path : Text)
    → names_from t path
      ≡ emit (t ++ take (component_length path) path) (names (drop (component_length path) path))
unfolding component_length
names_from-component t [] = ap (λ s. emit s []) (sym (append-nil t))
names_from-component t (c ∷ path) = elim (Bool-cases (c == slash)) [
  | inl e ↦ rw (e, append-nil t, e) refl
  | inr ne ↦ rw ne (
      names_from-component (t ++ (c ∷ [])) path
      ∙ ap (λ s. emit s (names (drop (component_length path) path)))
          (append_assoc t (c ∷ []) (take (component_length path) path)))
]

-- ===== src/PathName/Canonical.antt =====
-- Canonical directories: what `normalizePath` writes, read again.
use sysu_os.Base.{
  Text, ◌<◌, ◌==◌, leb, ◌≡◌, refl, sym, ap, subst, ◌∙◌, true, false, Bool-cases, Option-cases, inl,
  inr, Option, none, some, List, [], ◌∷◌, ◌++◌, length, arith,
}
use mathlib.Core.List.{append-nil, append_assoc}
use sysu_os.PathName.{
  made, max_path_length, slash, dot, dot_dot, normalize_path, too_long, is_absolute,
}
use sysu_os.PathName.Names.{
  equal_texts, render, text, parent, step, no_slash, Good, Good-names_from, resolve, names,
  names_from, emit,
}
use sysu_os.PathName.Normalize.{
  Good-resolve, resolve-append, whole, cwd_names, is_unrooted, normalize_path-resolve,
}

-- no name is `.` or `..`, and the text of the directory and of those above it fits
abbrev pub Canonical : List Text → Type 0
Canonical [] = Unit {0}
Canonical (name ∷ up) =
    (equal_texts name dot ≡ false)
    × (equal_texts name dot_dot ≡ false)
    × (leb max_path_length (length (render (name ∷ up))) ≡ false)
    × Canonical up

Canonical-parent : (up : List Text) → Canonical up → Canonical (parent up)
Canonical-parent [] c = tt
Canonical-parent (n ∷ up) c = c.3

Canonical-step :
    (up : List Text) (name : Text) (next : List Text)
    → Canonical up
    → step up name ≡ some next
    → Canonical next
Canonical-step up name next c e = elim (Bool-cases (equal_texts name dot)) [
  | inl is_dot ↦ subst Canonical {x = up} (ground arith) c
  | inr not_dot ↦ elim (Bool-cases (equal_texts name dot_dot)) [
    | inl up_one ↦ subst Canonical {x = parent up} (ground arith) (Canonical-parent up c)
    | inr other ↦ subst Canonical {x = name ∷ up} (ground arith) (not_dot, other, ground arith, c)
  ]
]

pub Canonical-resolve :
    (up path up' : List Text) → Canonical up → resolve up path ≡ some up' → Canonical up'
Canonical-resolve up [] up' c e = subst Canonical {x = up} (ground arith) c
Canonical-resolve up (name ∷ path) up' c e = elim (Option-cases (step up name)) [
  | inl none_made ↦ absurd (ground arith)
  | inr (next, made_next) ↦
      Canonical-resolve next path up' (Canonical-step up name next c made_next) (rw made_next at e)
]

-- the names of a directory from the root on
abbrev pub path_of : List Text → List Text
path_of [] = []
path_of (name ∷ up) = path_of up ++ (name ∷ [])

resolve-path_of : (up : List Text) → Canonical up → resolve [] (path_of up) ≡ some up
resolve-path_of [] c = refl
resolve-path_of (name ∷ up) c =
    rw (resolve-append [] (path_of up) (name ∷ []), resolve-path_of up c.3)
      (rw (c.0, c.1, c.2) refl)

emit-append : (t : Text) (a b : List Text) → emit t a ++ b ≡ emit t (a ++ b)
emit-append [] a b = refl
emit-append (c ∷ t) a b = refl

names_from-append : (t a b : Text) → names_from t (a ++ (slash ∷ b)) ≡ names_from t a ++ names b
names_from-append t [] b = sym (emit-append t [] (names b))
names_from-append t (c ∷ a) b = elim (Bool-cases (c == slash)) [
  | inl e ↦ rw e (ap (emit t) (names_from-append [] a b) ∙ sym (emit-append t (names a) (names b)))
  | inr ne ↦ rw ne (names_from-append (t ++ (c ∷ [])) a b)
]

names_from-no_slash :
    (t name : Text) → no_slash name ≡ true → names_from t name ≡ emit (t ++ name) []
names_from-no_slash t [] h = ap (λ s. emit s []) (sym (append-nil t))
names_from-no_slash t (c ∷ name) h =
    let other : (c == slash) ≡ false = ground arith in
    rw other (
      names_from-no_slash (t ++ (c ∷ [])) name (ground arith)
      ∙ ap (λ s. emit s []) (append_assoc t (c ∷ []) name))

names_of_one : (name : Text) → no_slash name ≡ true → 0 < length name → names name ≡ name ∷ []
names_of_one [] h l = absurd (omega arith)
names_of_one (c ∷ name) h l = names_from-no_slash [] (c ∷ name) h

names-render : (up : List Text) → Good up → names (render up) ≡ path_of up
names-render [] g = refl
names-render (name ∷ up) g =
    names_from-append [] (render up) name ∙ rw (names-render up g.2, names_of_one name g.0 g.1) refl

pub names-text : (up : List Text) → Good up → names (text up) ≡ path_of up
names-text [] g = refl
names-text (name ∷ up) g = names-render (name ∷ up) g

is_absolute-text : (up : List Text) → is_absolute (text up) ≡ true
is_absolute-text [] = refl
is_absolute-text (name ∷ []) = refl
is_absolute-text (name ∷ n ∷ up) =
    first (render (n ∷ up)) (slash ∷ name) (is_absolute-text (n ∷ up))
  where
    first : (s t : Text) → is_absolute s ≡ true → is_absolute (s ++ t) ≡ true
    first [] t h = ground arith
    first (c ∷ s) t h = h

length-text : (up : List Text) → Canonical up → leb max_path_length (length (text up)) ≡ false
length-text [] c = refl
length-text (name ∷ up) c = c.2

pub Good-whole : (cwd : Option Text) (path : Text) → Good (whole cwd path)
Good-whole cwd path = elim (Bool-cases (is_absolute path)) [
  | inl e ↦ rw e (Good-names_from [] path refl)
  | inr e ↦
      rw e (Good-append (cwd_names cwd) (names path) (of_cwd cwd) (Good-names_from [] path refl))
]
  where
    Good-append : (a b : List Text) → Good a → Good b → Good (a ++ b)
    Good-append [] b g h = h
    Good-append (n ∷ a) b g h = (g.0, g.1, Good-append a b g.2 h)

    of_cwd : (cwd : Option Text) → Good (cwd_names cwd)
    of_cwd none = tt
    of_cwd (some cwd) = Good-names_from [] cwd refl

-- a successful result is the text of a good and canonical directory
pub normalize_path-inv :
    (cwd : Option Text) (path out : Text)
    → normalize_path cwd (some path) ≡ made out
    → (up : List Text) × (out ≡ text up) × Good up × Canonical up
normalize_path-inv cwd path out e = elim (Option-cases (resolve [] (whole cwd path))) [
  | inl refused_it ↦ absurd (ground (arith, normalize_path-resolve cwd path))
  | inr (up, found) ↦ (
    up,
    ground (arith, normalize_path-resolve cwd path),
    Good-resolve [] (whole cwd path) up tt (Good-whole cwd path) found,
    Canonical-resolve [] (whole cwd path) up tt found,
  )
]

normalize_path-text :
    (cwd : Option Text) (up : List Text)
    → too_long cwd ≡ false
    → Good up
    → Canonical up
    → normalize_path cwd (some (text up)) ≡ made (text up)
normalize_path-text cwd up short g c =
    let abs = is_absolute-text up in
    normalize_path-resolve cwd (text up)
    ∙ rw (length-text up c, short, rooted cwd abs, abs, names-text up g, resolve-path_of up c) refl
  where
    rooted : (cwd : Option Text) → is_absolute (text up) ≡ true → is_unrooted cwd (text up) ≡ false
    rooted none e = refl
    rooted (some []) e = refl
    rooted (some (c ∷ cwd)) e = ground arith

-- What `normalizePath` writes it leaves as it is, in every directory of less than 256 bytes.
pub normalize_path_fixed :
    (cwd cwd' : Option Text) (path out : Text)
    → normalize_path cwd (some path) ≡ made out
    → too_long cwd' ≡ false
    → normalize_path cwd' (some out) ≡ made out
normalize_path_fixed cwd cwd' path out e short =
    let (up, is_text, g, c) = normalize_path-inv cwd path out e in
    subst (λ t. normalize_path cwd' (some t) ≡ made t) (sym is_text)
      (normalize_path-text cwd' up short g c)

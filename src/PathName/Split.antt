-- ===== src/PathName/Split.antt =====
-- `splitPath` on the text of a directory.
use sysu_os.Base.{
  Text, ℕ, zero, suc, ◌+◌, ◌-◌, ◌≤◌, ◌==◌, leb, ◌≡◌, refl, sym, ap, ◌∙◌, Bool, true, false, ◌||◌,
  if◌then◌else◌, Option-cases, inl, inr, Option, none, some, List, [], ◌∷◌, ◌++◌, length, get_or,
  take, drop, arith, length-append, get_or-append, take-append, drop-append,
}
use mathlib.Core.List.{append_assoc}
use sysu_os.PathName.{
  made, refused, split_made, max_path_length, slash, root, too_long, split_path, split_normalized,
  last_slash,
}
use sysu_os.PathName.Names.{render, text, no_slash, Good, resolve}
use sysu_os.PathName.Pop.{no_slash_at}
use sysu_os.PathName.Normalize.{Good-resolve, whole, is_unrooted, normalize_path-resolve}
use sysu_os.PathName.Canonical.{Canonical, Canonical-resolve, Good-whole}

last_slash-slash :
    (xs name : Text) (k m : ℕ)
    → no_slash name ≡ true
    → k ≤ length name
    → m ≡ length xs + k
    → last_slash m (xs ++ (slash ∷ name)) ≡ length xs
unfolding last_slash
last_slash-slash xs name k zero h l e = omega arith
last_slash-slash xs name zero (suc m) h l e =
    let here : suc m ≡ length xs + 0 = omega arith in
    rw (here, get_or-append xs (slash ∷ name) 0 0) (omega arith)
last_slash-slash xs name (suc k) (suc m) h l e =
    let other : (get_or (xs ++ (slash ∷ name)) (suc m) 0 == slash) ≡ false =
      rw (e, get_or-append xs (slash ∷ name) (suc k) 0) (no_slash_at name k h (omega arith)) in
    rw other (last_slash-slash xs name k m h (omega arith) (omega arith))

take_all : (t : Text) → take (length t) t ≡ t
take_all [] = refl
take_all (c ∷ t) = ap (c ∷◌) (take_all t)

drop_past : (xs name : Text) → drop (length xs + 1) (xs ++ (slash ∷ name)) ≡ name
drop_past xs name =
    let size : length xs + 1 ≡ length (xs ++ root) = omega (arith, length-append xs root) in
    rw (size, sym (append_assoc xs root name)) (drop-append (xs ++ root) name)

-- The text of the directory that holds `name`.
cut_parent :
    (up : List Text) (t : Text)
    → (if length (render up) == 0 then root else take (length (render up)) (render up ++ t))
      ≡ text up
cut_parent [] t = refl
cut_parent (n ∷ up) t =
    let long : (length (render up ++ (slash ∷ n)) == 0) ≡ false =
      ground (arith, length-append (render up) (slash ∷ n)) in
    rw long (take-append (render (n ∷ up)) t)

split_normalized-text :
    (name : Text) (up : List Text)
    → Good (name ∷ up)
    → Canonical (name ∷ up)
    → split_normalized (text (name ∷ up)) ≡ some (text up, name)
unfolding split_normalized
split_normalized-text name up g c =
    let size : length (render up ++ (slash ∷ name)) ≡ length (render up) + suc (length name) =
      length-append (render up) (slash ∷ name) in
    let end : length (render up) + suc (length name) - 1 ≡ length (render up) + length name =
      omega arith in
    let rest : length (render up) + suc (length name) - length (render up) - 1 ≡ length name =
      omega arith in
    let big : leb (length (render up) + suc (length name)) 1 ≡ false = ground (arith, g.1) in
    let some_name : (length name == 0) ≡ false = ground (arith, g.1) in
    let fits : leb max_path_length (length name) ≡ false = ground (arith, c.2) in
    let at =
      last_slash-slash (render up) name (length name) (length (render up) + length name) g.0
        (omega arith) refl in
    rw (size, big, end, at, rest, some_name, fits, drop_past (render up) name, take_all name)
      (ap (λ t. some (t, name)) (cut_parent up (slash ∷ name)))

-- the parent directory and the last name of a directory, which the root has not
abbrev pub split_of : Option (List Text) → Option (Text × Text)
split_of none = none
split_of (some []) = none
split_of (some (name ∷ up)) = some (text up, name)

split_made-text :
    (up : List Text)
    → Good up
    → Canonical up
    → (bad : Bool)
    → split_made (if bad then refused else made (text up))
      ≡ (if bad then none else split_of (some up))
unfolding split_normalized
split_made-text up g c true = refl
split_made-text [] g c false = refl
split_made-text (name ∷ up) g c false = split_normalized-text name up g c

-- `splitPath` is -1 where `normalizePath` refuses the path or the path leads to the root; else it
-- writes the text of the parent directory and the last name of the directory that the path leads to.
pub split_path-resolve :
    (cwd : Option Text) (path : Text)
    → split_path cwd (some path) ≡ (
        if leb max_path_length (length path) || too_long cwd || is_unrooted cwd path
        then none
        else split_of (resolve [] (whole cwd path)))
unfolding split_path
split_path-resolve cwd path =
    ap split_made (normalize_path-resolve cwd path)
    ∙ (elim (Option-cases (resolve [] (whole cwd path))) [
      | inl none_found ↦ rw none_found (ground arith)
      | inr (up, found) ↦ rw found (
          split_made-text up (Good-resolve [] (whole cwd path) up tt (Good-whole cwd path) found)
            (Canonical-resolve [] (whole cwd path) up tt found)
            (leb max_path_length (length path) || too_long cwd || is_unrooted cwd path))
    ])

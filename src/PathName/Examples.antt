-- ===== src/PathName/Examples.antt =====
-- Paths in the directory `/a/b`.
use sysu_os.Base.{Text, ◌≡◌, refl, some, [], ◌∷◌}
use sysu_os.PathName.{made, normalize_path, split_path}
use sysu_os.PathName.Normalize.{normalize_path-resolve}
use sysu_os.PathName.Canonical.{normalize_path_fixed}
use sysu_os.PathName.Split.{split_path-resolve}

-- `/a/b`
abbrev here : Text
here = b'/' ∷ b'a' ∷ b'/' ∷ b'b' ∷ []

-- `..//c/./`
abbrev there : Text
there = b'.' ∷ b'.' ∷ b'/' ∷ b'/' ∷ b'c' ∷ b'/' ∷ b'.' ∷ b'/' ∷ []

-- `/a/c`
abbrev result : Text
result = b'/' ∷ b'a' ∷ b'/' ∷ b'c' ∷ []

normalize_path-resolve_example : normalize_path (some here) (some there) ≡ made result
normalize_path-resolve_example = normalize_path-resolve (some here) there

normalize_path_fixed_example : normalize_path (some there) (some result) ≡ made result
normalize_path_fixed_example =
    normalize_path_fixed (some here) (some there) there result normalize_path-resolve_example refl

split_path-resolve_example :
    split_path (some here) (some there) ≡ some (b'/' ∷ b'a' ∷ [], b'c' ∷ [])
split_path-resolve_example = split_path-resolve (some here) there

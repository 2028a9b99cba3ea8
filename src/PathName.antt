-- ===== src/PathName.antt =====
-- The path functions at the top of src/kernel/fileSys/file_manager.cpp, with `normalizePath` and
-- `splitPath` of `FileManager`. A C string is the list of its bytes before the NUL, a pointer into
-- it the rest of the list from there on; `none` is a null pointer. A -1 of the code is `refused`;
-- `spent` is no result of the code, it marks that the fuel of the loop is used up.
pub mod Names
pub mod Pop
pub mod Normalize
pub mod Canonical
pub mod Split
mod Examples
use sysu_os.Base.{
  ℕ, zero, suc, ◌+◌, ◌-◌, ◌==◌, ltb, leb, Bool, true, false, not, ◌&&◌, ◌||◌, if◌then◌else◌, Option,
  none, some, List, [], ◌∷◌, ◌++◌, length, get_or, take, drop, Text,
}

abbrev pub max_path_length : ℕ
max_path_length = 256

abbrev pub slash : ℕ
slash = b'/'

abbrev pub dot : Text
dot = b'.' ∷ []

abbrev pub dot_dot : Text
dot_dot = b'.' ∷ b'.' ∷ []

abbrev pub root : Text
root = slash ∷ []

pub data Made : Type 0 where
  made : Text → Made
  refused : Made
  spent : Made

infixl 5 ◌>>=◌
abbrev pub ◌>>=◌ : Made → (Text → Made) → Made
made t >>= f = f t
refused >>= f = refused
spent >>= f = spent

pub component_equals : Text → ℕ → Text → Bool
component_equals component len [] = len == 0
component_equals [] len (t ∷ target) = false
component_equals (c ∷ component) zero (t ∷ target) = false
component_equals (c ∷ component) (suc len) (t ∷ target) =
    (c == t) && component_equals component len target

-- `while (len > 1 && out[len - 1] != '/') len--`
pub back_up : ℕ → Text → ℕ
back_up zero out = 0
back_up (suc n) out =
    let rest = back_up n out in
    if ltb 1 (suc n) && not (get_or out n 0 == slash) then rest else suc n

pub path_pop_component : Text → Text
unfolding back_up
path_pop_component out =
    let len = length out in
    if leb len 1
    then root
    else (let end = back_up (if get_or out (len - 1) 0 == slash then len - 1 else len) out in
        if end == 1 then take 1 out else take (end - 1) out)

pub path_append_component : Text → Text → ℕ → Made
unfolding component_equals path_pop_component
path_append_component out component len =
    if len == 0 || component_equals component len dot
    then made out
    else if component_equals component len dot_dot
    then made (path_pop_component out)
    else (let need_slash = not (length out == 1 && get_or out 0 0 == slash) in
        if leb max_path_length (length out + (if need_slash then 1 else 0) + len)
        then refused
        else made ((if need_slash then out ++ root else out) ++ take len component))

pub skip_slashes : Text → Text
skip_slashes [] = []
skip_slashes (c ∷ part) = let rest = skip_slashes part in if c == slash then rest else c ∷ part

-- how far the component at the start of a text reaches
pub component_length : Text → ℕ
component_length [] = 0
component_length (c ∷ part) = let rest = component_length part in if c == slash then 0 else suc rest

pub consume_loop : ℕ → Text → Text → Made
consume_loop zero part out = spent
consume_loop (suc fuel) part out =
    let start = skip_slashes part in
    let len = component_length start in
    let rest = λ (out' : Text). consume_loop fuel (drop len start) out' in
    if length start == 0
    then made out
    else (if leb max_path_length len then refused else path_append_component out start len) >>= rest

pub path_consume_part : Text → Text → Made
unfolding consume_loop
path_consume_part part out = consume_loop (length part + 1) part out

abbrev pub too_long : Option Text → Bool
too_long none = false
too_long (some t) = leb max_path_length (length t)

abbrev pub is_absolute : Text → Bool
is_absolute t = get_or t 0 0 == slash

-- what a relative path is appended to
pub start_of : Option Text → Made
unfolding path_consume_part
start_of none = made root
start_of (some []) = made root
start_of (some (c ∷ cs)) = if not (c == slash) then refused else path_consume_part (c ∷ cs) root

-- `normalizePath(cwd, path, out)` at an `out` that is not null
pub normalize_path : Option Text → Option Text → Made
unfolding path_consume_part start_of
normalize_path cwd none = refused
normalize_path cwd (some path) =
    if leb max_path_length (length path) || too_long cwd
    then refused
    else if is_absolute path
    then path_consume_part path root
    else start_of cwd >>= path_consume_part path

-- `while (slash > 0 && normalized[slash] != '/') slash--`
pub last_slash : ℕ → Text → ℕ
last_slash zero t = 0
last_slash (suc n) t =
    let rest = last_slash n t in if get_or t (suc n) 0 == slash then suc n else rest

-- The parent and the name that `splitPath` makes of a normalized path, or `none` for its -1.
pub split_normalized : Text → Option (Text × Text)
unfolding last_slash
split_normalized normalized =
    let len = length normalized in
    let at = last_slash (len - 1) normalized in
    let name_len = len - at - 1 in
    if leb len 1
    then none
    else if name_len == 0 || leb max_path_length name_len
    then none
    else some
        (if at == 0 then root else take at normalized, take name_len (drop (at + 1) normalized))

abbrev pub split_made : Made → Option (Text × Text)
split_made (made normalized) = split_normalized normalized
split_made refused = none
split_made spent = none

-- `splitPath` of a process whose directory is `cwd`
pub split_path : Option Text → Option Text → Option (Text × Text)
unfolding normalize_path
split_path cwd path = split_made (normalize_path cwd path)

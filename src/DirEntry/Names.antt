-- ===== src/DirEntry/Names.antt =====
-- The short names that an entry of a directory can hold, and the parts that are stored of them.
use sysu_os.Base.{
  ℕ, zero, suc, ◌+◌, ◌-◌, ◌<◌, ◌≤◌, ◌==◌, ltb, leb, min, ◌≡◌, ◌≢◌, refl, sym, ap, ◌∙◌, false, ◌&&◌,
  if◌then◌else◌, arith, Option, none, some, [], ◌∷◌, ◌++◌, Text, get_or, length, drop, ne→==,
}
use sysu_os.FatTable.{Buffer, put}
use sysu_os.DirEntry.{to_lower, to_upper, read_chars, store_chars, last_dot, blank, split_name}

-- a byte of a short name: no NUL, no blank and no capital
abbrev pub IsNameByte : ℕ → Type 0
IsNameByte c = (c ≢ 0) × (c ≢ b' ') × ((leb b'A' c && leb c b'Z') ≡ false)

abbrev pub AreNameBytes : Text → Type 0
AreNameBytes [] = Unit {0}
AreNameBytes (c ∷ s) = IsNameByte c × AreNameBytes s

abbrev pub HasNoDot : Text → Type 0
HasNoDot [] = Unit {0}
HasNoDot (c ∷ s) = ((c == b'.') ≡ false) × HasNoDot s

-- `base`, or `base.ext`
abbrev pub short_name : Text → Text → Text
short_name base [] = base
short_name base (c ∷ ext) = base ++ b'.' ∷ c ∷ ext

pub upper_lem :
    (c : ℕ) → IsNameByte c → (to_lower (to_upper c) ≡ c) × ((to_upper c == b' ') ≡ false)
unfolding to_lower to_upper
upper_lem c h = ground arith

pub get_or-cons :
    (c : ℕ) (s : Text) (k : ℕ) → get_or (c ∷ s) k 0 ≡ (if k == 0 then c else get_or s (k - 1) 0)
get_or-cons c s zero = refl
get_or-cons c s (suc k) = let e : suc k - 1 ≡ k = omega arith in rw e (ground arith)

-- What is stored of a text, and what stays behind it.
pub store_chars_lem :
    (n : ℕ) (src : Text) (i : ℕ) (out : Buffer)
    → AreNameBytes src
    → length src ≤ n
    → (o : ℕ)
    → store_chars n src i out o
      ≡ (if leb i o && ltb o (i + length src) then to_upper (get_or src (o - i) 0) else out o)
unfolding store_chars
store_chars_lem zero [] i out names fits o = ground arith
store_chars_lem (suc n) [] i out names fits o = ground arith
store_chars_lem (suc n) (c ∷ src) i out names fits o =
    let no_nul = ne→== c 0 names.0.0 in
    let later : o - i - 1 ≡ o - suc i = omega arith in
    let rest = store_chars_lem n src (suc i) (put out i (to_upper c)) names.1 (omega arith) o in
    rw (no_nul, rest, get_or-cons c src (o - i), later) (ground arith)
store_chars_lem zero (c ∷ src) i out names fits o = absurd (omega arith)

-- Reading what was stored gives the text back.
pub read_chars-stored :
    (n : ℕ) (src : Text) (b : Buffer) (i : ℕ)
    → AreNameBytes src
    → length src ≤ n
    → ((k : ℕ)
        → k < n
        → b (i + k) ≡ (if ltb k (length src) then to_upper (get_or src k 0) else b' '))
    → read_chars n b i ≡ src
unfolding read_chars
read_chars-stored zero [] b i names fits stored = refl
read_chars-stored zero (c ∷ src) b i names fits stored = absurd (omega arith)
read_chars-stored (suc n) [] b i names fits stored =
    let e : i + 0 ≡ i = omega arith in
    let behind : b i ≡ b' ' = sym (ap b e) ∙ stored 0 (omega arith) ∙ ground arith in rw behind refl
read_chars-stored (suc n) (c ∷ src) b i names fits stored =
    let e : i + 0 ≡ i = omega arith in
    let here : b i ≡ to_upper c = sym (ap b e) ∙ stored 0 (omega arith) ∙ ground arith in
    let (lower, no_blank) = upper_lem c names.0 in
    rw (here, no_blank, lower)
      (ap (c ∷◌) (
        read_chars-stored n src b (suc i) names.1 (omega arith) (λ k less.
          let next : suc i + k ≡ i + suc k = omega arith in
          ap b next ∙ stored (suc k) (omega arith) ∙ ground arith)))

-- A text with no dot leaves the place of the last dot as it is.
last_dot-no_dot :
    (n : ℕ) (s : Text) (i : ℕ) (dot : Option ℕ)
    → AreNameBytes s
    → HasNoDot s
    → last_dot n s i dot ≡ dot
unfolding last_dot
last_dot-no_dot zero [] i dot names none_in = refl
last_dot-no_dot zero (c ∷ s) i dot names none_in = refl
last_dot-no_dot (suc n) [] i dot names none_in = refl
last_dot-no_dot (suc n) (c ∷ s) i dot names none_in =
    rw (ne→== c 0 names.0.0, none_in.0) (last_dot-no_dot n s (suc i) dot names.1 none_in.1)

last_dot-name :
    (n : ℕ) (base ext : Text) (i : ℕ) (dot : Option ℕ)
    → AreNameBytes base
    → AreNameBytes ext
    → HasNoDot ext
    → length base < n
    → last_dot n (base ++ b'.' ∷ ext) i dot ≡ some (i + length base)
unfolding last_dot
last_dot-name zero base ext i dot names names' none_in fits = absurd (omega arith)
last_dot-name (suc n) [] ext i dot names names' none_in fits =
    let e : i + 0 ≡ i = omega arith in rw e (last_dot-no_dot n ext (suc i) (some i) names' none_in)
last_dot-name (suc n) (c ∷ base) ext i dot names names' none_in fits =
    let e : suc i + length base ≡ i + suc (length base) = omega arith in
    let dot' = if c == b'.' then some i else dot in
    rw (ne→== c 0 names.0.0)
      (last_dot-name n base ext (suc i) dot' names.1 names' none_in (omega arith) ∙ ap some e)

-- Only the first bytes of a text are stored.
store_chars-append :
    (base rest : Text) (i : ℕ) (out : Buffer)
    → store_chars (length base) (base ++ rest) i out ≡ store_chars (length base) base i out
unfolding store_chars
store_chars-append [] rest i out = refl
store_chars-append (c ∷ base) rest i out =
    rw (store_chars-append base rest (suc i) (put out i (to_upper c))) refl

store_chars-fits :
    (n : ℕ) (s : Text) (i : ℕ) (out : Buffer)
    → length s ≤ n
    → store_chars n s i out ≡ store_chars (length s) s i out
unfolding store_chars
store_chars-fits zero [] i out fits = refl
store_chars-fits (suc n) [] i out fits = refl
store_chars-fits zero (c ∷ s) i out fits = absurd (omega arith)
store_chars-fits (suc n) (c ∷ s) i out fits =
    rw (store_chars-fits n s (suc i) (put out i (to_upper c)) (omega arith)) refl

drop-dot : (base ext : Text) (c : ℕ) → drop (length base + 1) (base ++ c ∷ ext) ≡ ext
drop-dot [] ext c = refl
drop-dot (d ∷ base) ext c =
    let e : suc (length base) + 1 ≡ suc (length base + 1) = omega arith in
    rw e (drop-dot base ext c)

-- the two parts of a short name, as they are stored
pub split_name-short :
    (base ext : Text)
    → AreNameBytes base
    → AreNameBytes ext
    → length base ≤ 8
    → HasNoDot ext
    → (ext ≡ [] → HasNoDot base)
    → split_name (short_name base ext) (last_dot 256 (short_name base ext) 0 none)
      ≡ (store_chars 8 base 0 blank, store_chars 3 ext 0 blank)
unfolding store_chars
split_name-short base [] names names' fits none_in only =
    rw (last_dot-no_dot 256 base 0 none names (only refl)) refl
split_name-short base (c ∷ ext) names names' fits none_in only =
    let none_else : 0 + length base ≡ length base = omega arith in
    let small : min 8 (length base) ≡ length base = omega arith in
    rw
      (
        last_dot-name 256 base (c ∷ ext) 0 none names names' none_in (omega arith),
        none_else,
        small,
        drop-dot base (c ∷ ext) b'.',
        store_chars-append base (b'.' ∷ c ∷ ext) 0 blank,
        store_chars-fits 8 base 0 blank fits,
      )
      refl

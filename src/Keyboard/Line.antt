-- ===== src/Keyboard/Line.antt =====
-- `read` edits a line: characters pile up, a backspace takes the last one away, a newline or a
-- full line ends the call.
use sysu_os.Base.{
  ℕ, zero, suc, ◌+◌, ◌-◌, ◌<◌, ◌≤◌, ◌≡◌, refl, sym, ap, ap₂, ◌∙◌, ◌==◌, ltb, true, false,
  if◌then◌else◌, Option, none, some, List, [], ◌∷◌, length, arith, Bool-cases, inl, inr,
}
use sysu_os.Keyboard.{
  KeyboardManager, store, pop, Reading, returned, waiting, invalid, out_of_fuel, read_loop, read,
}
use sysu_os.Keyboard.Ring.{IsRing, contents, contents-pop, pop-cases}

-- Lines are stacks here, the last character first.
pub data Line : Type 0 where
  ended : (line rest : List ℕ) → Line
  open_line : (line rest : List ℕ) → Line

abbrev pub erase_last : List ℕ → List ℕ
erase_last [] = []
erase_last (c ∷ line) = line

-- what the characters `q` make of a line that holds `line` and has room for `size`
unfoldable pub edit : ℕ → List ℕ → List ℕ → Line
edit size line [] = if ltb (length line) size then open_line line [] else ended line []
edit size line (c ∷ q) =
    let rest = edit size (if c == 8 then erase_last line else c ∷ line) q in
    if ltb (length line) size
    then (if c == 10 then ended (c ∷ line) q else rest)
    else ended line (c ∷ q)

-- the first `n` cells of the caller's buffer, the last first
abbrev pub typed : (ℕ → ℕ) → ℕ → List ℕ
typed buf zero = []
typed buf (suc n) = buf n ∷ typed buf n

abbrev pub outcome : Reading → Option Line
outcome (returned n buf k) = some (ended (typed buf n) (contents k))
outcome (waiting n buf k) = some (open_line (typed buf n) (contents k))
outcome invalid = none
outcome out_of_fuel = none

length-typed : (buf : ℕ → ℕ) (n : ℕ) → length (typed buf n) ≡ n
length-typed buf zero = refl
length-typed buf (suc n) = ap suc (length-typed buf n)

typed-store : (buf : ℕ → ℕ) (n i c : ℕ) → n ≤ i → typed (store buf i c) n ≡ typed buf n
typed-store buf zero i c h = refl
typed-store buf (suc n) i c h = ap₂ ◌∷◌ (ground arith) (typed-store buf n i c (omega arith))

typed-put : (buf : ℕ → ℕ) (n c : ℕ) → typed (store buf n c) (n + 1) ≡ c ∷ typed buf n
typed-put buf n c =
    ap (typed (store buf n c)) at ∙ ap₂ ◌∷◌ (ground arith) (typed-store buf n n c (omega arith))
  where
    at : n + 1 ≡ suc n
    at = omega arith

typed-erase : (buf : ℕ → ℕ) (n : ℕ) → typed buf (n - 1) ≡ erase_last (typed buf n)
typed-erase buf zero = refl
typed-erase buf (suc n) = ap (typed buf) (omega arith)

edit-full :
    (size : ℕ) (line q : List ℕ)
    → ltb (length line) size ≡ false
    → some (edit size line q) ≡ some (ended line q)
unfolding edit
edit-full size line [] h = rw h
edit-full size line (c ∷ q) h = rw h

-- When the characters at hand are used up or the call ends, the caller's buffer, the count and what
-- is left in the driver are those of `edit`; the fuel is enough whenever it exceeds the count.
pub read_loop-edit :
    (fuel size n : ℕ) (buf : ℕ → ℕ) (k : KeyboardManager)
    → IsRing k
    → k.count < fuel
    → outcome (read_loop fuel size n buf k) ≡ some (edit size (typed buf n) (contents k))
unfolding read_loop edit
read_loop-edit zero size n buf k v enough = absurd (omega arith)
read_loop-edit (suc fuel) size n buf k v enough = elim (Bool-cases (ltb n size)) [
  | inl room ↦
      let room' : ltb (length (typed buf n)) size ≡ true = rw (length-typed buf n) room in
      elim (pop-cases k v) [
        | inl (empty, nothing, still) ↦ ground (arith, ap (edit size (typed buf n)) empty)
        | inr (c, queue, got, less) ↦
            let ih = λ (m : ℕ) (b : ℕ → ℕ).
              read_loop-edit fuel size m b (pop k).1 (contents-pop k v).0 (omega arith) in
            ground (
              arith,
              ap (edit size (typed buf n)) queue,
              ih (n - 1) buf,
              ih (n + 1) (store buf n c),
              typed-erase buf n,
              typed-put buf n c,
            )
      ]
  | inr full ↦
      let full' : ltb (length (typed buf n)) size ≡ false = rw (length-typed buf n) full in
      rw full (sym (edit-full size (typed buf n) (contents k) full'))
]

-- `read` on a buffer of positive size never runs out of fuel: it ends, or waits with the buffer of
-- the driver empty, and in both cases the caller's cells hold the line that `edit` makes of the
-- characters in the driver.
pub read-edit :
    (k : KeyboardManager) (buf : ℕ → ℕ) (size : ℕ)
    → IsRing k
    → 0 < size
    → outcome (read k buf size) ≡ some (edit size [] (contents k))
unfolding read
read-edit k buf size v positive =
    ground (arith, read_loop-edit (k.count + 1) size 0 buf k v (omega arith))

-- ===== src/Keyboard/Ring.antt =====
-- The circular buffer of the driver holds a bounded queue: characters leave it in the order in
-- which they came, and those that find it full are dropped.
use sysu_os.Base.{
  ℕ, zero, suc, ◌+◌, ◌-◌, ◌%◌, ◌<◌, ◌≤◌, ◌≡◌, ◌≢◌, ◌⊎◌, refl, ap, ap₂, ◌==◌, ltb, leb, Bool,
  if◌then◌else◌, Option, none, some, List, [], ◌∷◌, ◌++◌, length, arith, ◌||◌, Bool-cases, inl, inr,
}
use sysu_os.Keyboard.{
  KeyboardManager, keyboard_buffer_size, store, push, pop, initialize, handle_scancode, decode,
}

pub record IsRing (k : KeyboardManager) : Type 0 where
  pub head_in : k.head < keyboard_buffer_size
  pub count_in : k.count ≤ keyboard_buffer_size
  pub tail_at : k.tail ≡ (k.head + k.count) % keyboard_buffer_size

-- the `n` characters from index `h` on, going round
abbrev pub window : (ℕ → ℕ) → ℕ → ℕ → List ℕ
window buf h zero = []
window buf h (suc n) = buf h ∷ window buf ((h + 1) % 256) n

abbrev pub contents : KeyboardManager → List ℕ
contents k = window k.buffer k.head k.count

length-window : (buf : ℕ → ℕ) (h n : ℕ) → length (window buf h n) ≡ n
length-window buf h zero = refl
length-window buf h (suc n) = ap suc (length-window buf ((h + 1) % 256) n)

window-store :
    (buf : ℕ → ℕ) (n h i c : ℕ)
    → h < 256
    → n < 256
    → i ≡ (h + n) % 256
    → window (store buf i c) h (suc n) ≡ window buf h n ++ (c ∷ [])
window-store buf zero h i c hh hn e = ground arith
window-store buf (suc n) h i c hh hn e =
    ap₂ ◌∷◌ (ground arith)
      (window-store buf n ((h + 1) % 256) i c (omega arith) (omega arith) (omega arith))

-- `push` appends the character, or leaves a full buffer as it is.
pub contents-push :
    (k : KeyboardManager) (c : ℕ)
    → IsRing k
    → IsRing (push k c)
      × (contents (push k c)
          ≡ (if ltb k.count keyboard_buffer_size then contents k ++ (c ∷ []) else contents k))
unfolding push
contents-push k c v =
    ground (arith, window-store k.buffer k.count k.head k.tail c, v.head_in, v.tail_at)

window_of_ne_zero :
    (buf : ℕ → ℕ) (h n : ℕ) → n ≢ 0 → window buf h n ≡ buf h ∷ window buf ((h + 1) % 256) (n - 1)
window_of_ne_zero buf h zero p = absurd (p refl)
window_of_ne_zero buf h (suc n) p = ap (λ k. window buf h (suc k)) (omega arith)

-- the queue that `pop` takes the oldest entry of
abbrev pub front : List ℕ → Option ℕ × List ℕ
front [] = (none, [])
front (c ∷ q) = (some c, q)

-- `pop` takes the oldest character, and answers `none` on the empty buffer only.
pub contents-pop :
    (k : KeyboardManager)
    → IsRing k
    → IsRing (pop k).1 × (((pop k).0, contents (pop k).1) ≡ front (contents k))
unfolding pop
contents-pop k v = ground (arith, window_of_ne_zero k.buffer k.head k.count, v.head_in, v.tail_at)

pub initialize-IsRing : (buf : ℕ → ℕ) → IsRing (initialize buf) × (contents (initialize buf) ≡ [])
unfolding initialize
initialize-IsRing buf = (omega arith, refl)

-- the code under which a scancode stands in the key maps
abbrev pub is_shift : ℕ → Bool
is_shift code = code == 0x2a || code == 0x36

-- Every scancode keeps the buffer well formed; a release never adds a character, a press adds the
-- character of its key under the shift state at hand, and only a shift key changes that state.
pub handle_scancode_lem :
    (k : KeyboardManager) (s : ℕ)
    → s < 256
    → IsRing k
    → let k' = handle_scancode k s in
      IsRing k'
      × (contents k' ≡ (
          if is_shift (s % 128)
            || leb 128 s
            || decode k (s % 128) == 0
            || leb keyboard_buffer_size k.count
          then contents k
          else contents k ++ (decode k (s % 128) ∷ [])))
      × (k'.shift ≡ (if is_shift (s % 128) then ltb s 128 else k.shift))
unfolding handle_scancode push
handle_scancode_lem k s h v = ground (arith, contents-push k (decode k (s % 128)) v)

-- The two cases of `pop`.
pub pop-cases :
    (k : KeyboardManager)
    → IsRing k
    → ((contents k ≡ []) × ((pop k).0 ≡ none) × (contents (pop k).1 ≡ []))
      ⊎ ((c : ℕ) × (contents k ≡ c ∷ contents (pop k).1)
          × ((pop k).0 ≡ some c)
          × ((pop k).1.count < k.count))
unfolding pop
pop-cases k v = elim (Bool-cases (k.count == 0)) [
  | inl e ↦ inl (ground arith, rw e, ground arith)
  | inr ne ↦ inr (
    k.buffer k.head,
    ground (arith, window_of_ne_zero k.buffer k.head k.count),
    rw ne,
    ground arith,
  )
]

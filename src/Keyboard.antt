-- ===== src/Keyboard.antt =====
-- src/kernel/keyboard.cpp: the keyboard driver. A scancode of the interrupt handler goes through
-- two key maps into a circular buffer, from which `read` builds a line. Characters and scancodes
-- are byte values. `pop` returns what goes through `*c`, or `none` for its `false`.
pub mod Ring
pub mod Line
mod Examples
use sysu_os.Base.{
  ℕ, zero, suc, ◌+◌, ◌-◌, ◌%◌, ◌/◌, ◌==◌, ltb, leb, Bool, true, false, not, ◌||◌, if◌then◌else◌,
  Option, none, some, List, [], ◌∷◌, get_or,
}

abbrev pub keyboard_buffer_size : ℕ
keyboard_buffer_size = 256

pub record KeyboardManager : Type 0 where
  pub buffer : ℕ → ℕ
  pub head : ℕ
  pub tail : ℕ
  pub count : ℕ
  pub shift : Bool

abbrev keymap : List ℕ
keymap =
    0 ∷ 0 ∷ b'1' ∷ b'2' ∷ b'3' ∷ b'4' ∷ b'5' ∷ b'6' ∷ b'7' ∷ b'8' ∷ b'9' ∷ b'0' ∷ b'-' ∷ b'=' ∷ 8
    ∷ 9 ∷ b'q' ∷ b'w' ∷ b'e' ∷ b'r' ∷ b't' ∷ b'y' ∷ b'u' ∷ b'i' ∷ b'o' ∷ b'p' ∷ b'[' ∷ b']' ∷ 10 ∷ 0
    ∷ b'a' ∷ b's' ∷ b'd' ∷ b'f' ∷ b'g' ∷ b'h' ∷ b'j' ∷ b'k' ∷ b'l' ∷ b';' ∷ 39 ∷ b'`' ∷ 0 ∷ 92
    ∷ b'z' ∷ b'x' ∷ b'c' ∷ b'v' ∷ b'b' ∷ b'n' ∷ b'm' ∷ b',' ∷ b'.' ∷ b'/' ∷ 0 ∷ b'*' ∷ 0 ∷ 32 ∷ []

abbrev shift_keymap : List ℕ
shift_keymap =
    0 ∷ 0 ∷ b'!' ∷ b'@' ∷ b'#' ∷ b'$' ∷ b'%' ∷ b'^' ∷ b'&' ∷ b'*' ∷ b'(' ∷ b')' ∷ b'_' ∷ b'+' ∷ 8
    ∷ 9 ∷ b'Q' ∷ b'W' ∷ b'E' ∷ b'R' ∷ b'T' ∷ b'Y' ∷ b'U' ∷ b'I' ∷ b'O' ∷ b'P' ∷ b'{' ∷ b'}' ∷ 10 ∷ 0
    ∷ b'A' ∷ b'S' ∷ b'D' ∷ b'F' ∷ b'G' ∷ b'H' ∷ b'J' ∷ b'K' ∷ b'L' ∷ b':' ∷ b'"' ∷ b'~' ∷ 0 ∷ b'|'
    ∷ b'Z' ∷ b'X' ∷ b'C' ∷ b'V' ∷ b'B' ∷ b'N' ∷ b'M' ∷ b'<' ∷ b'>' ∷ b'?' ∷ 0 ∷ b'*' ∷ 0 ∷ 32 ∷ []

pub initialize : (ℕ → ℕ) → KeyboardManager
initialize buffer = record { buffer = buffer; head = 0; tail = 0; count = 0; shift = false }

abbrev pub store : (ℕ → ℕ) → ℕ → ℕ → ℕ → ℕ
store f i v j = if i == j then v else f j

pub push : KeyboardManager → ℕ → KeyboardManager
push k c = if leb keyboard_buffer_size k.count then k else record k {
  buffer = store k.buffer k.tail c;
  tail = (k.tail + 1) % keyboard_buffer_size;
  count = k.count + 1;
}

pub pop : KeyboardManager → Option ℕ × KeyboardManager
pop k = if k.count == 0 then (none, k) else (
  some (k.buffer k.head),
  record k { head = (k.head + 1) % keyboard_buffer_size; count = k.count - 1 },
)

-- The arrays have 128 cells, those behind the listed ones are 0.
pub decode : KeyboardManager → ℕ → ℕ
decode k scancode =
    if leb 128 scancode
    then 0
    else if k.shift
    then get_or shift_keymap scancode 0
    else get_or keymap scancode 0

-- `scancode & 0x80` and `scancode & 0x7f` of a byte
pub handle_scancode : KeyboardManager → ℕ → KeyboardManager
unfolding push decode
handle_scancode k scancode =
    let released = leb 128 scancode in
    let code = scancode % 128 in
    if code == 0x2a || code == 0x36
    then record k { shift = not released }
    else if released
    then k
    else (let c = decode k code in if c == 0 then k else push k c)

-- The loop of `read` up to the moment when the buffer is empty: there the code gives up the
-- processor and tries again, so `waiting` carries all that the next round starts from. `n` cells
-- of `buf` are filled in.
pub data Reading : Type 0 where
  returned : (n : ℕ) (buf : ℕ → ℕ) (k : KeyboardManager) → Reading
  waiting : (n : ℕ) (buf : ℕ → ℕ) (k : KeyboardManager) → Reading
  invalid : Reading
  out_of_fuel : Reading

pub read_loop : ℕ → ℕ → ℕ → (ℕ → ℕ) → KeyboardManager → Reading
read_loop zero size n buf k = out_of_fuel
read_loop (suc fuel) size n buf k =
    let (popped, k') = pop k in
    if ltb n size
    then elim popped [
      | none ↦ waiting n buf k'
      | some c ↦
          let erased = read_loop fuel size (n - 1) buf k' in
          let more = read_loop fuel size (n + 1) (store buf n c) k' in
          if c == 8 then erased else if c == 10 then returned (n + 1) (store buf n c) k' else more
    ]
    else returned n buf k

-- `read(buf, size)` at a buffer that is not null
pub read : KeyboardManager → (ℕ → ℕ) → ℕ → Reading
unfolding read_loop
read k buf size = if size == 0 then invalid else read_loop (k.count + 1) size 0 buf k

-- ===== src/Keyboard/Examples.antt =====
-- The theorems of `Keyboard` while a shifted `H`, a small `i` and a newline are typed.
use sysu_os.Base.{ℕ, ◌≡◌, refl, true, some, arith, if◌then◌else◌, ◌==◌, [], ◌∷◌}
use sysu_os.Keyboard.{KeyboardManager, push, handle_scancode, read}
use sysu_os.Keyboard.Ring.{IsRing, contents}
use sysu_os.Keyboard.Line.{outcome, edit, ended, read-edit}

abbrev empty_cells : ℕ → ℕ
empty_cells i = 0

-- the buffer about to go round its end, `a` in its last cell
abbrev near_end : KeyboardManager
near_end = record {
  buffer = λ i. if i == 255 then b'a' else 0;
  head = 255;
  tail = 0;
  count = 1;
  shift = true;
}

near_end-IsRing : IsRing near_end
near_end-IsRing = omega arith

typing :
    contents (handle_scancode (handle_scancode (handle_scancode near_end 0x23) 0xaa) 0x17)
    ≡ b'a' ∷ b'H' ∷ b'i' ∷ []
unfolding handle_scancode
typing = refl

abbrev full_line : KeyboardManager
full_line = push (push (push near_end 8) b'b') 10

full_line-IsRing : IsRing full_line
unfolding push
full_line-IsRing = omega arith

read-edit_example : outcome (read full_line empty_cells 5) ≡ some (ended (10 ∷ b'b' ∷ []) [])
unfolding push edit
read-edit_example = read-edit full_line empty_cells 5 full_line-IsRing (omega arith)

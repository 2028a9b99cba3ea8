-- ===== src/Bitmap/Examples.antt =====
-- The theorems of `Bitmap` at a map of ten resources, of which 0, 1 and 4 are in use.
use sysu_os.Base.{ℕ, ◌*◌, ◌≡◌, refl, true, false, some, none, arith, if◌then◌else◌, ◌==◌, ◌<◌, ◌≤◌}
use sysu_os.Bitmap.{BitMap, get, allocate, initialize, bit_test}
use sysu_os.Bitmap.Bits.{IsBytes, initialize_lem}
use sysu_os.Bitmap.Allocate.{Allocated, allocate-Allocated}

abbrev partly_used : BitMap
partly_used = record { length = 10; bitmap = λ p. if p == 0 then 0b0001_0011 else 0 }

partly_used-IsBytes : IsBytes partly_used.bitmap
partly_used-IsBytes p = ground arith

allocate_three : (allocate partly_used 3 false).1 ≡ some 5
unfolding allocate get bit_test
allocate_three = refl

allocate_three_reverse : (allocate partly_used 3 true).1 ≡ some 7
unfolding allocate get bit_test
allocate_three_reverse = refl

allocate_six : (allocate partly_used 6 true).1 ≡ none
unfolding allocate get bit_test
allocate_six = refl

initialize_lem_example :
    ((j : ℕ) → j < 10 → get (initialize (λ p. 0xff) 10) j ≡ false)
    × ((p : ℕ) → 10 ≤ 8 * p → (initialize (λ p. 0xff) 10).bitmap p ≡ 0xff)
    × (IsBytes (λ p. 0xff) → IsBytes (initialize (λ p. 0xff) 10).bitmap)
    × ((initialize (λ p. 0xff) 10).length ≡ 10)
initialize_lem_example = initialize_lem (λ p. 0xff) 10

allocate-Allocated_example : Allocated partly_used 3 true (allocate partly_used 3 true)
allocate-Allocated_example = allocate-Allocated partly_used partly_used-IsBytes 3 (omega arith) true

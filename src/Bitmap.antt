-- ===== src/Bitmap.antt =====
-- src/kernel/bitmap.cpp and include/kernel/bitmap.h: a map of `length` resources, a bit each, in
-- the bytes from `bitmap` on. Memory from that address is a function from the byte's offset to
-- its value; an `int` that the code only makes positive is a number, and the `-1` of `allocate`
-- is `none`. A loop runs on fuel that the caller gives; `out_of_fuel` tells an exhausted search
-- from one that found nothing.
pub mod Bits
pub mod Runs
pub mod Forward
pub mod Backward
pub mod Allocate
mod Examples
use sysu_os.Base.{
  ℕ, zero, suc, ◌+◌, ◌-◌, ◌/◌, ◌%◌, ◌^◌, ◌==◌, ltb, Bool, true, false, not, ◌&&◌, if◌then◌else◌,
  Option, none, some, bit_and, bit_or,
}

abbrev pub Memory : Type 0
Memory = ℕ → ℕ

abbrev pub store : Memory → ℕ → ℕ → Memory
store m p v q = if p == q then v else m q

pub record BitMap : Type 0 where
  pub length : ℕ
  pub bitmap : Memory

-- `byte & (1 << offset)`, as a truth value
unfoldable pub bit_test : ℕ → ℕ → Bool
bit_test byte offset = not (bit_and byte (2 ^ offset) == 0)

-- the two writes of `set`: clear the bit, then set it if asked to; `~(1 << offset)` cut to a byte
pub bit_write : ℕ → ℕ → Bool → ℕ
bit_write byte offset status =
    let cleared = bit_and byte (255 - 2 ^ offset) in
    if status then bit_or cleared (2 ^ offset) else cleared

unfoldable pub get : BitMap → ℕ → Bool
get b index = bit_test (b.bitmap (index / 8)) (index % 8)

pub set : BitMap → ℕ → Bool → BitMap
set b index status = record b {
  bitmap = store b.bitmap (index / 8) (bit_write (b.bitmap (index / 8)) (index % 8) status);
}

-- bytes `i` to `i + n - 1` become 0
pub clear_bytes : ℕ → ℕ → Memory → Memory
clear_bytes zero i m = m
clear_bytes (suc n) i m = clear_bytes n (i + 1) (store m i 0)

-- `ceil` of libc/stdlib.cpp, for a positive divisor
pub ceil : ℕ → ℕ → ℕ
ceil dividend divisor = (dividend + divisor - 1) / divisor

pub initialize : Memory → ℕ → BitMap
unfolding ceil clear_bytes
initialize bitmap length = record { length = length; bitmap = clear_bytes (ceil length 8) 0 bitmap }

-- `while (index < length && get(index)) ++index`
pub skip_used : ℕ → BitMap → ℕ → ℕ
skip_used zero b index = index
skip_used (suc fuel) b index =
    let rest = skip_used fuel b (index + 1) in
    if ltb index b.length && get b index then rest else index

-- `while (index < length && !get(index) && empty < count) { ++empty; ++index; }`: both variables
pub count_free : ℕ → BitMap → ℕ → ℕ → ℕ → ℕ × ℕ
count_free zero b count empty index = (empty, index)
count_free (suc fuel) b count empty index =
    let rest = count_free fuel b count (empty + 1) (index + 1) in
    if ltb index b.length && not (get b index) && ltb empty count then rest else (empty, index)

pub data Search : Type 0 where
  found : ℕ → Search
  missing : Search
  out_of_fuel : Search

-- the outer loop of `allocate(count, false)` from `index`
pub search_forward : ℕ → BitMap → ℕ → ℕ → Search
unfolding skip_used count_free
search_forward zero b count index = out_of_fuel
search_forward (suc fuel) b count index =
    let start = skip_used b.length b index in
    let run = count_free count b count 0 start in
    let rest = search_forward fuel b count run.1 in
    if ltb index b.length
    then (if start == b.length then missing else if run.0 == count then found start else rest)
    else missing

-- The reverse loops count `above`, which is `index + 1`: 0 stands for the index -1.
pub skip_used_down : ℕ → BitMap → ℕ → ℕ
skip_used_down zero b above = above
skip_used_down (suc fuel) b above =
    let rest = skip_used_down fuel b (above - 1) in
    if ltb 0 above && get b (above - 1) then rest else above

pub count_free_down : ℕ → BitMap → ℕ → ℕ → ℕ → ℕ × ℕ
count_free_down zero b count empty above = (empty, above)
count_free_down (suc fuel) b count empty above =
    let rest = count_free_down fuel b count (empty + 1) (above - 1) in
    if ltb 0 above && not (get b (above - 1)) && ltb empty count then rest else (empty, above)

-- the outer loop of `allocate(count, true)`: `found` carries `start`, the highest index of the run
pub search_backward : ℕ → BitMap → ℕ → ℕ → Search
unfolding skip_used_down count_free_down
search_backward zero b count above = out_of_fuel
search_backward (suc fuel) b count above =
    let start = skip_used_down b.length b above in
    let run = count_free_down count b count 0 start in
    let rest = search_backward fuel b count run.1 in
    if ltb 0 above
    then (if start == 0 then missing else if run.0 == count then found (start - 1) else rest)
    else missing

-- `for (i = 0; i < count; ++i) set(start + i, status)`
pub set_up : ℕ → BitMap → ℕ → Bool → BitMap
set_up zero b start status = b
set_up (suc n) b start status = set_up n (set b start status) (start + 1) status

-- `for (i = 0; i < count; ++i) set(start - i, true)`
pub set_down : ℕ → BitMap → ℕ → BitMap
set_down zero b start = b
set_down (suc n) b start = set_down n (set b start true) (start - 1)

pub take_up : BitMap → ℕ → Search → BitMap × Option ℕ
unfolding set_up
take_up b count (found start) = (set_up count b start true, some start)
take_up b count missing = (b, none)
take_up b count out_of_fuel = (b, none)

-- `start - count + 1`, added up so that no step falls below 0
pub take_down : BitMap → ℕ → Search → BitMap × Option ℕ
unfolding set_down
take_down b count (found start) = (set_down count b start, some (start + 1 - count))
take_down b count missing = (b, none)
take_down b count out_of_fuel = (b, none)

pub allocate : BitMap → ℕ → Bool → BitMap × Option ℕ
unfolding take_up take_down search_forward search_backward
allocate b count reverse =
    if count == 0
    then (b, none)
    else (if reverse
        then take_down b count (search_backward (b.length + 1) b count b.length)
        else take_up b count (search_forward (b.length + 1) b count 0))

pub release : BitMap → ℕ → ℕ → BitMap
unfolding set_up
release b index count = set_up count b index false

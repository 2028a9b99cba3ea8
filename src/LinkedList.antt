-- ===== src/LinkedList.antt =====
-- src/kernel/list.cpp and include/kernel/list.h: the intrusive doubly linked list of the kernel.
-- An item is its address, 0 is the null pointer, and the memory of all items is two functions from
-- addresses to pointers. A list is the address of its `head` item. A loop over the links runs on
-- fuel that the caller gives, and `none` says that the fuel ran out. The accessors that return
-- null answer 0, and `find` answers `none` inside for its -1.
pub mod Chain
pub mod Walk
pub mod Splice
pub mod Push
pub mod Erase
pub mod Frame
mod Examples
use sysu_os.Base.{
  ℕ, zero, suc, ◌+◌, ◌-◌, ◌==◌, ltb, Bool, true, false, not, ◌&&◌, if◌then◌else◌, Option, none,
  some,
}

abbrev pub Item : Type 0
Item = ℕ

abbrev pub null : Item
null = 0

pub record Links : Type 0 where
  pub next : Item → Item
  pub previous : Item → Item

abbrev pub update : (Item → Item) → Item → Item → Item → Item
update f p q a = if a == p then q else f a

abbrev pub set_next : Links → Item → Item → Links
set_next l p q = record l { next = update l.next p q }

abbrev pub set_previous : Links → Item → Item → Links
set_previous l p q = record l { previous = update l.previous p q }

infixl 5 ◌>>=◌
abbrev pub ◌>>=◌ {ℓ κ} : {A : Type ℓ} {B : Type κ} → Option A → (A → Option B) → Option B
none >>= f = none
some a >>= f = f a

pub initialize : Links → Item → Links
initialize l head = set_previous (set_next l head null) head null

pub size_loop : ℕ → Links → Item → ℕ → Option ℕ
size_loop zero l temp counter = none
size_loop (suc fuel) l temp counter =
    let rest = size_loop fuel l (l.next temp) (counter + 1) in
    if temp == null then some counter else rest

pub size : ℕ → Links → Item → Option ℕ
unfolding size_loop
size fuel l head = size_loop fuel l (l.next head) 0

pub empty : ℕ → Links → Item → Option Bool
unfolding size
empty fuel l head = do n ← size fuel l head; some (n == 0)

-- `while (temp->next) temp = temp->next`
pub back_loop : ℕ → Links → Item → Option Item
back_loop zero l temp = none
back_loop (suc fuel) l temp =
    let rest = back_loop fuel l (l.next temp) in if l.next temp == null then some temp else rest

pub back : ℕ → Links → Item → Option Item
unfolding back_loop
back fuel l head = if l.next head == null then some null else back_loop fuel l (l.next head)

pub push_back : ℕ → Links → Item → Item → Option Links
unfolding back
push_back fuel l head item = do
  last ← back fuel l head
  let temp = if last == null then head else last
  some (set_next (set_previous (set_next l temp item) item temp) item null)

pub pop_back : ℕ → Links → Item → Option Links
unfolding back
pop_back fuel l head = do
  temp ← back fuel l head
  some (
      if temp == null
      then l
      else set_previous (set_next (set_next l (l.previous temp) null) temp null) temp null)

unfoldable pub front : Links → Item → Item
front l head = l.next head

pub push_front : Links → Item → Item → Links
push_front l head item =
    let temp = l.next head in
    let l' = if temp == null then l else set_previous l temp item in
    set_next (set_previous (set_next l' head item) item head) item temp

pub pop_front : Links → Item → Links
pop_front l head =
    let temp = l.next head in
    if temp == null
    then l
    else (let after = l.next temp in
        let l' = if after == null then l else set_previous l after head in
        set_previous (set_next (set_next l' head after) temp null) temp null)

-- `for (i = 0; i < pos && temp; ++i, temp = temp->next)`: the recursion is on `pos - i`
pub at_loop : ℕ → Links → Item → Item
at_loop zero l temp = temp
at_loop (suc n) l temp = let rest = at_loop n l (l.next temp) in if temp == null then temp else rest

pub at : Links → Item → ℕ → Item
unfolding at_loop
at l head pos = at_loop pos l (l.next head)

-- takes the item `temp`, which is not null, out of its list
pub unlink : Links → Item → Links
unlink l temp =
    let l' = set_next l (l.previous temp) (l.next temp) in
    if l'.next temp == null then l' else set_previous l' (l'.next temp) (l'.previous temp)

-- puts `item` before `temp`
pub link_before : Links → Item → Item → Links
link_before l temp item =
    let l' = set_next (set_previous l item (l.previous temp)) item temp in
    set_previous (set_next l' (l'.previous temp) item) temp item

pub insert : ℕ → Links → Item → ℕ → Item → Option Links
unfolding push_front push_back size at link_before
insert fuel l head pos item = if pos == 0 then some (push_front l head item) else do
  length ← size fuel l head
  if pos == length
      then push_back fuel l head item
      else (if ltb pos length then some (link_before l (at l head pos) item) else some l)

-- `erase(int pos)`
pub erase_at : ℕ → Links → Item → ℕ → Option Links
unfolding pop_front size at unlink
erase_at fuel l head pos =
    if pos == 0
    then some (pop_front l head)
    else do length ← size fuel l head; some (if ltb pos length then unlink l (at l head pos) else l)

-- `while (temp && temp != itemPtr) temp = temp->next`, with the steps counted
pub find_loop : ℕ → Links → Item → Item → ℕ → Option (Item × ℕ)
find_loop zero l item temp pos = none
find_loop (suc fuel) l item temp pos =
    let rest = find_loop fuel l item (l.next temp) (pos + 1) in
    if not (temp == null) && not (temp == item) then rest else some (temp, pos)

-- `erase(ListItem *itemPtr)`
pub erase : ℕ → Links → Item → Item → Option Links
unfolding find_loop unlink
erase fuel l head item = do
  found ← find_loop fuel l item (l.next head) 0
  some (if found.0 == null then l else unlink l found.0)

pub find : ℕ → Links → Item → Item → Option (Option ℕ)
unfolding find_loop
find fuel l head item = do
  found ← find_loop fuel l item (l.next head) 0
  some (if not (found.0 == null) && found.0 == item then some found.1 else none)

pub clear_loop : ℕ → Links → Item → Option Links
clear_loop zero l temp = none
clear_loop (suc fuel) l temp =
    let rest = clear_loop fuel (set_previous (set_next l temp null) temp null) (l.next temp) in
    if temp == null then some l else rest

pub clear : ℕ → Links → Item → Option Links
unfolding clear_loop
clear fuel l head = do
  l' ← clear_loop fuel l (l.next head)
  some (set_previous (set_next l' head null) head null)

-- ===== src/Printf.antt =====
-- src/libc/vsprintf.cpp, as it is compiled for the i386. A format is the list of its bytes before
-- the NUL, and the index into it is the rest of the list. What goes through the callback `out` is
-- a list; a `va_list` is a list of arguments, of which one that is missing or of the wrong kind
-- leaves the behaviour open (`none`, `undefined`). A loop that does not end runs out of fuel:
-- `spent`. An `int` and a `long` are 32-bit patterns. The
-- buffer of 128 bytes that a number is written to from its end is the list of its digits.
pub mod Numbers
pub mod Fields
pub mod Ends
pub mod Plain
mod Examples
use sysu_os.Base.{
  ℕ, zero, suc, ◌+◌, ◌-◌, ◌*◌, ◌/◌, ◌%◌, ◌^◌, ◌==◌, ltb, leb, Bool, true, false, not, ◌&&◌, ◌||◌,
  if◌then◌else◌, Option, none, some, List, [], ◌∷◌, ◌++◌, length, Text,
}

pub data Length : Type 0 where
  len_int len_long : Length

abbrev pub default_width : ℕ
default_width = 1

pub record Format : Type 0 where
  pub width : ℕ
  pub left_align : Bool
  pub zero_pad : Bool
  pub valid : Bool
  pub length : Length
  pub specifier : ℕ

-- `init_format`
abbrev pub init_format : Format
init_format = record {
  width = default_width;
  left_align = false;
  zero_pad = false;
  valid = true;
  length = len_int;
  specifier = 0;
}

abbrev pub is_digit : ℕ → Bool
is_digit c = leb b'0' c && leb c b'9'

-- the loop over the digits of a width, in 32 bits, and where it stops
pub read_width : Text → ℕ → ℕ × Text
read_width [] sum = (sum, [])
read_width (c ∷ fmt) sum =
    let rest = read_width fmt ((sum * 10 + (c - b'0')) % 2 ^ 32) in
    if is_digit c then rest else (sum, c ∷ fmt)

abbrev pub is_specifier : ℕ → Bool
is_specifier c =
    c == b'd' || c == b'i' || c == b'u' || c == b'x' || c == b'c' || c == b's' || c == b'p'

-- a flag, a length or a width of the switch: the new format and where the next round starts
abbrev pub is_long : Length → Bool
is_long len_long = true
is_long len_int = false

pub modifier : Format → ℕ → Text → Format × Text
unfolding read_width
modifier f c fmt =
    if c == b'0'
    then (record f { zero_pad = true; valid = f.valid && not f.zero_pad }, fmt)
    else if c == b'-'
    then (record f { left_align = true; valid = f.valid && not f.left_align }, fmt)
    else if c == b'l'
    then (record f { length = len_long; valid = f.valid && not (is_long f.length) }, fmt)
    else if is_digit c
    then (if f.width == default_width
        then (let (sum, rest) = read_width (c ∷ fmt) 0 in (record f { width = sum }, rest))
        else (record f { valid = false }, fmt))
    else (record f { valid = false }, fmt)

-- `analyse_format` from the byte behind the `%`, and the format behind the specifier; a round takes
-- at least one byte, so the length of the format is enough fuel
pub analyse_format : ℕ → Text → Format → Option (Format × Text)
unfolding modifier
analyse_format zero fmt f = none
analyse_format (suc fuel) [] f = some (record f { valid = false }, [])
analyse_format (suc fuel) (c ∷ fmt) f =
    let (f', rest) = modifier f c fmt in
    let next = analyse_format fuel rest f' in
    if is_specifier c
    then some (record f { specifier = c }, fmt)
    else if f'.valid
    then next
    else some (f', rest)

-- the digits of a number in front of `out`; ten of them hold 32 bits
pub decify_loop : ℕ → ℕ → Text → Text
decify_loop zero number out = out
decify_loop (suc fuel) number out =
    let rest = decify_loop fuel (number / 10) ((b'0' + number % 10) ∷ out) in
    if number == 0 then out else rest

pub unsign_decify : ℕ → Text
unfolding decify_loop
unsign_decify number = if number == 0 then b'0' ∷ [] else decify_loop 10 number []

abbrev pub is_negative : ℕ → Bool
is_negative n = leb (2 ^ 31) n

-- `-number` of the least number is itself, and negative
pub sign_decify : ℕ → Text
unfolding decify_loop
sign_decify n =
    let negative = is_negative n in
    let number = if negative then (2 ^ 32 - n) % 2 ^ 32 else n in
    let digits =
      if number == 0
      then b'0' ∷ []
      else if is_negative number
      then []
      else decify_loop 10 number [] in
    if negative then b'-' ∷ digits else digits

pub hexify_loop : ℕ → ℕ → Text → Text
hexify_loop zero number out = out
hexify_loop (suc fuel) number out =
    let digit = number % 16 in
    let rest =
      hexify_loop fuel (number / 16)
        ((if ltb digit 10 then b'0' + digit else b'a' + digit - 10) ∷ out) in
    if number == 0 then out else rest

pub hexify : ℕ → Text
unfolding hexify_loop
hexify number = if number == 0 then b'0' ∷ [] else hexify_loop 8 number []

-- what was put out, and the count, a 32-bit pattern for a negative one
abbrev pub Output : Type 0
Output = Text × ℕ

abbrev pub repeat : ℕ → ℕ → Text
repeat zero c = []
repeat (suc n) c = c ∷ repeat n c

abbrev pub out_str : Text → Output
out_str str = (str, length str)

abbrev pub out_pad : ℕ → ℕ → Output
out_pad pad num = (if is_negative num then [] else repeat num pad, num)

abbrev pub out_char : ℕ → Output
out_char c = (c ∷ [], 0)

infixr 5 ◌then_out◌
abbrev pub ◌then_out◌ : Output → Output → Output
(s, n) then_out (t, m) = (s ++ t, n + m)

abbrev pub tail : Text → Text
tail [] = []
tail (c ∷ str) = str

abbrev pub starts_with_minus : Text → Bool
starts_with_minus [] = false
starts_with_minus (c ∷ str) = c == b'-'

-- the field of `%d`, from the digits on
pub signed_field : Format → Text → Output
signed_field f str =
    let pad = f.width - length str in
    let negative = starts_with_minus str in
    if ltb (length str) f.width
    then (if f.left_align
        then out_str str then_out out_pad b' ' pad
        else if f.zero_pad && negative
        then out_char b'-' then_out out_pad b'0' pad then_out out_str (tail str)
        else if f.zero_pad
        then out_pad b'0' pad then_out out_str str
        else if negative
        then out_pad b' ' pad then_out out_char b'-' then_out out_str (tail str)
        else out_pad b' ' pad then_out out_str str)
    else out_str str

-- the field of `%u` and `%x`
pub unsigned_field : Format → Text → Output
unsigned_field f str =
    let pad = f.width - length str in
    if ltb (length str) f.width
    then (if f.left_align
        then out_str str then_out out_pad b' ' pad
        else if f.zero_pad
        then out_pad b'0' pad then_out out_str str
        else out_pad b' ' pad then_out out_str str)
    else out_str str

pub data Argument : Type 0 where
  word : ℕ → Argument
  pointer : Option Text → Argument

-- `(null)`
abbrev pub null_text : Text
null_text = b'(' ∷ b'n' ∷ b'u' ∷ b'l' ∷ b'l' ∷ b')' ∷ []

abbrev pub string : Option Text → Text
string none = null_text
string (some t) = t

-- `varg_to_callback` at the argument that `va_arg` takes
pub convert : Format → Argument → Option Output
unfolding signed_field unsigned_field unsign_decify sign_decify hexify
convert f (pointer s) = if f.specifier == b's' then some (out_str (string s)) else none
convert f (word n) =
    if f.specifier == b'p'
    then some (out_str (b'0' ∷ b'x' ∷ []) then_out out_str (hexify n))
    else if f.specifier == b'c'
    then some ((n % 256) ∷ [], 1)
    else if f.specifier == b'd' || f.specifier == b'i'
    then some (signed_field f (sign_decify n))
    else if f.specifier == b'u'
    then some (unsigned_field f (unsign_decify n))
    else if f.specifier == b'x'
    then some (unsigned_field f (hexify n))
    else none

-- what `vsprintf_callback` put out, and its result; `rejected` is the result -1
pub data Printed : Type 0 where
  printed : Text → ℕ → Printed
  rejected : Text → Printed
  undefined : Printed
  spent : Printed

abbrev pub after : Output → Printed → Printed
after (s, n) (printed t m) = printed (s ++ t) (n + m)
after (s, n) (rejected t) = rejected (s ++ t)
after (s, n) undefined = undefined
after (s, n) spent = spent

-- the rest of a round of `vsprintf_callback` that has read a conversion; `go` is the next round
abbrev pub converted : (Text → List Argument → Printed) → Format → Text → List Argument → Printed
converted go f fmt [] = undefined
converted go f fmt (a ∷ args) = elim (convert f a) [
  | none ↦ undefined
  | some o ↦ after o (go fmt args)
]

abbrev pub analysed :
    (Text → List Argument → Printed) → List Argument → Option (Format × Text) → Printed
analysed go args none = spent
analysed go args (some (f, fmt)) = if f.valid then converted go f fmt args else rejected []

-- `vsprintf_callback`; every round takes at least one byte
pub print_loop : ℕ → Text → List Argument → Printed
unfolding analyse_format
print_loop zero fmt args = spent
print_loop (suc fuel) [] args = printed [] 0
print_loop (suc fuel) (c ∷ []) args =
    let plain = after (c ∷ [], 1) (print_loop fuel [] args) in
    if c == b'%' then rejected [] else plain
print_loop (suc fuel) (c ∷ d ∷ fmt) args =
    let percent = after (b'%' ∷ [], 1) (print_loop fuel fmt args) in
    let conversion =
      analysed (λ fmt' args'. print_loop fuel fmt' args') args
        (analyse_format (length fmt + 2) (d ∷ fmt) init_format) in
    let plain = after (c ∷ [], 1) (print_loop fuel (d ∷ fmt) args) in
    if c == b'%' && d == b'%' then percent else if c == b'%' then conversion else plain

pub vsprintf_callback : Text → List Argument → Printed
unfolding print_loop
vsprintf_callback fmt args = print_loop (length fmt + 1) fmt args

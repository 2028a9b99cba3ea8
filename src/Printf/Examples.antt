-- ===== src/Printf/Examples.antt =====
-- Runs of the formatter on concrete inputs.
use sysu_os.Base.{
  ◌-◌, ◌^◌, ◌==◌, ltb, ◌≡◌, refl, true, if◌then◌else◌, max, [], ◌∷◌, ◌++◌, Text, arith,
}
use sysu_os.Shell.{parse_int}
use sysu_os.Printf.{
  Format, convert, init_format, word, printed, after, unsign_decify, sign_decify, hexify,
  signed_field, vsprintf_callback,
}
use sysu_os.Printf.Numbers.{
  parse_int-unsign_decify, sign_decify-unsign_decify, hex_value, hex_value-hexify,
}
use sysu_os.Printf.Fields.{layout, uncounted, signed_field-layout}
use sysu_os.Printf.Plain.{escape, vsprintf_callback-escape}

parse_int-unsign_decify_example : parse_int (unsign_decify 2048) ≡ 2048
parse_int-unsign_decify_example = parse_int-unsign_decify 2048 (omega arith)

hex_value-hexify_example : hex_value 0 (hexify 48879) ≡ 48879
hex_value-hexify_example = hex_value-hexify 48879 (omega arith)

-- the least `int`
sign_decify-unsign_decify_example : sign_decify (2 ^ 31) ≡ (
    if ltb (2 ^ 31) (2 ^ 31)
    then unsign_decify (2 ^ 31)
    else if 2 ^ 31 == 2 ^ 31
    then b'-' ∷ []
    else b'-' ∷ unsign_decify (2 ^ 32 - 2 ^ 31))
sign_decify-unsign_decify_example = sign_decify-unsign_decify (2 ^ 31) (omega arith)

-- `%05d` of -42
abbrev five_zeros : Format
five_zeros = record init_format { width = 5; zero_pad = true }

abbrev minus_42 : Text
minus_42 = b'-' ∷ b'4' ∷ b'2' ∷ []

signed_field-layout_example :
    signed_field five_zeros minus_42
    ≡ (layout five_zeros minus_42, max 5 3 - uncounted five_zeros minus_42)
signed_field-layout_example = signed_field-layout five_zeros minus_42 (omega arith)

-- `100%` in front of `%d`
abbrev hundred : Text
hundred = b'1' ∷ b'0' ∷ b'0' ∷ b'%' ∷ []

abbrev decimal : Text
decimal = b'%' ∷ b'd' ∷ []

vsprintf_callback-escape_example :
    vsprintf_callback (escape hundred ++ decimal) (word 5 ∷ [])
    ≡ after (hundred, 4) (vsprintf_callback decimal (word 5 ∷ []))
vsprintf_callback-escape_example = vsprintf_callback-escape hundred decimal (word 5 ∷ [])

-- `%5d` of -42
padded :
    vsprintf_callback (b'%' ∷ b'5' ∷ b'd' ∷ []) (word (2 ^ 32 - 42) ∷ [])
    ≡ printed (b' ' ∷ b' ' ∷ minus_42) 4
unfolding vsprintf_callback convert
padded = refl

-- ===== src/Io/Digits.antt =====
-- The codes of the decimal digits in io_utils.h. A digit of the display has seven segments, the low
-- bits of its register, where the code has the complement of what is dark.
use ptr24_lab.Prelude.{ℕ, ◌-◌, ◌%◌, ◌^◌, ◌<◌, ◌≡◌, Option, none, some, ◌==◌, if◌then◌else◌, arith}

-- `~v` for an `int`, as the 32-bit word that the register gets.
abbrev not32 : ℕ → ℕ
not32 v = 2 ^ 32 - 1 - v

-- HEX_DIGIT_0 to HEX_DIGIT_9.
unfoldable hex_digit : ℕ → ℕ
hex_digit n =
    if n == 0
    then not32 0x40
    else if n == 1
    then not32 0xf9
    else if n == 2
    then not32 0x24
    else if n == 3
    then not32 0x30
    else if n == 4
    then not32 0x19
    else if n == 5
    then not32 0x12
    else if n == 6
    then not32 0x02
    else if n == 7
    then not32 0x78
    else if n == 8
    then not32 0x00
    else not32 0x10

-- The digit that lit segments show: top, then on around the right to the upper left, and the middle.
abbrev shown_digit : ℕ → Option ℕ
shown_digit lit =
    if lit == 0b0111111
    then some 0
    else if lit == 0b0000110
    then some 1
    else if lit == 0b1011011
    then some 2
    else if lit == 0b1001111
    then some 3
    else if lit == 0b1100110
    then some 4
    else if lit == 0b1101101
    then some 5
    else if lit == 0b1111101
    then some 6
    else if lit == 0b0000111
    then some 7
    else if lit == 0b1111111
    then some 8
    else if lit == 0b1101111
    then some 9
    else none

-- The code of each decimal digit shows that digit.
hex_digit-shown : (n : ℕ) → n < 10 → shown_digit (hex_digit n % 2 ^ 7) ≡ some n
unfolding hex_digit
hex_digit-shown n h = ground arith

-- ===== src/Printk.antt =====
-- kernel/printk.c: formatted text, over the memory and the numbers of Text. The variable arguments
-- are the words of the caller in order (`Args`), each of which va_arg reads once; what puts sends to
-- the UART is the text in the buffer.
mod Examples
pub mod Format
pub mod Loop
pub mod Numbers
pub mod Rounds
use Prim.Native.Nat.{bit_and}
use mirros.Base.{
  ℕ, zero, suc, ◌+◌, ◌-◌, ◌^◌, Bool, true, false, not, Option, none, some, ◌==◌, ltb, leb,
  if◌then◌else◌, update, ◌>>=◌,
}
use mirros.Base.Int.{ℤ, pos, negsuc, minus_one}
use mirros.Base.Words.{u8}
use mirros.Text.{Memory, itoa, uitoa, hextoa, octtoa, bintoa, num_to_str, strlen, strncpy, is_digit}

abbrev pub Args : Type 0
Args = ℕ → ℕ

-- The flags of a conversion.
abbrev pub printf_dec : ℕ
printf_dec = 1

abbrev pub printf_hex : ℕ
printf_hex = 2

abbrev pub printf_oct : ℕ
printf_oct = 4

abbrev pub printf_bin : ℕ
printf_bin = 8

abbrev pub printf_mask : ℕ
printf_mask = 15

abbrev pub printf_unsigned : ℕ
printf_unsigned = 16

abbrev pub printf_signed : ℕ
printf_signed = 32

-- A word as an int.
abbrev pub as_int : ℕ → ℤ
as_int n = if ltb n (2 ^ 31) then pos n else negsuc (2 ^ 32 - 1 - n)

abbrev counted : Option (Memory × ℕ) → Option (Memory × ℤ)
counted none = none
counted (some (m, len)) = some (m, pos len)

-- Enough fuel for the digits of a word.
abbrev pub digit_fuel : ℕ
digit_fuel = 31

unfoldable pub numbric : Memory → ℕ → ℕ → ℕ → Option (Memory × ℤ)
unfolding itoa num_to_str uitoa hextoa octtoa bintoa
numbric mem buf num flag =
    let base = bit_and flag printf_mask in
    if base == printf_dec
    then (if bit_and flag printf_signed == 0
        then counted (uitoa digit_fuel mem buf num)
        else itoa digit_fuel mem buf (as_int num))
    else if base == printf_hex
    then counted (hextoa digit_fuel mem buf num)
    else if base == printf_oct
    then counted (octtoa digit_fuel mem buf num)
    else if base == printf_bin
    then counted (bintoa digit_fuel mem buf num)
    else some (mem, pos 0)

-- The state of the loop of `vsprintf`: the memory, `str`, `fmt`, and the number of words read.
pub record Printing : Type 0 where
  pub mem : Memory
  pub str : ℕ
  pub fmt : ℕ
  pub read : ℕ

-- The flags that the letters d, x, u and o set; 0 for any other.
abbrev pub number_flag : ℕ → ℕ
number_flag ch =
    if (ch == 100)
    then 33
    else if ch == 120
    then 18
    else if ch == 117
    then 17
    else if ch == 111
    then 33
    else 0

-- A pointer and an int.
abbrev pub move_ptr : ℕ → ℤ → ℕ
move_ptr p (pos n) = p + n
move_ptr p (negsuc n) = p - suc n

abbrev pub put_number : Args → Printing → ℕ → Option Printing
unfolding numbric
put_number args p flag = do
  (m, len) ← numbric p.mem p.str (args p.read) flag
  some (record { mem = m; str = move_ptr p.str len; fmt = p.fmt; read = p.read + 1 })

abbrev int_size : ℤ → ℕ
int_size (pos n) = n
int_size (negsuc n) = 0

-- The text of a %s, with `fuel` for its length: the length is -1 for NULL, and then strncpy copies nothing.
abbrev pub put_string : ℕ → Args → Printing → Option Printing
unfolding strlen strncpy
put_string fuel args p = do
  len ← strlen fuel p.mem (args p.read)
  some (record {
    mem = (strncpy p.mem p.str (args p.read) (int_size len)).0;
    str = move_ptr p.str len;
    fmt = p.fmt;
    read = p.read + 1;
  })

abbrev pub put_char : Printing → ℕ → Printing
put_char p ch = record p { mem = update p.mem p.str ch; str = p.str + 1 }

-- The switch, at the character behind the `%`.
unfoldable pub convert : ℕ → Args → Printing → ℕ → Option Printing
unfolding put_number put_string
convert fuel args p ch =
    if not (number_flag ch == 0)
    then put_number args p (number_flag ch)
    else if ch == 115
    then put_string fuel args p
    else if ch == 99
    then some (record (put_char p (u8 (args p.read))) { read = p.read + 1 })
    else if ch == 37
    then some (put_char p 37)
    else some (put_char (put_char p 37) ch)

-- A round of the loop; `fmt` moves behind what was read, also behind the end of a format that ends
-- with a `%`.
unfoldable pub print_round : ℕ → Args → Printing → Option Printing
unfolding convert
print_round fuel args p =
    let ch = p.mem p.fmt in
    if ch == 37
    then convert fuel args (record p { fmt = p.fmt + 2 }) (p.mem (p.fmt + 1))
    else some (record (put_char p ch) { fmt = p.fmt + 1 })

-- The loop, with the rounds left; `none` when they or the fuel run out.
unfoldable pub print_loop : ℕ → ℕ → Args → Printing → Option Printing
unfolding print_round
print_loop zero fuel args p = none
print_loop (suc k) fuel args p =
    let rest = print_round fuel args p >>= print_loop k fuel args in
    if p.mem p.fmt == 0 then some p else rest

abbrev ptr_diff : ℕ → ℕ → ℤ
ptr_diff str buf = if leb buf str then pos (str - buf) else negsuc (buf - str - 1)

unfoldable pub vsprintf : ℕ → ℕ → Args → Memory → ℕ → ℕ → Option (Memory × ℤ)
unfolding print_loop
vsprintf k fuel args mem buf fmt = if buf == 0 then some (mem, minus_one) else (do
  p ← print_loop k fuel args (record { mem = mem; str = buf; fmt = fmt; read = 0 })
  some (update p.mem p.str 0, ptr_diff p.str buf))

abbrev pub log_level : ℕ
log_level = 4

-- `level_printk`, with the address of its buffer; `printk` is the last line.
unfoldable pub level_printk : ℕ → ℕ → Args → Memory → ℕ → ℕ → Option (Memory × ℤ)
unfolding vsprintf
level_printk k fuel args mem printf_buf fmt =
    let ch = mem fmt in
    if is_digit ch
    then (if ltb log_level (ch - 48)
        then some (mem, pos 0)
        else vsprintf k fuel args mem printf_buf (fmt + 1))
    else vsprintf k fuel args mem printf_buf fmt

-- ===== src/Text.antt =====
-- kernel/string.c: numbers as text, and strings in memory.
-- Memory is bytes by address, and a string is the address of its first byte. A pointer of 0 is
-- NULL. A loop whose end depends on memory takes fuel, and gives `none` when that runs out.
mod Examples
pub mod Copy
pub mod Digits
pub mod Number
pub mod Signed
pub mod Strings
use mathlib.Core.Option
use mirros.Base.{
  ℕ, zero, suc, ◌+◌, ◌-◌, ◌/◌, ◌%◌, Bool, true, false, ◌&&◌, ◌||◌, Option, none, some, List, [],
  ◌∷◌, ◌==◌, ltb, leb, if◌then◌else◌, update, get_elem?, length,
}
use mirros.Base.Int.{ℤ, pos, negsuc, minus_one}
use mirros.Base.Words.{u32}

abbrev pub Memory : Type 0
Memory = ℕ → ℕ

-- The 32 bits of the result, which `itoa` takes as unsigned.
unfoldable pub absolute : ℤ → ℕ
absolute (pos n) = n
absolute (negsuc n) = u32 (suc n)

-- "0123456789abcdef"
abbrev pub hex : List ℕ
hex = 48 ∷ 49 ∷ 50 ∷ 51 ∷ 52 ∷ 53 ∷ 54 ∷ 55 ∷ 56 ∷ 57 ∷ 97 ∷ 98 ∷ 99 ∷ 100 ∷ 101 ∷ 102 ∷ []

-- An element of an array; no index below is out of range.
abbrev pub at : List ℕ → ℕ → ℕ
at xs i = elem (get_elem? xs i)
  where
    elem : Option ℕ → ℕ
    elem none = 0
    elem (some x) = x

-- The first loop of `num_to_str`, and the digit after it: what it leaves in `tmp_buf`.
unfoldable pub low_digits : ℕ → ℕ → ℕ → Option (List ℕ)
low_digits zero num bdho = none
low_digits (suc k) num bdho =
    let m = num % bdho in
    let num' = num / bdho in
    let rest = low_digits k num' bdho in
    if leb bdho num'
    then Option.map (λ ds. at hex m ∷ ds) rest
    else some (at hex m ∷ (if num' == 0 then [] else at hex num' ∷ []))

-- The second loop of `num_to_str`, which turns the digits round.
unfoldable pub copy_back : ℕ → List ℕ → Memory → ℕ → Memory
copy_back zero tmp_buf mem buf = mem
copy_back (suc len) tmp_buf mem buf =
    copy_back len tmp_buf (update mem buf (at tmp_buf len)) (buf + 1)

unfoldable pub num_to_str : ℕ → Memory → ℕ → ℕ → ℕ → Option (Memory × ℕ)
unfolding low_digits copy_back
num_to_str fuel mem buf num bdho =
    Option.map (λ tmp_buf. (copy_back (length tmp_buf) tmp_buf mem buf, length tmp_buf))
      (low_digits fuel num bdho)

unfoldable pub itoa : ℕ → Memory → ℕ → ℤ → Option (Memory × ℤ)
unfolding num_to_str absolute
itoa fuel mem zero num = some (mem, minus_one)
itoa fuel mem buf (pos n) = Option.map (λ (m, len). (m, pos len)) (num_to_str fuel mem buf n 10)
itoa fuel mem buf (negsuc n) =
    Option.map (λ (m, len). (m, pos (len + 1)))
      (num_to_str fuel (update mem buf 45) (buf + 1) (absolute (negsuc n)) 10)

unfoldable pub uitoa : ℕ → Memory → ℕ → ℕ → Option (Memory × ℕ)
unfolding num_to_str
uitoa fuel mem buf num = num_to_str fuel mem buf num 10

unfoldable pub hextoa : ℕ → Memory → ℕ → ℕ → Option (Memory × ℕ)
unfolding num_to_str
hextoa fuel mem buf num = num_to_str fuel mem buf num 16

unfoldable pub octtoa : ℕ → Memory → ℕ → ℕ → Option (Memory × ℕ)
unfolding num_to_str
octtoa fuel mem buf num = num_to_str fuel mem buf num 8

unfoldable pub bintoa : ℕ → Memory → ℕ → ℕ → Option (Memory × ℕ)
unfolding num_to_str
bintoa fuel mem buf num = num_to_str fuel mem buf num 2

-- The loop of `strlen`: the bytes before the first 0.
unfoldable pub count_bytes : ℕ → Memory → ℕ → Option ℕ
count_bytes zero mem buf = none
count_bytes (suc k) mem buf =
    let rest = count_bytes k mem (buf + 1) in if mem buf == 0 then some 0 else Option.map suc rest

unfoldable pub strlen : ℕ → Memory → ℕ → Option ℤ
unfolding count_bytes
strlen fuel mem zero = some minus_one
strlen fuel mem buf = Option.map pos (count_bytes fuel mem buf)

-- The loop of `strcpy`.
unfoldable pub copy_string : ℕ → Memory → ℕ → ℕ → Option Memory
copy_string zero mem des src = none
copy_string (suc k) mem des src =
    let rest = copy_string k (update mem des (mem src)) (des + 1) (src + 1) in
    if mem src == 0 then some (update mem des (mem src)) else rest

-- The memory and the pointer returned.
unfoldable pub strcpy : ℕ → Memory → ℕ → ℕ → Option (Memory × ℕ)
unfolding copy_string
strcpy fuel mem des src =
    if (des == 0) || (src == 0)
    then some (mem, 0)
    else Option.map (λ m. (m, des)) (copy_string fuel mem des src)

-- The loop of `strncpy`, from index `i` on.
unfoldable pub copy_bytes : ℕ → ℕ → Memory → ℕ → ℕ → Memory
copy_bytes zero i mem des src = mem
copy_bytes (suc k) i mem des src =
    copy_bytes k (i + 1) (update mem (des + i) (mem (src + i))) des src

unfoldable pub strncpy : Memory → ℕ → ℕ → ℕ → Memory × ℕ
unfolding copy_bytes
strncpy mem des src len =
    if (des == 0) || (src == 0) then (mem, 0) else (copy_bytes len 0 mem des src, des)

abbrev pub is_digit : ℕ → Bool
is_digit ch = leb ch 57 && leb 48 ch

-- The result of the comparisons: the sign of the difference of two bytes.
abbrev pub sign_of : ℕ → ℕ → ℤ
sign_of a b = if ltb a b then minus_one else if ltb b a then pos 1 else pos 0

unfoldable pub strcmp : ℕ → Memory → ℕ → ℕ → Option ℤ
strcmp zero mem src dst = none
strcmp (suc k) mem src dst =
    let rest = strcmp k mem (src + 1) (dst + 1) in
    if (mem src == mem dst) && leb 1 (mem dst) then rest else some (sign_of (mem src) (mem dst))

unfoldable pub strncmp : Memory → ℕ → ℕ → ℕ → ℤ
strncmp mem src dst zero = pos 0
strncmp mem src dst (suc n) =
    let rest = strncmp mem (src + 1) (dst + 1) n in
    if mem src == mem dst then rest else sign_of (mem src) (mem dst)

-- The loop of `memset`, from index `i` on.
unfoldable pub fill : ℕ → ℕ → Memory → ℕ → ℕ → Memory
fill zero i mem base ch = mem
fill (suc k) i mem base ch = fill k (i + 1) (update mem (base + i) ch) base ch

unfoldable pub memset : Memory → ℕ → ℕ → ℕ → Memory
unfolding fill
memset mem base ch size = fill size 0 mem base ch

-- ===== src/Bitops.antt =====
-- kernel/bitops.c and include/os/bitops.h: bit maps in arrays of 32-bit words.
-- An array is its words by index; it has no bound here, as in C.
pub mod Laws
use Prim.Native.Nat.{bit_and, bit_or}
use mirros.Base.{ℕ, zero, suc, ◌+◌, ◌/◌, ◌%◌, Option, none, some, update}
use mirros.Base.Int.{ℤ, pos, einval, minus_one}
use mirros.Base.Words.{◌<<◌, ◌>>◌, not32}

abbrev pub Bitmap : Type 0
Bitmap = ℕ → ℕ

-- `bit_ops_t`; `bits_unknown` is any other value, the `default` of the switch.
pub data BitOps : Type 0 where
  bits_clear bits_set bits_read bits_unknown : BitOps

-- The word and the digit of bit `n`.
abbrev pub get_bit_pos : ℕ → ℕ × ℕ
get_bit_pos n = (n / 32, n % 32)

abbrev op_word : Bitmap → ℕ → ℕ → BitOps → Bitmap × ℤ
op_word bit_map x y bits_clear = (update bit_map x (bit_and (bit_map x) (not32 (1 << y))), pos 0)
op_word bit_map x y bits_set = (update bit_map x (bit_or (bit_map x) (1 << y)), pos 0)
op_word bit_map x y bits_read = (bit_map, pos (bit_and (bit_map x) (1 << y) >> y))
op_word bit_map x y bits_unknown = (bit_map, minus_one)

-- `none` is a NULL map.
unfoldable pub op_bits : Option Bitmap → ℕ → BitOps → Option Bitmap × ℤ
op_bits none n ops = (none, einval)
op_bits (some bit_map) n ops =
    let (x, y) = get_bit_pos n in
    let (bit_map', result) = op_word bit_map x y ops in (some bit_map', result)

-- The three wrappers, at a map that is not NULL.
abbrev or_same : Bitmap → Option Bitmap → Bitmap
or_same m none = m
or_same m (some m') = m'

unfoldable pub clear_bit : Bitmap → ℕ → Bitmap
unfolding op_bits
clear_bit bit_map n = or_same bit_map (op_bits (some bit_map) n bits_clear).0

unfoldable pub set_bit : Bitmap → ℕ → Bitmap
unfolding op_bits
set_bit bit_map n = or_same bit_map (op_bits (some bit_map) n bits_set).0

unfoldable pub read_bit : Bitmap → ℕ → ℤ
unfolding op_bits
read_bit bit_map n = (op_bits (some bit_map) n bits_read).1

-- The loop of `init_bitmap`, with the rounds left.
clear_from : ℕ → ℕ → Bitmap → Bitmap
clear_from zero i bitmap = bitmap
clear_from (suc k) i bitmap = clear_from k (i + 1) (clear_bit bitmap i)

unfoldable pub init_bitmap : Bitmap → ℕ → Bitmap
unfolding clear_from
init_bitmap bitmap n = clear_from n 0 bitmap

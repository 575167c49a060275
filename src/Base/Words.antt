-- ===== src/Base/Words.antt =====
-- Machine words: reduction to a width, and shifts.
use Prim.Native.Nat.{ℕ, ◌+◌, ◌-◌, ◌*◌, ◌/◌, ◌%◌, ◌^◌}

abbrev pub u8 : ℕ → ℕ
u8 n = n % 256

abbrev pub u16 : ℕ → ℕ
u16 n = n % 65536

abbrev pub u32 : ℕ → ℕ
u32 n = n % 4294967296

-- `a - b` of two words.
abbrev pub sub32 : ℕ → ℕ → ℕ
sub32 a b = (a + (4294967296 - b)) % 4294967296

-- `~a` of a word.
abbrev pub not32 : ℕ → ℕ
not32 a = 4294967295 - a

infixl 70 ◌<<◌ ◌>>◌
abbrev pub ◌<<◌ : ℕ → ℕ → ℕ
a << k = a * 2 ^ k

abbrev pub ◌>>◌ : ℕ → ℕ → ℕ
a >> k = a / 2 ^ k

abbrev pub size_1m : ℕ
size_1m = 1048576

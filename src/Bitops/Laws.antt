-- ===== src/Bitops/Laws.antt =====
-- kernel/bitops.c: each operation touches one bit, and words stay words.
use Prim.Native.Nat.{bit_and}
use native.Mathlib.Nat.{mul-div_cancel, one-le-pow}
use mirros.Base.{
  Bool, ℕ, zero, suc, ◌+◌, ◌*◌, ◌/◌, ◌%◌, ◌^◌, ◌<◌, ◌≡◌, refl, ◌∙◌, ap, arith, ◌==◌, ltb, leb, ◌⊎◌,
  ◌&&◌, if◌then◌else◌, ==_iff,
}
use mirros.Base.Bits.{
  digit, digit-bit_and, digit-bit_or, digit-two_pow, bit_and-two_pow, bit_or-lt, bit_and-le,
  digit-le-one, holds_below, holds_at,
}
use mirros.Base.Int.{pos}
use mirros.Base.Words.{◌<<◌, not32}
use mirros.Bitops.{Bitmap, set_bit, clear_bit, read_bit, init_bitmap, clear_from}

-- Bit `n` of the map, read off the words.
abbrev pub bit_at : Bitmap → ℕ → ℕ
bit_at m n = digit (m (n / 32)) (n % 32)

shift_back : (d y : ℕ) → d * 2 ^ y / 2 ^ y ≡ d
shift_back d y = mul-div_cancel d (one-le-pow y 2 (omega arith))

pub read_bit-bit_at : (m : Bitmap) (n : ℕ) → read_bit m n ≡ pos (bit_at m n)
unfolding read_bit
read_bit-bit_at m n =
    let masked : bit_and (m (n / 32)) (1 << (n % 32)) ≡ bit_at m n * 2 ^ (n % 32) =
      ap (bit_and (m (n / 32))) (omega arith) ∙ bit_and-two_pow (m (n / 32)) (n % 32) in
    rw masked (ap pos (shift_back (bit_at m n) (n % 32)))

abbrev not32_at : ℕ → ℕ → Bool
not32_at y z = digit (not32 (1 << y)) z == (if y == z then 0 else 1)

digit-not32 : (y z : ℕ) → y < 32 → z < 32 → digit (not32 (1 << y)) z ≡ (if y == z then 0 else 1)
digit-not32 y z p q =
    (==_iff _ _).0
      (holds_at (not32_at y) 32 z (holds_at (λ t. holds_below (not32_at t) 32) 32 y refl p) q)

-- The bit of a map after a write.
bit_at-set_bit :
    (m : Bitmap) (n k : ℕ) → bit_at (set_bit m n) k ≡ (if n == k then 1 else bit_at m k)
unfolding set_bit
bit_at-set_bit m n k = ground (
  arith,
  digit-bit_or (m (n / 32)) (1 << (n % 32)) (k % 32),
  digit-two_pow (n % 32) (k % 32),
  digit-le-one (m (k / 32)) (k % 32),
  ap (λ t. digit t (k % 32)) {x = 1 << (n % 32)} {y = 2 ^ (n % 32)} (omega arith),
)

bit_at-clear_bit :
    (m : Bitmap) (n k : ℕ) → bit_at (clear_bit m n) k ≡ (if n == k then 0 else bit_at m k)
unfolding clear_bit
bit_at-clear_bit m n k = ground (
  arith,
  digit-bit_and (m (n / 32)) (not32 (1 << (n % 32))) (k % 32),
  digit-not32 (n % 32) (k % 32) (omega arith) (omega arith),
  digit-le-one (m (k / 32)) (k % 32),
)

-- A bit that is set reads as 1, and every other bit reads as before.
pub read_bit-set_bit :
    (m : Bitmap) (n k : ℕ) → read_bit (set_bit m n) k ≡ (if n == k then pos 1 else read_bit m k)
read_bit-set_bit m n k =
    ground (arith, read_bit-bit_at (set_bit m n) k, read_bit-bit_at m k, bit_at-set_bit m n k)

-- A bit that is cleared reads as 0, and every other bit reads as before.
pub read_bit-clear_bit :
    (m : Bitmap) (n k : ℕ) → read_bit (clear_bit m n) k ≡ (if n == k then pos 0 else read_bit m k)
read_bit-clear_bit m n k =
    ground (arith, read_bit-bit_at (clear_bit m n) k, read_bit-bit_at m k, bit_at-clear_bit m n k)

-- A read is 0 or 1.
pub read_bit_cases : (m : Bitmap) (n : ℕ) → (read_bit m n ≡ pos 0) ⊎ (read_bit m n ≡ pos 1)
read_bit_cases m n = ground (arith, read_bit-bit_at m n, digit-le-one (m (n / 32)) (n % 32))

-- Every word of the array fits 32 bits.
abbrev pub IsWords : Bitmap → Type 0
IsWords m = (x : ℕ) → m x < 2 ^ 32

shift-lt : (y : ℕ) → y < 32 → 1 << y < 2 ^ 32
shift-lt y h = ground (arith, holds_at (λ t. ltb (1 << t) (2 ^ 32)) 32 y refl h)

-- Setting and clearing keep the words within 32 bits.
pub set_bit-IsWords : (m : Bitmap) (n : ℕ) → IsWords m → IsWords (set_bit m n)
unfolding set_bit
set_bit-IsWords m n h x = ground (
  arith,
  h x,
  bit_or-lt 32 (m (n / 32)) (1 << (n % 32)) (h (n / 32)) (shift-lt (n % 32) (omega arith)),
)

pub clear_bit-IsWords : (m : Bitmap) (n : ℕ) → IsWords m → IsWords (clear_bit m n)
unfolding clear_bit
clear_bit-IsWords m n h x =
    ground (arith, h x, h (n / 32), bit_and-le (m (n / 32)) (not32 (1 << (n % 32))))

clear_from_lem :
    (c i : ℕ) (m : Bitmap) (k : ℕ)
    → read_bit (clear_from c i m) k ≡ (if leb i k && ltb k (i + c) then pos 0 else read_bit m k)
unfolding clear_from
clear_from_lem zero i m k = ground arith
clear_from_lem (suc c) i m k =
    ground (arith, clear_from_lem c (i + 1) (clear_bit m i) k, read_bit-clear_bit m i k)

-- `init_bitmap` clears the first `n` bits and no other.
pub read_bit-init_bitmap :
    (m : Bitmap) (n k : ℕ)
    → read_bit (init_bitmap m n) k ≡ (if ltb k n then pos 0 else read_bit m k)
unfolding init_bitmap
read_bit-init_bitmap m n k = ground (arith, clear_from_lem n 0 m k)

-- ===== src/Base/Masks.antt =====
-- Masks: what `&` and `|` do at a border between high and low digits.
use Prim.Native.Nat.{ℕ, zero, suc, ◌+◌, ◌*◌, ◌/◌, ◌%◌, ◌≤◌, bit_and, bit_or, bit_or-bitwise}
use mathlib.Core.Path.{◌≡◌, refl, ap}
use native.Mathlib.Omega.{arith}
use mirros.Base.Bits.{bit_and-halves, bit_or-halves, bit_and-le_each}

-- A number moved up and down by `k` digits, and the mask of the `k` lowest ones.
abbrev pub up : ℕ → ℕ → ℕ
up zero a = a
up (suc k) a = up k a * 2

abbrev pub down : ℕ → ℕ → ℕ
down zero a = a
down (suc k) a = down k (a / 2)

abbrev pub ones : ℕ → ℕ
ones zero = 0
ones (suc k) = ones k * 2 + 1

abbrev pub low : ℕ → ℕ → ℕ
low zero a = 0
low (suc k) a = low k (a / 2) * 2 + a % 2

pub bit_and-up : (k a m : ℕ) → bit_and a (up k m) ≡ up k (bit_and (down k a) m)
bit_and-up zero a m = refl
bit_and-up (suc k) a m =
    let half : up k m * 2 / 2 ≡ up k m = omega arith in
    omega (arith, bit_and-halves a (up k m * 2), ap (bit_and (a / 2)) half, bit_and-up k (a / 2) m)

pub bit_and-none : (a : ℕ) → bit_and a 0 ≡ 0
bit_and-none a = omega (arith, (bit_and-le_each a a 0 (omega arith)).1)

pub bit_and-ones : (k a : ℕ) → bit_and a (ones k) ≡ low k a
bit_and-ones zero a = bit_and-none a
bit_and-ones (suc k) a =
    let half : (ones k * 2 + 1) / 2 ≡ ones k = omega arith in
    omega
      (arith, bit_and-halves a (ones k * 2 + 1), ap (bit_and (a / 2)) half, bit_and-ones k (a / 2))

pub low_all : (k a : ℕ) → a ≤ ones k → low k a ≡ a
low_all zero a h = omega arith
low_all (suc k) a h = omega (arith, low_all k (a / 2) (omega arith))

pub bit_or-none : (a : ℕ) → bit_or 0 a ≡ a
bit_or-none a = bit_or-bitwise 0 a

pub bit_or-up : (k m b : ℕ) → b ≤ ones k → bit_or (up k m) b ≡ up k m + b
bit_or-up zero m b h = let none_left : b ≡ 0 = omega arith in rw none_left (bit_or-right m)
  where
    bit_or-right_at : (n m : ℕ) → m ≤ n → bit_or m 0 ≡ m
    bit_or-right_at n zero p = bit_or-none 0
    bit_or-right_at zero (suc m) p = absurd (omega arith)
    bit_or-right_at (suc n) (suc m) p =
        omega (arith, bit_or-halves (suc m) 0, bit_or-right_at n (suc m / 2) (omega arith))

    bit_or-right : (m : ℕ) → bit_or m 0 ≡ m + 0
    bit_or-right m = omega (arith, bit_or-right_at m m (omega arith))
bit_or-up (suc k) m b h =
    let half : up k m * 2 / 2 ≡ up k m = omega arith in
    omega (
      arith,
      bit_or-halves (up k m * 2) b,
      ap (λ t. bit_or t (b / 2)) half,
      bit_or-up k m (b / 2) (omega arith),
    )

-- ===== src/Base/Bits.antt =====
-- The binary digits of a number, and what `|` and `&` do to them.
use Prim.Native.Nat.{
  ℕ, zero, suc, ◌+◌, ◌*◌, ◌/◌, ◌%◌, ◌^◌, ◌≤◌, ◌<◌, min, max, bit_and, bit_or, digits,
  bit_and-bitwise, bit_or-bitwise,
}
use native.Mathlib.Nat.{pow-suc}
use mathlib.Core.Path.{◌≡◌, refl, ap, sym, ◌∙◌}
use mathlib.Core.Bool.{Bool, true, ◌&&◌}
use native.Mathlib.Omega.{arith}
use mirros.Base.Tests.{◌==◌, if◌then◌else◌}

-- Digit `k` of `a`.
abbrev pub digit : ℕ → ℕ → ℕ
digit a zero = a % 2
digit a (suc k) = digit (a / 2) k

pub digit-le-one : (a k : ℕ) → digit a k ≤ 1
digit-le-one a zero = omega arith
digit-le-one a (suc k) = digit-le-one (a / 2) k

-- The value of a digitwise operation, with any fuel from its first operand on.
module _ (z : ℕ → ℕ) (f : ℕ → ℕ → ℕ) where
  digits_enough :
      (bound fuel a b : ℕ) → fuel ≤ bound → a ≤ fuel → digits z f fuel a b ≡ digits z f a a b
  digits_enough bound zero zero b p q = refl
  digits_enough bound (suc fuel) zero b p q = refl
  digits_enough (suc bound) (suc fuel) (suc a) b p q =
      ap (λ t. t * 2 + f (suc a % 2) (b % 2))
        (digits_enough bound fuel (suc a / 2) (b / 2) (omega arith) (omega arith)
          ∙ sym (digits_enough bound a (suc a / 2) (b / 2) (omega arith) (omega arith)))
  digits_enough bound zero (suc a) b p q = absurd (omega arith)
  digits_enough zero (suc fuel) (suc a) b p q = absurd (omega arith)

  -- Its lowest digit, and the operation on the halves.
  digits_halves :
      (a b : ℕ)
      → digits z f (suc a) (suc a) b
        ≡ digits z f (suc a / 2) (suc a / 2) (b / 2) * 2 + f (suc a % 2) (b % 2)
  digits_halves a b =
      ap (λ t. t * 2 + f (suc a % 2) (b % 2))
        (digits_enough a a (suc a / 2) (b / 2) (omega arith) (omega arith))

pub bit_and-halves : (a b : ℕ) → bit_and a b ≡ bit_and (a / 2) (b / 2) * 2 + min (a % 2) (b % 2)
bit_and-halves zero b = omega (arith, bit_and-bitwise 0 b, bit_and-bitwise 0 (b / 2))
bit_and-halves (suc a) b =
    bit_and-bitwise (suc a) b
    ∙ digits_halves (λ t. zero) min a b
    ∙ ap (λ t. t * 2 + min (suc a % 2) (b % 2)) (sym (bit_and-bitwise (suc a / 2) (b / 2)))

pub bit_or-halves : (a b : ℕ) → bit_or a b ≡ bit_or (a / 2) (b / 2) * 2 + max (a % 2) (b % 2)
bit_or-halves zero b = omega (arith, bit_or-bitwise 0 b, bit_or-bitwise 0 (b / 2))
bit_or-halves (suc a) b =
    bit_or-bitwise (suc a) b
    ∙ digits_halves (λ t. t) max a b
    ∙ ap (λ t. t * 2 + max (suc a % 2) (b % 2)) (sym (bit_or-bitwise (suc a / 2) (b / 2)))

pub bit_and-le_each : (n a b : ℕ) → a ≤ n → (bit_and a b ≤ a) × (bit_and a b ≤ b)
bit_and-le_each n zero b h = let none_left = bit_and-bitwise 0 b in (omega arith, omega arith)
bit_and-le_each zero (suc a) b h = absurd (omega arith)
bit_and-le_each (suc n) (suc a) b h =
    let (left, right) = bit_and-le_each n (suc a / 2) (b / 2) (omega arith) in
    let halves = bit_and-halves (suc a) b in (omega arith, omega arith)

pub bit_and-le : (a b : ℕ) → bit_and a b ≤ a
bit_and-le a b = (bit_and-le_each a a b (omega arith)).0

pub digit-bit_and : (a b k : ℕ) → digit (bit_and a b) k ≡ min (digit a k) (digit b k)
digit-bit_and a b zero = omega (arith, bit_and-halves a b)
digit-bit_and a b (suc k) =
    let half : bit_and a b / 2 ≡ bit_and (a / 2) (b / 2) = omega (arith, bit_and-halves a b) in
    rw half (digit-bit_and (a / 2) (b / 2) k)

pub digit-bit_or : (a b k : ℕ) → digit (bit_or a b) k ≡ max (digit a k) (digit b k)
digit-bit_or a b zero = omega (arith, bit_or-halves a b)
digit-bit_or a b (suc k) =
    let half : bit_or a b / 2 ≡ bit_or (a / 2) (b / 2) = omega (arith, bit_or-halves a b) in
    rw half (digit-bit_or (a / 2) (b / 2) k)

-- A mask of one digit reads that digit.
pub bit_and-two_pow : (a k : ℕ) → bit_and a (2 ^ k) ≡ digit a k * 2 ^ k
bit_and-two_pow a zero =
    omega (arith, bit_and-halves a 1, (bit_and-le_each (a / 2) (a / 2) 0 (omega arith)).1)
bit_and-two_pow a (suc k) =
    let halved : 2 ^ suc k / 2 ≡ 2 ^ k = omega (arith, pow-suc 2 k) in
    let masked : bit_and (a / 2) (2 ^ suc k / 2) ≡ digit (a / 2) k * 2 ^ k =
      rw halved (bit_and-two_pow (a / 2) k) in
    omega (
      arith,
      pow-suc 2 k,
      bit_and-halves a (2 ^ suc k),
      masked,
      ap (λ (t : ℕ). digit (a / 2) k * t) (pow-suc 2 k),
    )

-- A test that holds of every number below a bound, by evaluation.
abbrev pub holds_below : (ℕ → Bool) → ℕ → Bool
holds_below test zero = true
holds_below test (suc n) = holds_below test n && test n

pub holds_at : (test : ℕ → Bool) (n x : ℕ) → holds_below test n ≡ true → x < n → test x ≡ true
holds_at test zero x all below = absurd (omega arith)
holds_at test (suc n) x all below = ground (arith, holds_at test n x)

digit-zero : (k : ℕ) → digit 0 k ≡ 0
digit-zero zero = refl
digit-zero (suc k) = digit-zero k

pub digit-two_pow : (y z : ℕ) → digit (2 ^ y) z ≡ (if y == z then 1 else 0)
digit-two_pow zero zero = refl
digit-two_pow zero (suc z) = ground (arith, digit-zero z)
digit-two_pow (suc y) zero = ground (arith, pow-suc 2 y)
digit-two_pow (suc y) (suc z) =
    let halved : 2 ^ suc y / 2 ≡ 2 ^ y = omega (arith, pow-suc 2 y) in
    rw halved (ground (arith, digit-two_pow y z))

pub bit_or-lt : (k a b : ℕ) → a < 2 ^ k → b < 2 ^ k → bit_or a b < 2 ^ k
bit_or-lt zero zero zero p q = omega arith
bit_or-lt zero (suc a) b p q = absurd (omega arith)
bit_or-lt zero zero (suc b) p q = absurd (omega arith)
bit_or-lt (suc k) a b p q = omega (
  arith,
  pow-suc 2 k,
  bit_or-halves a b,
  bit_or-lt k (a / 2) (b / 2) (omega (arith, pow-suc 2 k)) (omega (arith, pow-suc 2 k)),
)

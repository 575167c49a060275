-- ===== src/Text/Number.antt =====
-- kernel/string.c: `num_to_str` writes a number in its base, within 32 digits.
use mathlib.Core.Path.{subst}
use native.Mathlib.Nat.{div-add-mod, mod-lt, div-lt_iff_lt-mul, pow-suc, pow-zero, mul-le-mul_left}
use mirros.Base.{
  ℕ, zero, suc, ◌+◌, ◌-◌, ◌*◌, ◌/◌, ◌%◌, ◌^◌, ◌≤◌, ◌<◌, ◌≡◌, inl, inr, ap, sym, ◌∙◌, false, some,
  List, [], ◌∷◌, arith, ◌==◌, leb, Bool-cases, length,
}
use mirros.Text.{Memory, hex, at, low_digits, copy_back, num_to_str}
use mirros.Text.Copy.{in_range}
use mirros.Text.Digits.{
  digit_value, IsDigit, Spells, AllDigits, digit_value-hex, hex-IsDigit, low_value, low_from,
  low_from-low_value, copy_back_lem, copied, read_number-copy_back,
}

module _ (b : ℕ) (two : 2 ≤ b) (small : b ≤ 16) where
  half : (k n : ℕ) → n < 2 ^ suc k → n / b < 2 ^ k
  half k n h =
      (div-lt_iff_lt-mul {k = b} {x = n} {y = 2 ^ k} (omega arith)).1
        (omega (arith, pow-suc 2 k, mul-le-mul_left (2 ^ k) two))

  go_on : (k : ℕ) {q : ℕ} → q < 2 ^ suc k → b ≤ q → 0 < k
  go_on zero lt le = absurd (omega arith)
  go_on (suc k) lt le = omega arith

  AllDigits-cons : (d : ℕ) (ds : List ℕ) → IsDigit b d → AllDigits b ds → AllDigits b (d ∷ ds)
  AllDigits-cons d ds h hs zero lt = h
  AllDigits-cons d ds h hs (suc i) lt = hs i (omega arith)

  -- A number that leaves something behind its last digit is at least the base.
  one_more : (num : ℕ) → 0 < num / b → b ^ 1 ≤ num
  one_more num h =
      let le : 1 ≤ num / b = omega arith in
      omega (
        arith,
        div-add-mod num b,
        mul-le-mul_left b le,
        pow-suc b 0,
        ap (λ q. q * b) (pow-zero b),
        ap (λ e. b ^ e) {x = 1} {y = suc 0} (omega arith),
      )

  longer :
      (len num : ℕ)
      → 0 < len
      → 0 < num / b
      → (1 < len → b ^ (len - 1) ≤ num / b)
      → b ^ (suc len - 1) ≤ num
  longer zero num some_digit h rest = absurd (omega arith)
  longer (suc zero) num some_digit h rest = one_more num h
  longer (suc (suc len)) num some_digit h rest =
      let below : b ^ (len + 1) ≤ num / b =
        subst (λ e. b ^ e ≤ num / b) (omega arith) (rest (omega arith)) in
      let power : b ^ (suc (suc (suc len)) - 1) ≡ b ^ suc (len + 1) =
        ap (λ e. b ^ e) (omega arith) in
      omega (arith, div-add-mod num b, mul-le-mul_left b below, pow-suc b (len + 1), power)

  low_digits_lem :
      (k num : ℕ)
      → num < 2 ^ suc k
      → 0 < k
      → (ds : List ℕ) × (low_digits k num b ≡ some ds)
        × (low_value b ds ≡ num)
        × (0 < length ds)
        × (length ds ≤ suc k)
        × AllDigits b ds
        × (1 < length ds → b ^ (length ds - 1) ≤ num)
  unfolding low_digits
  low_digits_lem zero num h p = absurd (omega arith)
  low_digits_lem (suc k) num h p =
      let low = div-add-mod num b in
      let value : digit_value (at hex (num % b)) ≡ num % b =
        digit_value-hex (num % b) (omega (arith, mod-lt num {m = b} (omega arith))) in
      let lowest = hex-IsDigit b (num % b) (mod-lt num {m = b} (omega arith)) small in
      elim (Bool-cases (leb b (num / b))) [
        | inl e ↦
            let (ds, found, spells, some_digit, short, digits, no_zeros) =
              low_digits_lem k (num / b) (half (suc k) num h)
                (go_on k (half (suc k) num h) (ground arith)) in
            (
              at hex (num % b) ∷ ds,
              rw (e, found),
              rw (spells, value) low,
              omega arith,
              omega arith,
              AllDigits-cons (at hex (num % b)) ds lowest digits,
              λ h. longer (length ds) num some_digit (ground arith) no_zeros,
            )
        | inr e ↦ elim (Bool-cases (num / b == 0)) [
          | inl none_left ↦
              let none : b * (num / b) ≡ b * 0 = ap (λ (q : ℕ). b * q) (ground arith) in
              (
                at hex (num % b) ∷ [],
                rw (e, none_left),
                omega (arith, none, value, low),
                omega arith,
                omega arith,
                AllDigits-cons (at hex (num % b)) [] lowest (λ i h. absurd (omega arith)),
                λ h. absurd (omega arith),
              )
          | inr one_left ↦
              let top : b * 0 + digit_value (at hex (num / b)) ≡ num / b =
                omega (arith, digit_value-hex (num / b) (ground arith)) in
              let times : b * (b * 0 + digit_value (at hex (num / b))) ≡ b * (num / b) =
                ap (λ (q : ℕ). b * q) top in
              (
                at hex (num % b) ∷ at hex (num / b) ∷ [],
                rw (e, one_left),
                omega (arith, times, value, low),
                omega arith,
                omega arith,
                AllDigits-cons (at hex (num % b)) (at hex (num / b) ∷ []) lowest (
                    AllDigits-cons (at hex (num / b)) []
                      (hex-IsDigit b (num / b) (ground arith) small) (λ i h. absurd (omega arith))),
                λ h. one_more num (ground arith),
              )
        ]
      ]

  -- `num_to_str` of a 32-bit number in a base from 2 to 16 ends, with 31 rounds of its loop, and
  -- writes between 1 and 32 characters, which fit its buffer of 32: they are digits and spell the
  -- number in that base, without a 0 in front, and no other byte changes.
  pub num_to_str-read_number :
      (mem : Memory) (buf num : ℕ)
      → num < 2 ^ 32
      → (m : Memory) × (len : ℕ) × (num_to_str 31 mem buf num b ≡ some (m, len))
        × (len ≤ 32)
        × Spells b m buf len num
        × ((c : ℕ) → in_range buf len c ≡ false → m c ≡ mem c)
  unfolding num_to_str
  num_to_str-read_number mem buf num h =
      let (ds, found, spells, some_digit, short, digits, no_zeros) =
        low_digits_lem 31 num h (omega arith) in
      let len = length ds in
      (
        copy_back len ds mem buf,
        len,
        rw found,
        short,
        record {
          some_digit = some_digit;
          digits = λ i h.
              subst (IsDigit b) (sym (copied ds mem buf i h))
                (digits (length ds - 1 - i) (omega arith));
          value =
              read_number-copy_back b ds mem buf len len (omega arith)
              ∙ ap (low_from b ds len) {x = len - len} {y = 0} (omega arith)
              ∙ low_from-low_value b ds
              ∙ spells;
          no_zeros = no_zeros;
        },
        λ c out. copy_back_lem len ds mem buf c ∙ rw out,
      )

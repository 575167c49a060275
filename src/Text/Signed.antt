-- ===== src/Text/Signed.antt =====
-- kernel/string.c: `itoa`.
use mathlib.Core.Path.{subst}
use mirros.Base.{
  sym, ℕ, zero, suc, ◌+◌, ◌-◌, ◌^◌, ◌≤◌, ◌<◌, ◌≡◌, ◌≢◌, refl, ◌∙◌, false, some, arith, update,
}
use mirros.Base.Int.{ℤ, pos, negsuc}
use mirros.Text.{Memory, itoa, absolute}
use mirros.Text.Copy.{in_range}
use mirros.Text.Digits.{Spells}
use mirros.Text.Number.{num_to_str-read_number}

-- The number as `len` decimal characters from `buf` on, digits behind a `-` for a negative one.
abbrev pub IsDecimal : Memory → ℕ → ℕ → ℤ → Type 0
IsDecimal m buf len (pos n) = Spells 10 m buf len n
IsDecimal m buf len (negsuc n) = (m buf ≡ 45) × Spells 10 m (buf + 1) (len - 1) (suc n)

-- The values of a C int.
abbrev pub IsInt : ℤ → Type 0
IsInt (pos n) = n < 2 ^ 31
IsInt (negsuc n) = n < 2 ^ 31

-- `itoa` of any int ends, with 31 rounds of the loop below it, returns the number of characters
-- written, between 1 and 33, these are the number in decimal, digits alone without a 0 in front of
-- another, behind a minus sign for a negative one, and no other byte changes; the buffer is not NULL.
pub itoa-IsDecimal :
    (mem : Memory) (buf : ℕ) (num : ℤ)
    → buf ≢ 0
    → IsInt num
    → (m : Memory) × (len : ℕ) × (itoa 31 mem buf num ≡ some (m, pos len))
      × (0 < len)
      × (len ≤ 33)
      × IsDecimal m buf len num
      × ((c : ℕ) → in_range buf len c ≡ false → m c ≡ mem c)
unfolding itoa absolute
itoa-IsDecimal mem zero num d h = absurd (d refl)
itoa-IsDecimal mem (suc buf) (pos n) d h =
    let (m, len, found, short, spells, rest) =
      num_to_str-read_number 10 (omega arith) (omega arith) mem (suc buf) n (omega arith) in
    (m, len, rw found, spells.some_digit, omega arith, spells, rest)
itoa-IsDecimal mem (suc buf) (negsuc n) d h =
    let mem1 : Memory = update mem (suc buf) 45 in
    let (m, len, found, short, spells, rest) =
      num_to_str-read_number 10 (omega arith) (omega arith) mem1 (suc buf + 1) (absolute (negsuc n))
        (omega arith) in
    let len_is : len + 1 - 1 ≡ len = omega arith in
    let num_is : absolute (negsuc n) ≡ suc n = omega arith in
    (
      m,
      len + 1,
      rw found,
      omega arith,
      omega arith,
      (
        rest (suc buf) (ground arith) ∙ ground arith,
        subst (λ k. Spells 10 m (suc buf + 1) k (suc n)) (sym len_is)
            (subst (Spells 10 m (suc buf + 1) len) num_is spells),
      ),
      λ c o. rest c (ground arith) ∙ ground arith,
    )

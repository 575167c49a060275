-- ===== src/Text/Digits.antt =====
-- kernel/string.c: digits, the numbers that they spell, and the loop of `num_to_str` that turns them
-- round.
use mirros.Base.{
  ℕ, zero, suc, ◌+◌, ◌-◌, ◌*◌, ◌^◌, ◌≤◌, ◌<◌, ◌≡◌, refl, ap, ◌∙◌, List, [], ◌∷◌, arith, ◌==◌, leb,
  ltb, if◌then◌else◌, ==_iff, length, update,
}
use mirros.Base.Bits.{holds_at}
use mirros.Text.{Memory, hex, at, copy_back}
use mirros.Text.Copy.{in_range}

-- The value of a character as a digit.
abbrev pub digit_value : ℕ → ℕ
digit_value ch = if leb ch 57 then ch - 48 else ch - 87

pub digit_value-hex : (m : ℕ) → m < 16 → digit_value (at hex m) ≡ m
digit_value-hex m h = (==_iff _ m).0 (holds_at (λ t. digit_value (at hex t) == t) 16 m refl h)

-- The number that `len` characters from `buf` on spell in base `b`.
abbrev pub read_number : ℕ → Memory → ℕ → ℕ → ℕ
read_number b mem buf zero = 0
read_number b mem buf (suc len) = b * read_number b mem buf len + digit_value (mem (buf + len))

-- The digits as characters, from 0 to f.
abbrev pub digit_char : ℕ → ℕ
digit_char d = if ltb d 10 then 48 + d else 87 + d

-- A character that is a digit of base `b`.
abbrev pub IsDigit : ℕ → ℕ → Type 0
IsDigit b ch = (d : ℕ) × (d < b) × (ch ≡ digit_char d)

-- `len` characters from `buf` on, one at least and all of them digits, are the number in base `b`,
-- without a 0 in front of another digit.
pub record Spells (b : ℕ) (m : Memory) (buf len num : ℕ) : Type 0 where
  pub some_digit : 0 < len
  pub digits : (i : ℕ) → i < len → IsDigit b (m (buf + i))
  pub value : read_number b m buf len ≡ num
  pub no_zeros : 1 < len → b ^ (len - 1) ≤ num

-- The same of a list.
abbrev pub AllDigits : ℕ → List ℕ → Type 0
AllDigits b ds = (i : ℕ) → i < length ds → IsDigit b (at ds i)

pub hex-IsDigit : (b m : ℕ) → m < b → b ≤ 16 → IsDigit b (at hex m)
hex-IsDigit b m h small =
    (m, h, (==_iff _ _).0 (holds_at (λ t. at hex t == digit_char t) 16 m refl (omega arith)))

-- The number that a list of characters spells, the lowest digit first.
abbrev pub low_value : ℕ → List ℕ → ℕ
low_value b [] = 0
low_value b (d ∷ ds) = b * low_value b ds + digit_value d

-- The same of `n` elements from `i` on.
abbrev pub low_from : ℕ → List ℕ → ℕ → ℕ → ℕ
low_from b ds zero i = 0
low_from b ds (suc n) i = b * low_from b ds n (i + 1) + digit_value (at ds i)

at-cons : (d : ℕ) (ds : List ℕ) (i : ℕ) → at (d ∷ ds) (i + 1) ≡ at ds i
at-cons d ds i = ap (at (d ∷ ds)) {x = i + 1} {y = suc i} (omega arith)

low_from-cons :
    (b d : ℕ) (ds : List ℕ) (n i : ℕ) → low_from b (d ∷ ds) n (i + 1) ≡ low_from b ds n i
low_from-cons b d ds zero i = refl
low_from-cons b d ds (suc n) i =
    rw (low_from-cons b d ds n (i + 1))
      (ap (λ x. b * low_from b ds n (i + 1) + digit_value x) (at-cons d ds i))

pub low_from-low_value : (b : ℕ) (ds : List ℕ) → low_from b ds (length ds) 0 ≡ low_value b ds
low_from-low_value b [] = refl
low_from-low_value b (d ∷ ds) = rw (low_from-cons b d ds (length ds) 0, low_from-low_value b ds)

pub copy_back_lem :
    (len : ℕ) (ds : List ℕ) (mem : Memory) (buf c : ℕ)
    → copy_back len ds mem buf c
      ≡ (if in_range buf len c then at ds (len - 1 - (c - buf)) else mem c)
unfolding copy_back
copy_back_lem zero ds mem buf c = ground arith
copy_back_lem (suc len) ds mem buf c =
    copy_back_lem len ds (update mem buf (at ds len)) (buf + 1) c
    ∙ ground (
      arith,
      ap (at ds) {x = len - 1 - (c - (buf + 1))} {y = suc len - 1 - (c - buf)},
      ap (at ds) {x = len} {y = suc len - 1 - (c - buf)},
    )

pub copied :
    (ds : List ℕ) (mem : Memory) (buf i : ℕ)
    → i < length ds
    → copy_back (length ds) ds mem buf (buf + i) ≡ at ds (length ds - 1 - i)
copied ds mem buf i h = ground (
  arith,
  copy_back_lem (length ds) ds mem buf (buf + i),
  ap (at ds) {x = length ds - 1 - (buf + i - buf)} {y = length ds - 1 - i},
)

pub read_number-copy_back :
    (b : ℕ) (ds : List ℕ) (mem : Memory) (buf len n : ℕ)
    → n ≤ len
    → read_number b (copy_back len ds mem buf) buf n ≡ low_from b ds n (len - n)
read_number-copy_back b ds mem buf len zero h = refl
read_number-copy_back b ds mem buf len (suc n) h =
    let rest = read_number-copy_back b ds mem buf len n (omega arith) in
    let step : low_from b ds n (len - n) ≡ low_from b ds n (len - suc n + 1) =
      ap (low_from b ds n) (omega arith) in
    let here : copy_back len ds mem buf (buf + n) ≡ at ds (len - suc n) = ground (
      arith,
      copy_back_lem len ds mem buf (buf + n),
      ap (at ds) {x = len - 1 - (buf + n - buf)} {y = len - suc n},
    ) in
    ap (λ x. b * x + digit_value (copy_back len ds mem buf (buf + n))) (rest ∙ step)
    ∙ ap (λ x. b * low_from b ds n (len - suc n + 1) + digit_value x) here

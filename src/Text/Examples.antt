-- ===== src/Text/Examples.antt =====
-- kernel/string.c at a memory that holds "ab" at 10 and at 20, and "ac" at 30.
use mirros.Base.{
  ℕ, ◌+◌, ◌-◌, ◌≤◌, ◌<◌, ◌≡◌, refl, inr, false, some, List, [], ◌∷◌, arith, ◌==◌, if◌then◌else◌,
}
use mirros.Base.Int.{pos, negsuc}
use mirros.Text.{Memory, num_to_str, itoa, strcpy, strncpy, strcmp}
use mirros.Text.Copy.{in_range, Copied, strcpy-Copied, strncpy_lem}
use mirros.Text.Digits.{Spells}
use mirros.Text.Number.{num_to_str-read_number}
use mirros.Text.Signed.{IsDecimal, itoa-IsDecimal}
use mirros.Text.Strings.{IsString, compare_bytes, strcmp-compare_bytes}

abbrev memory : Memory
memory a =
    if a == 10
    then 97
    else if a == 11
    then 98
    else if a == 20
    then 97
    else if a == 21
    then 98
    else if a == 30
    then 97
    else if a == 31
    then 99
    else 0

abbrev ab : List ℕ
ab = 97 ∷ 98 ∷ []

ab-IsString : IsString memory 10 ab
ab-IsString = (refl, omega arith, (refl, omega arith, refl))

ac-IsString : IsString memory 30 (97 ∷ 99 ∷ [])
ac-IsString = (refl, omega arith, (refl, omega arith, refl))

num_to_str-read_number_example :
    (m : Memory) × (len : ℕ) × (num_to_str 31 memory 40 48879 16 ≡ some (m, len))
    × (len ≤ 32)
    × Spells 16 m 40 len 48879
    × ((c : ℕ) → in_range 40 len c ≡ false → m c ≡ memory c)
num_to_str-read_number_example =
    num_to_str-read_number 16 (omega arith) (omega arith) memory 40 48879 (omega arith)

itoa-IsDecimal_example :
    (m : Memory) × (len : ℕ) × (itoa 31 memory 40 (negsuc 2147483647) ≡ some (m, pos len))
    × (0 < len)
    × (len ≤ 33)
    × IsDecimal m 40 len (negsuc 2147483647)
    × ((c : ℕ) → in_range 40 len c ≡ false → m c ≡ memory c)
itoa-IsDecimal_example = itoa-IsDecimal memory 40 (negsuc 2147483647) (omega arith) (omega arith)

strcpy-Copied_example :
    (m : Memory) × (strcpy 3 memory 50 10 ≡ some (m, 50)) × Copied memory 50 ab m
strcpy-Copied_example =
    strcpy-Copied 3 memory 50 10 ab (omega arith) (omega arith) ab-IsString (inr (omega arith))
      (omega arith)

strncpy_lem_example :
    ((strncpy memory 50 10 2).1 ≡ 50)
    × ((strncpy memory 50 10 2).0 51
        ≡ (if in_range 50 2 51 then memory (10 + (51 - 50)) else memory 51))
strncpy_lem_example = strncpy_lem memory 50 10 2 51 (omega arith) (omega arith) (inr (omega arith))

strcmp-compare_bytes_example : strcmp 3 memory 10 30 ≡ some (compare_bytes ab (97 ∷ 99 ∷ []))
strcmp-compare_bytes_example =
    strcmp-compare_bytes 3 memory 10 30 ab (97 ∷ 99 ∷ []) ab-IsString ac-IsString (omega arith)

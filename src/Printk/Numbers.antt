-- ===== src/Printk/Numbers.antt =====
-- kernel/printk.c: the numbers that `numbric` writes, and what it leaves alone.
use mirros.Base.{
  ℕ, zero, suc, ◌+◌, ◌-◌, ◌*◌, ◌^◌, ◌≤◌, ◌<◌, ◌≡◌, ◌≢◌, refl, ap, sym, ◌∙◌, inl, inr, false, some,
  arith, ◌==◌, ltb, if◌then◌else◌, Bool-cases,
}
use mirros.Base.Int.{ℤ, pos, negsuc}
use mirros.Printk.{as_int, numbric}
use mirros.Text.{Memory, uitoa, hextoa}
use mirros.Text.Copy.{in_range}
use mirros.Text.Digits.{Spells, IsDigit, read_number, digit_value}
use mirros.Text.Number.{num_to_str-read_number}
use mathlib.Core.Path.{subst}
use mirros.Text.Signed.{IsDecimal, IsInt, itoa-IsDecimal}

-- The text of a word that a conversion writes at `p`: signed decimal for the flags 33, hexadecimal
-- for 18, and decimal for 17.
abbrev pub IsText : ℕ → Memory → ℕ → ℕ → ℕ → Type 0
IsText flag m p len word =
    if flag == 33
    then IsDecimal m p len (as_int word)
    else if flag == 18
    then Spells 16 m p len word
    else Spells 10 m p len word

-- A number that was read stays the same while its characters do.
read_number-frame :
    (b : ℕ) (m m' : Memory) (buf len : ℕ)
    → ((c : ℕ) → buf ≤ c → c < buf + len → m' c ≡ m c)
    → read_number b m' buf len ≡ read_number b m buf len
read_number-frame b m m' buf zero same = refl
read_number-frame b m m' buf (suc len) same =
    ap (λ x. b * x + digit_value (m' (buf + len)))
      (read_number-frame b m m' buf len (λ c p q. same c p (omega arith)))
    ∙ ap (λ x. b * read_number b m buf len + digit_value x)
        (same (buf + len) (omega arith) (omega arith))

Spells-frame :
    (b : ℕ) (m m' : Memory) (buf len num : ℕ)
    → ((c : ℕ) → buf ≤ c → c < buf + len → m' c ≡ m c)
    → Spells b m buf len num
    → Spells b m' buf len num
Spells-frame b m m' buf len num same s = record {
  some_digit = s.some_digit;
  digits =
      λ i h. subst (IsDigit b) (sym (same (buf + i) (omega arith) (omega arith))) (s.digits i h);
  value = read_number-frame b m m' buf len same ∙ s.value;
  no_zeros = s.no_zeros;
}

IsDecimal-frame :
    (m m' : Memory) (buf len : ℕ) (num : ℤ)
    → 0 < len
    → ((c : ℕ) → buf ≤ c → c < buf + len → m' c ≡ m c)
    → IsDecimal m buf len num
    → IsDecimal m' buf len num
IsDecimal-frame m m' buf len (pos n) some_digit same d = Spells-frame 10 m m' buf len n same d
IsDecimal-frame m m' buf len (negsuc n) some_digit same d = (
  same buf (omega arith) (omega arith) ∙ d.0,
  Spells-frame 10 m m' (buf + 1) (len - 1) (suc n) (λ c p q. same c (omega arith) (omega arith))
      d.1,
)

pub IsText-frame :
    (flag : ℕ) (m m' : Memory) (p len word : ℕ)
    → 0 < len
    → ((c : ℕ) → p ≤ c → c < p + len → m' c ≡ m c)
    → IsText flag m p len word
    → IsText flag m' p len word
IsText-frame flag m m' p len word some_digit same t = elim (Bool-cases (flag == 33)) [
  | inl e ↦ rw e (IsDecimal-frame m m' p len (as_int word) some_digit same (rw e at t))
  | inr e ↦ elim (Bool-cases (flag == 18)) [
    | inl f ↦ rw (e, f) (Spells-frame 16 m m' p len word same (rw (e, f) at t))
    | inr f ↦ rw (e, f) (Spells-frame 10 m m' p len word same (rw (e, f) at t))
  ]
]

-- What a conversion leaves: some characters from `p` on, and nothing else changed.
pub record Printed (flag : ℕ) (mem : Memory) (p word : ℕ) (m : Memory) (len : ℕ) : Type 0 where
  pub some_digit : 0 < len
  pub text : IsText flag m p len word
  pub others : (c : ℕ) → in_range p len c ≡ false → m c ≡ mem c

as_int-IsInt : (word : ℕ) → word < 2 ^ 32 → IsInt (as_int word)
as_int-IsInt word h = elim (Bool-cases (ltb word (2 ^ 31))) [
  | inl e ↦ rw e (ground arith)
  | inr e ↦ rw e (ground arith)
]

-- The word at `p` in the form that the flags say.
abbrev pub Prints : ℕ → Memory → ℕ → ℕ → Type 0
Prints flag mem p word =
    (m : Memory) × (len : ℕ) × (numbric mem p word flag ≡ some (m, pos len))
    × Printed flag mem p word m len

module _ (mem : Memory) (p word : ℕ) (d : p ≢ 0) (h : word < 2 ^ 32) where
  pub signed-Prints : Prints 33 mem p word
  unfolding numbric
  signed-Prints =
      let (m, len, found, some_digit, short, text, rest) =
        itoa-IsDecimal mem p (as_int word) d (as_int-IsInt word h) in
      (m, len, rw found, record { some_digit = some_digit; text = text; others = rest })

  pub hex-Prints : Prints 18 mem p word
  unfolding numbric hextoa
  hex-Prints =
      let (m, len, found, short, text, rest) =
        num_to_str-read_number 16 (omega arith) (omega arith) mem p word h in
      (m, len, rw found, record { some_digit = text.some_digit; text = text; others = rest })

  pub unsigned-Prints : Prints 17 mem p word
  unfolding numbric uitoa
  unsigned-Prints =
      let (m, len, found, short, text, rest) =
        num_to_str-read_number 10 (omega arith) (omega arith) mem p word h in
      (m, len, rw found, record { some_digit = text.some_digit; text = text; others = rest })

-- ===== src/Text/Strings.antt =====
-- kernel/string.c: strings in memory, their length and their comparison.
use mirros.Base.{
  ℕ, zero, suc, ◌+◌, ◌<◌, ◌≡◌, ◌≢◌, ◌↔◌, inl, inr, refl, ap, ◌∙◌, false, some, List, [], ◌∷◌, arith,
  ◌==◌, if◌then◌else◌, Bool-cases, length,
}
use mirros.Base.Int.{ℤ, pos, minus_one}
use mirros.Text.{Memory, count_bytes, strlen, strcmp, strncmp, sign_of}

-- The string at address `a` is the bytes `xs`, none of them 0, and a 0 behind them.
abbrev pub IsString : Memory → ℕ → List ℕ → Type 0
IsString mem a [] = mem a ≡ 0
IsString mem a (x ∷ xs) = (mem a ≡ x) × (x ≢ 0) × IsString mem (a + 1) xs

count_bytes-IsString :
    (fuel : ℕ) (mem : Memory) (a : ℕ) (xs : List ℕ)
    → IsString mem a xs
    → length xs < fuel
    → count_bytes fuel mem a ≡ some (length xs)
unfolding count_bytes
count_bytes-IsString zero mem a xs s f = absurd (omega arith)
count_bytes-IsString (suc k) mem a [] s f = rw s
count_bytes-IsString (suc k) mem a (x ∷ xs) s f =
    let rest = count_bytes-IsString k mem (a + 1) xs s.2 (omega arith) in
    let more : (mem a == 0) ≡ false = ground (arith, s) in rw (more, rest)

-- `strlen` of a string is its length, with more fuel than that; of NULL it is -1.
pub strlen-IsString :
    (fuel : ℕ) (mem : Memory) (a : ℕ) (xs : List ℕ)
    → IsString mem a xs
    → length xs < fuel
    → strlen fuel mem a ≡ some (if a == 0 then minus_one else pos (length xs))
unfolding strlen
strlen-IsString fuel mem zero xs s f = refl
strlen-IsString fuel mem (suc a) xs s f =
    let more : (suc a == 0) ≡ false = ground arith in
    rw (count_bytes-IsString fuel mem (suc a) xs s f, more)

-- The order of two strings, byte by byte.
abbrev pub compare_bytes : List ℕ → List ℕ → ℤ
compare_bytes [] [] = pos 0
compare_bytes [] (y ∷ ys) = minus_one
compare_bytes (x ∷ xs) [] = pos 1
compare_bytes (x ∷ xs) (y ∷ ys) = if x == y then compare_bytes xs ys else sign_of x y

-- `strcmp` of two strings ends and is their order, with more fuel than the first is long.
pub strcmp-compare_bytes :
    (fuel : ℕ) (mem : Memory) (a b : ℕ) (xs ys : List ℕ)
    → IsString mem a xs
    → IsString mem b ys
    → length xs < fuel
    → strcmp fuel mem a b ≡ some (compare_bytes xs ys)
unfolding strcmp
strcmp-compare_bytes zero mem a b xs ys s t f = absurd (omega arith)
strcmp-compare_bytes (suc k) mem a b [] [] s t f = rw (s, t)
strcmp-compare_bytes (suc k) mem a b [] (y ∷ ys) s t f = rw s (ground (arith, t))
strcmp-compare_bytes (suc k) mem a b (x ∷ xs) [] s t f = rw t (ground (arith, s))
strcmp-compare_bytes (suc k) mem a b (x ∷ xs) (y ∷ ys) s t f =
    let rest = strcmp-compare_bytes k mem (a + 1) (b + 1) xs ys s.2 t.2 (omega arith) in
    ground (arith, rest, s.0, s.1, t.0, t.1)

-- The order is 0 for equal strings only.
pub compare_bytes_iff : (xs ys : List ℕ) → (compare_bytes xs ys ≡ pos 0) ↔ (xs ≡ ys)
compare_bytes_iff [] [] = (λ e. refl, λ e. refl)
compare_bytes_iff [] (y ∷ ys) = (λ e. cc, λ e. cc)
compare_bytes_iff (x ∷ xs) [] = (λ e. cc, λ e. cc)
compare_bytes_iff (x ∷ xs) (y ∷ ys) = elim (Bool-cases (x == y)) [
  | inl e ↦
      let same : x ≡ y = ground arith in
      rw e (
        λ h. rw same (ap (λ zs. y ∷ zs) ((compare_bytes_iff xs ys).0 h)),
        λ h. (compare_bytes_iff xs ys).1 (ap tail_of h),
      )
  | inr e ↦ rw e (λ h. absurd (ground arith), λ h. absurd (ground (arith, ap head_of h)))
]
  where
    tail_of : List ℕ → List ℕ
    tail_of [] = []
    tail_of (z ∷ zs) = zs

    head_of : List ℕ → ℕ
    head_of [] = 0
    head_of (z ∷ zs) = z

-- `strncmp` is 0 exactly when the two ranges of `n` bytes are equal.
pub strncmp_iff :
    (mem : Memory) (a b n : ℕ)
    → (strncmp mem a b n ≡ pos 0) ↔ ((i : ℕ) → i < n → mem (a + i) ≡ mem (b + i))
unfolding strncmp
strncmp_iff mem a b zero = (λ e i lt. absurd (omega arith), λ h. refl)
strncmp_iff mem a b (suc n) =
    let rest = strncmp_iff mem (a + 1) (b + 1) n in
    elim (Bool-cases (mem a == mem b)) [
      | inl e ↦ rw e (
        λ h. first_then (ground arith) (rest.0 h),
        λ h. rest.1 (λ i lt. shifted i (h (suc i) (omega arith))),
      )
      | inr e ↦ rw e (λ h. absurd (ground arith), λ h. absurd (ground (arith, h 0)))
    ]
  where
    first_then :
        mem a ≡ mem b
        → ((i : ℕ) → i < n → mem (a + 1 + i) ≡ mem (b + 1 + i))
        → (i : ℕ) → i < suc n
        → mem (a + i) ≡ mem (b + i)
    first_then e h zero lt = ap mem (omega arith) ∙ e ∙ ap mem (omega arith)
    first_then e h (suc i) lt = ap mem (omega arith) ∙ h i (omega arith) ∙ ap mem (omega arith)

    shifted : (i : ℕ) → mem (a + suc i) ≡ mem (b + suc i) → mem (a + 1 + i) ≡ mem (b + 1 + i)
    shifted i e = ap mem (omega arith) ∙ e ∙ ap mem (omega arith)

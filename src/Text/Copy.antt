-- ===== src/Text/Copy.antt =====
-- kernel/string.c: copying and filling of memory.
use mirros.Base.{
  ℕ, zero, suc, ◌+◌, ◌≤◌, ◌<◌, ◌≡◌, ◌≢◌, ◌⊎◌, refl, ap, ◌∙◌, Bool, true, false, ◌&&◌, ◌||◌, ◌-◌,
  some, List, [], ◌∷◌, arith, ◌==◌, ltb, leb, if◌then◌else◌, length, update,
}
use mirros.Text.{Memory, copy_string, strcpy, copy_bytes, strncpy, fill, memset}
use mirros.Text.Strings.{IsString}

-- Inside of the range of `n` bytes at `a`.
abbrev pub in_range : ℕ → ℕ → ℕ → Bool
in_range a n c = leb a c && ltb c (a + n)

fill_lem :
    (k i : ℕ) (mem : Memory) (base ch c : ℕ)
    → fill k i mem base ch c ≡ (if in_range (base + i) k c then ch else mem c)
unfolding fill
fill_lem zero i mem base ch c = ground arith
fill_lem (suc k) i mem base ch c =
    ground (arith, fill_lem k (i + 1) (update mem (base + i) ch) base ch c)

-- `memset` writes the byte to the whole range and to nothing else.
pub memset_lem :
    (mem : Memory) (base ch size c : ℕ)
    → memset mem base ch size c ≡ (if in_range base size c then ch else mem c)
unfolding memset
memset_lem mem base ch size c = ground (arith, fill_lem size 0 mem base ch c)

-- Two ranges of `n` bytes without a common byte.
abbrev pub AreApart : ℕ → ℕ → ℕ → Type 0
AreApart a b n = (a + n ≤ b) ⊎ (b + n ≤ a)

copy_bytes_lem :
    (k i : ℕ) (mem : Memory) (des src c : ℕ)
    → AreApart des src (i + k)
    → copy_bytes k i mem des src c
      ≡ (if in_range (des + i) k c then mem (src + (c - des)) else mem c)
unfolding copy_bytes
copy_bytes_lem zero i mem des src c h = ground arith
copy_bytes_lem (suc k) i mem des src c h =
    copy_bytes_lem k (i + 1) (update mem (des + i) (mem (src + i))) des src c (omega arith)
    ∙ ground (arith, ap mem {x = src + i} {y = src + (c - des)})

-- `strncpy` copies `len` bytes, also behind a 0, and changes nothing else.
pub strncpy_lem :
    (mem : Memory) (des src len c : ℕ)
    → des ≢ 0
    → src ≢ 0
    → AreApart des src len
    → ((strncpy mem des src len).1 ≡ des)
      × ((strncpy mem des src len).0 c
          ≡ (if in_range des len c then mem (src + (c - des)) else mem c))
unfolding strncpy
strncpy_lem mem des src len c d s h =
    let test : ((des == 0) || (src == 0)) ≡ false = ground arith in
    rw test (refl, ground (arith, copy_bytes_lem len 0 mem des src c))

-- A string in a range that is not written is still there.
pub IsString-frame :
    (m m' : Memory) (a : ℕ) (xs : List ℕ)
    → ((c : ℕ) → in_range a (length xs + 1) c ≡ true → m' c ≡ m c)
    → IsString m a xs
    → IsString m' a xs
IsString-frame m m' a [] same s = same a (ground arith) ∙ s
IsString-frame m m' a (x ∷ xs) same s = (
  same a (ground arith) ∙ s.0,
  s.1,
  IsString-frame m m' (a + 1) xs (λ c i. same c (ground arith)) s.2,
)

-- What `strcpy` leaves: the string at its target, and every byte outside of that as it was.
pub record Copied (mem : Memory) (des : ℕ) (xs : List ℕ) (m : Memory) : Type 0 where
  pub copy : IsString m des xs
  pub others : (c : ℕ) → in_range des (length xs + 1) c ≡ false → m c ≡ mem c

copy_string-Copied :
    (fuel : ℕ) (mem : Memory) (des src : ℕ) (xs : List ℕ)
    → IsString mem src xs
    → AreApart des src (length xs + 1)
    → length xs < fuel
    → (m : Memory) × (copy_string fuel mem des src ≡ some m) × Copied mem des xs m
unfolding copy_string
copy_string-Copied zero mem des src xs s h f = absurd (omega arith)
copy_string-Copied (suc k) mem des src [] s h f =
    (update mem des (mem src), rw s, record { copy = ground arith; others = λ c out. ground arith })
copy_string-Copied (suc k) mem des src (x ∷ xs) s h f =
    let mem1 : Memory = update mem des (mem src) in
    let (m, found, copied) =
      copy_string-Copied k mem1 (des + 1) (src + 1) xs
        (IsString-frame mem mem1 (src + 1) xs (λ c i. ground arith) s.2) (omega arith)
        (omega arith) in
    let more : (mem src == 0) ≡ false = ground (arith, s.0, s.1) in
    (
      m,
      rw more found,
      record {
        copy = (ground (arith, copied.others des, s.0), s.1, copied.copy);
        others = λ c out. ground (arith, copied.others c);
      },
    )

-- `strcpy` of a string ends, with more fuel than the string is long, returns its target, and
-- leaves the string there and every other byte as it was; neither pointer is NULL, and the two
-- strings do not overlap.
pub strcpy-Copied :
    (fuel : ℕ) (mem : Memory) (des src : ℕ) (xs : List ℕ)
    → des ≢ 0
    → src ≢ 0
    → IsString mem src xs
    → AreApart des src (length xs + 1)
    → length xs < fuel
    → (m : Memory) × (strcpy fuel mem des src ≡ some (m, des)) × Copied mem des xs m
unfolding strcpy
strcpy-Copied fuel mem des src xs d e s h f =
    let (m, found, copied) = copy_string-Copied fuel mem des src xs s h f in
    let test : ((des == 0) || (src == 0)) ≡ false = ground arith in (m, rw (test, found), copied)

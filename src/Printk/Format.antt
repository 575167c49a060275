-- ===== src/Printk/Format.antt =====
-- kernel/printk.c: formats as sequences of pieces, and the text that a format stands for.
use mirros.Base.{ℕ, ◌+◌, ◌≤◌, ◌<◌, ◌≡◌, ◌≢◌, ◌∙◌, true, List, [], ◌∷◌, ◌++◌, arith, length}
use mirros.Base.Words.{u8}
use mirros.Printk.{Args, number_flag}
use mirros.Printk.Numbers.{IsText, IsText-frame}
use mirros.Text.{Memory}
use mirros.Text.Copy.{in_range, IsString-frame}
use mirros.Text.Strings.{IsString}

pub data Conversion : Type 0 where
  signed hexadecimal unsigned octal : Conversion

-- A piece is a character, a number, a character argument, a percent sign, or a `%` with a letter
-- that is no conversion, or a string (%s), with the text that it prints.
pub data Piece : Type 0 where
  plain : ℕ → Piece
  number : Conversion → Piece
  char : Piece
  percent : Piece
  odd : ℕ → Piece
  string : List ℕ → Piece

abbrev pub letter : Conversion → ℕ
letter signed = 100
letter hexadecimal = 120
letter unsigned = 117
letter octal = 111

-- The form of a number; %o prints a signed decimal as %d does.
abbrev pub flag_of : Conversion → ℕ
flag_of signed = 33
flag_of hexadecimal = 18
flag_of unsigned = 17
flag_of octal = 33

abbrev pub source_of : Piece → List ℕ
source_of (plain ch) = ch ∷ []
source_of (number c) = 37 ∷ letter c ∷ []
source_of char = 37 ∷ 99 ∷ []
source_of percent = 37 ∷ 37 ∷ []
source_of (odd ch) = 37 ∷ ch ∷ []
source_of (string xs) = 37 ∷ 115 ∷ []

abbrev pub format : List Piece → List ℕ
format [] = []
format (x ∷ xs) = source_of x ++ format xs

-- The pieces of a format are the only reading of it.
abbrev pub IsPiece : Piece → Type 0
IsPiece (plain ch) = ch ≢ 37
IsPiece (odd ch) = (number_flag ch ≡ 0) × (ch ≢ 115) × (ch ≢ 99) × (ch ≢ 37)
IsPiece _ = Unit

abbrev pub AllPieces : List Piece → Type 0
AllPieces [] = Unit
AllPieces (x ∷ xs) = IsPiece x × AllPieces xs

-- The words that a piece reads.
abbrev pub reads : Piece → ℕ
reads (number c) = 1
reads char = 1
reads (string xs) = 1
reads _ = 0

-- The characters `xs` stand at `a`.
abbrev pub Stands : Memory → ℕ → List ℕ → Type 0
Stands m a [] = Unit
Stands m a (x ∷ xs) = (m a ≡ x) × Stands m (a + 1) xs

-- What a piece reads lies below `bound`: the argument of a %s is a string, not NULL, shorter than
-- the fuel.
abbrev pub Readable : ℕ → Args → Memory → ℕ → Piece → ℕ → Type 0
Readable fuel args mem bound (string xs) i =
    (args i ≢ 0) × IsString mem (args i) xs × (args i + length xs < bound) × (length xs < fuel)
Readable fuel args mem bound _ i = Unit

-- The same of a sequence of pieces.
abbrev pub AllReadable : ℕ → Args → Memory → ℕ → List Piece → ℕ → Type 0
AllReadable fuel args mem bound [] i = Unit
AllReadable fuel args mem bound (x ∷ xs) i =
    Readable fuel args mem bound x i × AllReadable fuel args mem bound xs (i + reads x)

-- The characters from `a` to `e` show a piece, whose first word is number `i`.
abbrev pub Shown : Args → Memory → ℕ → Piece → ℕ → ℕ → Type 0
Shown args m a (plain ch) i e = (m a ≡ ch) × (e ≡ a + 1)
Shown args m a (number c) i e =
    (len : ℕ) × (0 < len) × IsText (flag_of c) m a len (args i) × (e ≡ a + len)
Shown args m a char i e = (m a ≡ u8 (args i)) × (e ≡ a + 1)
Shown args m a percent i e = (m a ≡ 37) × (e ≡ a + 1)
Shown args m a (odd ch) i e = (m a ≡ 37) × (m (a + 1) ≡ ch) × (e ≡ a + 2)
Shown args m a (string xs) i e = Stands m a xs × (e ≡ a + length xs)

-- The same of a sequence of pieces.
abbrev pub AllShown : Args → Memory → ℕ → List Piece → ℕ → ℕ → Type 0
AllShown args m a [] i e = e ≡ a
AllShown args m a (x ∷ xs) i e =
    (b : ℕ) × (a ≤ b) × Shown args m a x i b × AllShown args m b xs (i + reads x) e

pub below-string : (a n bound c : ℕ) → a + n < bound → in_range a (n + 1) c ≡ true → c < bound
below-string a n bound c h i = ground arith

Stands-frame :
    (m m' : Memory) (a : ℕ) (xs : List ℕ)
    → ((c : ℕ) → a ≤ c → c < a + length xs → m' c ≡ m c)
    → Stands m a xs
    → Stands m' a xs
Stands-frame m m' a [] same s = tt
Stands-frame m m' a (x ∷ xs) same s = (
  same a (omega arith) (omega arith) ∙ s.0,
  Stands-frame m m' (a + 1) xs (λ c p q. same c (omega arith) (omega arith)) s.1,
)

-- What is readable stays so while the memory below the bound does, with any lower bound.
module _ (fuel : ℕ) (args : Args) (m m' : Memory) (bound : ℕ)
    (same : (c : ℕ) → c < bound → m' c ≡ m c) where
  pub Readable-frame :
      (x : Piece) (i above : ℕ)
      → bound ≤ above
      → Readable fuel args m bound x i
      → Readable fuel args m' above x i
  Readable-frame (string xs) i above le (d, s, lt, f) = (
    d,
    IsString-frame m m' (args i) xs
        (λ c inside. same c (below-string (args i) (length xs) bound c lt inside)) s,
    omega arith,
    f,
  )
  Readable-frame (plain ch) i above le r = tt
  Readable-frame (number c) i above le r = tt
  Readable-frame char i above le r = tt
  Readable-frame percent i above le r = tt
  Readable-frame (odd ch) i above le r = tt

  pub AllReadable-frame :
      (xs : List Piece) (i : ℕ)
      → AllReadable fuel args m bound xs i
      → AllReadable fuel args m' bound xs i
  AllReadable-frame [] i r = tt
  AllReadable-frame (x ∷ xs) i r =
      (Readable-frame x i bound (omega arith) r.0, AllReadable-frame xs (i + reads x) r.1)

module _ (args : Args) (m m' : Memory) where
  pub Shown-frame :
      (a : ℕ) (x : Piece) (i e : ℕ)
      → ((c : ℕ) → a ≤ c → c < e → m' c ≡ m c)
      → Shown args m a x i e
      → Shown args m' a x i e
  Shown-frame a (plain ch) i e same s = (same a (omega arith) (omega (arith, s.1)) ∙ s.0, s.1)
  Shown-frame a (number c) i e same (len, some_digit, text, end) = (
    len,
    some_digit,
    IsText-frame (flag_of c) m m' a len (args i) some_digit (λ d p q. same d p (omega (arith, end)))
        text,
    end,
  )
  Shown-frame a char i e same s = (same a (omega arith) (omega (arith, s.1)) ∙ s.0, s.1)
  Shown-frame a percent i e same s = (same a (omega arith) (omega (arith, s.1)) ∙ s.0, s.1)
  Shown-frame a (odd ch) i e same (p, q, end) = (
    same a (omega arith) (omega (arith, end)) ∙ p,
    same (a + 1) (omega arith) (omega (arith, end)) ∙ q,
    end,
  )
  Shown-frame a (string xs) i e same (s, end) =
      (Stands-frame m m' a xs (λ d p q. same d p (omega (arith, end))) s, end)

pub AllShown-le :
    (args : Args) (m : Memory) (a : ℕ) (xs : List Piece) (i e : ℕ)
    → AllShown args m a xs i e
    → a ≤ e
AllShown-le args m a [] i e s = omega arith
AllShown-le args m a (x ∷ xs) i e (b, lt, s, rest) =
    omega (arith, lt, AllShown-le args m b xs (i + reads x) e rest)

pub AllShown-frame :
    (args : Args) (m m' : Memory) (a : ℕ) (xs : List Piece) (i e : ℕ)
    → ((c : ℕ) → a ≤ c → c < e → m' c ≡ m c)
    → AllShown args m a xs i e
    → AllShown args m' a xs i e
AllShown-frame args m m' a [] i e same s = s
AllShown-frame args m m' a (x ∷ xs) i e same (b, lt, s, rest) =
    let le = AllShown-le args m b xs (i + reads x) e rest in
    (
      b,
      lt,
      Shown-frame args m m' a x i b (λ c p q. same c p (omega arith)) s,
      AllShown-frame args m m' b xs (i + reads x) e (λ c p q. same c (omega arith) q) rest,
    )

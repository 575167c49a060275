-- ===== src/Printk/Rounds.antt =====
-- kernel/printk.c: a round of the loop of `vsprintf` shows a piece of the format.
use mirros.Base.{
  ℕ, ◌+◌, ◌≤◌, ◌<◌, ◌^◌, ◌≡◌, ◌≢◌, refl, ap, ◌∙◌, inr, true, false, some, List, [], ◌∷◌, ◌++◌,
  arith, ◌==◌, update, length,
}
use mirros.Base.Words.{u8}
use mirros.Printk.{Args, Printing, number_flag, convert, print_round}
use mirros.Printk.Format.{
  Conversion, Piece, signed, hexadecimal, unsigned, octal, plain, number, char, percent, odd,
  string, source_of, letter, flag_of, IsPiece, reads, Readable, Stands, Shown,
}
use mirros.Printk.Numbers.{Prints, signed-Prints, hex-Prints, unsigned-Prints}
use mirros.Text.{Memory, strncpy}
use mirros.Text.Copy.{in_range, strncpy_lem}
use mirros.Text.Strings.{IsString, strlen-IsString}
use mathlib.Core.Path.{subst}

below-in_range : (p len b : ℕ) → b < p → in_range p len b ≡ false
below-in_range p len b lt = ground arith

IsString-Stands :
    (m mem : Memory) (a p : ℕ) (xs : List ℕ)
    → ((j : ℕ) → j < length xs → m (p + j) ≡ mem (a + j))
    → IsString mem a xs
    → Stands m p xs
IsString-Stands m mem a p [] same s = tt
IsString-Stands m mem a p (x ∷ xs) same s = (
  subst (λ b. m b ≡ x) (omega arith)
      (same 0 (omega arith) ∙ subst (λ b. mem b ≡ x) (omega arith) s.0),
  IsString-Stands m mem (a + 1) (p + 1) xs
      (λ j lt.
        subst (λ b. m b ≡ mem (a + 1 + j)) (omega arith)
          (same (j + 1) (omega arith) ∙ ap mem (omega arith)))
      s.2,
)

-- A copy of a string that lies below its target.
module _ (mem : Memory) (p a : ℕ) (xs : List ℕ) (d : p ≢ 0) (e : a ≢ 0)
    (apart : a + length xs < p) where
  strncpy-at : (j : ℕ) → j < length xs → (strncpy mem p a (length xs)).0 (p + j) ≡ mem (a + j)
  strncpy-at j lt =
      let inside : in_range p (length xs) (p + j) ≡ true = ground arith in
      (strncpy_lem mem p a (length xs) (p + j) d e (inr (omega arith))).1
      ∙ rw inside (ap mem (omega arith))

  strncpy-below : (c : ℕ) → c < p → (strncpy mem p a (length xs)).0 c ≡ mem c
  strncpy-below c lt =
      let outside = below-in_range p (length xs) c lt in
      (strncpy_lem mem p a (length xs) c d e (inr (omega arith))).1 ∙ rw outside refl

-- The state of the loop.
abbrev pub at_fmt : Memory → ℕ → ℕ → ℕ → Printing
at_fmt mem str fmt i = record { mem = mem; str = str; fmt = fmt; read = i }

-- What a round leaves: the piece is shown from `str` on, and all below is as it was.
pub record Round (args : Args) (mem : Memory) (str fmt i : ℕ) (x : Piece) (p : Printing)
    : Type 0 where
  pub next : p.fmt ≡ fmt + length (source_of x)
  pub words : p.read ≡ i + reads x
  pub longer : str ≤ p.str
  pub shown : Shown args p.mem str x i p.str
  pub below : (c : ℕ) → c < str → p.mem c ≡ mem c

letter-flag_of : (c : Conversion) → number_flag (letter c) ≡ flag_of c
letter-flag_of signed = refl
letter-flag_of hexadecimal = refl
letter-flag_of unsigned = refl
letter-flag_of octal = refl

flag_of-more : (c : Conversion) → (flag_of c == 0) ≡ false
flag_of-more signed = refl
flag_of-more hexadecimal = refl
flag_of-more unsigned = refl
flag_of-more octal = refl

module _ (fuel : ℕ) (args : Args) (mem : Memory) (str fmt i : ℕ) where
  flag-Prints : (c : Conversion) → str ≢ 0 → args i < 2 ^ 32 → Prints (flag_of c) mem str (args i)
  flag-Prints signed d h = signed-Prints mem str (args i) d h
  flag-Prints hexadecimal d h = hex-Prints mem str (args i) d h
  flag-Prints unsigned d h = unsigned-Prints mem str (args i) d h
  flag-Prints octal d h = signed-Prints mem str (args i) d h

  pub print_round-Round :
      (x : Piece) (rest : List ℕ)
      → str ≢ 0
      → args i < 2 ^ 32
      → IsPiece x
      → Readable fuel args mem str x i
      → IsString mem fmt (source_of x ++ rest)
      → (p : Printing) × (print_round fuel args (at_fmt mem str fmt i) ≡ some p)
        × Round args mem str fmt i x p
  unfolding print_round convert
  print_round-Round (plain ch) rest d h ok r s =
      let e : (ch == 37) ≡ false = ground (arith, ok) in
      (
        record { mem = update mem str ch; str = str + 1; fmt = fmt + 1; read = i },
        rw (s.0, e),
        record {
          next = refl;
          words = omega arith;
          longer = omega arith;
          shown = (ground arith, refl);
          below = λ c b. ground arith;
        },
      )
  print_round-Round (number c) rest d h ok r s =
      let (m, len, found, printed) = flag-Prints c d h in
      (
        record { mem = m; str = str + len; fmt = fmt + 2; read = i + 1 },
        rw (s.0, s.2.0, letter-flag_of c, flag_of-more c, found),
        record {
          next = refl;
          words = refl;
          longer = omega (arith, printed.some_digit);
          shown = (len, printed.some_digit, printed.text, refl);
          below = λ b lt. printed.others b (below-in_range str len b lt);
        },
      )
  print_round-Round char rest d h ok r s = (
    record { mem = update mem str (u8 (args i)); str = str + 1; fmt = fmt + 2; read = i + 1 },
    rw (s.0, s.2.0),
    record {
      next = refl;
      words = refl;
      longer = omega arith;
      shown = (ground arith, refl);
      below = λ c b. ground arith;
    },
  )
  print_round-Round percent rest d h ok r s = (
    record { mem = update mem str 37; str = str + 1; fmt = fmt + 2; read = i },
    rw (s.0, s.2.0),
    record {
      next = refl;
      words = omega arith;
      longer = omega arith;
      shown = (ground arith, refl);
      below = λ c b. ground arith;
    },
  )
  print_round-Round (odd ch) rest d h ok r s =
      let is_s : (ch == 115) ≡ false = ground (arith, ok.1) in
      let is_c : (ch == 99) ≡ false = ground (arith, ok.2) in
      let is_percent : (ch == 37) ≡ false = ground (arith, ok.3) in
      (
        record {
          mem = update (update mem str 37) (str + 1) ch;
          str = str + 1 + 1;
          fmt = fmt + 2;
          read = i;
        },
        rw (s.0, s.2.0, ok.0, is_s, is_c, is_percent),
        record {
          next = refl;
          words = omega arith;
          longer = omega arith;
          shown = (ground arith, ground arith, omega arith);
          below = λ c b. ground arith;
        },
      )
  print_round-Round (string xs) rest d h ok r s =
      let len = strlen-IsString fuel mem (args i) xs r.1 r.3 in
      let some_string : (args i == 0) ≡ false = ground (arith, r.0) in
      let copy = strncpy mem str (args i) (length xs) in
      (
        record { mem = copy.0; str = str + length xs; fmt = fmt + 2; read = i + 1 },
        rw (s.0, s.2.0, len, some_string),
        record {
          next = refl;
          words = refl;
          longer = omega arith;
          shown = (
            IsString-Stands copy.0 mem (args i) str xs (strncpy-at mem str (args i) xs d r.0 r.2)
                r.1,
            refl,
          );
          below = strncpy-below mem str (args i) xs d r.0 r.2;
        },
      )

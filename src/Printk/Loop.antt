-- ===== src/Printk/Loop.antt =====
-- kernel/printk.c: the loop of `vsprintf` over a whole format, and `vsprintf` itself.
use mirros.Base.{
  ℕ, zero, suc, ◌+◌, ◌-◌, ◌≤◌, ◌<◌, ◌^◌, ◌≡◌, ◌≢◌, refl, ◌∙◌, sym, true, false, some, List, [], ◌∷◌,
  ◌++◌, arith, ◌==◌, leb, update, length, length-append,
}
use mirros.Base.Int.{pos}
use mirros.Printk.{Args, Printing, print_loop, vsprintf}
use mirros.Printk.Format.{
  Piece, plain, number, char, percent, odd, string, source_of, format, AllPieces, reads,
  AllReadable, AllReadable-frame, Readable-frame, below-string, Shown-frame, AllShown, AllShown-le,
  AllShown-frame,
}
use mirros.Printk.Rounds.{at_fmt, print_round-Round}
use mirros.Text.{Memory}
use mirros.Text.Strings.{IsString}
use mirros.Text.Copy.{IsString-frame}
use mathlib.Core.Path.{subst}

IsString-append :
    (mem : Memory) (a : ℕ) (xs ys : List ℕ)
    → IsString mem a (xs ++ ys)
    → IsString mem (a + length xs) ys
IsString-append mem a [] ys s = subst (λ b. IsString mem b ys) (omega arith) s
IsString-append mem a (x ∷ xs) ys s =
    subst (λ b. IsString mem b ys) (omega arith) (IsString-append mem (a + 1) xs ys s.2)

-- A piece is not the end of the format.
source_of-more :
    (x : Piece) (mem : Memory) (a : ℕ) (rest : List ℕ)
    → IsString mem a (source_of x ++ rest)
    → (mem a == 0) ≡ false
source_of-more (plain ch) mem a rest s = ground (arith, s.0, s.1)
source_of-more (number c) mem a rest s = ground (arith, s.0)
source_of-more char mem a rest s = ground (arith, s.0)
source_of-more percent mem a rest s = ground (arith, s.0)
source_of-more (odd ch) mem a rest s = ground (arith, s.0)
source_of-more (string xs) mem a rest s = ground (arith, s.0)

-- What the loop leaves: the pieces are shown from `str` on, and all below is as it was.
record Looped (args : Args) (mem : Memory) (str i : ℕ) (xs : List Piece) (p : Printing)
    : Type 0 where
  pub shown : AllShown args p.mem str xs i p.str
  pub below : (c : ℕ) → c < str → p.mem c ≡ mem c

module _ (fuel : ℕ) (args : Args) (words : (i : ℕ) → args i < 2 ^ 32) where
  print_loop-Looped :
      (k : ℕ) (mem : Memory) (bound str fmt i : ℕ) (xs : List Piece)
      → bound ≤ str
      → str ≢ 0
      → AllPieces xs
      → AllReadable fuel args mem bound xs i
      → IsString mem fmt (format xs)
      → fmt + length (format xs) < str
      → length xs < k
      → (p : Printing) × (print_loop k fuel args (at_fmt mem str fmt i) ≡ some p)
        × Looped args mem str i xs p
  unfolding print_loop
  print_loop-Looped zero mem bound str fmt i xs le d ok ready s apart f = absurd (omega arith)
  print_loop-Looped (suc k) mem bound str fmt i [] le d ok ready s apart f =
      (at_fmt mem str fmt i, rw s, record { shown = refl; below = λ c b. refl })
  print_loop-Looped (suc k) mem bound str fmt i (x ∷ xs) le d ok ready s apart f =
      let (p, round, r) =
        print_round-Round fuel args mem str fmt i x (format xs) d (words i) ok.0
          (Readable-frame fuel args mem mem bound (λ c b. refl) x i str le ready.0) s in
      let size = length-append (source_of x) (format xs) in
      let more = source_of-more x mem fmt (format xs) s in
      let tail : IsString p.mem p.fmt (format xs) =
        subst (λ a. IsString p.mem a (format xs)) (sym r.next)
          (IsString-frame mem p.mem (fmt + length (source_of x)) (format xs)
            (λ c inside. r.below c (
              below-string (fmt + length (source_of x)) (length (format xs)) str c
                (omega (arith, size)) inside))
            (IsString-append mem fmt (source_of x) (format xs) s)) in
      let later : AllReadable fuel args p.mem bound xs p.read =
        subst (λ j. AllReadable fuel args p.mem bound xs j) (sym r.words)
          (AllReadable-frame fuel args mem p.mem bound (λ c b. r.below c (omega arith)) xs
            (i + reads x) ready.1) in
      let (q, loop, l) =
        print_loop-Looped k p.mem bound p.str p.fmt p.read xs (omega (arith, r.longer))
          (omega (arith, r.longer)) ok.1 later tail (omega (arith, r.longer, r.next, size))
          (omega arith) in
      (
        q,
        rw (more, round, loop),
        record {
          shown = (
            p.str,
            r.longer,
            Shown-frame args p.mem q.mem str x i p.str (λ c lo hi. l.below c hi) r.shown,
            subst (λ j. AllShown args q.mem p.str xs j q.str) r.words l.shown,
          );
          below = λ c b. l.below c (omega (arith, r.longer)) ∙ r.below c b;
        },
      )

  -- `vsprintf` of a format made of pieces ends, with more rounds than there are pieces, and leaves at
  -- `buf` what the pieces show, one behind the other, each reading the next words: a character as it
  -- is, a number in decimal digits, signed for %d and also for %o, unsigned for %u, or in hexadecimal
  -- digits for %x, the bytes of a string. A 0 follows, the result is the length without
  -- it, and nothing below the buffer changes. The format and the strings, each shorter than the fuel
  -- and none NULL, lie below the buffer, and the words are 32 bits wide.
  pub vsprintf-AllShown :
      (k : ℕ) (mem : Memory) (buf fmt : ℕ) (xs : List Piece)
      → AllPieces xs
      → AllReadable fuel args mem buf xs 0
      → IsString mem fmt (format xs)
      → fmt + length (format xs) < buf
      → length xs < k
      → (m : Memory) × (len : ℕ) × (vsprintf k fuel args mem buf fmt ≡ some (m, pos len))
        × AllShown args m buf xs 0 (buf + len)
        × (m (buf + len) ≡ 0)
        × ((c : ℕ) → c < buf → m c ≡ mem c)
  unfolding vsprintf
  vsprintf-AllShown k mem buf fmt xs ok ready s apart f =
      let (p, loop, l) =
        print_loop-Looped k mem buf buf fmt 0 xs (omega arith) (omega arith) ok ready s apart f in
      let le = AllShown-le args p.mem buf xs 0 p.str l.shown in
      let target : (buf == 0) ≡ false = ground (arith, apart) in
      let forward : leb buf p.str ≡ true = ground (arith, le) in
      let end : p.str ≡ buf + (p.str - buf) = omega arith in
      (
        update p.mem p.str 0,
        p.str - buf,
        rw (target, loop, forward),
        subst (λ e. AllShown args (update p.mem p.str 0) buf xs 0 e) end
            (AllShown-frame args p.mem (update p.mem p.str 0) buf xs 0 p.str
              (λ c lo hi. ground (arith, hi)) l.shown),
        ground (arith, end),
        λ c b. ground (arith, le, l.below c b, b),
      )

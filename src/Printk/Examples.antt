-- ===== src/Printk/Examples.antt =====
-- kernel/printk.c at the format "a%d%%%x%c%s%q", which lies at 10, with the string "hi" at 40.
use mirros.Base.{
  ℕ, ◌+◌, ◌-◌, ◌<◌, ◌^◌, ◌≡◌, refl, some, List, [], ◌∷◌, arith, zero, suc, ltb, if◌then◌else◌,
}
use mirros.Base.Int.{pos}
use mirros.Printk.{Args, vsprintf}
use mirros.Printk.Format.{
  Piece, plain, number, char, percent, odd, string, signed, hexadecimal, format, AllPieces,
  AllReadable, AllShown,
}
use mirros.Printk.Loop.{vsprintf-AllShown}
use mirros.Text.{Memory}
use mirros.Text.Strings.{IsString}

abbrev hi : List ℕ
hi = 104 ∷ 105 ∷ []

abbrev pieces : List Piece
pieces = plain 97 ∷ number signed ∷ percent ∷ number hexadecimal ∷ char ∷ string hi ∷ odd 113 ∷ []

-- The bytes of a list, and 0 behind them.
abbrev bytes : List ℕ → ℕ → ℕ
bytes [] a = 0
bytes (x ∷ xs) zero = x
bytes (x ∷ xs) (suc a) = bytes xs a

abbrev memory : Memory
memory a = if ltb a 40 then bytes (format pieces) (a - 10) else bytes hi (a - 40)

-- The words -5, 48879, "b", and the address of the string.
abbrev words : Args
words = bytes ((2 ^ 32 - 5) ∷ 48879 ∷ 98 ∷ 40 ∷ [])

words-lt : (i : ℕ) → words i < 2 ^ 32
words-lt zero = omega arith
words-lt (suc zero) = omega arith
words-lt (suc (suc zero)) = omega arith
words-lt (suc (suc (suc zero))) = omega arith
words-lt (suc (suc (suc (suc i)))) = omega arith

pieces-AllPieces : AllPieces pieces
pieces-AllPieces =
    (omega arith, (tt, (tt, (tt, (tt, (tt, ((refl, omega arith, omega arith, omega arith), tt)))))))

words-AllReadable : AllReadable 3 words memory 100 pieces 0
words-AllReadable = (
  tt,
  (
    tt,
    (
      tt,
      (
        tt,
        (
          tt,
          (
            (omega arith, (refl, omega arith, (refl, omega arith, refl)), omega arith, omega arith),
            (tt, tt),
          ),
        ),
      ),
    ),
  ),
)

memory-IsString : IsString memory 10 (format pieces)
memory-IsString = (
  refl,
  omega arith,
  (
    refl,
    omega arith,
    (
      refl,
      omega arith,
      (
        refl,
        omega arith,
        (
          refl,
          omega arith,
          (
            refl,
            omega arith,
            (
              refl,
              omega arith,
              (
                refl,
                omega arith,
                (
                  refl,
                  omega arith,
                  (
                    refl,
                    omega arith,
                    (refl, omega arith, (refl, omega arith, (refl, omega arith, refl))),
                  ),
                ),
              ),
            ),
          ),
        ),
      ),
    ),
  ),
)

vsprintf-AllShown_example :
    (m : Memory) × (len : ℕ) × (vsprintf 8 3 words memory 100 10 ≡ some (m, pos len))
    × AllShown words m 100 pieces 0 (100 + len)
    × (m (100 + len) ≡ 0)
    × ((c : ℕ) → c < 100 → m c ≡ memory c)
vsprintf-AllShown_example =
    vsprintf-AllShown 3 words words-lt 8 memory 100 10 pieces pieces-AllPieces words-AllReadable
      memory-IsString (omega arith) (omega arith)

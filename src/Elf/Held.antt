-- ===== src/Elf/Held.antt =====
-- kernel/elf.c: which blocks are held, as kmalloc, kfree and the release of a file change it, and the
-- names that end.
use Prim.Native.Nat.{bit_and}
use mirros.Base.{
  ℕ, zero, suc, ◌+◌, ◌<◌, ◌≡◌, refl, ap, ◌∙◌, inl, inr, true, false, Option, none, some, List, [],
  ◌∷◌, ◌==◌, if◌then◌else◌, Bool-cases, arith,
}
use mirros.Elf.{
  Heap, Allocator, take, give, ElfSection, ElfFile, read_name, add_last, release_sections,
  release_elf_file, Found, null, undefined, loaded, sh_name, sh_flags, shf_alloc, name_size,
  section_header_size,
}
use mirros.Text.{Memory}
use mirros.Text.Strings.{IsString}

-- How often an address stands in a list.
abbrev pub count : ℕ → List ℕ → ℕ
count a [] = 0
count a (x ∷ xs) = (if x == a then 1 else 0) + count a xs

abbrev pub section_blocks : List ElfSection → List ℕ
section_blocks [] = []
section_blocks (x ∷ xs) = x.block ∷ section_blocks xs

abbrev pub file_blocks : ElfFile → List ℕ
file_blocks file = file.block ∷ section_blocks file.head

abbrev pub found_blocks : Found → List ℕ
found_blocks null = []
found_blocks undefined = []
found_blocks (loaded file) = file_blocks file

abbrev pub option_blocks : Option ElfFile → List ℕ
option_blocks none = []
option_blocks (some file) = file_blocks file

-- Each block that was taken has been given back or is still held, as often as it was taken.
abbrev pub Held : Heap → (ℕ → ℕ) → Type 0
Held h held = (a : ℕ) → count a h.taken ≡ count a h.freed + held a

-- A 0 stands less than `fuel` bytes behind the address.
abbrev pub HasEnd : ℕ → Memory → ℕ → Type 0
HasEnd fuel mem a = (j : ℕ) × (j < fuel) × (mem (a + j) ≡ 0)

-- The name of each of `n` section headers with SHF_ALLOC fits its 32 bytes.
abbrev pub Named : Memory → ℕ → ℕ → ℕ → Type 0
Named mem str zero tmp = Unit
Named mem str (suc n) tmp =
    ((bit_and (sh_flags mem tmp) shf_alloc == 0) ≡ false
      → HasEnd name_size mem (str + sh_name mem tmp))
    × Named mem str n (tmp + section_header_size)

pub take-Held :
    (alloc : Allocator) (h : Heap) (size : ℕ) (held : ℕ → ℕ)
    → Held h held
    → (alloc h.calls size == 0) ≡ false
    → Held (take alloc h size) (λ a. (if alloc h.calls size == a then 1 else 0) + held a)
unfolding take
take-Held alloc h size held b e a = rw e (omega (arith, b a))

pub take_null-Held :
    (alloc : Allocator) (h : Heap) (size : ℕ) (held : ℕ → ℕ)
    → Held h held
    → (alloc h.calls size == 0) ≡ true
    → Held (take alloc h size) held
unfolding take
take_null-Held alloc h size held b e a = rw e (b a)

shorter :
    (k : ℕ) (mem : Memory) (a j : ℕ)
    → j < suc k
    → mem (a + j) ≡ 0
    → (mem a == 0) ≡ false
    → HasEnd k mem (a + 1)
shorter k mem a zero lt z e = absurd (ground (arith, z, e))
shorter k mem a (suc j) lt z e = (j, omega arith, ap mem (omega arith) ∙ z)

pub read_name-HasEnd :
    (fuel : ℕ) (mem : Memory) (a : ℕ)
    → HasEnd fuel mem a
    → (xs : List ℕ) × (read_name fuel mem a ≡ some xs) × IsString mem a xs
unfolding read_name
read_name-HasEnd zero mem a (j, lt, z) = absurd (omega arith)
read_name-HasEnd (suc k) mem a (j, lt, z) = elim (Bool-cases (mem a == 0)) [
  | inl e ↦ ([], rw e refl, ground (arith, e))
  | inr e ↦
      let (xs, found, s) = read_name-HasEnd k mem (a + 1) (shorter k mem a j lt z e) in
      (mem a ∷ xs, rw (e, found) refl, (refl, ground (arith, e), s))
]

pub count-add_last :
    (a : ℕ) (xs : List ElfSection) (x : ElfSection)
    → count a (section_blocks (add_last xs x))
      ≡ (if x.block == a then 1 else 0) + count a (section_blocks xs)
unfolding add_last
count-add_last a [] x = refl
count-add_last a (y ∷ ys) x = omega (arith, count-add_last a ys x)

release_sections-Held :
    (xs : List ElfSection) (h : Heap) (held : ℕ → ℕ)
    → Held h (λ a. count a (section_blocks xs) + held a)
    → Held (release_sections xs h) held
unfolding release_sections
release_sections-Held [] h held b = λ a. omega (arith, b a)
release_sections-Held (x ∷ xs) h held b =
    release_sections-Held xs (give h x.block) held (λ a. omega (arith, b a))

pub release_elf_file-Held :
    (file : ElfFile) (h : Heap) (held : ℕ → ℕ)
    → Held h (λ a. count a (file_blocks file) + held a)
    → Held (release_elf_file file h) held
unfolding release_elf_file
release_elf_file-Held file h held b a =
    let done =
      release_sections-Held file.head h (λ c. (if file.block == c then 1 else 0) + held c)
        (λ c. omega (arith, b c)) in
    omega (arith, done a)

-- ===== src/RamDisk/Files.antt =====
-- kernel/ramdisk.c: reading within a file, and opening by name.
use mirros.Base.{
  ℕ, zero, suc, ◌+◌, ◌^◌, ◌≤◌, ◌<◌, ◌≡◌, ◌≢◌, ◌⊎◌, inl, inr, refl, sym, ◌∙◌, ap, true, false,
  Option, none, some, List, arith, ◌==◌, Bool-cases, length,
}
use mirros.Base.Int.{ℤ, pos, negsuc, is_zero}
use mirros.Base.Words.{u32}
use mirros.Text.{Memory}
use mirros.Text.Strings.{IsString, compare_bytes, strcmp-compare_bytes, compare_bytes_iff}
use mirros.RamDisk.{File, RamDisk, copy_size, ramdisk_read, opened, open_from, ramdisk_open}

-- The position is inside of the file, and the file is inside of memory and below 2^31 bytes.
pub record IsOpen (file : File) : Type 0 where
  pub after : file.base ≤ file.curr
  pub before : file.curr ≤ file.base + file.size
  pub fits : file.base + file.size < 2 ^ 32
  pub small : file.size < 2 ^ 31

-- A file, `n` bytes further.
abbrev pub advance : File → ℕ → File
advance file n = record file { curr = file.curr + n }

copy_size-IsOpen :
    (file : File) (size : ℕ)
    → IsOpen file
    → file.curr + size < 2 ^ 32
    → ((copy_size file size ≡ size) × (file.curr + size ≤ file.base + file.size))
      ⊎ ((file.curr + copy_size file size ≡ file.base + file.size) × (copy_size file size < size))
unfolding copy_size
copy_size-IsOpen file size o h = ground (arith, o.after, o.before, o.fits, o.small)

-- `ramdisk_read` copies the bytes at the position with memcpy and moves the position behind them:
-- as many as are asked for, or those up to the end of the file when that is less; the position
-- stays inside of the file. The bytes that are asked for do not wrap around the end of memory.
pub ramdisk_read-IsOpen :
    (memcpy : Memory → ℕ → ℕ → ℕ → Memory) (mem : Memory) (file : File) (buf size : ℕ)
    → IsOpen file
    → file.curr + size < 2 ^ 32
    → (n : ℕ) × (ramdisk_read memcpy mem file buf size
        ≡ (memcpy mem buf file.curr n, advance file n, n))
      × (((n ≡ size) × (file.curr + size ≤ file.base + file.size))
          ⊎ ((file.curr + n ≡ file.base + file.size) × (n < size)))
      × IsOpen (advance file n)
unfolding ramdisk_read
ramdisk_read-IsOpen memcpy mem file buf size o h =
    let either = copy_size-IsOpen file size o h in
    let fits : file.curr + copy_size file size ≤ file.base + file.size = ground (arith, either) in
    let exact : u32 (file.curr + copy_size file size) ≡ file.curr + copy_size file size =
      omega (arith, fits, o.fits) in
    (
      copy_size file size,
      rw exact,
      either,
      record { after = omega (arith, o.after); before = fits; fits = o.fits; small = o.small },
    )

-- What opening a name gives: NULL when no file has it, and else the first file that has it, at its
-- start.
abbrev pub Opens : RamDisk → (ℕ → List ℕ) → List ℕ → ℕ → ℕ → Option (Option File) → Type 0
Opens disk names xs k i r =
    (((j : ℕ) → i ≤ j → j < i + k → names j ≢ xs) × (r ≡ some none))
    ⊎ ((j : ℕ) × (i ≤ j)
        × (j < i + k)
        × (names j ≡ xs)
        × ((q : ℕ) → i ≤ q → q < j → names q ≢ xs)
        × (r ≡ some (some (opened disk (disk.files j)))))

module _ (fuel : ℕ) (mem : Memory) (disk : RamDisk) (name : ℕ) (names : ℕ → List ℕ) (xs : List ℕ)
    (is : IsString mem name xs) (enough : length xs < fuel) where
  open_from-Opens :
      (k i : ℕ)
      → ((j : ℕ) → i ≤ j → j < i + k → IsString mem (disk.files j).name (names j))
      → Opens disk names xs k i (open_from fuel true mem disk name k i)
  unfolding open_from
  open_from-Opens zero i h = inl (λ j p q. absurd (omega arith), refl)
  open_from-Opens (suc k) i h =
      let c =
        strcmp-compare_bytes fuel mem name (disk.files i).name xs (names i) is
          (h i (omega arith) (omega arith)) enough in
      elim (Bool-cases (is_zero (compare_bytes xs (names i)))) [
        | inl e ↦
            let same : names i ≡ xs =
              sym ((compare_bytes_iff xs (names i)).0 (zero_of (compare_bytes xs (names i)) e)) in
            inr (
              i,
              omega arith,
              omega arith,
              same,
              λ q p r. absurd (omega arith),
              rw (open_from, c, e),
            )
        | inr e ↦
            let other : names i ≢ xs = λ h'.
              not_zero (compare_bytes xs (names i)) ((compare_bytes_iff xs (names i)).1 (sym h'))
                e in
            elim (open_from-Opens k (i + 1) (λ j p q. h j (omega arith) (omega arith))) [
              | inl (others, found) ↦ inl (
                λ j p q. first_other i j other p (λ p'. others j p' (omega arith)),
                rw (open_from, c, e) found,
              )
              | inr (j, p, q, same, before, found) ↦ inr (
                j,
                omega arith,
                omega arith,
                same,
                λ r a b. first_other i r other a (λ a'. before r a' b),
                rw (open_from, c, e) found,
              )
            ]
      ]
    where
      zero_of : (z : ℤ) → is_zero z ≡ true → z ≡ pos 0
      zero_of (pos zero) e = refl
      zero_of (pos (suc n)) e = cc
      zero_of (negsuc n) e = cc

      not_zero : (z : ℤ) → z ≡ pos 0 → is_zero z ≡ false → ⊥
      not_zero z e f = ground arith

      first_other : (i j : ℕ) → names i ≢ xs → i ≤ j → (i + 1 ≤ j → names j ≢ xs) → names j ≢ xs
      first_other i j at le above = elim (Bool-cases (i == j)) [
        | inl e ↦ λ h. at (ap names (ground arith) ∙ h)
        | inr e ↦ above (ground arith)
      ]

  -- `ramdisk_open` of a name, with memory for the file and more fuel than the name is long, gives
  -- the first file of the disk that has the name, at its start, and NULL when no file has it; the
  -- name and the names of the files are strings.
  pub ramdisk_open-Opens :
      ((j : ℕ) → j < disk.file_count → IsString mem (disk.files j).name (names j))
      → Opens disk names xs disk.file_count 0 (ramdisk_open fuel true mem disk name)
  unfolding ramdisk_open
  ramdisk_open-Opens h = open_from-Opens disk.file_count 0 (λ j p q. h j (omega arith))

-- ===== src/RamDisk/Examples.antt =====
-- kernel/ramdisk.c at a disk of two files, "a" and "b", whose names stand at 10 and 12.
use mirros.Base.{
  ℕ, zero, suc, ◌+◌, ◌≤◌, ◌<◌, ◌≡◌, ◌⊎◌, refl, true, List, [], ◌∷◌, arith, ◌==◌, if◌then◌else◌,
}
use mirros.Text.{Memory, copy_bytes}
use mirros.Text.Strings.{IsString}
use mirros.RamDisk.{File, RamDisk, ramdisk_read, ramdisk_open}
use mirros.RamDisk.Files.{IsOpen, advance, Opens, ramdisk_read-IsOpen, ramdisk_open-Opens}

abbrev memory : Memory
memory a = if a == 10 then 97 else if a == 12 then 98 else if a == 20 then 98 else 0

abbrev byte_copy : Memory → ℕ → ℕ → ℕ → Memory
unfolding copy_bytes
byte_copy mem des src n = copy_bytes n 0 mem des src

abbrev half_read : File
half_read = record { base = 100; size = 8; curr = 105 }

half_read-IsOpen : IsOpen half_read
half_read-IsOpen = record {
  after = omega arith;
  before = omega arith;
  fits = omega arith;
  small = omega arith;
}

abbrev disk : RamDisk
disk = record {
  start = 1000;
  file_count = 2;
  files = λ i. record { name = if i == 0 then 10 else 12; base = 64; size = 8 };
}

abbrev names : ℕ → List ℕ
names i = if i == 0 then 97 ∷ [] else 98 ∷ []

ramdisk_read-IsOpen_example :
    (n : ℕ) × (ramdisk_read byte_copy memory half_read 50 6
      ≡ (byte_copy memory 50 105 n, advance half_read n, n))
    × (((n ≡ 6) × (105 + 6 ≤ 100 + 8)) ⊎ ((105 + n ≡ 100 + 8) × (n < 6)))
    × IsOpen (advance half_read n)
ramdisk_read-IsOpen_example =
    ramdisk_read-IsOpen byte_copy memory half_read 50 6 half_read-IsOpen (omega arith)

named : (j : ℕ) → j < 2 → IsString memory (disk.files j).name (names j)
named zero h = (refl, omega arith, refl)
named (suc zero) h = (refl, omega arith, refl)
named (suc (suc j)) h = absurd (omega arith)

ramdisk_open-Opens_example : Opens disk names (98 ∷ []) 2 0 (ramdisk_open 2 true memory disk 20)
ramdisk_open-Opens_example =
    ramdisk_open-Opens 2 memory disk 20 names (98 ∷ []) (refl, omega arith, refl) (omega arith)
      named

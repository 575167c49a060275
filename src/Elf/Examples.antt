-- ===== src/Elf/Examples.antt =====
-- kernel/elf.c at a file of two sections at 1000, of which the first, ".t", is to be loaded. The
-- literal ELFMAG lies at 10 and the variable `hdr` at 500.
use mirros.Base.{ℕ, ◌+◌, ◌-◌, ◌*◌, ◌≡◌, refl, some, [], ◌==◌, ltb, if◌then◌else◌, arith}
use mirros.Base.Words.{u32}
use mirros.Elf.{Heap, Allocator, ElfFile, parse_elf_info}
use mirros.Elf.Held.{Held}
use mirros.Elf.Sections.{loadable, total_size, AllDescribe, parse_elf_info-Parsed}
use mirros.RamDisk.{File}
use mirros.Text.{Memory}
use mirros.Text.Copy.{in_range}

abbrev image : ℕ → ℕ
image o =
    if o == 0
    then 127
    else if o == 1
    then 69
    else if o == 2
    then 76
    else if o == 3
    then 70
    else if o == 32
    then 52
    else if o == 46
    then 40
    else if o == 48
    then 2
    else if o == 50
    then 1
    else if o == 60
    then 2
    else if o == 65
    then 128
    else if o == 68
    then 52
    else if o == 72
    then 8
    else if o == 92
    then 1
    else if o == 108
    then 132
    else if o == 132
    then 46
    else if o == 133
    then 116
    else 0

abbrev memory : Memory
memory a = if ltb a 1000 then (if ltb a 14 then image (a - 10) else 0) else image (a - 1000)

abbrev memcpy : Memory → ℕ → ℕ → ℕ → Memory
memcpy mem des src n a = if in_range des n a then mem (src + (a - des)) else mem a

abbrev alloc : Allocator
alloc c size = 10000 * (c + 1)

abbrev file : File
file = record { base = 1000; size = 200; curr = 1000 }

abbrev heap : Heap
heap = record { calls = 0; taken = []; freed = [] }

parse_elf_info-Parsed_example :
    (f : ElfFile) × (g : Heap) × (parse_elf_info alloc memory 1052 2 1132 heap ≡ some (some f, g))
    × AllDescribe memory 1132 (loadable memory 2 1052) f.head
    × (f.alloc_size ≡ u32 (total_size memory (loadable memory 2 1052)))
parse_elf_info-Parsed_example =
    parse_elf_info-Parsed alloc memory 1132 (λ c size. ground arith) 1052 2 heap
      (λ e. (2, omega arith, refl), (λ e. (1, omega arith, refl), tt))

-- ===== src/Elf/Blocks.antt =====
-- kernel/elf.c: the blocks that the loader takes, gives back, and keeps in the file it returns.
use mirros.Base.{ℕ, ◌+◌, ◌*◌}
use mirros.Elf.{
  Heap, Allocator, take, ParseStep, stop, next, read_sections, e_shnum, e_shentsize,
  elf_header_size,
}
use mirros.RamDisk.{File, ramdisk_read}
use mirros.Text.{Memory}
use mirros.Elf.Held.{count, file_blocks, Held}

-- What a round of the parser leaves.
abbrev pub AfterStep : ParseStep → (ℕ → ℕ) → Type 0
AfterStep (stop f g) held = Held g (λ a. count a (file_blocks f) + held a)
AfterStep (next f g) held = Held g (λ a. count a (file_blocks f) + held a)

module _ (alloc : Allocator) (memcpy : Memory → ℕ → ℕ → ℕ → Memory) (mem : Memory) (file : File)
    (hdr : ℕ) (h : Heap) where
  -- The memory and the file after the header was read, the blocks of the two buffers, and the memory
  -- of the section headers and their names.
  unfoldable pub first_read : Memory × File × ℕ
  unfolding ramdisk_read
  first_read = ramdisk_read memcpy mem file hdr elf_header_size

  unfoldable pub headers_size : ℕ
  unfolding first_read
  headers_size = e_shnum first_read.0 hdr * e_shentsize first_read.0 hdr

  unfoldable pub header_block : ℕ
  unfolding headers_size
  header_block = alloc h.calls headers_size

  unfoldable pub name_block : ℕ
  unfolding headers_size
  name_block = alloc (take alloc h headers_size).calls 4096

  unfoldable pub sections_memory : Memory
  unfolding first_read read_sections header_block name_block
  sections_memory = read_sections memcpy first_read.0 first_read.1 hdr header_block name_block

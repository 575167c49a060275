-- ===== src/Elf.antt =====
-- kernel/elf.c: the ELF loader, over the ram disk (fs_read and fs_seek are its macros for it) and
-- the memory of Text. The blocks that it takes and gives back are counted in a heap: the results of
-- kmalloc are a parameter, by the number of the call and the size, and 0 is NULL. A section is a
-- record with the text of its name; the reads of the ram disk never fail, so the paths for a negative
-- result are not here.
pub mod Blocks
mod Examples
pub mod Held
pub mod Sections
use Prim.Native.Nat.{bit_and}
use mirros.Base.{
  ℕ, zero, suc, ◌+◌, ◌*◌, Bool, true, false, not, Option, none, some, List, [], ◌∷◌, ◌==◌,
  if◌then◌else◌,
}
use mirros.Base.Int.{is_zero}
use mirros.Base.Words.{u32}
use mirros.RamDisk.{File, ramdisk_read, ramdisk_seek}
use mirros.Text.{Memory, strncmp}

-- The blocks taken and given back, and the number of calls of kmalloc.
pub record Heap : Type 0 where
  pub calls : ℕ
  pub taken : List ℕ
  pub freed : List ℕ

abbrev pub Allocator : Type 0
Allocator = ℕ → ℕ → ℕ

-- kmalloc, and kzalloc where the model of the block is its record.
unfoldable pub take : Allocator → Heap → ℕ → Heap
take alloc h size =
    let p = alloc h.calls size in
    record { calls = h.calls + 1; taken = if p == 0 then h.taken else p ∷ h.taken; freed = h.freed }

abbrev pub give : Heap → ℕ → Heap
give h p = record h { freed = p ∷ h.freed }

abbrev pub half_at : Memory → ℕ → ℕ
half_at mem a = mem a + mem (a + 1) * 256

abbrev pub word_at : Memory → ℕ → ℕ
word_at mem a = half_at mem a + half_at mem (a + 2) * 65536

-- The fields of an `elf_header`.
abbrev pub e_shoff : Memory → ℕ → ℕ
e_shoff mem hdr = word_at mem (hdr + 32)

abbrev pub e_shentsize : Memory → ℕ → ℕ
e_shentsize mem hdr = half_at mem (hdr + 46)

abbrev pub e_shnum : Memory → ℕ → ℕ
e_shnum mem hdr = half_at mem (hdr + 48)

abbrev pub e_shstrndx : Memory → ℕ → ℕ
e_shstrndx mem hdr = half_at mem (hdr + 50)

abbrev pub elf_header_size : ℕ
elf_header_size = 52

-- The fields of an `elf_section_header`.
abbrev pub sh_name : Memory → ℕ → ℕ
sh_name mem a = word_at mem a

abbrev pub sh_flags : Memory → ℕ → ℕ
sh_flags mem a = word_at mem (a + 8)

abbrev pub sh_addr : Memory → ℕ → ℕ
sh_addr mem a = word_at mem (a + 12)

abbrev pub sh_offset : Memory → ℕ → ℕ
sh_offset mem a = word_at mem (a + 16)

abbrev pub sh_size : Memory → ℕ → ℕ
sh_size mem a = word_at mem (a + 20)

abbrev pub section_header_size : ℕ
section_header_size = 40

abbrev pub shf_alloc : ℕ
shf_alloc = 2

pub record ElfSection : Type 0 where
  pub block : ℕ
  pub name : List ℕ
  pub offset : ℕ
  pub size : ℕ
  pub load_addr : ℕ

-- The sections by their order in the list.
pub record ElfFile : Type 0 where
  pub block : ℕ
  pub alloc_size : ℕ
  pub head : List ElfSection

-- The room of `name`, with the 0 at the end.
abbrev pub name_size : ℕ
name_size = 32

-- The string that strcpy copies from `a`, by the bytes that have room; `none` when it has no room
-- with its 0: strcpy then goes on into the fields behind the name, and the model stops.
unfoldable pub read_name : ℕ → Memory → ℕ → Option (List ℕ)
read_name zero mem a = none
read_name (suc k) mem a =
    let rest = read_name k mem (a + 1) in
    if mem a == 0 then some [] else elim rest [ none ↦ none | some xs ↦ some (mem a ∷ xs) ]

-- The walk to the last section.
unfoldable pub add_last : List ElfSection → ElfSection → List ElfSection
add_last [] section = section ∷ []
add_last (x ∷ xs) section = x ∷ add_last xs section

-- With the address of the section header, the block of the section, and its name.
unfoldable pub elf_file_add_section : Memory → ElfFile → ℕ → ℕ → List ℕ → ElfFile
unfolding add_last
elf_file_add_section mem file header section name =
    let size = sh_size mem header in
    record file {
      alloc_size = u32 (file.alloc_size + size);
      head = add_last file.head (record {
        block = section;
        name = name;
        offset = sh_offset mem header;
        size = size;
        load_addr = sh_addr mem header;
      });
    }

-- A round of the loop of parse_elf_info, which ends it or goes on.
pub data ParseStep : Type 0 where
  stop next : ElfFile → Heap → ParseStep

unfoldable pub parse_section : Allocator → Memory → ℕ → ℕ → ElfFile → Heap → Option ParseStep
unfolding read_name elf_file_add_section
parse_section alloc mem str tmp file h =
    let section = alloc h.calls 48 in
    let name = read_name name_size mem (str + sh_name mem tmp) in
    if bit_and (sh_flags mem tmp) shf_alloc == 0
    then some (next file h)
    else if section == 0
    then some (stop (record file { alloc_size = 0 }) (take alloc h 48))
    else elim name [
      | none ↦ none
      | some xs ↦ some (next (elf_file_add_section mem file tmp section xs) (take alloc h 48))
    ]

-- The loop, with the section headers left.
unfoldable pub parse_sections :
    Allocator → Memory → ℕ → ℕ → ℕ → ElfFile → Heap → Option (ElfFile × Heap)
unfolding parse_section
parse_sections alloc mem str zero tmp file h = some (file, h)
parse_sections alloc mem str (suc n) tmp file h = elim (parse_section alloc mem str tmp file h) [
  | none ↦ none
  | some r ↦ elim r [
    | stop f g ↦ some (f, g)
    | next f g ↦ parse_sections alloc mem str n (tmp + section_header_size) f g
  ]
]

-- `none` inside is NULL.
unfoldable pub parse_elf_info :
    Allocator → Memory → ℕ → ℕ → ℕ → Heap → Option (Option ElfFile × Heap)
unfolding parse_sections
parse_elf_info alloc mem header section_num str h =
    let elf_file = alloc h.calls 8 in
    let file : ElfFile = record { block = elf_file; alloc_size = 0; head = [] } in
    if elf_file == 0
    then some (none, take alloc h 8)
    else elim (parse_sections alloc mem str section_num header file (take alloc h 8)) [
      | none ↦ none
      | some r ↦ some (some r.0, r.1)
    ]

-- The loop of `release_elf_file`.
unfoldable pub release_sections : List ElfSection → Heap → Heap
release_sections [] h = h
release_sections (x ∷ xs) h = release_sections xs (give h x.block)

unfoldable pub release_elf_file : ElfFile → Heap → Heap
unfolding release_sections
release_elf_file file h = give (release_sections file.head h) file.block

-- What `get_elf_info` returns: NULL, the variable that was never set, or a file.
pub data Found : Type 0 where
  null undefined : Found
  loaded : ElfFile → Found

-- The memory after the section headers and their names have been read to their blocks.
unfoldable pub read_sections : (Memory → ℕ → ℕ → ℕ → Memory) → Memory → File → ℕ → ℕ → ℕ → Memory
unfolding ramdisk_read ramdisk_seek
read_sections memcpy mem file hdr header str =
    let size = e_shnum mem hdr * e_shentsize mem hdr in
    let first = ramdisk_read memcpy mem (ramdisk_seek file (e_shoff mem hdr)) header size in
    let names = sh_offset first.0 (header + e_shstrndx first.0 hdr * section_header_size) in
    (ramdisk_read memcpy first.0 (ramdisk_seek first.1 names) str 4096).0

-- The end of `get_elf_info`, from parse_elf_info on.
abbrev pub finish : ℕ → ℕ → Option (Option ElfFile × Heap) → Option (Found × Heap)
unfolding release_elf_file
finish header str none = none
finish header str (some (none, h)) = some (null, give (give h str) header)
finish header str (some (some file, h)) =
    if file.alloc_size == 0
    then some (null, give (give (release_elf_file file h) str) header)
    else some (loaded file, give (give h str) header)

-- With the address of the variable `hdr` and of the literal ELFMAG.
unfoldable pub get_elf_info :
    Allocator → (Memory → ℕ → ℕ → ℕ → Memory) → Memory → File → ℕ → ℕ → Heap → Option (Found × Heap)
unfolding ramdisk_read strncmp read_sections parse_elf_info finish
get_elf_info alloc memcpy mem file hdr elfmag h =
    let first = ramdisk_read memcpy mem file hdr elf_header_size in
    let size = e_shnum first.0 hdr * e_shentsize first.0 hdr in
    let header = alloc h.calls size in
    let h1 = take alloc h size in
    let str = alloc h1.calls 4096 in
    let h2 = take alloc h1 4096 in
    let m = read_sections memcpy first.0 first.1 hdr header str in
    if not (is_zero (strncmp first.0 elfmag hdr 4))
    then some (null, h)
    else if header == 0
    then some (null, h1)
    else if str == 0
    then some (undefined, give h2 header)
    else finish header str (parse_elf_info alloc m header (e_shnum m hdr) str h2)

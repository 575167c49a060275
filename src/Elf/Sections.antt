-- ===== src/Elf/Sections.antt =====
-- kernel/elf.c: the sections of the file that the parser makes.
use Prim.Native.Nat.{bit_and}
use mathlib.Core.List.{append_assoc, append-nil}
use mathlib.Core.Path.{subst}
use mirros.Base.{
  ℕ, zero, suc, ◌+◌, ◌≡◌, refl, sym, inl, inr, true, false, some, List, [], ◌∷◌, ◌++◌, ◌==◌,
  if◌then◌else◌, Bool-cases, arith,
}
use mirros.Base.Words.{u32}
use mirros.Elf.{
  Heap, Allocator, take, ElfSection, ElfFile, add_last, elf_file_add_section, next, parse_section,
  parse_sections, parse_elf_info, sh_name, name_size, sh_flags, sh_addr, sh_offset, sh_size,
  shf_alloc, section_header_size,
}
use mirros.Elf.Held.{HasEnd, Named, read_name-HasEnd}
use mirros.Text.{Memory}
use mirros.Text.Strings.{IsString}

-- The headers with SHF_ALLOC among `n` headers from `tmp` on.
abbrev pub loadable : Memory → ℕ → ℕ → List ℕ
loadable mem zero tmp = []
loadable mem (suc n) tmp =
    let rest = loadable mem n (tmp + section_header_size) in
    if bit_and (sh_flags mem tmp) shf_alloc == 0 then rest else tmp ∷ rest

abbrev pub total_size : Memory → List ℕ → ℕ
total_size mem [] = 0
total_size mem (a ∷ hs) = sh_size mem a + total_size mem hs

-- A section says what the header at `a` says, and has its name.
pub record Describes (mem : Memory) (str a : ℕ) (section : ElfSection) : Type 0 where
  pub name : IsString mem (str + sh_name mem a) section.name
  pub offset : section.offset ≡ sh_offset mem a
  pub size : section.size ≡ sh_size mem a
  pub load_addr : section.load_addr ≡ sh_addr mem a

-- The sections of a list describe the headers of another, in order.
abbrev pub AllDescribe : Memory → ℕ → List ℕ → List ElfSection → Type 0
AllDescribe mem str [] [] = Unit
AllDescribe mem str (a ∷ hs) (x ∷ xs) = Describes mem str a x × AllDescribe mem str hs xs
AllDescribe mem str _ _ = ⊥

add_last-AllDescribe :
    (mem : Memory) (str : ℕ) (hs : List ℕ) (xs : List ElfSection) (a : ℕ) (x : ElfSection)
    → AllDescribe mem str hs xs
    → Describes mem str a x
    → AllDescribe mem str (hs ++ (a ∷ [])) (add_last xs x)
unfolding add_last
add_last-AllDescribe mem str [] [] a x d e = (e, tt)
add_last-AllDescribe mem str [] (y ∷ ys) a x d e = absurd d
add_last-AllDescribe mem str (b ∷ bs) [] a x d e = absurd d
add_last-AllDescribe mem str (b ∷ bs) (y ∷ ys) a x d e =
    (d.0, add_last-AllDescribe mem str bs ys a x d.1 e)

module _ (alloc : Allocator) (mem : Memory) (str : ℕ)
    (given : (c size : ℕ) → (alloc c size == 0) ≡ false) where
  -- A file whose sections describe these headers.
  record Parsed (hs : List ℕ) (file : ElfFile) : Type 0 where
    pub sections : AllDescribe mem str hs file.head
    pub total : file.alloc_size ≡ u32 (total_size mem hs)

  total-snoc :
      (hs : List ℕ) (a : ℕ) → total_size mem (hs ++ (a ∷ [])) ≡ total_size mem hs + sh_size mem a
  total-snoc [] a = omega arith
  total-snoc (b ∷ bs) a = omega (arith, total-snoc bs a)

  wrap-add : (n s t size : ℕ) → n ≡ u32 s → t ≡ s + size → u32 (n + size) ≡ u32 t
  wrap-add n s t size e f = omega arith

  elf_file_add_section-Parsed :
      (hs : List ℕ) (file : ElfFile) (tmp section : ℕ) (xs : List ℕ)
      → IsString mem (str + sh_name mem tmp) xs
      → Parsed hs file
      → Parsed (hs ++ (tmp ∷ [])) (elf_file_add_section mem file tmp section xs)
  unfolding elf_file_add_section
  elf_file_add_section-Parsed hs file tmp section xs s p = record {
    sections =
        add_last-AllDescribe mem str hs file.head tmp
          (record {
            block = section;
            name = xs;
            offset = sh_offset mem tmp;
            size = sh_size mem tmp;
            load_addr = sh_addr mem tmp;
          })
          p.sections (record { name = s; offset = refl; size = refl; load_addr = refl });
    total =
        wrap-add file.alloc_size (total_size mem hs) (total_size mem (hs ++ (tmp ∷ [])))
          (sh_size mem tmp) p.total (total-snoc hs tmp);
  }

  skips :
      (tmp : ℕ) (file : ElfFile) (h : Heap)
      → (bit_and (sh_flags mem tmp) shf_alloc == 0) ≡ true
      → parse_section alloc mem str tmp file h ≡ some (next file h)
  unfolding parse_section
  skips tmp file h e = rw e

  adds :
      (tmp : ℕ) (file : ElfFile) (h : Heap)
      → ((bit_and (sh_flags mem tmp) shf_alloc == 0) ≡ false
          → HasEnd name_size mem (str + sh_name mem tmp))
      → (bit_and (sh_flags mem tmp) shf_alloc == 0) ≡ false
      → (xs : List ℕ) × IsString mem (str + sh_name mem tmp) xs
        × (parse_section alloc mem str tmp file h
            ≡ some
                (next (elf_file_add_section mem file tmp (alloc h.calls 48) xs) (take alloc h 48)))
  unfolding parse_section
  adds tmp file h end e =
      let (xs, found, s) = read_name-HasEnd name_size mem (str + sh_name mem tmp) (end e) in
      (xs, s, rw (e, given h.calls 48, found))

  parse_sections-Parsed :
      (n tmp : ℕ) (hs : List ℕ) (file : ElfFile) (h : Heap)
      → Named mem str n tmp
      → Parsed hs file
      → (f : ElfFile) × (g : Heap) × (parse_sections alloc mem str n tmp file h ≡ some (f, g))
        × Parsed (hs ++ loadable mem n tmp) f
  unfolding parse_sections
  parse_sections-Parsed zero tmp hs file h names p =
      (file, h, refl, subst (λ bs. Parsed bs file) (sym (append-nil hs)) p)
  parse_sections-Parsed (suc n) tmp hs file h names p =
      elim (Bool-cases (bit_and (sh_flags mem tmp) shf_alloc == 0)) [
        | inl e ↦
            let (f, g, found, done) =
              parse_sections-Parsed n (tmp + section_header_size) hs file h names.1 p in
            (f, g, rw (parse_sections, skips tmp file h e) found, rw e done)
        | inr e ↦
            let (xs, s, round) = adds tmp file h names.0 e in
            let (f, g, found, done) =
              parse_sections-Parsed n (tmp + section_header_size) (hs ++ (tmp ∷ []))
                (elf_file_add_section mem file tmp (alloc h.calls 48) xs) (take alloc h 48) names.1
                (elf_file_add_section-Parsed hs file tmp (alloc h.calls 48) xs s p) in
            (
              f,
              g,
              rw (parse_sections, round) found,
              rw e (
                  subst (λ bs. Parsed bs f)
                    (append_assoc hs (tmp ∷ []) (loadable mem n (tmp + section_header_size))) done),
            )
      ]

  -- When no kmalloc fails, `parse_elf_info` ends with a file whose sections are the headers with
  -- SHF_ALLOC, in the order of the headers, each with the name, the offset, the size and the address
  -- of its header, and whose size is the sum of theirs as a word. These names have at most 31 bytes.
  pub parse_elf_info-Parsed :
      (header n : ℕ) (h : Heap)
      → Named mem str n header
      → (f : ElfFile) × (g : Heap) × (parse_elf_info alloc mem header n str h ≡ some (some f, g))
        × AllDescribe mem str (loadable mem n header) f.head
        × (f.alloc_size ≡ u32 (total_size mem (loadable mem n header)))
  unfolding parse_elf_info
  parse_elf_info-Parsed header n h names =
      let file : ElfFile = record { block = alloc h.calls 8; alloc_size = 0; head = [] } in
      let (f, g, found, done) =
        parse_sections-Parsed n header [] file (take alloc h 8) names
          (record { sections = tt; total = refl }) in
      (f, g, rw (given h.calls 8, found), done.sections, done.total)

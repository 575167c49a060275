-- ===== src/Mmu/Sections.antt =====
-- kernel/mmu.c: what `build_tlb_table_entry` maps, read the way the processor walks the table.
use Prim.Native.Nat.{bit_and, bit_or}
use mirros.Base.{
  ℕ, zero, suc, ◌+◌, ◌-◌, ◌*◌, ◌/◌, ◌%◌, ◌^◌, ◌≤◌, ◌<◌, ◌≡◌, ◌≢◌, ◌⊎◌, inl, inr, ap, ◌∙◌, true,
  false, ◌&&◌, arith, ◌==◌, Bool-cases,
}
use mirros.Base.Int.{pos, einval}
use mirros.Base.Masks.{up, down, bit_and-up, bit_and-ones, bit_or-up, low_all}
use mirros.Base.Words.{u32}
use mirros.Mmu.{
  Words, arch_build_tlb_des, arch_get_tlb_attr, arch_get_tlb_base, build_tlb_table_entry,
  entry_step, tlb_attr_memory_mask,
}
use mirros.Mmu.Fill.{
  advance, fill_table, fill_table-at, fill_table-Outside, build_entries-fill_table,
}
use mirros.Pages.Alloc.{is_aligin}

-- The entry of a virtual address, and the walk of a section: bits 20 and above come from the
-- entry, the others from the address.
abbrev pub entry_of : Words → ℕ → ℕ
entry_of words va = words (arch_get_tlb_base + 4 * (va / 1048576))

abbrev pub IsSection : ℕ → Type 0
IsSection des = des % 4 ≡ 2

abbrev pub section_walk : Words → ℕ → ℕ
section_walk words va = entry_of words va / 1048576 * 1048576 + va % 1048576

section_mask :
    (pa attr : ℕ)
    → pa < 2 ^ 32
    → attr < 1048576
    → bit_or (bit_and pa 4293918720) attr ≡ pa / 1048576 * 1048576 + attr
section_mask pa attr h k =
    let top : bit_and (down 20 pa) 4095 ≡ down 20 pa =
      bit_and-ones 12 (down 20 pa) ∙ low_all 12 (down 20 pa) (omega arith) in
    let masked : bit_and pa 4293918720 ≡ up 20 (down 20 pa) =
      bit_and-up 20 pa 4095 ∙ ap (up 20) top in
    rw masked (bit_or-up 20 (down 20 pa) attr (omega arith) ∙ omega arith)

pub bit_and-three : (a : ℕ) → bit_and a 3 ≡ a % 4
bit_and-three a = bit_and-ones 2 a ∙ omega arith

pub bit_and-flags : (a : ℕ) → bit_and a tlb_attr_memory_mask ≡ a % 16
bit_and-flags a = bit_and-ones 4 a ∙ omega arith

-- The attributes of memory that is not mapped for users say that the entry is a section.
section_attr :
    (flag : ℕ)
    → bit_and flag tlb_attr_memory_mask ≢ 8
    → (arch_get_tlb_attr flag % 4 ≡ 2) × (arch_get_tlb_attr flag < 1048576)
unfolding arch_get_tlb_attr
section_attr flag kernel = ground arith

section_des :
    (pa attr : ℕ)
    → pa < 2 ^ 32
    → attr % 4 ≡ 2
    → attr < 1048576
    → arch_build_tlb_des pa attr ≡ pa / 1048576 * 1048576 + attr
unfolding arch_build_tlb_des
section_des pa attr h section k =
    let test : (bit_and attr 3 == 1) ≡ false = ground (arith, bit_and-three attr) in
    rw test (section_mask pa attr h k)

advance_section : (i ps : ℕ) → ps + i * 1048576 < 2 ^ 32 → advance i ps 1048576 ≡ ps + i * 1048576
advance_section zero ps h = omega arith
advance_section (suc i) ps h =
    let next : u32 (ps + 1048576) ≡ ps + 1048576 = omega arith in
    rw next (advance_section i (ps + 1048576) (omega arith) ∙ omega arith)

is_aligin-section : (a : ℕ) → is_aligin a 1048576 ≡ (a % 1048576 == 0)
unfolding is_aligin
is_aligin-section a =
    let low_part : bit_and a 1048575 ≡ a % 1048576 = bit_and-ones 20 a ∙ omega arith in rw low_part

-- What a range of memory that is mapped in sections means.
pub record Mapped (words : Words) (vstart pstart size : ℕ) (words' : Words) : Type 0 where
  pub section : (va : ℕ) → vstart ≤ va → va < vstart + size → IsSection (entry_of words' va)
  pub walk :
      (va : ℕ)
      → vstart ≤ va
      → va < vstart + size
      → section_walk words' va ≡ pstart / 1048576 * 1048576 + (va - vstart)
  pub others :
      (va : ℕ) → (va < vstart) ⊎ (vstart + size ≤ va) → entry_of words' va ≡ entry_of words va

module _ (words : Words) (vstart pstart size flag : ℕ) where
  refused :
      (vstart % 1048576 ≢ 0) ⊎ (size % 1048576 ≢ 0)
      → build_tlb_table_entry words vstart pstart size flag ≡ (words, einval)
  unfolding build_tlb_table_entry
  refused h =
      let test : (is_aligin vstart 1048576 && (is_aligin vstart 1048576 && is_aligin size 1048576))
          ≡ false =
        rw (is_aligin-section vstart, is_aligin-section size) (ground arith) in
      rw test

  module _ (kernel : bit_and flag tlb_attr_memory_mask ≢ 8) (va_fits : vstart + size ≤ 2 ^ 32)
      (pa_fits : pstart + size ≤ 2 ^ 32) where
    table : Words
    table =
        fill_table (size / 1048576) words (arch_get_tlb_base + 4 * (vstart / 1048576))
          (λ i. arch_build_tlb_des (advance i pstart 1048576) (arch_get_tlb_attr flag))

    accepted :
        vstart % 1048576 ≡ 0
        → size % 1048576 ≡ 0
        → build_tlb_table_entry words vstart pstart size flag ≡ (table, pos 0)
    unfolding build_tlb_table_entry table
    accepted a b =
        let test : (is_aligin vstart 1048576
              && (is_aligin vstart 1048576 && is_aligin size 1048576))
            ≡ true =
          rw (is_aligin-section vstart, is_aligin-section size) (ground arith) in
        let step : entry_step flag ≡ 1048576 = ground arith in
        let base : u32 (arch_get_tlb_base + vstart / 1048576 * 4)
            ≡ arch_get_tlb_base + 4 * (vstart / 1048576) =
          omega arith in
        rw (test, step, base)
          (ap (λ w. (w, pos 0))
            (build_entries-fill_table (size / 1048576) words
              (arch_get_tlb_base + 4 * (vstart / 1048576)) pstart (arch_get_tlb_attr flag) 1048576))

    module _ (a : vstart % 1048576 ≡ 0) (b : size % 1048576 ≡ 0) where
      entry :
          (va : ℕ)
          → vstart ≤ va
          → va < vstart + size
          → entry_of table va
            ≡ (pstart + (va / 1048576 - vstart / 1048576) * 1048576) / 1048576 * 1048576
              + arch_get_tlb_attr flag
      unfolding table
      entry va p q =
          let i = va / 1048576 - vstart / 1048576 in
          let (section, short) = section_attr flag kernel in
          let at : arch_get_tlb_base + 4 * (va / 1048576)
              ≡ arch_get_tlb_base + 4 * (vstart / 1048576) + 4 * i =
            omega (arith, p) in
          rw at (
            fill_table-at (size / 1048576) words (arch_get_tlb_base + 4 * (vstart / 1048576)) _ i
              (omega arith) (omega (arith, p, q, a, b))
            ∙ ap (λ t. arch_build_tlb_des t (arch_get_tlb_attr flag))
                (advance_section i pstart (omega (arith, p, q)))
            ∙ section_des (pstart + i * 1048576) (arch_get_tlb_attr flag) (omega (arith, p, q))
                section short)

      table-Mapped : Mapped words vstart pstart size table
      unfolding table
      table-Mapped = record {
        section = λ va p q. omega (arith, entry va p q, section_attr flag kernel);
        walk = λ va p q. omega (arith, entry va p q, section_attr flag kernel, a, p, q);
        others = λ va o.
            fill_table-Outside (size / 1048576) words (arch_get_tlb_base + 4 * (vstart / 1048576)) _
              (arch_get_tlb_base + 4 * (va / 1048576)) (omega arith) (ground (arith, o, a, b));
      }

    -- Kernel, DMA and I/O memory: for a range that starts at a megabyte and is made of whole ones,
    -- the call writes one section for each of them and no other entry, and every address of the
    -- range is then translated to the one as far behind the physical start, taken down to a
    -- megabyte; any other virtual start or size is refused, and nothing is written. Neither range
    -- passes 2^32.
    pub build_tlb_table_entry-Mapped :
        ((build_tlb_table_entry words vstart pstart size flag ≡ (words, einval))
          × ((vstart % 1048576 ≢ 0) ⊎ (size % 1048576 ≢ 0)))
        ⊎ ((words' : Words) × (build_tlb_table_entry words vstart pstart size flag
              ≡ (words', pos 0))
            × Mapped words vstart pstart size words')
    build_tlb_table_entry-Mapped =
        elim (Bool-cases ((vstart % 1048576 == 0) && (size % 1048576 == 0))) [
          | inl e ↦
              let a : vstart % 1048576 ≡ 0 = ground arith in
              let b : size % 1048576 ≡ 0 = ground arith in
              inr (table, accepted a b, table-Mapped a b)
          | inr e ↦
              let off : (vstart % 1048576 ≢ 0) ⊎ (size % 1048576 ≢ 0) = ground arith in
              inl (refused off, off)
        ]

-- ===== src/Mmu/Tables.antt =====
-- kernel/mmu.c: what `build_page_table_entry` maps, and what `clear_tlb_entry` clears.
use Prim.Native.Nat.{bit_and}
use mirros.Base.{
  ℕ, zero, suc, ◌+◌, ◌-◌, ◌*◌, ◌/◌, ◌%◌, ◌^◌, ◌≤◌, ◌<◌, ◌≡◌, ◌≢◌, ◌⊎◌, inl, inr, ap, ◌∙◌, true,
  false, not, ◌&&◌, ◌||◌, arith, ◌==◌, ltb, Bool-cases, if◌then◌else◌,
}
use mirros.Base.Int.{pos, einval}
use mirros.Base.Masks.{up, down, bit_and-up, bit_and-ones, bit_or-up, low_all}
use mirros.Base.Words.{u32}
use mirros.Mmu.{
  Words, arch_build_page_table_des, arch_get_tlb_base, build_page_table_entry, clear_tlb_entry,
  pgt_des_default,
}
use mirros.Mmu.Fill.{
  advance, fill_table, fill_table-at, fill_table-Outside, build_page_entries-fill_table,
  clear_entries-fill_table,
}
use mirros.Mmu.Sections.{entry_of}
use mirros.Pages.{Mm, va_to_pa}
use mirros.Pages.Alloc.{is_aligin}
use mirros.Pages.Words.{bit_and-4095}

-- The walk of a small page: bits 12 and above come from the entry of the table at `base`, the
-- others from the offset in the memory that the table maps.
abbrev pub page_entry : Words → ℕ → ℕ → ℕ
page_entry words base offset = words (base + 4 * (offset / 4096))

abbrev pub page_walk : Words → ℕ → ℕ → ℕ
page_walk words base offset = page_entry words base offset / 4096 * 4096 + offset % 4096

-- What a table means that maps `size` bytes at `pa`.
pub record PagesMapped (words : Words) (base pa size : ℕ) (words' : Words) : Type 0 where
  pub small_page : (offset : ℕ) → offset < size → page_entry words' base offset % 4 ≡ 2
  pub walk : (offset : ℕ) → offset < size → page_walk words' base offset ≡ pa + offset
  pub others : (a : ℕ) → (a < base) ⊎ (base + 4 * (size / 4096) ≤ a) → words' a ≡ words a

page_des :
    (pa : ℕ)
    → pa < 2 ^ 32
    → arch_build_page_table_des pa pgt_des_default ≡ pa / 4096 * 4096 + pgt_des_default
unfolding arch_build_page_table_des
page_des pa h =
    let top : bit_and (down 12 pa) 1048575 ≡ down 12 pa =
      bit_and-ones 20 (down 12 pa) ∙ low_all 20 (down 12 pa) (omega arith) in
    let masked : bit_and pa 4294963200 ≡ up 12 (down 12 pa) =
      bit_and-up 12 pa 1048575 ∙ ap (up 12) top in
    rw masked (bit_or-up 12 (down 12 pa) pgt_des_default (omega arith) ∙ omega arith)

advance_page : (i pa : ℕ) → pa + i * 4096 < 2 ^ 32 → advance i pa 4096 ≡ pa + i * 4096
advance_page zero pa h = omega arith
advance_page (suc i) pa h =
    let next : u32 (pa + 4096) ≡ pa + 4096 = omega arith in
    rw next (advance_page i (pa + 4096) (omega arith) ∙ omega arith)

is_aligin-page : (a : ℕ) → is_aligin a 4096 ≡ (a % 4096 == 0)
unfolding is_aligin
is_aligin-page a = rw (bit_and-4095 a)

module _ (mm : Mm) (words : Words) (base vstart size flag : ℕ) where
  pages_refused :
      (size % 4096 ≢ 0) ⊎ (1048576 < size)
      → build_page_table_entry mm words base vstart size flag ≡ (words, einval)
  unfolding build_page_table_entry
  pages_refused h =
      let test : (not (is_aligin size 4096) || ltb 1048576 size) ≡ true =
        rw (is_aligin-page size) (ground arith) in
      rw test

  pages : Words
  pages =
      fill_table (size / 4096) words base
        (λ i. arch_build_page_table_des (advance i (va_to_pa mm vstart) 4096) pgt_des_default)

  pages_accepted :
      size % 4096 ≡ 0
      → size ≤ 1048576
      → build_page_table_entry mm words base vstart size flag ≡ (pages, pos 0)
  unfolding build_page_table_entry pages
  pages_accepted a b =
      let test : (not (is_aligin size 4096) || ltb 1048576 size) ≡ false =
        rw (is_aligin-page size) (ground arith) in
      rw test (
        ap (λ w. (w, pos 0))
          (build_page_entries-fill_table (size / 4096) words base (va_to_pa mm vstart)
            pgt_des_default))

  module _ (start : va_to_pa mm vstart % 4096 ≡ 0) (pa_fits : va_to_pa mm vstart + size ≤ 2 ^ 32)
      (room : base + 1024 < 2 ^ 32) where
    module _ (a : size % 4096 ≡ 0) (b : size ≤ 1048576) where
      pages-entry :
          (offset : ℕ)
          → offset < size
          → page_entry pages base offset
            ≡ va_to_pa mm vstart + offset / 4096 * 4096 + pgt_des_default
      unfolding pages
      pages-entry offset h =
          let pa = va_to_pa mm vstart in
          let i = offset / 4096 in
          fill_table-at (size / 4096) words base _ i (omega arith) (omega (arith, h, a))
          ∙ ap (λ t. arch_build_page_table_des t pgt_des_default)
              (advance_page i pa (omega (arith, h)))
          ∙ page_des (pa + i * 4096) (omega (arith, h))
          ∙ omega arith

      pages-PagesMapped : PagesMapped words base (va_to_pa mm vstart) size pages
      unfolding pages
      pages-PagesMapped = record {
        small_page = λ offset h. omega (arith, pages-entry offset h, start);
        walk = λ offset h. omega (arith, pages-entry offset h, start);
        others = λ x o.
            fill_table-Outside (size / 4096) words base _ x (omega arith) (ground (arith, o));
      }

    -- A size that is no multiple of a page, or is over a megabyte, is refused and nothing is
    -- written; any other size, whole pages up to a megabyte, is accepted, and the table maps the range page by page to the physical address of its
    -- start, and no word outside of the entries is written. The physical start is a page's, its
    -- range does not pass 2^32, and the table lies below 2^32.
    pub build_page_table_entry-PagesMapped :
        ((build_page_table_entry mm words base vstart size flag ≡ (words, einval))
          × ((size % 4096 ≢ 0) ⊎ (1048576 < size)))
        ⊎ ((size % 4096 ≡ 0)
            × (size ≤ 1048576)
            × ((words' : Words) × (build_page_table_entry mm words base vstart size flag
                  ≡ (words', pos 0))
                × PagesMapped words base (va_to_pa mm vstart) size words'))
    build_page_table_entry-PagesMapped =
        elim (Bool-cases ((size % 4096 == 0) && not (ltb 1048576 size))) [
          | inl e ↦
              let a : size % 4096 ≡ 0 = ground arith in
              let b : size ≤ 1048576 = ground arith in
              inr (a, b, (pages, pages_accepted a b, pages-PagesMapped a b))
          | inr e ↦
              let off : (size % 4096 ≢ 0) ⊎ (1048576 < size) = ground arith in
              inl (pages_refused off, off)
        ]

-- Clearing up to megabyte `size` clears as many entries as there are megabytes from the one of
-- `va - 1` on, but always the first ones of the table; the other entries stay.
pub clear_tlb_entry_lem :
    (words : Words) (va size a : ℕ)
    → size ≤ 4096
    → entry_of (clear_tlb_entry words va size) a
      ≡ (if ltb (a / 1048576) (size - (va - 1) / 1048576) then 0 else entry_of words a)
unfolding clear_tlb_entry
clear_tlb_entry_lem words va size a h =
    let from : (if va == 0 then 1 else va) - 1 ≡ va - 1 = ground arith in
    let rounds = size - (va - 1) / 1048576 in
    rw (from, clear_entries-fill_table rounds words arch_get_tlb_base)
      (elim (Bool-cases (ltb (a / 1048576) rounds)) [
        | inl e ↦ rw e (
            fill_table-at rounds words arch_get_tlb_base _ (a / 1048576) (omega arith)
              (ground arith))
        | inr e ↦ rw e (
            fill_table-Outside rounds words arch_get_tlb_base _
              (arch_get_tlb_base + 4 * (a / 1048576)) (omega arith) (ground arith))
      ])

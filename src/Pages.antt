-- ===== src/Pages.antt =====
-- mm/mm.c: the allocator of pages. Page ids index the page table and the bit map; addresses are
-- words of 32 bits. get_free_pages and free_pages hold the mutex of the zone from their first access
-- to its fields to their last, so each is one step here. A NULL result is 0.
pub mod Aligned
pub mod Alloc
pub mod Bits
mod Examples
pub mod Find
pub mod Given
pub mod Words
use Prim.Native.Nat.{bit_and, bit_or}
use mirros.Base.{
  ℕ, zero, suc, ◌+◌, ◌-◌, ◌*◌, ◌<◌, Bool, true, false, ◌&&◌, not, Option, none, some, List, [], ◌∷◌,
  ◌++◌, ◌==◌, ltb, leb, if◌then◌else◌,
}
use mirros.Base.Int.{ℤ, is_zero}
use mirros.Base.Words.{u8, u32, sub32, ◌<<◌, ◌>>◌}
use mirros.Bitops.{Bitmap, read_bit, set_bit, clear_bit}
use mirros.Link.{Links, init_list}

-- `struct mm_section`; the offset is the word that holds it.
pub record Section : Type 0 where
  pub phy_start : ℕ
  pub vir_start : ℕ
  pub size : ℕ
  pub pv_offset : ℕ

-- `struct mm_zone`, less its mutex; `sections` are the first nr_section entries.
pub record Zone : Type 0 where
  pub sections : List Section
  pub total_size : ℕ
  pub free_size : ℕ
  pub page_num : ℕ
  pub free_pages : ℕ
  pub bm_start : ℕ
  pub bm_end : ℕ
  pub bm_current : ℕ

-- `struct page`, less its list; free_size, count and usage are bit fields of 16, 8 and 8 bits.
pub record Page : Type 0 where
  pub phy_address : ℕ
  pub flag : ℕ
  pub free_base : ℕ
  pub free_size : ℕ
  pub count : ℕ
  pub usage : ℕ

-- The globals: the zones of the bank, the page table with the lists of pages, and the bit map.
pub record Mm : Type 0 where
  pub zone : ℕ → Zone
  pub page : ℕ → Page
  pub plist : Links
  pub page_map : Bitmap
  pub kernel_start : ℕ

abbrev pub set_zone : Mm → ℕ → Zone → Mm
set_zone mm id z = record mm { zone = λ i. if id == i then z else mm.zone i }

abbrev pub set_page : Mm → ℕ → Page → Mm
set_page mm n p = record mm { page = λ i. if n == i then p else mm.page i }

-- The loop of `mm_free_page`, with the rounds left; `i` is a zone.
abbrev sum_free : ℕ → ℕ → Mm → ℕ → ℕ
sum_free zero i mm flag = 0
sum_free (suc k) i mm flag =
    let rest = sum_free k (i + 1) mm flag in
    if bit_and flag i == i then u32 ((mm.zone i).free_pages + rest) else rest

unfoldable pub mm_free_page : Mm → ℕ → ℕ
mm_free_page mm flag = sum_free 4 0 mm (bit_and flag 3)

abbrev pub page_state : Mm → ℕ → ℤ
page_state mm n = read_bit mm.page_map n

unfoldable pub va_to_page_id : Mm → ℕ → ℕ
va_to_page_id mm va = sub32 va mm.kernel_start >> 12

unfoldable pub page_id_to_va : Mm → ℕ → ℕ
page_id_to_va mm index = u32 (mm.kernel_start + (index << 12))

unfoldable pub page_to_pa : Mm → ℕ → ℕ
page_to_pa mm n = (mm.page n).phy_address

-- The inner loops of `va_get_pv_offset` and `pa_get_pv_offset`.
abbrev va_offset_in : List Section → ℕ → Option ℕ
va_offset_in [] va = none
va_offset_in (s ∷ rest) va =
    if leb s.vir_start va && leb va (u32 (s.vir_start + s.size))
    then some s.pv_offset
    else va_offset_in rest va

abbrev pa_offset_in : List Section → ℕ → Option ℕ
pa_offset_in [] pa = none
pa_offset_in (s ∷ rest) pa =
    if leb s.phy_start pa && leb pa (u32 (s.phy_start + s.size))
    then some s.pv_offset
    else pa_offset_in rest pa

-- The sections in the order of the two loops.
abbrev all_sections : Mm → List Section
all_sections mm =
    (mm.zone 0).sections ++ (mm.zone 1).sections ++ (mm.zone 2).sections ++ (mm.zone 3).sections

abbrev or_zero : Option ℕ → ℕ
or_zero none = 0
or_zero (some n) = n

unfoldable pub va_get_pv_offset : Mm → ℕ → ℕ
va_get_pv_offset mm va = or_zero (va_offset_in (all_sections mm) va)

unfoldable pub pa_get_pv_offset : Mm → ℕ → ℕ
pa_get_pv_offset mm pa = or_zero (pa_offset_in (all_sections mm) pa)

unfoldable pub pa_to_va : Mm → ℕ → ℕ
unfolding pa_get_pv_offset
pa_to_va mm pa =
    let pv_offset = pa_get_pv_offset mm pa in if pv_offset == 0 then 0 else u32 (pa + pv_offset)

unfoldable pub va_to_pa : Mm → ℕ → ℕ
unfolding va_to_page_id page_to_pa
va_to_pa mm va = page_to_pa mm (va_to_page_id mm va)

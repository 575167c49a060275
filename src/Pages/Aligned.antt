-- ===== src/Pages/Aligned.antt =====
-- mm/mm.c: `get_free_page_aligin`, a page at a given offset in a megabyte.
pub mod Taken
use Prim.Native.Nat.{bit_and}
use mirros.Base.{
  ℕ, zero, suc, ◌+◌, ◌-◌, ◌*◌, ◌/◌, ◌%◌, ◌^◌, ◌≤◌, ◌<◌, ◌≡◌, ◌⊎◌, inl, inr, refl, ◌∙◌, ap, true,
  false, Option, none, some, List, [], ◌∷◌, arith, ◌==◌, ltb, leb, if◌then◌else◌, Bool-cases, eq→==,
}
use mirros.Base.Int.{pos, is_zero}
use mirros.Base.Masks.{bit_and-ones}
use mirros.Base.Words.{size_1m, u32, sub32, ◌>>◌, ◌<<◌}
use mirros.Bitops.{read_bit}
use mirros.Bitops.Laws.{read_bit_cases}
use mirros.Pages.{Section, Zone, Mm, set_zone, page_state, va_to_page_id, page_id_to_va}
use mirros.Pages.Alloc.{zone_id, update_memory_bitmap, init_pages, init_from, init_page}
use mirros.Pages.Bits.{update_memory_bitmap_lem}

-- The inner loop from address `j` on, with its rounds left: the page where it leaves both loops.
unfoldable pub find_in_section : ℕ → Mm → ℕ → ℕ → ℕ → Option (Option ℕ)
unfolding va_to_page_id
find_in_section zero mm offset end j = none
find_in_section (suc k) mm offset end j =
    let rest = find_in_section k mm offset end (u32 (j + size_1m)) in
    let id = u32 (va_to_page_id mm j + offset) in
    if ltb j end then (if is_zero (page_state mm id) then some (some id) else rest) else some none

-- The loop over the sections; 0 when no page was found.
unfoldable pub find_aligned : ℕ → Mm → ℕ → List Section → Option ℕ
unfolding find_in_section
find_aligned fuel mm offset [] = some 0
find_aligned fuel mm offset (s ∷ sections) =
    let rest = find_aligned fuel mm offset sections in
    elim (find_in_section fuel mm offset (u32 (s.vir_start + s.size)) s.vir_start) [
      | none ↦ none
      | some r ↦ elim r [ none ↦ rest | some id ↦ some id ]
    ]

-- What is done with the page that was found.
unfoldable pub take_aligned : Mm → ℕ → ℕ → ℕ → Mm × ℕ
unfolding update_memory_bitmap init_pages page_id_to_va
take_aligned mm id flag zone_index =
    let zone = mm.zone zone_index in
    let mm1 = record mm { page_map = update_memory_bitmap mm.page_map id 1 true } in
    let mm2 = set_zone mm1 zone_index (record zone {
      free_size = sub32 zone.free_size 4096;
      free_pages = sub32 zone.free_pages 1;
    }) in
    (init_pages mm2 id 1 flag, page_id_to_va mm2 id)

unfoldable pub get_free_page_aligin : ℕ → Mm → ℕ → ℕ → Option (Mm × ℕ)
unfolding find_aligned take_aligned
get_free_page_aligin fuel mm aligin flag =
    let offset = bit_and aligin 1048575 >> 12 in
    if leb 4 (zone_id flag)
    then some (mm, 0)
    else elim (find_aligned fuel mm offset (mm.zone (zone_id flag)).sections) [
      | none ↦ none
      | some id ↦ some (if id == 0 then (mm, 0) else take_aligned mm id flag (zone_id flag))
    ]

-- ===== src/Pages/Alloc.antt =====
-- mm/mm.c: giving out pages and freeing them.
use Prim.Native.Nat.{bit_and, bit_or}
use mirros.Base.{
  ℕ, zero, suc, ◌+◌, ◌-◌, ◌*◌, Bool, true, false, ◌&&◌, not, Option, none, some, ◌==◌, ltb, leb,
  if◌then◌else◌,
}
use mirros.Base.Int.{is_zero}
use mirros.Base.Words.{u8, u32, sub32, ◌>>◌}
use mirros.Bitops.{Bitmap, read_bit, set_bit, clear_bit}
use mirros.Link.{init_list}
use mirros.Pages.{Zone, Mm, set_zone, set_page, va_to_page_id, page_id_to_va, va_get_pv_offset}

abbrev pub gfp_page_header : ℕ
gfp_page_header = 32

-- The body of the loop of `init_pages` at page `i`, with `page_get` at its end; the flags of the
-- first page stay for the pages behind it.
unfoldable pub init_page : Mm → ℕ → ℕ → ℕ → ℕ → Mm
unfolding page_id_to_va va_get_pv_offset
init_page mm i index count flag =
    let va = page_id_to_va mm i in
    let mm1 = record mm { plist = init_list mm.plist i } in
    set_page mm1 i (record {
      phy_address = sub32 va (va_get_pv_offset mm va);
      flag = flag;
      free_base = va;
      free_size = 4096;
      count = u8 (if i == index then count else i);
      usage = 1;
    })

unfoldable pub init_from : ℕ → ℕ → Mm → ℕ → ℕ → ℕ → Mm
unfolding init_page
init_from zero i mm index count flag = mm
init_from (suc k) i mm index count flag =
    init_from k (i + 1) (init_page mm i index count flag) index count flag

-- The first round sets __GFP_PAGE_HEADER.
unfoldable pub init_pages : Mm → ℕ → ℕ → ℕ → Mm
unfolding init_from
init_pages mm index count flag = init_from count index mm index count (bit_or flag gfp_page_header)

-- The loop of `update_memory_bitmap` from page `i` on.
unfoldable pub update_from : ℕ → ℕ → Bool → Bitmap → Bitmap
update_from zero i update map = map
update_from (suc k) i update map =
    update_from k (i + 1) update (if update then set_bit map i else clear_bit map i)

unfoldable pub update_memory_bitmap : Bitmap → ℕ → ℕ → Bool → Bitmap
unfolding update_from
update_memory_bitmap map index count update = update_from count index update map

-- The end of a round of the loop of `find_continous_pages`: whether it has wrapped around, the sum
-- and the position.
abbrev wrap : Zone → ℕ → Bool → ℕ → Bool × ℕ × ℕ
wrap zone i again sum =
    if i == zone.bm_end then (true, 0, sub32 zone.bm_start 1) else (again, sum, i)

-- The loop of `find_continous_pages`; `none` when the fuel runs out.
unfoldable pub find_loop : ℕ → Bitmap → Zone → ℕ → ℕ → Bool → ℕ → Option ℕ
find_loop zero map zone count i again sum = none
find_loop (suc k) map zone count i again sum =
    let is_free = is_zero (read_bit map i) in
    let sum1 = if is_free then sum + 1 else sum in
    let (again2, sum2, i2) = wrap zone i again sum1 in
    let rest = find_loop k map zone count (u32 (i2 + 1)) again2 sum2 in
    if is_free && (sum1 == count)
    then some (sub32 (i + 1) count)
    else if again2 && (i2 == zone.bm_current)
    then some 0
    else rest

unfoldable pub find_continous_pages : ℕ → Bitmap → Zone → ℕ → Option ℕ
unfolding find_loop
find_continous_pages fuel map zone count = find_loop fuel map zone count zone.bm_current false 0

abbrev pub zone_id : ℕ → ℕ
zone_id flag = bit_and flag 15 >> 1

-- What `_get_free_pages` does with the first page that was found.
unfoldable pub take_pages : Mm → ℕ → ℕ → ℕ → ℕ → Mm × ℕ
unfolding init_pages page_id_to_va update_memory_bitmap
take_pages mm id count flag index =
    let zone = mm.zone id in
    let mm1 = record mm { page_map = update_memory_bitmap mm.page_map index count true } in
    let mm2 = set_zone mm1 id (record zone {
      bm_current = u32 (index + count);
      free_size = sub32 zone.free_size (u32 (count * 4096));
      free_pages = sub32 zone.free_pages count;
    }) in
    (init_pages mm2 index count flag, page_id_to_va mm2 index)

unfoldable pub found_pages : Mm → ℕ → ℕ → ℕ → Option ℕ → Option (Mm × ℕ)
unfolding take_pages
found_pages mm id count flag none = none
found_pages mm id count flag (some index) =
    if index == 0 then some (mm, 0) else some (take_pages mm id count flag index)

-- `get_free_pages` with `_get_free_pages`; the count is not negative.
unfoldable pub get_free_pages : ℕ → Mm → ℕ → ℕ → Option (Mm × ℕ)
unfolding find_continous_pages found_pages
get_free_pages fuel mm count flag =
    let id = zone_id flag in
    if count == 0
    then some (mm, 0)
    else if leb 4 id
    then some (mm, 0)
    else if ltb (mm.zone id).free_pages count
    then some (mm, 0)
    else found_pages mm id count flag (find_continous_pages fuel mm.page_map (mm.zone id) count)

-- `__free_pages`
unfoldable pub release_pages : Mm → ℕ → ℕ → Mm
unfolding update_memory_bitmap
release_pages mm index id =
    let zone = mm.zone id in
    let count = (mm.page index).count in
    let mm1 = record mm { page_map = update_memory_bitmap mm.page_map index count false } in
    set_zone mm1 id (record zone {
      free_size = u32 (zone.free_size + count * 4096);
      free_pages = u32 (zone.free_pages + count);
      bm_current = if zone.bm_current == u32 (index + count) then index else zone.bm_current;
    })

unfoldable pub is_aligin : ℕ → ℕ → Bool
is_aligin base bound = bit_and base (bound - 1) == 0

unfoldable pub free_pages : Mm → ℕ → Mm
unfolding release_pages va_to_page_id is_aligin
free_pages mm addr =
    if not (is_aligin addr 4096)
    then mm
    else (let index = va_to_page_id mm addr in
        let flag = (mm.page index).flag in
        if bit_and flag gfp_page_header == 0 then mm else release_pages mm index (zone_id flag))

unfoldable pub page_get : Mm → ℕ → Mm
page_get mm n = set_page mm n (record (mm.page n) { usage = u8 ((mm.page n).usage + 1) })

unfoldable pub page_put : Mm → ℕ → Mm
unfolding free_pages page_id_to_va
page_put mm n =
    let mm1 = set_page mm n (record (mm.page n) { usage = u8 ((mm.page n).usage + 255) }) in
    if (mm1.page n).usage == 0 then free_pages mm1 (page_id_to_va mm1 n) else mm1

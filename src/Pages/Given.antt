-- ===== src/Pages/Given.antt =====
-- mm/mm.c: `get_free_pages` of one page, and `free_pages` of it.
use Prim.Native.Nat.{bit_or}
use mirros.Base.{
  ℕ, ◌+◌, ◌-◌, ◌^◌, ◌≤◌, ◌<◌, ◌≡◌, ◌⊎◌, inl, inr, refl, ◌∙◌, ap, true, false, Option, some, arith,
  ◌==◌, ltb, leb, if◌then◌else◌, Bool-cases, eq→==,
}
use mirros.Base.Int.{pos}
use mirros.Base.Words.{sub32}
use mirros.Bitops.{read_bit}
use mirros.Pages.{Zone, Mm, page_id_to_va}
use mirros.Pages.Alloc.{
  find_continous_pages, take_pages, found_pages, get_free_pages, free_pages, release_pages, zone_id,
  gfp_page_header, init_page, init_from, init_pages,
}
use mirros.Pages.Bits.{update_memory_bitmap_lem}
use mirros.Pages.Find.{IsBounded, OneOf, find_continous_pages_one}
use mirros.Pages.Words.{IsPageStart, page_id_to_va_lem, zone_id-header, header_set}

-- `free_pages` of the first page of a block gives the block back.
pub free_pages-release_pages :
    (mm : Mm) (index flag : ℕ)
    → IsPageStart mm.kernel_start
    → index < 2 ^ 20
    → (mm.page index).flag ≡ bit_or flag gfp_page_header
    → free_pages mm (page_id_to_va mm index) ≡ release_pages mm index (zone_id flag)
unfolding free_pages
free_pages-release_pages mm index flag s h e =
    let (back, aligned) = page_id_to_va_lem mm index s h in
    rw (aligned, back, e, header_set flag, zone_id-header flag)

module _ (mm : Mm) (flag index : ℕ) where
  abbrev id : ℕ
  id = zone_id flag

  taken : Mm
  taken = (take_pages mm id 1 flag index).0

  taken_lem : take_pages mm id 1 flag index ≡ (taken, page_id_to_va mm index)
  unfolding taken take_pages page_id_to_va
  taken_lem = refl

  taken-page :
      ((taken.page index).flag ≡ bit_or flag gfp_page_header)
      × ((taken.page index).count ≡ 1)
      × (taken.kernel_start ≡ mm.kernel_start)
      × ((n : ℕ)
          → read_bit taken.page_map n ≡ (if index == n then pos 1 else read_bit mm.page_map n))
      × ((taken.zone id).free_pages ≡ sub32 (mm.zone id).free_pages 1)
      × ((taken.zone id).free_size ≡ sub32 (mm.zone id).free_size 4096)
  unfolding taken take_pages init_pages init_from init_page
  taken-page =
      let here : (index == index) ≡ true = eq→== index index refl in
      let same : (id == id) ≡ true = eq→== id id refl in
      (
        rw here,
        rw here,
        refl,
        λ n. ground (arith, update_memory_bitmap_lem mm.page_map index 1 true n),
        rw same,
        rw same,
      )

  module _ (s : IsPageStart mm.kernel_start) (h : index < 2 ^ 20) where
    freed : free_pages taken (page_id_to_va mm index) ≡ release_pages taken index id
    unfolding page_id_to_va
    freed =
        let (flags, count, start, bits, free_count, free_size) = taken-page in
        ap (free_pages taken) (rw start)
        ∙ free_pages-release_pages taken index flag (rw start s) h flags

    release-taken :
        read_bit mm.page_map index ≡ pos 0
        → (mm.zone id).free_pages < 2 ^ 32
        → ((n : ℕ) → read_bit (release_pages taken index id).page_map n ≡ read_bit mm.page_map n)
          × (((release_pages taken index id).zone id).free_pages ≡ (mm.zone id).free_pages)
    unfolding release_pages
    release-taken free word =
        let (flags, count, start, bits, free_count, free_size) = taken-page in
        let same : (id == id) ≡ true = eq→== id id refl in
        rw (count, same)
          (
            λ n.
                update_memory_bitmap_lem taken.page_map index 1 false n
                ∙ ground (arith, bits n, free, ap (read_bit mm.page_map) {x = index} {y = n}),
            omega (arith, free_count, word),
          )

-- What it means that page `index` of the zone was given out, with the state `mm'` after.
pub record Given (mm : Mm) (flag index : ℕ) (mm' : Mm) : Type 0 where
  pub lower : (mm.zone (zone_id flag)).bm_start ≤ index
  pub upper : index ≤ (mm.zone (zone_id flag)).bm_end
  pub free : read_bit mm.page_map index ≡ pos 0
  pub map :
      (n : ℕ) → read_bit mm'.page_map n ≡ (if index == n then pos 1 else read_bit mm.page_map n)
  pub count : (mm'.zone (zone_id flag)).free_pages ≡ sub32 (mm.zone (zone_id flag)).free_pages 1
  pub map_back :
      (n : ℕ)
      → read_bit (free_pages mm' (page_id_to_va mm index)).page_map n ≡ read_bit mm.page_map n
  pub count_back :
      ((free_pages mm' (page_id_to_va mm index)).zone (zone_id flag)).free_pages
      ≡ (mm.zone (zone_id flag)).free_pages

module _ (mm : Mm) (flag : ℕ) (s : IsPageStart mm.kernel_start)
    (b : IsBounded (mm.zone (zone_id flag))) (first : 0 < (mm.zone (zone_id flag)).bm_start)
    (last : (mm.zone (zone_id flag)).bm_end < 2 ^ 20)
    (word : (mm.zone (zone_id flag)).free_pages < 2 ^ 32) where
  abbrev zone : Zone
  zone = mm.zone (zone_id flag)

  found_pages-Given :
      (r : Option ℕ)
      → OneOf mm.page_map zone.bm_start zone.bm_end r
      → ((found_pages mm (zone_id flag) 1 flag r ≡ some (mm, 0))
          × ((j : ℕ) → zone.bm_start ≤ j → j ≤ zone.bm_end → read_bit mm.page_map j ≡ pos 1))
        ⊎ ((index : ℕ) × (mm' : Mm) × (found_pages mm (zone_id flag) 1 flag r
              ≡ some (mm', page_id_to_va mm index))
            × Given mm flag index mm')
  unfolding found_pages taken page_id_to_va
  found_pages-Given r (inr (found, used)) = inl (rw found refl, used)
  found_pages-Given r (inl (j, found, p, q, free)) =
      let (flags, count, start, bits, free_count, free_size) = taken-page mm flag j in
      let (map_back, count_back) = release-taken mm flag j s (omega (arith, q, last)) free word in
      let is = freed mm flag j s (omega (arith, q, last)) in
      let not_none : (j == 0) ≡ false = ground (arith, first, p) in
      inr (
        j,
        taken mm flag j,
        rw (found, not_none) (ap some (taken_lem mm flag j)),
        record {
          lower = p;
          upper = q;
          free = free;
          map = bits;
          count = free_count;
          map_back = λ n. rw is (map_back n);
          count_back = rw is count_back;
        },
      )

  -- Asking for one page ends, with two rounds more than the zone has pages. It gives NULL and
  -- changes nothing when the zone counts no free page or has none, and else, the zone counting one
  -- at least, the address of a free page of the zone, which is then used, as every other page is as before, and the zone counts
  -- one page less; freeing that address makes the map and the count what they were. The zone's
  -- position is in the zone and not at its last page, the zone does not hold page 0, and
  -- the kernel starts at a page.
  pub get_free_pages-Given :
      (fuel : ℕ)
      → zone_id flag < 4
      → zone.bm_end - zone.bm_start + 2 ≤ fuel
      → ((get_free_pages fuel mm 1 flag ≡ some (mm, 0))
          × ((zone.free_pages ≡ 0)
              ⊎ ((j : ℕ) → zone.bm_start ≤ j → j ≤ zone.bm_end → read_bit mm.page_map j ≡ pos 1)))
        ⊎ ((0 < zone.free_pages)
            × ((index : ℕ) × (mm' : Mm) × (get_free_pages fuel mm 1 flag
                  ≡ some (mm', page_id_to_va mm index))
                × Given mm flag index mm'))
  unfolding get_free_pages
  get_free_pages-Given fuel known f =
      let in_bank : leb 4 (zone_id flag) ≡ false = ground (arith, known) in
      elim (Bool-cases (ltb zone.free_pages 1)) [
        | inl e ↦ inl (rw (in_bank, e) refl, inl (ground arith))
        | inr e ↦
            elim (found_pages-Given (find_continous_pages fuel mm.page_map zone 1)
              (find_continous_pages_one mm.page_map zone b fuel f)) [
                | inl (none_free, used) ↦ inl (rw (in_bank, e) none_free, inr used)
                | inr (index, mm', found, g) ↦
                    inr (ground arith, (index, mm', rw (in_bank, e) found, g))
              ]
      ]

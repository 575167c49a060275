-- ===== src/Pages/Examples.antt =====
-- mm/mm.c at a zone of the pages 2 to 5, of which 2 and 4 are free.
use mirros.Base.{
  ◌∷◌, ◌-◌, ◌*◌, ◌%◌, ◌^◌, ℕ, ◌≤◌, ◌<◌, ◌≡◌, ◌⊎◌, refl, some, [], arith, ◌==◌, if◌then◌else◌,
}
use mirros.Base.Int.{pos}
use mirros.Bitops.{Bitmap, read_bit}
use mirros.Pages.{Section, Zone, Page, Mm, page_id_to_va}
use mirros.Pages.Aligned.{get_free_page_aligin}
use mirros.Pages.Aligned.Taken.{Taken, NoneFree, InSections, offset_of, get_free_page_aligin-Taken}
use mirros.Pages.Alloc.{find_continous_pages, get_free_pages, free_pages, release_pages, zone_id}
use mirros.Pages.Find.{IsBounded, find_continous_pages-used}
use mirros.Pages.Given.{Given, get_free_pages-Given, free_pages-release_pages}

abbrev normal : Zone
normal = record {
  sections = [];
  total_size = 16384;
  free_size = 8192;
  page_num = 4;
  free_pages = 2;
  bm_start = 2;
  bm_end = 5;
  bm_current = 2;
}

abbrev used_map : Bitmap
used_map x = if x == 0 then 40 else 0

abbrev blank : Page
blank = record { phy_address = 0; flag = 33; free_base = 0; free_size = 0; count = 1; usage = 1 }

abbrev small : Mm
small = record {
  zone = λ i. normal;
  page = λ i. blank;
  plist = record { next = λ a. a; pre = λ a. a };
  page_map = used_map;
  kernel_start = 3221225472;
}

normal-IsBounded : IsBounded normal
normal-IsBounded = record { above = omega arith; below = omega arith; fits = omega arith }

find_continous_pages-used_example : find_continous_pages 3 used_map normal 2 ≡ some 3
unfolding read_bit
find_continous_pages-used_example =
    find_continous_pages-used used_map normal 0 (omega arith) (omega arith) refl refl refl

free_pages-release_pages_example :
    free_pages small (page_id_to_va small 3) ≡ release_pages small 3 (zone_id 1)
free_pages-release_pages_example =
    free_pages-release_pages small 3 1 (refl, omega arith) (omega arith) refl

get_free_pages-Given_example :
    ((get_free_pages 5 small 1 1 ≡ some (small, 0))
      × ((normal.free_pages ≡ 0) ⊎ ((j : ℕ) → 2 ≤ j → j ≤ 5 → read_bit used_map j ≡ pos 1)))
    ⊎ ((0 < normal.free_pages)
        × ((index : ℕ) × (mm' : Mm) × (get_free_pages 5 small 1 1
              ≡ some (mm', page_id_to_va small index))
            × Given small 1 index mm'))
get_free_pages-Given_example =
    get_free_pages-Given small 1 (refl, omega arith) normal-IsBounded (omega arith) (omega arith)
      (omega arith) 5 (omega arith) (omega arith)

-- A zone with a section of one megabyte from the start of the kernel.
abbrev section : Section
section = record {
  phy_start = 805306368;
  vir_start = 3221225472;
  size = 1048576;
  pv_offset = 2415919104;
}

abbrev sectioned : Mm
sectioned = record small { zone = λ i. record normal { sections = section ∷ [] } }

get_free_page_aligin-Taken_example :
    ((get_free_page_aligin 4096 sectioned 8192 1 ≡ some (sectioned, 0))
      × (NoneFree sectioned (offset_of 8192) (section ∷ []) ⊎ (read_bit used_map 0 ≡ pos 0)))
    ⊎ ((id : ℕ) × (mm' : Mm) × (get_free_page_aligin 4096 sectioned 8192 1
          ≡ some (mm', page_id_to_va sectioned id))
        × (offset_of 8192 * 2 ^ 12 ≡ 8192 % 2 ^ 20 - 8192 % 2 ^ 12)
        × InSections sectioned (offset_of 8192) (section ∷ []) id
        × (read_bit used_map id ≡ pos 0)
        × Taken sectioned 1 id mm')
get_free_page_aligin-Taken_example =
    get_free_page_aligin-Taken 4096 sectioned 8192 1 refl (omega arith) (omega arith)
      (record { start = refl; above = omega arith; fits = omega arith }, tt)

-- ===== src/Slab/Examples.antt =====
-- mm/slab.c with page 3 for blocks, of which one is in use, and page 4 for headers.
use mirros.Base.{ℕ, ◌+◌, ◌≡◌, refl, false, some, [], ◌∷◌, arith, ◌==◌, if◌then◌else◌, erase}
use mirros.Base.Words.{u8}
use mirros.Bitops.{Bitmap, read_bit}
use mirros.Link.{Links, is_list_empty}
use mirros.Link.Ring.{Ring}
use mirros.Pages.{Zone, Page, va_to_page_id}
use mirros.Slab.{Slab, plist, page_of, gfp_kernel, list_at, list_id}
use mirros.Slab.Block.{CanGive, next_header}
use mirros.Slab.Cache.{CanFree, kfree_slice_slab-reuse}
use mirros.Slab.Get.{kmalloc, get_slab_in_list}
use mirros.Slab.Kmalloc.{rounded, Given, kmalloc-Given}
use mirros.Slab.Put.{kfree_slice_slab}

abbrev no_zone : Zone
no_zone = record {
  sections = [];
  total_size = 0;
  free_size = 0;
  page_num = 0;
  free_pages = 0;
  bm_start = 0;
  bm_end = 0;
  bm_current = 0;
}

abbrev all_used : Bitmap
all_used x = 4294967295

-- Page 3 starts at 0x80003000; its first block has 32 bytes. The header of that block is the first
-- of page 4.
abbrev pages : ℕ → Page
pages n =
    if n == 3
    then record {
      phy_address = 0;
      flag = 65;
      free_base = 2147495968;
      free_size = 4064;
      count = 1;
      usage = 2;
    }
    else record {
      phy_address = 0;
      flag = 129;
      free_base = 2147500048;
      free_size = 4080;
      count = 1;
      usage = 2;
    }

-- The header at 0x80004000 is the one node of the list of page 3.
abbrev one_header : Links
one_header = record {
  next = λ a. if a == 3 then 2147500032 else if a == 2147500032 then 3 else a;
  pre = λ a. if a == 3 then 2147500032 else if a == 2147500032 then 3 else a;
}

abbrev two_pages : Slab
two_pages = record {
  mm = record {
    zone = λ i. no_zone;
    page = pages;
    plist = one_header;
    page_map = all_used;
    kernel_start = 2147483648;
  };
  slab_mutex = false;
  slab_page_current = some 3;
  table_page_current = some 4;
  table_total_pages = 1;
  page_current = 0;
  header_in_page = 1;
  base = λ a. 2147495936;
  size = λ a. 32;
}

two_pages-CanGive : CanGive two_pages (rounded 20) 3 4
unfolding is_list_empty read_bit
two_pages-CanGive = record {
  current = refl;
  used = refl;
  fits = omega arith;
  no_block = refl;
  no_header = refl;
  headers = refl;
  left = omega arith;
  apart = omega arith;
}

kmalloc-Given_example :
    (s' : Slab) × (base : ℕ) × (kmalloc 5 two_pages 20 gfp_kernel ≡ some (s', base))
    × Given two_pages 20 3 4 2147495936 (next_header two_pages 3 4) s' base
kmalloc-Given_example =
    kmalloc-Given two_pages 20 3 4 4 (omega arith) (omega arith) two_pages-CanGive
      (λ e. absurd (omega (arith, e))) (λ e. absurd (omega (arith, e))) 2147495936
      (omega arith, omega arith) (omega arith)

two_pages-CanFree : CanFree two_pages 3 2147500032 2147495936 (2147500032 ∷ []) []
unfolding read_bit va_to_page_id
two_pages-CanFree = record {
  blocks = record { apart = refl; distinct = (refl, tt); linked = (refl, refl, (refl, refl)) };
  cached = record { apart = refl; distinct = tt; linked = (refl, refl) };
  apart = λ u i. ground arith;
  inside = refl;
  some_header = λ e. absurd (omega (arith, e));
  at = refl;
  one = λ x i e. ground arith;
  shared = λ e. absurd (omega (arith, e));
  used = refl;
}

kfree_slice_slab-reuse_example :
    (s' : Slab) × (kfree_slice_slab 2 two_pages 3 2147495936 ≡ some s')
    × Ring (plist s') 3 (erase 2147500032 (2147500032 ∷ []))
    × Ring (plist s') (list_at (list_id 32)) (2147500032 ∷ [])
    × ((page_of s' 3).usage ≡ u8 ((page_of two_pages 3).usage + 255))
    × ((s2 : Slab) × (get_slab_in_list 1 s' 32 gfp_kernel ≡ some (s2, 2147495936)))
kfree_slice_slab-reuse_example =
    kfree_slice_slab-reuse two_pages 3 2147500032 2147495936 (2147500032 ∷ []) [] two_pages-CanFree
      2 (omega arith)

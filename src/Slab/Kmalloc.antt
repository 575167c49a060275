-- ===== src/Slab/Kmalloc.antt =====
-- mm/slab.c: kmalloc from the current page, and what kfree makes of the block.
use mirros.Base.{
  ℕ, suc, ◌+◌, ◌-◌, ◌*◌, ◌/◌, ◌%◌, ◌^◌, ◌≤◌, ◌<◌, ◌≡◌, ◌≢◌, refl, ap, ◌∙◌, true, false, some, List,
  ◌∷◌, arith, ◌==◌, ltb, leb, ◌∉◌,
}
use mirros.Base.Words.{u32}
use mirros.Link.Ring.{Ring}
use mirros.Slab.{Slab, plist, page_of, gfp_kernel}
use mirros.Slab.Block.{
  get_new_alloc_size_lem, Room, CanGive, next_header, header_lem, served, give_lem, served-header,
  served-page, served-others, served-listed,
}
use mirros.Slab.Get.{
  find_in_list, get_slab_in_list, from_page, get_slab_from_page_free, kmalloc_locked, kmalloc,
}

-- The size of the block for a request.
abbrev pub rounded : ℕ → ℕ
rounded size = (size + 15) / 16 * 16

-- What it means that `kmalloc` gave `base` with the header `header`.
pub record Given (s : Slab) (size pg table start header : ℕ) (s' : Slab) (base : ℕ) : Type 0 where
  pub from_page : base ≡ (page_of s pg).free_base
  pub inside : (start ≤ base) × (base + rounded size ≤ start + 4096)
  pub room : Room s' pg start
  pub rest : (page_of s' pg).free_base ≡ base + rounded size
  pub recorded : (s'.base header ≡ base) × (s'.size header ≡ rounded size)
  pub listed :
      (xs : List ℕ) → Ring (plist s) pg xs → header ∉ (pg ∷ xs) → Ring (plist s') pg (header ∷ xs)
  pub others : (n : ℕ) → n ≢ pg → n ≢ table → page_of s' n ≡ page_of s n
  pub unlocked : s'.slab_mutex ≡ false

module _ (s : Slab) (size pg table fuel : ℕ) (some_size : 0 < size) (small : size < 4096)
    (c : CanGive s (rounded size) pg table) (some_header : next_header s pg table ≢ 0)
    (some_base : (page_of s pg).free_base ≢ 0) where
  abbrev locked : Slab
  locked = record s { slab_mutex = true }

  c' : CanGive locked (rounded size) pg table
  c' = record {
    current = c.current;
    used = c.used;
    fits = c.fits;
    no_block = c.no_block;
    no_header = c.no_header;
    headers = c.headers;
    left = c.left;
    apart = c.apart;
  }

  abbrev after : Slab
  after = served locked pg table (rounded size)

  not_cached : get_slab_in_list (suc fuel) locked (rounded size) gfp_kernel ≡ some (locked, 0)
  unfolding get_slab_in_list find_in_list
  not_cached = rw (c.no_block)

  cut_off_page :
      from_page (suc fuel) locked (rounded size) (some pg) ≡ some (after, (page_of s pg).free_base)
  unfolding from_page
  cut_off_page =
      let enough : ltb (page_of s pg).free_size (rounded size) ≡ false = ground (arith, c.fits) in
      let header : (next_header s pg table == 0) ≡ false = ground arith in
      let (at, sized, lock) = served-header locked pg table (rounded size) c' some_header in
      rw (
        c.used,
        enough,
        header_lem locked pg table (suc fuel) (rounded size) c',
        give_lem locked pg table (rounded size) c' some_header,
        header,
        at,
      )

  cut_off :
      get_slab_from_page_free (suc fuel) locked (rounded size)
      ≡ some (after, (page_of s pg).free_base)
  unfolding get_slab_from_page_free
  cut_off = ap (from_page (suc fuel) locked (rounded size)) c.current ∙ cut_off_page

  locked_lem :
      kmalloc_locked (suc fuel) locked size gfp_kernel ≡ some (after, (page_of s pg).free_base)
  unfolding kmalloc_locked
  locked_lem =
      let size_is = get_new_alloc_size_lem size some_size small in
      let short : leb 4096 size ≡ false = ground arith in
      let base : ((page_of s pg).free_base == 0) ≡ false = ground arith in
      rw (size_is, short, not_cached, cut_off, base)

  kmalloc_lem :
      kmalloc (suc fuel) s size gfp_kernel
      ≡ some (record after { slab_mutex = false }, (page_of s pg).free_base)
  unfolding kmalloc
  kmalloc_lem = let test : (size == 0) ≡ false = ground arith in rw (test, locked_lem)

  module _ (start : ℕ) (room : Room s pg start) (end : start + 4096 < 2 ^ 32) where
    -- kmalloc of less than a page, with nothing in the cache of its size, room on the current page
    -- and a header left on the page of headers, ends and gives the start of the free part of the
    -- page. The block has the size rounded up to 16, lies inside of the page, and is recorded in
    -- the header, which heads the list of the page; the free part then starts behind the block, so
    -- a later block does not meet it, and still ends with the page; no page but the two changes,
    -- and the mutex is free. The current page and the page of headers differ, no address is NULL,
    -- and the page lies below 2^32.
    pub kmalloc-Given :
        (s' : Slab) × (base : ℕ) × (kmalloc (suc fuel) s size gfp_kernel ≡ some (s', base))
        × Given s size pg table start (next_header s pg table) s' base
    kmalloc-Given =
        let (at, sized, lock) = served-header locked pg table (rounded size) c' some_header in
        let (begins, free, usage) = served-page locked pg table (rounded size) c' some_header in
        let fits = c.fits in
        let starts : u32 ((page_of s pg).free_base + rounded size)
            ≡ (page_of s pg).free_base + rounded size =
          omega (arith, room, fits, end) in
        let left : ((page_of s pg).free_size + (65536 - rounded size % 65536)) % 65536
            ≡ (page_of s pg).free_size - rounded size =
          omega (arith, room, fits) in
        (
          record after { slab_mutex = false },
          (page_of s pg).free_base,
          kmalloc_lem,
          record {
            from_page = refl;
            inside = (omega (arith, room), omega (arith, room, fits));
            room = (
              omega (arith, begins, starts, free, left, room, fits),
              omega (arith, begins, starts, room),
            );
            rest = begins ∙ starts;
            recorded = (at, sized);
            listed = served-listed locked pg table (rounded size) c' some_header;
            others = served-others locked pg table (rounded size) c' some_header;
            unlocked = refl;
          },
        )

-- ===== src/Slab/Block.antt =====
-- mm/slab.c: a block that kmalloc cuts off the current page.
use Prim.Native.Nat.{bit_and}
use mirros.Base.{
  ℕ, ◌+◌, ◌-◌, ◌*◌, ◌/◌, ◌%◌, ◌≤◌, ◌<◌, ◌≡◌, ◌≢◌, refl, ap, ◌∙◌, true, false, some, List, ◌∷◌,
  arith, ◌==◌, ltb, eq→==, ◌∉◌,
}
use mirros.Base.Int.{is_zero}
use mirros.Base.Masks.{up, down, bit_and-up, bit_and-ones, low_all}
use mirros.Base.Words.{u8, u32}
use mirros.Link.{init_list, is_list_empty}
use mirros.Link.Ring.{Ring, Ring-frame, list_add-cons}
use mirros.Pages.{page_state}
use mirros.Pages.Alloc.{page_get}
use mirros.Slab.{
  Slab, plist, page_of, cut, slab_page_get, gfp_kernel, list_at, list_id, free_header, baligin,
  get_new_alloc_size, get_slab_header_from_page, get_new_slab_header, init_slab_header,
  add_slab_header_to_page, give_block,
}

-- Rounding up to sixteen, in words.
pub get_new_alloc_size_lem :
    (size : ℕ) → 0 < size → size < 4096 → get_new_alloc_size size gfp_kernel ≡ (size + 15) / 16 * 16
unfolding get_new_alloc_size baligin
get_new_alloc_size_lem size some_size small =
    let word : u32 (size + 16 - 1) ≡ size + 15 = omega arith in
    let top : bit_and (down 4 (size + 15)) 268435455 ≡ down 4 (size + 15) =
      bit_and-ones 28 (down 4 (size + 15)) ∙ low_all 28 (down 4 (size + 15)) (omega arith) in
    rw word (bit_and-up 4 (size + 15) 268435455 ∙ ap (up 4) top ∙ omega arith)

-- The page has its free part at its end: it starts at `free_base` and fills the page that starts
-- at `start`.
abbrev pub Room : Slab → ℕ → ℕ → Type 0
Room s n start =
    ((page_of s n).free_base + (page_of s n).free_size ≡ start + 4096)
    × (start ≤ (page_of s n).free_base)

-- The allocator can give a block of a size from its current page `pg`, with a header from the page
-- `table`.
pub record CanGive (s : Slab) (size pg table : ℕ) : Type 0 where
  pub current : s.slab_page_current ≡ some pg
  pub used : is_zero (page_state s.mm pg) ≡ false
  pub fits : size ≤ (page_of s pg).free_size
  pub no_block : is_list_empty (plist s) (list_at (list_id size)) ≡ true
  pub no_header : is_list_empty (plist s) free_header ≡ true
  pub headers : s.table_page_current ≡ some table
  pub left : s.header_in_page < 256
  pub apart : pg ≢ table

module _ (s : Slab) (pg table : ℕ) where
  abbrev pub next_header : ℕ
  next_header = (page_of s table).free_base

  pub with_header : Slab
  with_header =
      (get_slab_header_from_page (record s { header_in_page = s.header_in_page + 1 }) table).0

  pub header_lem :
      (fuel size : ℕ)
      → CanGive s size pg table
      → get_new_slab_header fuel s ≡ some (with_header, next_header)
  unfolding get_new_slab_header with_header get_slab_header_from_page
  header_lem fuel size c =
      let more : ltb s.header_in_page 256 ≡ true = ground (arith, c.left) in
      rw (c.no_header, c.headers, more)

  pub served : ℕ → Slab
  unfolding with_header
  served size =
      slab_page_get
        (add_slab_header_to_page
          (cut (init_slab_header with_header next_header size (page_of s pg).free_base) pg size) pg
          next_header)
        pg

  module _ (size : ℕ) (c : CanGive s size pg table) (some_header : next_header ≢ 0) where
    other : (table == pg) ≡ false
    other = ground (arith, c.apart)

    pub give_lem : give_block with_header pg size next_header ≡ (served size, next_header)
    unfolding give_block served with_header get_slab_header_from_page page_get
    give_lem = let test : (next_header == 0) ≡ false = ground arith in rw (test, other)

    pub served-header :
        ((served size).base next_header ≡ (page_of s pg).free_base)
        × ((served size).size next_header ≡ size)
        × ((served size).slab_mutex ≡ s.slab_mutex)
    unfolding served with_header get_slab_header_from_page init_slab_header add_slab_header_to_page
        page_get
    served-header =
        let same : (next_header == next_header) ≡ true = eq→== next_header next_header refl in
        (rw same, rw same, refl)

    pub served-page :
        ((page_of (served size) pg).free_base ≡ u32 ((page_of s pg).free_base + size))
        × ((page_of (served size) pg).free_size
            ≡ ((page_of s pg).free_size + (65536 - size % 65536)) % 65536)
        × ((page_of (served size) pg).usage ≡ u8 ((page_of s pg).usage + 1))
    unfolding served with_header get_slab_header_from_page init_slab_header add_slab_header_to_page
        page_get
    served-page =
        let same : (pg == pg) ≡ true = eq→== pg pg refl in
        (rw (same, other), rw (same, other), rw (same, other))

    pub served-others : (n : ℕ) → n ≢ pg → n ≢ table → page_of (served size) n ≡ page_of s n
    unfolding served with_header get_slab_header_from_page init_slab_header add_slab_header_to_page
        page_get
    served-others n a b =
        let not_pg : (pg == n) ≡ false = ground arith in
        let not_table : (table == n) ≡ false = ground arith in rw (not_pg, not_table)

    pub served-listed :
        (xs : List ℕ)
        → Ring (plist s) pg xs
        → next_header ∉ (pg ∷ xs)
        → Ring (plist (served size)) pg (next_header ∷ xs)
    unfolding served with_header get_slab_header_from_page init_slab_header add_slab_header_to_page
        page_get init_list
    served-listed xs r out =
        list_add-cons (init_list (plist s) next_header) pg next_header xs
          (Ring-frame (plist s) (init_list (plist s) next_header) pg xs
            (λ u i. (ground arith, ground arith)) r)
          out

-- ===== src/Slab/Cache.antt =====
-- mm/slab.c: a block that is given back goes to the cache of its size, and from there out again.
use mirros.Base.{
  ℕ, zero, suc, ◌+◌, ◌<◌, ◌≡◌, ◌≢◌, refl, ap, inl, inr, true, false, some, List, [], ◌∷◌, arith,
  ◌==◌, if◌then◌else◌, Bool-cases, ==_iff, eq→==, length, has, ◌∈◌, ◌∉◌, erase, not-mem-erase,
  not-mem-erase_self,
}
use mirros.Base.Int.{is_zero}
use mirros.Base.Words.{u8}
use mirros.Link.{Links, list_add, list_del, is_list_empty, list_first_entry}
use mirros.Link.Frame.{Disjoint, list_add-Disjoint, list_del-Disjoint}
use mirros.Link.Ring.{Ring, Seg, list_add-cons, list_del-erase}
use mirros.Pages.{page_state, va_to_page_id}
use mirros.Pages.Alloc.{page_put}
use mirros.Slab.{
  Slab, plist, page_of, gfp_kernel, list_at, list_id, slab_to_page, add_slab_header_to_list,
}
use mirros.Slab.Get.{get_slab_in_list, find_in_list}
use mirros.Slab.Put.{find_header, kfree_slice_slab}

-- The walk of the list of a page finds the only header of a block.
find_header_lem :
    (k : ℕ) (s : Slab) (pg a header addr : ℕ) (xs : List ℕ)
    → Seg (plist s) a xs pg
    → pg ∉ xs
    → header ∈ xs
    → s.base header ≡ addr
    → ((x : ℕ) → x ∈ xs → s.base x ≡ addr → x ≡ header)
    → length xs < k
    → find_header k s pg ((plist s).next a) addr ≡ some header
unfolding find_header
find_header_lem zero s pg a header addr xs g out i at one f = absurd (omega arith)
find_header_lem (suc k) s pg a header addr [] g out i at one f = cc
find_header_lem (suc k) s pg a header addr (x ∷ xs) g out i at one f =
    let not_head : (x == pg) ≡ false = ground arith in
    let first : (plist s).next a ≡ x = g.0 in
    rw first (
      rw not_head (elim (Bool-cases (s.base x == addr)) [
        | inl e ↦ rw e (ap some (one x (ground arith) ((==_iff _ _).0 e)))
        | inr e ↦ rw e (
            find_header_lem k s pg x header addr xs g.2 (ground arith)
              (elim (Bool-cases (header == x)) [
                | inl h ↦ absurd (ground (arith, ap s.base {x = header} {y = x} ((==_iff _ _).0 h)))
                | inr h ↦ ground arith
              ])
              at (λ y j. one y (ground arith)) (omega arith))
      ]))

-- What it takes to give back the block at `addr` of page `pg` with the header `header`, to a cache
-- of the blocks `ys`: the page has more blocks in use.
pub record CanFree (s : Slab) (pg header addr : ℕ) (xs ys : List ℕ) : Type 0 where
  pub blocks : Ring (plist s) pg xs
  pub cached : Ring (plist s) (list_at (list_id (s.size header))) ys
  pub apart : Disjoint (list_at (list_id (s.size header)) ∷ ys) (header ∷ pg ∷ xs)
  pub inside : header ∈ xs
  pub some_header : header ≢ 0
  pub at : s.base header ≡ addr
  pub one : (x : ℕ) → x ∈ xs → s.base x ≡ addr → x ≡ header
  pub shared : u8 ((page_of s pg).usage + 255) ≢ 0
  pub used : is_zero (page_state s.mm (va_to_page_id s.mm addr)) ≡ false

module _ (s : Slab) (pg header addr : ℕ) (xs ys : List ℕ) (c : CanFree s pg header addr xs ys) where
  abbrev cache : ℕ
  cache = list_at (list_id (s.size header))

  abbrev freed_links : Links
  freed_links = list_add (list_del (plist s) header) cache header

  freed : Slab
  freed = record s {
    mm = record s.mm {
      plist = freed_links;
      page = λ n.
          if pg == n
          then record (page_of s pg) { usage = u8 ((page_of s pg).usage + 255) }
          else s.mm.page n;
    };
  }

  freed_lem : (fuel : ℕ) → length xs < fuel → kfree_slice_slab fuel s pg addr ≡ some freed
  unfolding kfree_slice_slab freed add_slab_header_to_list page_put
  freed_lem fuel f =
      let found =
        find_header_lem fuel s pg pg header addr xs c.blocks.linked c.blocks.apart c.inside c.at
          c.one f in
      let test : (header == 0) ≡ false = ground (arith, c.some_header) in
      let self : (pg == pg) ≡ true = eq→== pg pg refl in
      let kept : (u8 ((page_of s pg).usage + 255) == 0) ≡ false = ground (arith, c.shared) in
      rw (found, test, self, kept)

  unlinked : Ring (list_del (plist s) header) pg (erase header xs)
  unlinked = list_del-erase (plist s) pg header xs c.blocks c.inside

  still_cached : Ring (list_del (plist s) header) cache ys
  still_cached =
      list_del-Disjoint (plist s) pg header xs c.blocks cache ys c.apart c.inside c.cached

  not_in_cache : header ∉ (cache ∷ ys)
  not_in_cache = elim (Bool-cases (has header (cache ∷ ys))) [
    | inl i ↦ absurd (ground (arith, c.apart header i))
    | inr o ↦ o
  ]

  cached_first : Ring freed_links cache (header ∷ ys)
  cached_first = list_add-cons (list_del (plist s) header) cache header ys still_cached not_in_cache

  apart_after : Disjoint (pg ∷ erase header xs) (header ∷ cache ∷ ys)
  apart_after u i = elim (Bool-cases (has u (cache ∷ ys))) [
    | inl j ↦ absurd (ground (arith, c.apart u j, not-mem-erase u header xs))
    | inr o ↦ elim (Bool-cases (u == header)) [
      | inl e ↦ absurd (
          ground (
            arith,
            not-mem-erase_self header xs c.blocks.distinct,
            (==_iff u header).0 e,
            c.blocks.apart,
            c.inside,
            ap (λ t. has t xs) {x = u} {y = header} ((==_iff u header).0 e),
            ap (λ t. has t (erase header xs)) {x = u} {y = header} ((==_iff u header).0 e),
          ))
      | inr n ↦ ground arith
    ]
  ]

  page_list : Ring freed_links pg (erase header xs)
  page_list =
      list_add-Disjoint (list_del (plist s) header) cache header ys still_cached pg
        (erase header xs) apart_after unlinked

  reuse :
      (fuel : ℕ)
      → get_slab_in_list (suc fuel) freed (s.size header) gfp_kernel
        ≡ some (slab_to_page freed header (va_to_page_id s.mm addr), addr)
  unfolding get_slab_in_list find_in_list freed is_list_empty list_first_entry va_to_page_id
  reuse fuel =
      let first : freed_links.next cache ≡ header = cached_first.linked.0 in
      let some_block : (header == cache) ≡ false = ground (arith, not_in_cache) in
      rw (first, some_block, c.at, c.used)

  -- Giving back the slice at `addr` ends, with more fuel than the page has blocks in use: its header
  -- leaves the list of the page and heads the cache of its size, every other header keeps its
  -- place, and the page counts one use less. The next request for that size gets the same address
  -- from the cache. The block has one header, other blocks of the page are in use, and the lists of
  -- the page and of the cache are apart.
  pub kfree_slice_slab-reuse :
      (fuel : ℕ)
      → length xs < fuel
      → (s' : Slab) × (kfree_slice_slab fuel s pg addr ≡ some s')
        × Ring (plist s') pg (erase header xs)
        × Ring (plist s') cache (header ∷ ys)
        × ((page_of s' pg).usage ≡ u8 ((page_of s pg).usage + 255))
        × ((s2 : Slab) × (get_slab_in_list 1 s' (s.size header) gfp_kernel ≡ some (s2, addr)))
  unfolding freed
  kfree_slice_slab-reuse fuel f =
      let self : (pg == pg) ≡ true = eq→== pg pg refl in
      (
        freed,
        freed_lem fuel f,
        page_list,
        cached_first,
        rw self,
        (slab_to_page freed header (va_to_page_id s.mm addr), reuse 0),
      )

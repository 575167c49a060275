-- ===== src/Slab.antt =====
-- mm/slab.c: the allocator of small blocks, over the allocator of pages. A page is its number; a
-- `struct slab_header` is known by its address, which is above every number that stands for a head
-- here. The list fields of headers, the slab_list fields of pages and the heads of the allocator are
-- one memory of links, the `plist` of the pages. A NULL page is `none`, any other NULL is 0. Sizes
-- are not negative. A call starts when the mutex is free; `none` means that a loop did not end.
pub mod Block
pub mod Cache
mod Examples
pub mod Get
pub mod Kmalloc
pub mod Put
use Prim.Native.Nat.{bit_and, bit_or}
use mirros.Base.{
  ℕ, zero, suc, ◌+◌, ◌-◌, ◌*◌, ◌%◌, Bool, true, false, not, ◌||◌, ◌&&◌, Option, none, some, ◌==◌,
  ltb, leb, if◌then◌else◌, update, ◌>>=◌,
}
use mirros.Base.Int.{is_zero}
use mirros.Base.Words.{u8, u32, sub32, not32, ◌>>◌}
use mirros.Link.{Links, init_list, list_add, list_del, is_list_empty, list_first_entry}
use mirros.Pages.{Page, Mm, set_page, page_state, va_to_page_id, page_id_to_va}
use mirros.Pages.Alloc.{get_free_pages, page_get, page_put}

-- `struct slab` with its `struct slab_header_table`, and the headers; header_in_page is the word of
-- the int.
pub record Slab : Type 0 where
  pub mm : Mm
  pub slab_mutex : Bool
  pub slab_page_current : Option ℕ
  pub table_page_current : Option ℕ
  pub table_total_pages : ℕ
  pub page_current : ℕ
  pub header_in_page : ℕ
  pub base : ℕ → ℕ
  pub size : ℕ → ℕ

-- GFP_KERNEL, GFP_DMA, GFP_RES, GFP_SLAB_HEADER and __GFP_SLAB.
abbrev pub gfp_kernel : ℕ
gfp_kernel = 1

abbrev pub gfp_dma : ℕ
gfp_dma = 2

abbrev pub gfp_res : ℕ
gfp_res = 4

abbrev pub gfp_slab_header : ℕ
gfp_slab_header = 129

abbrev pub gfp_slab : ℕ
gfp_slab = 64

-- SLAB_NODE, and the places of the heads behind the numbers of pages.
abbrev pub slab_node : ℕ
slab_node = 255

abbrev pub list_at : ℕ → ℕ
list_at id = 1048576 + id

abbrev pub free_header : ℕ
free_header = 1049600

abbrev pub table_list : ℕ
table_list = 1049601

-- `list_id`; the word wraps below 16.
abbrev pub list_id : ℕ → ℕ
list_id size = sub32 (size >> 4) 1

abbrev pub set_plist : Slab → Links → Slab
set_plist s h = record s { mm = record s.mm { plist = h } }

abbrev pub plist : Slab → Links
plist s = s.mm.plist

abbrev pub page_of : Slab → ℕ → Page
page_of s n = s.mm.page n

abbrev pub put_page : Slab → ℕ → Page → Slab
put_page s n p = record s { mm = set_page s.mm n p }

unfoldable pub baligin : ℕ → ℕ → ℕ
baligin num size = bit_and (u32 (num + size - 1)) (not32 (size - 1))

abbrev pub page_nr : ℕ → ℕ
unfolding baligin
page_nr size = baligin size 4096 >> 12

unfoldable pub get_new_alloc_size : ℕ → ℕ → ℕ
unfolding baligin
get_new_alloc_size size flag =
    if not (bit_and flag gfp_dma == 0) || not (bit_and flag gfp_res == 0)
    then baligin size 4096
    else baligin size 16

-- `header_list_switch` from a cache list to the list of a page.
unfoldable pub slab_to_page : Slab → ℕ → ℕ → Slab
slab_to_page s header pg = set_plist s (list_add (list_del (plist s) header) pg header)

unfoldable pub add_slab_header_to_page : Slab → ℕ → ℕ → Slab
add_slab_header_to_page s pg header = set_plist s (list_add (plist s) pg header)

unfoldable pub add_slab_header_to_list : Slab → ℕ → Slab
add_slab_header_to_list s header =
    set_plist s (list_add (plist s) (list_at (list_id (s.size header))) header)

unfoldable pub init_slab_header : Slab → ℕ → ℕ → ℕ → Slab
init_slab_header s header size base = record (set_plist s (init_list (plist s) header)) {
  base = update s.base header base;
  size = update s.size header size;
}

-- Taking `size` bytes off the free part of a page; free_size has 16 bits.
abbrev pub cut : Slab → ℕ → ℕ → Slab
cut s pg size = put_page s pg (record (page_of s pg) {
  free_base = u32 ((page_of s pg).free_base + size);
  free_size = ((page_of s pg).free_size + (65536 - size % 65536)) % 65536;
})

abbrev pub slab_page_get : Slab → ℕ → Slab
slab_page_get s pg = record s { mm = page_get s.mm pg }

unfoldable pub get_slab_header_from_page : Slab → ℕ → Slab × ℕ
get_slab_header_from_page s pg = (slab_page_get (cut s pg 16) pg, (page_of s pg).free_base)

-- A new page for headers, given the result of get_free_page.
unfoldable pub add_header_page : Slab → Mm × ℕ → Slab × ℕ
unfolding get_slab_header_from_page va_to_page_id page_id_to_va
add_header_page s (mm, base) =
    let s1 = record s { mm = mm } in
    if base == 0
    then (s1, 0)
    else (let pg = va_to_page_id mm base in
        let s2 =
          put_page s1 pg
            (record (page_of s1 pg) { free_base = page_id_to_va mm pg; free_size = 4096 }) in
        let s3 = set_plist s2 (list_add (plist s2) table_list pg) in
        get_slab_header_from_page
          (record s3 {
            table_total_pages = u32 (s3.table_total_pages + 1);
            page_current = sub32 (u32 (s3.table_total_pages + 1)) 1;
            header_in_page = 1;
            table_page_current = some pg;
          })
          pg)

abbrev header_from_new_page : ℕ → Slab → Option (Slab × ℕ)
unfolding get_free_pages add_header_page
header_from_new_page fuel s = do
  r ← get_free_pages fuel s.mm 1 gfp_slab_header
  some (add_header_page s r)

-- The header page in use, when it has a header left; a header_in_page of -1 is above the bound.
abbrev header_from_table : ℕ → Slab → Option ℕ → Option (Slab × ℕ)
unfolding header_from_new_page get_slab_header_from_page
header_from_table fuel s none = header_from_new_page fuel s
header_from_table fuel s (some pg) =
    if ltb s.header_in_page 256
    then some (get_slab_header_from_page (record s { header_in_page = s.header_in_page + 1 }) pg)
    else header_from_new_page fuel s

unfoldable pub get_new_slab_header : ℕ → Slab → Option (Slab × ℕ)
unfolding header_from_table
get_new_slab_header fuel s =
    if not (is_list_empty (plist s) free_header)
    then (let header = list_first_entry (plist s) free_header in
        some (set_plist s (list_del (plist s) header), header))
    else header_from_table fuel s s.table_page_current

-- What get_slab_from_page and get_slab_from_page_free do with a header: the block is the start of
-- the free part of the page. 0 without a header.
unfoldable pub give_block : Slab → ℕ → ℕ → ℕ → Slab × ℕ
unfolding init_slab_header add_slab_header_to_page
give_block s pg size header =
    if header == 0
    then (s, 0)
    else (let s1 = cut (init_slab_header s header size (page_of s pg).free_base) pg size in
        (slab_page_get (add_slab_header_to_page s1 pg header) pg, header))

unfoldable pub get_slab_from_page : ℕ → Slab → ℕ → ℕ → Option (Slab × ℕ)
unfolding get_new_slab_header give_block
get_slab_from_page fuel s pg size = do
  (s1, header) ← get_new_slab_header fuel s
  some (give_block s1 pg size header)

-- ===== src/Slab/Put.antt =====
-- mm/slab.c: giving blocks back, and the start of the allocator.
use Prim.Native.Nat.{bit_and}
use mirros.Base.{
  ℕ, zero, suc, ◌+◌, ◌^◌, true, false, not, Option, none, some, ◌==◌, ltb, if◌then◌else◌, ◌>>=◌,
}
use mirros.Link.{init_list, list_del}
use mirros.Pages.{va_to_page_id, page_id_to_va}
use mirros.Pages.Alloc.{free_pages, page_put, is_aligin}
use mirros.Slab.{
  Slab, plist, set_plist, page_of, gfp_slab, slab_node, list_at, free_header, table_list,
  add_slab_header_to_list,
}

-- The header in the list of a page whose block stands at `addr`; 0 when there is none, and `none`
-- when the fuel runs out.
unfoldable pub find_header : ℕ → Slab → ℕ → ℕ → ℕ → Option ℕ
find_header zero s head list addr = none
find_header (suc k) s head list addr =
    let rest = find_header k s head ((plist s).next list) addr in
    if list == head then some 0 else if s.base list == addr then some list else rest

abbrev give_back : Slab → ℕ → ℕ → Slab
unfolding add_slab_header_to_list page_put
give_back s pg header =
    if header == 0
    then s
    else (let s1 = add_slab_header_to_list (set_plist s (list_del (plist s) header)) header in
        record s1 { mm = page_put s1.mm pg })

unfoldable pub kfree_slice_slab : ℕ → Slab → ℕ → ℕ → Option Slab
unfolding find_header give_back
kfree_slice_slab fuel s pg addr = do
  header ← find_header fuel s pg ((plist s).next pg) addr
  some (give_back s pg header)

-- As in the source, free_pages is given the address of the `struct page`, `page_struct`, in place
-- of the address of the page.
unfoldable pub kfree_page_slab : ℕ → (ℕ → ℕ) → Slab → ℕ → Option Slab
unfolding kfree_slice_slab free_pages page_id_to_va
kfree_page_slab fuel page_struct s pg =
    let last_page = pg + (page_of s pg).count in
    let s1 = record s { mm = free_pages s.mm (page_struct pg) } in
    kfree_slice_slab fuel s1 last_page (page_id_to_va s1.mm last_page)

abbrev unlocked : Slab → Slab
unlocked s = record s { slab_mutex = false }

-- The early return keeps the mutex.
unfoldable pub kfree_kernel_mem : ℕ → (ℕ → ℕ) → Slab → ℕ → Option Slab
unfolding kfree_slice_slab kfree_page_slab va_to_page_id is_aligin
kfree_kernel_mem fuel page_struct s addr =
    let s1 = record s { slab_mutex = true } in
    let pg = va_to_page_id s1.mm addr in
    if not (bit_and (page_of s1 pg).flag gfp_slab == 0)
    then (do s2 ← kfree_slice_slab fuel s1 pg addr; some (unlocked s2))
    else if not (is_aligin addr 4096)
    then some s1
    else (do s2 ← kfree_page_slab fuel page_struct s1 pg; some (unlocked s2))

abbrev pub kfree_user_mem : Slab → ℕ → Slab
kfree_user_mem s addr = s

unfoldable pub kfree : ℕ → (ℕ → ℕ) → Slab → ℕ → Option Slab
unfolding kfree_kernel_mem
kfree fuel page_struct s addr =
    if addr == 0
    then some s
    else if ltb addr (2 ^ 30)
    then kfree_kernel_mem fuel page_struct s addr
    else some (kfree_user_mem s addr)

-- The loop of `slab_init`, with the rounds left.
unfoldable pub init_caches : ℕ → ℕ → Slab → Slab
init_caches zero i s = s
init_caches (suc k) i s = init_caches k (i + 1) (set_plist s (init_list (plist s) (list_at i)))

unfoldable pub slab_init : Slab → Slab
unfolding init_caches
slab_init s =
    let s1 = init_caches slab_node 0 s in
    let s2 = set_plist s1 (init_list (init_list (plist s1) table_list) free_header) in
    record s2 {
      slab_mutex = false;
      table_page_current = none;
      table_total_pages = 0;
      page_current = 4294967295;
      header_in_page = 4294967295;
    }

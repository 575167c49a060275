-- ===== src/Slab/Get.antt =====
-- mm/slab.c: giving out blocks, up to kmalloc and kzalloc.
use Prim.Native.Nat.{bit_and, bit_or}
use mirros.Base.{
  ℕ, zero, suc, ◌+◌, ◌-◌, ◌*◌, true, false, not, ◌||◌, ◌&&◌, Option, none, some, ◌==◌, ltb, leb,
  if◌then◌else◌, ◌>>=◌,
}
use mirros.Base.Int.{is_zero}
use mirros.Base.Words.{u8, u32}
use mirros.Link.{list_add, list_del, is_list_empty, list_first_entry}
use mirros.Pages.{page_state, va_to_page_id}
use mirros.Pages.Alloc.{get_free_pages, page_put, is_aligin}
use mirros.Slab.{
  Slab, plist, set_plist, page_of, put_page, gfp_kernel, gfp_dma, gfp_res, gfp_slab, list_at,
  list_id, free_header, page_nr, get_new_alloc_size, slab_to_page, add_slab_header_to_list,
  give_block, get_new_slab_header, get_slab_from_page,
}
use mirros.Text.{Memory, memset}

-- The page that stays the current one, and the other one.
abbrev pub choose_page : Slab → ℕ → Option ℕ → ℕ × Option ℕ
choose_page s pg none = (pg, none)
choose_page s pg (some current_pg) =
    if ltb (page_of s current_pg).free_size (page_of s pg).free_size
    then (pg, some current_pg)
    else (current_pg, some pg)

-- The rest of the old page becomes a block of the cache.
abbrev pub cache_rest : ℕ → Slab → Option ℕ → Option Slab
unfolding get_slab_from_page add_slab_header_to_list
cache_rest fuel s none = some s
cache_rest fuel s (some old) =
    if ltb 16 (page_of s old).free_size
    then (do
      (s1, header) ← get_slab_from_page fuel s old (page_of s old).free_size
      some (add_slab_header_to_list s1 header))
    else some s

unfoldable pub update_slab_free_page : ℕ → Slab → ℕ → Option Slab
unfolding cache_rest
update_slab_free_page fuel s pg =
    let (new, old) = choose_page s pg s.slab_page_current in
    cache_rest fuel (record s { slab_page_current = some new }) old

-- As in the source, the block is taken for its header.
unfoldable pub kfree_header_slab : Slab → ℕ → ℕ → Slab
unfolding page_put
kfree_header_slab s pg addr =
    let s1 = set_plist s (list_add (list_del (plist s) addr) free_header addr) in
    record s1 { mm = page_put s1.mm pg }

-- The rounds of `repet`.
unfoldable pub find_in_list : ℕ → Slab → ℕ → Option (Slab × ℕ)
unfolding kfree_header_slab slab_to_page va_to_page_id
find_in_list zero s list = none
find_in_list (suc k) s list =
    let header = list_first_entry (plist s) list in
    let base = s.base header in
    let pg = va_to_page_id s.mm base in
    let rest = find_in_list k (kfree_header_slab s pg base) list in
    if is_list_empty (plist s) list
    then some (s, 0)
    else if is_zero (page_state s.mm pg)
    then rest
    else some (slab_to_page s header pg, base)

unfoldable pub get_slab_in_list : ℕ → Slab → ℕ → ℕ → Option (Slab × ℕ)
unfolding find_in_list
get_slab_in_list fuel s size flag =
    if bit_and flag gfp_kernel == 0
    then some (s, 0)
    else find_in_list fuel s (list_at (list_id size))

abbrev block_base : Slab × ℕ → Slab × ℕ
block_base (s, header) = if header == 0 then (s, 0) else (s, s.base header)

unfoldable pub from_page : ℕ → Slab → ℕ → Option ℕ → Option (Slab × ℕ)
unfolding get_new_slab_header give_block
from_page fuel s size none = some (s, 0)
from_page fuel s size (some pg) =
    if is_zero (page_state s.mm pg)
    then some (record s { slab_page_current = none }, 0)
    else if ltb (page_of s pg).free_size size
    then some (s, 0)
    else (do
      (s1, header) ← get_new_slab_header fuel s
      some (block_base (give_block s1 pg size header)))

unfoldable pub get_slab_from_page_free : ℕ → Slab → ℕ → Option (Slab × ℕ)
unfolding from_page
get_slab_from_page_free fuel s size = from_page fuel s size s.slab_page_current

-- The count and the size that the first of several pages remembers; extra_size is free_base.
abbrev note_extra : Slab → ℕ → ℕ → ℕ → Slab
unfolding va_to_page_id
note_extra s base count leave_size =
    let pg = va_to_page_id s.mm base in
    if ltb 1 count
    then put_page s pg
        (record (page_of s pg) { count = u8 ((page_of s pg).count + 255); free_base = leave_size })
    else s

unfoldable pub last_page_block : ℕ → Slab → ℕ → ℕ → ℕ → Option (Slab × ℕ)
unfolding note_extra get_slab_from_page update_slab_free_page va_to_page_id
last_page_block fuel s base count leave_size =
    let s1 = note_extra s base count leave_size in
    let pg = va_to_page_id s1.mm (u32 (base + (count - 1) * 4096)) in
    let s2 = put_page s1 pg (record (page_of s1 pg) {
      flag = bit_or (page_of s1 pg).flag gfp_slab;
      usage = u8 ((page_of s1 pg).usage + 255);
    }) in
    do
      (s3, header) ← get_slab_from_page fuel s2 pg leave_size
      s4 ← update_slab_free_page fuel s3 pg
      some (s4, base)

unfoldable pub pages_of : ℕ → Slab → ℕ → ℕ → Option (Slab × ℕ)
unfolding get_free_pages page_nr
pages_of fuel s size flag = do
  (mm, base) ← get_free_pages fuel s.mm (page_nr size) flag
  some (record s { mm = mm }, base)

unfoldable pub get_kernel_slab : ℕ → Slab → ℕ → ℕ → Option (Slab × ℕ)
unfolding pages_of last_page_block is_aligin page_nr
get_kernel_slab fuel s size flag = if is_aligin size 4096 then pages_of fuel s size flag else (do
  (s1, base) ← pages_of fuel s size flag
  if base == 0
      then some (s1, 0)
      else last_page_block fuel s1 base (page_nr size) (size - (page_nr size - 1) * 4096))

unfoldable pub get_new_slab : ℕ → Slab → ℕ → ℕ → Option (Slab × ℕ)
unfolding pages_of get_kernel_slab
get_new_slab fuel s size flag =
    if (flag == gfp_dma) || (flag == gfp_res)
    then pages_of fuel s size flag
    else get_kernel_slab fuel s size flag

-- The part of `__kmalloc` between the mutex calls.
unfoldable pub kmalloc_locked : ℕ → Slab → ℕ → ℕ → Option (Slab × ℕ)
unfolding get_new_alloc_size get_new_slab get_slab_in_list get_slab_from_page_free
kmalloc_locked fuel s size flag =
    let new_size = get_new_alloc_size size flag in
    if (flag == gfp_dma) || ((flag == gfp_res) || leb 4096 size)
    then get_new_slab fuel s new_size flag
    else (do
      (s1, ret) ← get_slab_in_list fuel s new_size flag
      if not (ret == 0) then some (s1, ret) else (do
        (s2, ret2) ← get_slab_from_page_free fuel s1 new_size
        if not (ret2 == 0) then some (s2, ret2) else get_new_slab fuel s2 new_size flag))

abbrev unlock : Slab × ℕ → Slab × ℕ
unlock (s, ret) = (record s { slab_mutex = false }, ret)

-- `kmalloc` with `__kmalloc`.
unfoldable pub kmalloc : ℕ → Slab → ℕ → ℕ → Option (Slab × ℕ)
unfolding kmalloc_locked
kmalloc fuel s size flag =
    if size == 0
    then some (s, 0)
    else if not (flag == gfp_kernel) && (not (flag == gfp_dma) && not (flag == gfp_res))
    then some (s, 0)
    else (do r ← kmalloc_locked fuel (record s { slab_mutex = true }) size flag; some (unlock r))

-- The memory is cleared from the address that kmalloc gives, NULL included.
unfoldable pub kzalloc : ℕ → Slab → Memory → ℕ → ℕ → Option (Slab × Memory × ℕ)
unfolding kmalloc memset
kzalloc fuel s mem size flag = do
  (s1, ret) ← kmalloc fuel s size flag
  some (s1, memset mem ret 0 size, ret)

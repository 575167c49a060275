-- ===== src/Mmu.antt =====
-- kernel/mmu.c and the descriptors of arch/arm/machine/arm920t_c.c: the translation table of the
-- processor and the page tables. Memory is its words by address; flushing the TLB leaves no trace.
mod Examples
pub mod Fill
pub mod Sections
pub mod Tables
use Prim.Native.Nat.{bit_and, bit_or}
use mirros.Base.{
  ℕ, zero, suc, ◌+◌, ◌-◌, ◌*◌, Bool, ◌&&◌, not, ◌||◌, ◌==◌, ltb, if◌then◌else◌, update,
}
use mirros.Base.Int.{ℤ, pos, einval}
use mirros.Base.Words.{size_1m, u32, ◌>>◌}
use mirros.Pages.{Mm, va_to_pa}
use mirros.Pages.Alloc.{is_aligin}

-- A word of memory by its address.
abbrev pub Words : Type 0
Words = ℕ → ℕ

abbrev pub size_1k : ℕ
size_1k = 1024

-- The flags TLB_ATTR_DMA_MEMORY, TLB_ATTR_IO_MEMORY and TLB_ATTR_USER_MEMORY, and the mask of the
-- flags.
abbrev pub tlb_attr_dma_memory : ℕ
tlb_attr_dma_memory = 2

abbrev pub tlb_attr_io_memory : ℕ
tlb_attr_io_memory = 4

abbrev pub tlb_attr_user_memory : ℕ
tlb_attr_user_memory = 8

abbrev pub tlb_attr_memory_mask : ℕ
tlb_attr_memory_mask = 15

-- MST_WB_AP_SRW_UN, MST_NCNB_AP_SRW_UN, CURDE_PAGE_TABLE and PGT_DES_DEFAULT.
abbrev pub mst_wb_ap_srw_un : ℕ
mst_wb_ap_srw_un = 1054

abbrev pub mst_ncnb_ap_srw_un : ℕ
mst_ncnb_ap_srw_un = 1042

abbrev pub curde_page_table : ℕ
curde_page_table = 1

abbrev pub pgt_des_default : ℕ
pgt_des_default = 4094

-- KERNEL_BASE_ADDRESS
abbrev pub arch_get_tlb_base : ℕ
arch_get_tlb_base = 2147483648

unfoldable pub arch_build_tlb_des : ℕ → ℕ → ℕ
arch_build_tlb_des pa attr =
    if bit_and attr 3 == 1
    then bit_or (bit_and pa 4294966272) attr
    else bit_or (bit_and pa 4293918720) attr

unfoldable pub arch_build_page_table_des : ℕ → ℕ → ℕ
arch_build_page_table_des pa attr = bit_or (bit_and pa 4294963200) attr

-- The default of the switch has the attributes of kernel memory.
unfoldable pub arch_get_tlb_attr : ℕ → ℕ
arch_get_tlb_attr flag =
    let memory = bit_and flag tlb_attr_memory_mask in
    if (memory == tlb_attr_dma_memory) || (memory == tlb_attr_io_memory)
    then mst_ncnb_ap_srw_un
    else if memory == tlb_attr_user_memory
    then curde_page_table
    else mst_wb_ap_srw_un

abbrev pub arch_get_page_table_attr : ℕ → ℕ
arch_get_page_table_attr flag = pgt_des_default

-- The loop of `clear_tlb_entry`, with the rounds left.
unfoldable pub clear_entries : ℕ → Words → ℕ → Words
clear_entries zero words tlb_base = words
clear_entries (suc k) words tlb_base =
    clear_entries k (update words tlb_base 0) (u32 (tlb_base + 4))

-- The counter starts at the entry of `va - 1`, and the rounds end at `size`.
unfoldable pub clear_tlb_entry : Words → ℕ → ℕ → Words
unfolding clear_entries
clear_tlb_entry words va size =
    let from = if va == 0 then 1 else va in
    clear_entries (size - ((from - 1) >> 20)) words arch_get_tlb_base

-- The loop of `build_tlb_table_entry`.
unfoldable pub build_entries : ℕ → Words → ℕ → ℕ → ℕ → ℕ → Words
unfolding arch_build_tlb_des
build_entries zero words tlb_base ps attr step = words
build_entries (suc k) words tlb_base ps attr step =
    build_entries k (update words tlb_base (arch_build_tlb_des ps attr)) (u32 (tlb_base + 4))
      (u32 (ps + step)) attr step

abbrev pub entry_step : ℕ → ℕ
entry_step flag =
    if bit_and flag tlb_attr_memory_mask == tlb_attr_user_memory then size_1k else size_1m

-- As in the source, the start of the physical range is not looked at.
unfoldable pub build_tlb_table_entry : Words → ℕ → ℕ → ℕ → ℕ → Words × ℤ
unfolding build_entries arch_get_tlb_attr is_aligin
build_tlb_table_entry words vstart pstart size flag =
    if is_aligin vstart size_1m && (is_aligin vstart size_1m && is_aligin size size_1m)
    then (let tlb_base = u32 (arch_get_tlb_base + (vstart >> 20) * 4) in
        (
          build_entries (size >> 20) words tlb_base pstart (arch_get_tlb_attr flag)
              (entry_step flag),
          pos 0,
        ))
    else (words, einval)

-- The loop of `build_page_table_entry`.
unfoldable pub build_page_entries : ℕ → Words → ℕ → ℕ → ℕ → Words
unfolding arch_build_page_table_des
build_page_entries zero words addr_base pa attr = words
build_page_entries (suc k) words addr_base pa attr =
    build_page_entries k (update words addr_base (arch_build_page_table_des pa attr))
      (u32 (addr_base + 4)) (u32 (pa + 4096)) attr

unfoldable pub build_page_table_entry : Mm → Words → ℕ → ℕ → ℕ → ℕ → Words × ℤ
unfolding build_page_entries va_to_pa is_aligin
build_page_table_entry mm words base vstart size flag =
    let pa = va_to_pa mm vstart in
    if not (is_aligin size 4096) || ltb size_1m size
    then (words, einval)
    else (build_page_entries (size >> 12) words base pa (arch_get_page_table_attr flag), pos 0)

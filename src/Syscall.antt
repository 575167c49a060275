-- ===== src/Syscall.antt =====
-- kernel/syscall.c: the table of system calls. The table is its words by index; `struct syscall`
-- entries of the section .__syscall are the list that syscall_init walks.
mod Examples
pub mod Install
use mirros.Base.{
  ℕ, ◌+◌, ◌-◌, Option, none, some, List, [], ◌∷◌, ◌||◌, ◌==◌, ltb, if◌then◌else◌, update,
}
use mirros.Base.Int.{ℤ, pos, einval}

-- `struct syscall`; the number is not negative.
pub record Syscall : Type 0 where
  pub nr : ℕ
  pub addr : ℕ

abbrev pub Table : Type 0
Table = ℕ → ℕ

abbrev pub nr_syscall_base : ℕ
nr_syscall_base = 9437184

abbrev pub syscall_nr : ℕ
syscall_nr = 1024

-- real_nr is negative below the base, and the subtraction is exact above it.
unfoldable pub install_syscall : Table → ℕ → ℕ → Table × ℤ
install_syscall table nr addr =
    if ltb nr nr_syscall_base || (ltb 1023 (nr - nr_syscall_base) || (addr == 0))
    then (table, einval)
    else if table (nr - nr_syscall_base) == 0
    then (update table (nr - nr_syscall_base) addr, pos 0)
    else (table, einval)

-- The loop of `syscall_init`: a call that cannot be installed is reported and left out.
unfoldable pub install_from : List Syscall → Table → Table
unfolding install_syscall
install_from [] table = table
install_from (call ∷ rest) table = install_from rest (install_syscall table call.nr call.addr).0

-- `none` is the panic; `page` is what get_free_pages gives, and its page is cleared.
unfoldable pub syscall_init : List Syscall → ℕ → Option (Table × ℤ)
unfolding install_from
syscall_init calls page = if page == 0 then none else some (install_from calls (λ i. 0), pos 0)

-- The function that _syscall_handler of arch/arm/machine/syscall_entry.S jumps to.
abbrev pub syscall_handler : Table → ℕ → ℕ → ℕ
syscall_handler table default_handler nr =
    let addr = table (nr - nr_syscall_base) in if addr == 0 then default_handler else addr

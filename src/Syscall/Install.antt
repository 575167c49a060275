-- ===== src/Syscall/Install.antt =====
-- kernel/syscall.c: the table after start-up.
use mirros.Base.{
  ℕ, ◌+◌, ◌-◌, ◌<◌, ◌≤◌, ◌≡◌, ◌≢◌, Bool, false, ◌&&◌, not, List, [], ◌∷◌, some, arith, ◌==◌,
  if◌then◌else◌,
}
use mirros.Base.Int.{pos}
use mirros.Syscall.{
  Syscall, Table, nr_syscall_base, install_syscall, install_from, syscall_init, syscall_handler,
}

-- A declaration that is for the call `i` and has code.
abbrev pub is_for : ℕ → Syscall → Bool
is_for i call = (call.nr == nr_syscall_base + i) && not (call.addr == 0)

-- The code of the first declaration for the call `i`, and 0 when there is none.
abbrev pub first_for : ℕ → List Syscall → ℕ
first_for i [] = 0
first_for i (call ∷ rest) = if is_for i call then call.addr else first_for i rest

install_syscall-at :
    (table : Table) (nr addr i : ℕ)
    → i < 1024
    → (install_syscall table nr addr).0 i ≡ (
        if not (table i == 0)
        then table i
        else if is_for i (record { nr = nr; addr = addr })
        then addr
        else 0)
unfolding install_syscall
install_syscall-at table nr addr i h = ground arith

install_from-at :
    (calls : List Syscall) (table : Table) (i : ℕ)
    → i < 1024
    → install_from calls table i ≡ (if table i == 0 then first_for i calls else table i)
unfolding install_from
install_from-at [] table i h = ground arith
install_from-at (call ∷ rest) table i h =
    let (table', result) = install_syscall table call.nr call.addr in
    ground (
      arith,
      install_from-at rest (install_syscall table call.nr call.addr).0 i h,
      install_syscall-at table call.nr call.addr i h,
    )

-- At the end of syscall_init every system call with a number of the table leads to the first
-- declaration that has its number and some code, and to the default handler when there is none,
-- whatever else the declarations say. The table was allocated.
pub syscall_init-first :
    (calls : List Syscall) (page default_handler nr : ℕ)
    → page ≢ 0
    → nr_syscall_base ≤ nr
    → nr < nr_syscall_base + 1024
    → (table : Table) × (syscall_init calls page ≡ some (table, pos 0))
      × (syscall_handler table default_handler nr ≡ (
          if first_for (nr - nr_syscall_base) calls == 0
          then default_handler
          else first_for (nr - nr_syscall_base) calls))
unfolding syscall_init
syscall_init-first calls page default_handler nr some_page p q =
    let test : (page == 0) ≡ false = ground arith in
    (
      install_from calls (λ i. 0),
      rw test,
      rw (install_from-at calls (λ i. 0) (nr - nr_syscall_base) (omega arith)),
    )

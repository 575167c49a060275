-- ===== src/Syscall/Examples.antt =====
-- kernel/syscall.c with two declarations for the call 2 and one out of range.
use mirros.Base.{◌-◌, ◌≡◌, some, List, [], ◌∷◌, arith, ◌==◌, if◌then◌else◌}
use mirros.Base.Int.{pos}
use mirros.Syscall.{Syscall, Table, nr_syscall_base, syscall_init, syscall_handler}
use mirros.Syscall.Install.{first_for, syscall_init-first}

abbrev calls : List Syscall
calls =
    record { nr = 9437186; addr = 100 }
    ∷ record { nr = 5; addr = 200 }
    ∷ record { nr = 9437186; addr = 300 }
    ∷ []

syscall_init-first_example :
    (table : Table) × (syscall_init calls 4096 ≡ some (table, pos 0))
    × (syscall_handler table 900 9437186 ≡ (
        if first_for (9437186 - nr_syscall_base) calls == 0
        then 900
        else first_for (9437186 - nr_syscall_base) calls))
syscall_init-first_example =
    syscall_init-first calls 4096 900 9437186 (λ e. absurd (omega (arith, e))) (omega arith)
      (omega arith)

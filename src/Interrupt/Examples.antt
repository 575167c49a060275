-- ===== src/Interrupt/Examples.antt =====
-- kernel/interrupt.c at a table of no handlers.
use mirros.Base.{◌+◌, ◌*◌, ◌≡◌, ◌≢◌, ◌⊎◌, arith}
use mirros.Base.Int.{pos}
use mirros.Interrupt.{Irqs, register_irq}
use mirros.Interrupt.Dispatch.{Registered, register_irq-Registered}

abbrev no_handlers : Irqs
no_handlers = record {
  irq_table_base = 2149580800;
  fn = λ a. 0;
  arg = λ a. 0;
  int_msk = 4294967295;
  int_submsk = 4294967295;
}

-- The timer is line 14.
register_irq-Registered_example :
    ((register_irq no_handlers 14 2147500000 0 ≡ (no_handlers, pos 1))
      × (no_handlers.fn (2149580800 + 14 * 8) ≢ 0))
    ⊎ ((irqs' : Irqs) × (register_irq no_handlers 14 2147500000 0 ≡ (irqs', pos 0))
        × (no_handlers.fn (2149580800 + 14 * 8) ≡ 0)
        × Registered no_handlers 14 2147500000 0 irqs')
register_irq-Registered_example =
    register_irq-Registered no_handlers 14 2147500000 0 (omega arith, omega arith) (omega arith)
      (λ e. absurd (omega (arith, e)))

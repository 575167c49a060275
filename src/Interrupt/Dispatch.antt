-- ===== src/Interrupt/Dispatch.antt =====
-- kernel/interrupt.c: a handler that was registered is the one that an interrupt runs.
use mirros.Base.{
  ℕ, ◌+◌, ◌*◌, ◌%◌, ◌^◌, ◌<◌, ◌≡◌, ◌≢◌, ◌⊎◌, inl, inr, refl, ◌∙◌, Bool, true, false, ◌&&◌, ◌||◌,
  not, arith, ◌==◌, ltb, if◌then◌else◌, Bool-cases, ==_iff, eq→==, sym,
}
use mirros.Base.Bits.{digit, digit-bit_and, digit-le-one, holds_below, holds_at}
use mirros.Base.Int.{pos}
use mirros.Base.Words.{not32}
use mirros.Interrupt.{
  Irqs, Call, bit, arch_get_irq_description, arch_register_irq, register_irq, do_irq_handler,
  platform_enable_irq, leave_interrupt,
}
use mirros.Sched.{Sched}

-- The table lies inside of the address space and not at NULL.
abbrev pub IsTable : Irqs → Type 0
IsTable irqs = (0 < irqs.irq_table_base) × (irqs.irq_table_base + 4096 < 2 ^ 32)

-- What a registration means.
pub record Registered (irqs : Irqs) (nr fn arg : ℕ) (irqs' : Irqs) : Type 0 where
  pub runs :
      (call : Call) (s : Sched)
      → do_irq_handler call irqs' nr s
        ≡ leave_interrupt (call fn arg (record s { in_interrupt = true }))
  pub others :
      (call : Call) (s : Sched) (j : ℕ)
      → j < 512
      → j ≢ nr
      → do_irq_handler call irqs' j s ≡ do_irq_handler call irqs j s
  pub open_mask :
      (j : ℕ) → j < 32 → digit irqs'.int_msk j ≡ (if nr == j then 0 else digit irqs.int_msk j)

abbrev mask_at : ℕ → ℕ → Bool
mask_at nr j = digit (not32 (bit nr)) j == (if nr == j then 0 else 1)

abbrev open_at : ℕ → ℕ → Bool
open_at nr j = digit (not32 (bit nr)) j == 1

digit-mask : (nr j : ℕ) → nr < 32 → j < 32 → digit (not32 (bit nr)) j ≡ (if nr == j then 0 else 1)
digit-mask nr j p q =
    (==_iff _ _).0
      (holds_at (mask_at nr) 32 j (holds_at (λ t. holds_below (mask_at t) 32) 32 nr refl p) q)

module _ (irqs : Irqs) (nr fn arg : ℕ) (table : IsTable irqs) (known : nr < 32)
    (code : fn ≢ 0) where
  des_lem : (j : ℕ) → j < 512 → arch_get_irq_description irqs j ≡ irqs.irq_table_base + j * 8
  unfolding arch_get_irq_description
  des_lem j h = omega (arith, table)

  abbrev des : ℕ
  des = irqs.irq_table_base + nr * 8

  registered : Irqs
  registered =
      platform_enable_irq
        (record irqs {
          fn = λ a. if des == a then fn else irqs.fn a;
          arg = λ a. if des == a then arg else irqs.arg a;
        })
        nr

  register_irq_cases :
      register_irq irqs nr fn arg
      ≡ (if irqs.fn des == 0 then (registered, pos 0) else (irqs, pos 1))
  unfolding registered register_irq arch_register_irq platform_enable_irq
  register_irq_cases =
      let at = des_lem nr (omega arith) in
      let test : ((ltb nr (2 ^ 31) && ltb 511 nr) || (fn == 0)) ≡ false = ground arith in
      let some_des : not (des == 0) ≡ true = ground (arith, table) in rw (test, at, some_des)

  run_at :
      (irqs' : Irqs) (call : Call) (s : Sched) (j : ℕ)
      → irqs'.irq_table_base ≡ irqs.irq_table_base
      → j < 512
      → do_irq_handler call irqs' j s
        ≡ leave_interrupt (
            call
              (irqs'.fn (irqs.irq_table_base + j * 8))
              (irqs'.arg (irqs.irq_table_base + j * 8))
              (record s { in_interrupt = true }))
  unfolding do_irq_handler arch_get_irq_description
  run_at irqs' call s j same h =
      let at : (irqs'.irq_table_base + j * 8) % 4294967296 ≡ irqs.irq_table_base + j * 8 =
        omega (arith, table) in
      let some_des : (irqs.irq_table_base + j * 8 == 0) ≡ false = ground (arith, table) in
      rw (at, some_des)

  registered-Registered : Registered irqs nr fn arg registered
  unfolding registered platform_enable_irq
  registered-Registered = record {
    runs = λ call s. run_at registered call s nr refl (omega arith) ∙ rw (eq→== des des refl);
    others = λ call s j h ne.
        run_at registered call s j refl h ∙ rw (apart j ne) (sym (run_at irqs call s j refl h));
    open_mask = λ j h. ground (
      arith,
      digit-bit_and irqs.int_msk (not32 (bit nr)) j,
      digit-mask nr j known h,
      digit-le-one irqs.int_msk j,
    );
  }
    where
      apart : (j : ℕ) → j ≢ nr → (des == irqs.irq_table_base + j * 8) ≡ false
      apart j ne = ground arith

  -- A handler registered for one of the 32 lines is refused when the line has one, and nothing
  -- changes; otherwise each interrupt of the line from then on calls it with its argument, in
  -- interrupt mode and out of it at the end, the interrupts of all other lines do what they did,
  -- and the mask opens for the line alone. The table is in place and the handler is not NULL.
  pub register_irq-Registered :
      ((register_irq irqs nr fn arg ≡ (irqs, pos 1)) × (irqs.fn des ≢ 0))
      ⊎ ((irqs' : Irqs) × (register_irq irqs nr fn arg ≡ (irqs', pos 0))
          × (irqs.fn des ≡ 0)
          × Registered irqs nr fn arg irqs')
  register_irq-Registered = elim (Bool-cases (irqs.fn des == 0)) [
    | inl e ↦
        let is : register_irq irqs nr fn arg ≡ (registered, pos 0) = register_irq_cases ∙ rw e in
        inr (registered, is, ground arith, registered-Registered)
    | inr e ↦ inl (register_irq_cases ∙ rw e, ground arith)
  ]

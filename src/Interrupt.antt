-- ===== src/Interrupt.antt =====
-- kernel/interrupt.c, the table of handlers in arch/arm/machine/arm920t_c.c, and the interrupt
-- masks of arch/arm/machine/s3c2440_c.c. An interrupt number is the word that holds the int. The
-- code of a handler is given by what a call of its address does (`Call`).
mod Examples
pub mod Dispatch
use Prim.Native.Nat.{bit_and, bit_or}
use mirros.Base.{
  ℕ, ◌+◌, ◌*◌, ◌^◌, Bool, true, false, not, ◌&&◌, ◌||◌, Option, none, some, List, [], ◌∷◌, ◌==◌,
  ltb, leb, if◌then◌else◌, update,
}
use mirros.Base.Int.{ℤ, pos, negsuc, einval}
use mirros.Base.Words.{u32, not32, ◌<<◌}
use mirros.Sched.{Sched}
use mirros.Sched.Switch.{os_tick_handler, arch_switch_task_sw}

-- The table at irq_table_base, with the two words of each `struct irq_des` by the address of the
-- descriptor, and the registers INTMSK and INTSUBMSK.
pub record Irqs : Type 0 where
  pub irq_table_base : ℕ
  pub fn : ℕ → ℕ
  pub arg : ℕ → ℕ
  pub int_msk : ℕ
  pub int_submsk : ℕ

abbrev pub irq_nr : ℕ
irq_nr = 512

-- What calling the function at an address with an argument does; `none` if it does not end.
abbrev pub Call : Type 0
Call = ℕ → ℕ → Sched → Option (Sched × ℤ)

abbrev pub bit : ℕ → ℕ
bit nr = u32 (1 << nr)

-- The bits of the sub-mask that belong to an interrupt: the switch of the two functions below.
abbrev pub sub_bits : ℕ → List ℕ
sub_bits nr =
    if nr == 9
    then 14 ∷ 13 ∷ []
    else if nr == 28
    then 0 ∷ 1 ∷ 2 ∷ []
    else if nr == 23
    then 3 ∷ 4 ∷ 5 ∷ []
    else if nr == 15
    then 6 ∷ 7 ∷ 8 ∷ []
    else if nr == 31
    then 10 ∷ 9 ∷ []
    else if nr == 6
    then 12 ∷ 11 ∷ []
    else []

abbrev pub set_bits : ℕ → List ℕ → ℕ
set_bits m [] = m
set_bits m (b ∷ rest) = set_bits (bit_or m (bit b)) rest

abbrev pub clear_bits : ℕ → List ℕ → ℕ
clear_bits m [] = m
clear_bits m (b ∷ rest) = clear_bits (bit_and m (not32 (bit b))) rest

unfoldable pub platform_disable_irq : Irqs → ℕ → Irqs
platform_disable_irq irqs nr = record irqs {
  int_msk = bit_or irqs.int_msk (bit nr);
  int_submsk = set_bits irqs.int_submsk (sub_bits nr);
}

unfoldable pub platform_enable_irq : Irqs → ℕ → Irqs
platform_enable_irq irqs nr = record irqs {
  int_msk = bit_and irqs.int_msk (not32 (bit nr));
  int_submsk = clear_bits irqs.int_submsk (sub_bits nr);
}

unfoldable pub arch_get_irq_description : Irqs → ℕ → ℕ
arch_get_irq_description irqs nr = u32 (irqs.irq_table_base + nr * 8)

unfoldable pub arch_register_irq : Irqs → ℕ → ℕ → ℕ → Irqs × ℤ
unfolding arch_get_irq_description platform_enable_irq
arch_register_irq irqs nr fn arg =
    let des = arch_get_irq_description irqs nr in
    if not (des == 0) && (irqs.fn des == 0)
    then (let irqs1 = record irqs { fn = update irqs.fn des fn; arg = update irqs.arg des arg } in
        (platform_enable_irq irqs1 nr, pos 0))
    else (irqs, pos 1)

-- A number from 2^31 on is negative, so it passes the test.
unfoldable pub register_irq : Irqs → ℕ → ℕ → ℕ → Irqs × ℤ
unfolding arch_register_irq
register_irq irqs nr fn arg =
    if (ltb nr (2 ^ 31) && ltb 511 nr) || (fn == 0)
    then (irqs, einval)
    else arch_register_irq irqs nr fn arg

abbrev pub leave_interrupt : Option (Sched × ℤ) → Option (Sched × ℤ)
leave_interrupt none = none
leave_interrupt (some (s, ret)) = some (record s { in_interrupt = false }, ret)

-- The early return leaves in_interrupt set.
unfoldable pub do_irq_handler : Call → Irqs → ℕ → Sched → Option (Sched × ℤ)
unfolding arch_get_irq_description
do_irq_handler call irqs nr s =
    let s1 = record s { in_interrupt = true } in
    let des = arch_get_irq_description irqs nr in
    if des == 0 then some (s1, einval) else leave_interrupt (call (irqs.fn des) (irqs.arg des) s1)

-- `arch_irq_init` and the part of `platform_irq_init` that writes the masks, given the page from
-- get_free_pages; memset clears the page.
unfoldable pub arch_irq_init : Irqs → ℕ → Irqs × ℤ
arch_irq_init irqs page =
    if page == 0 then (record irqs { irq_table_base = page }, negsuc 11) else (
      record {
        irq_table_base = page;
        fn = λ a. if leb page a && ltb a (page + 4096) then 0 else irqs.fn a;
        arg = λ a. if leb page a && ltb a (page + 4096) then 0 else irqs.arg a;
        int_msk = 4294967295;
        int_submsk = 4294967295;
      },
      pos 0,
    )

abbrev tick_done : Option Sched → Option (Sched × ℤ)
tick_done none = none
tick_done (some s) = some (s, pos 0)

-- The handler of the timer.
unfoldable pub platform_timer_tick_handler : ℕ → Sched → Option (Sched × ℤ)
unfolding os_tick_handler
platform_timer_tick_handler fuel s = tick_done (os_tick_handler fuel s)

-- The end of an interrupt in arch/arm/machine/entry.S: when the handler has chosen another task,
-- that one is current from here on.
abbrev pub os_exit_irq : Sched → Sched
os_exit_irq s = if s.current == s.next_run then s else arch_switch_task_sw s

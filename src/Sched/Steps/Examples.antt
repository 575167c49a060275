-- ===== src/Sched/Steps/Examples.antt =====
-- kernel/sched.c: runs of the small system of Sched/Small.
use mirros.Base.{ℕ, suc, ◌≤◌, ◌≡◌, refl, some, arith}
use mirros.Interrupt.{Irqs, arch_get_irq_description}
use mirros.Sched.{
  sleep, Sched, prio_list_add_task_tail, prio_list_del_task, system_add_task_tail, sleep_add_task,
  idle_add_task_tail,
}
use mirros.Sched.Change.{get_state_change, apply_change, set_task_state}
use mirros.Sched.Lists.{Lists}
use mirros.Sched.Small.{small, small_lists, small-Inv}
use mirros.Sched.Steps.{here, Valid}
use mirros.Sched.Steps.Live.{Woken}
use mirros.Sched.Steps.Wakes.{timer_irqs, timer_irqs-Woken}

small-Valid : Valid small small_lists
unfolding get_state_change set_task_state apply_change prio_list_add_task_tail system_add_task_tail
    sleep_add_task prio_list_del_task idle_add_task_tail
small-Valid = record {
  inv = small-Inv;
  here = refl;
  only = λ u m r. ground arith;
  known = λ e. cc;
  started = refl;
  outside = refl;
  chosen = refl;
  few = omega arith;
}

abbrev timer_table : Irqs
timer_table = record {
  irq_table_base = 2149580800;
  fn = λ a. 2147500000;
  arg = λ a. 0;
  int_msk = 0;
  int_submsk = 0;
}

-- The task at 66 sleeps for one more tick.
timer_irqs-Woken_example :
    ((k : ℕ)
      → k ≤ 0
      → (t : Sched) × (timer_irqs k 5 timer_table 14 small ≡ some t) × ((t.task 66).state ≡ sleep))
    × ((t : Sched) × (timer_irqs (suc 0) 5 timer_table 14 small ≡ some t) × Woken 66 t)
unfolding get_state_change set_task_state apply_change prio_list_add_task_tail system_add_task_tail
    sleep_add_task prio_list_del_task idle_add_task_tail arch_get_irq_description
timer_irqs-Woken_example =
    timer_irqs-Woken 0 small small_lists 5 timer_table 14 66 small-Valid (omega arith)
      (λ e. absurd (omega (arith, e))) refl (refl, refl, λ e. absurd (omega (arith, e)))

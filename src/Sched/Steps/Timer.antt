-- ===== src/Sched/Steps/Timer.antt =====
-- kernel/sched.c and kernel/interrupt.c: a timer interrupt leads from a valid state to a valid state.
use mathlib.Core.Option.{some-injective}
use mathlib.Core.Path.{subst}
use mirros.Base.{
  ℕ, zero, suc, ◌+◌, ◌≤◌, ◌≡◌, ◌≢◌, ◌⊎◌, refl, ap, ◌∙◌, sym, inl, inr, Bool, true, false, some,
  List, arith, ◌==◌, Bool-cases, Option-cases, ==_iff, length, has,
}
use mirros.Base.Int.{is_zero, decrement}
use mirros.Interrupt.{
  Irqs, arch_get_irq_description, do_irq_handler, platform_timer_tick_handler, os_exit_irq,
}
use mirros.Sched.{prepare, Task, Sched, set_task}
use mirros.Sched.Lists.{Lists}
use mirros.Sched.Refine.{Inv}
use mirros.Sched.Round.{go_to}
use mirros.Sched.Steps.{Valid, timer_irq}
use mirros.Sched.Steps.Kept.{
  ValidWith, Core, CoreWith, Valid-Core, Core-Valid, Core-set_task, Core-current, Core-in_interrupt,
  go_to-SameGlobals, next-Core,
}
use mirros.Sched.Switch.{
  find_next_run_task, tick_task, arch_switch_task_sw, tick_loop, tick_current, os_tick_handler,
}
use mirros.Sched.Tick.{ticked, expires}
use mirros.Sched.Tick.Loop.{Ticked, os_tick_handler-Ticked}

-- With more fuel the loop gives the same.
tick_loop-more :
    (k m : ℕ) (s : Sched) (list : ℕ) (r : Sched)
    → k ≤ m
    → tick_loop k s list ≡ some r
    → tick_loop m s list ≡ some r
unfolding tick_loop
tick_loop-more zero m s list r le e = cc
tick_loop-more (suc k) zero s list r le e = absurd (omega arith)
tick_loop-more (suc k) (suc m) s list r le e = elim (Bool-cases (list == 0)) [
  | inl h ↦ rw h (rw h at e)
  | inr h ↦ rw h (
      tick_loop-more k m (tick_task s list) ((tick_task s list).sleep_links.next list) r
        (omega arith) (rw h at e))
]

-- So a tick that ends is the one that Sched/Tick is about.
tick-Ticked :
    (fuel : ℕ) (s : Sched) (l : Lists) (r : Sched)
    → Inv s l
    → os_tick_handler fuel s ≡ some r
    → (s' : Sched) × (r ≡ tick_current s') × Ticked s l l.sleep_list s'
unfolding os_tick_handler
tick-Ticked fuel s l r inv e =
    let enough = fuel + length l.sleep_list + 1 in
    let (s', found, t) = os_tick_handler-Ticked enough s l inv (omega arith) in
    elim (Option-cases (tick_loop fuel s (s.sleep_links.next 0))) [
      | inl h ↦ absurd (ground (arith, rw h at e))
      | inr (a, h) ↦
          let more = tick_loop-more fuel enough s (s.sleep_links.next 0) a (omega arith) h in
          (s', some-injective _ _ (sym (rw h at e) ∙ (rw more at found)), t)
    ]

module _ (s : Sched) (l : Lists) (c : Core s l) where
  -- The loop over the sleeping tasks.
  pub Ticked-Core : (s' : Sched) → Ticked s l l.sleep_list s' → CoreWith l.system_list s'
  Ticked-Core s' t = (
    t.lists,
    t.tasks,
    record {
      inv = t.kept;
      here = rw (t.globals.current, t.globals.idle_task, t.tasks) c.here;
      only = λ u m r. elim (state_after u) [
        | inl e ↦ cc
        | inr e ↦
            c.only u (rw (t.globals.idle_task, t.tasks) at m) (sym e ∙ r) ∙ sym t.globals.current
      ];
      known = λ e. elim (state_after s.current) [
        | inl h ↦ let k = rw t.globals.current at e in cc
        | inr h ↦ c.known (sym h ∙ (rw t.globals.current at e))
      ];
      few = rw t.tasks c.few;
    },
  )
    where
      state_after : (u : ℕ) → ((s'.task u).state ≡ prepare) ⊎ ((s'.task u).state ≡ (s.task u).state)
      state_after u = elim (Bool-cases (has u l.sleep_list)) [
        | inl i ↦
            let at : (s'.task u).state ≡ (ticked (s.task u)).state =
              ap (λ (x : Task). x.state) (t.older u i) in
            elim (Bool-cases (expires (s.task u).wait_time)) [
              | inl h ↦ inl (at ∙ rw h)
              | inr h ↦ inr (at ∙ rw h)
            ]
        | inr o ↦ inr (ap (λ (x : Task). x.state) (t.others u o))
      ]

-- Leaving an interrupt makes the task that was chosen current, also when it is so already.
pub os_exit_irq_lem : (s : Sched) → os_exit_irq s ≡ arch_switch_task_sw s
os_exit_irq_lem s = elim (Bool-cases (s.current == s.next_run)) [
  | inl e ↦ rw e (λ i. record s { current = (==_iff s.current s.next_run).0 e i })
  | inr e ↦ rw e
]

module _ (s : Sched) where
  abbrev pub older : Task
  older = record (s.task s.current) { run_time = decrement (s.task s.current).run_time }

  abbrev pub counted : Sched
  counted = set_task s s.current older

  pub tick_current_cases :
      (arch_switch_task_sw (tick_current s) ≡ go_to counted (find_next_run_task counted))
      ⊎ (arch_switch_task_sw (tick_current s) ≡ record counted { current = s.next_run })
  unfolding tick_current go_to
  tick_current_cases = elim (Bool-cases (is_zero (counted.task s.current).run_time)) [
    | inl e ↦ inl (rw e refl)
    | inr e ↦ inr (rw e refl)
  ]

-- A state with the same tasks and the same flag, whose next task is the current one.
abbrev Turned : List ℕ → Bool → Sched → Type 0
Turned tasks started u =
    CoreWith tasks u × (u.next_run ≡ u.current) × (u.schedule_running ≡ started)

-- After the part of the tick that is about the current task.
turn-Core :
    (s : Sched) (l : Lists)
    → Core s l
    → s.next_run ≡ s.current
    → Turned l.system_list s.schedule_running (arch_switch_task_sw (tick_current s))
turn-Core s l c chosen =
    let c' = Core-set_task s l s.current (older s) refl refl c in
    elim (tick_current_cases s) [
      | inl e ↦
          let g = go_to-SameGlobals (counted s) (find_next_run_task (counted s)) in
          subst (Turned l.system_list s.schedule_running) (sym e)
            (next-Core (counted s) l c', g.next_run ∙ sym g.current, g.schedule_running)
      | inr e ↦
          subst (Turned l.system_list s.schedule_running) (sym e)
            ((l, refl, Core-current (counted s) l s.next_run chosen c'), refl, refl)
    ]

exit-Valid :
    (s : Sched) (l : Lists)
    → Core s l
    → s.next_run ≡ s.current
    → s.schedule_running ≡ true
    → ValidWith l.system_list (os_exit_irq (record (tick_current s) { in_interrupt = false }))
exit-Valid s l c chosen started =
    let ((l', tasks, c'), next_is, runs) = turn-Core s l c chosen in
    rw (os_exit_irq_lem (record (tick_current s) { in_interrupt = false })) (
      l',
      tasks,
      Core-Valid (Core-in_interrupt (arch_switch_task_sw (tick_current s)) l' false c')
          (runs ∙ started) refl next_is,
    )

-- What a timer interrupt is, in terms of the tick.
timer_irq_lem :
    (fuel : ℕ) (irqs : Irqs) (nr : ℕ) (s s' : Sched)
    → arch_get_irq_description irqs nr ≢ 0
    → timer_irq fuel irqs nr s ≡ some s'
    → (r : Sched) × (os_tick_handler fuel (record s { in_interrupt = true }) ≡ some r)
      × (s' ≡ os_exit_irq (record r { in_interrupt = false }))
unfolding timer_irq do_irq_handler platform_timer_tick_handler
timer_irq_lem fuel irqs nr s s' some_des e =
    let test : (arch_get_irq_description irqs nr == 0) ≡ false = ground arith in
    elim (Option-cases (os_tick_handler fuel (record s { in_interrupt = true }))) [
      | inl h ↦ absurd (ground (arith, rw (test, h) at e))
      | inr (r, h) ↦ (r, h, some-injective _ _ (sym (rw (test, h) at e)))
    ]

pub timer_irq-Valid :
    (s : Sched) (l : Lists)
    → Valid s l
    → (fuel : ℕ) (irqs : Irqs) (nr : ℕ) (s' : Sched) → arch_get_irq_description irqs nr ≢ 0
    → timer_irq fuel irqs nr s ≡ some s'
    → ValidWith l.system_list s'
timer_irq-Valid s l v fuel irqs nr s' some_des e =
    let s1 = record s { in_interrupt = true } in
    let c1 = Core-in_interrupt s l true (Valid-Core v) in
    let (r, found, is) = timer_irq_lem fuel irqs nr s s' some_des e in
    let (s2, at, t) = tick-Ticked fuel s1 l r c1.inv found in
    let (l2, tasks2, c2) = Ticked-Core s1 l c1 s2 t in
    let g = t.globals in
    let (l3, tasks3, v3) =
      exit-Valid s2 l2 c2 (g.next_run ∙ v.chosen ∙ sym g.current)
        (g.schedule_running ∙ v.started) in
    rw (is, at) (l3, tasks3 ∙ tasks2, v3)

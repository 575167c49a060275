-- ===== src/Sched/Steps/Live.antt =====
-- kernel/sched.c: a task that sleeps for some ticks is woken by them.
use mathlib.Core.Path.{subst}
use mirros.Base.{
  ℕ, ◌≡◌, ◌≢◌, ◌⊎◌, refl, ap, ◌∙◌, sym, inl, inr, true, false, arith, ◌==◌, Bool-cases, ==_iff,
}
use mirros.Base.Int.{ℤ}
use mirros.Sched.{prepare, running, sleep, Task, Sched}
use mirros.Sched.Frame.{set_task_state-task_ne}
use mirros.Sched.Lists.{Lists}
use mirros.Sched.Pick.{IsNext, find_next_run_task-IsNext}
use mirros.Sched.Refine.{managed}
use mirros.Sched.Round.{with_next, go_to, switched}
use mirros.Sched.Steps.Kept.{Core, Core-set_task, go_to-SameGlobals}
use mirros.Sched.Steps.Short.{few-Short}
use mirros.Sched.Steps.Timer.{tick_current_cases, counted, older}
use mirros.Sched.Switch.{
  find_next_run_task, prepare_to_switch, arch_switch_task_sw, tick_current, is_running,
}

prepare_to_switch-task_ne :
    (s : Sched) (next u : ℕ)
    → (s.current == u) ≡ false
    → (next == u) ≡ false
    → (prepare_to_switch s next).task u ≡ s.task u
unfolding prepare_to_switch
prepare_to_switch-task_ne s next u a b = elim (Bool-cases (s.current == next)) [
  | inl e ↦ rw (e, b)
  | inr e ↦ elim (Bool-cases (is_running (s.task s.current).state)) [
    | inl r ↦
        rw (e, b, r)
          (set_task_state-task_ne _ next running u b
            ∙ rw b (set_task_state-task_ne s s.current prepare u a))
    | inr r ↦ rw (e, b, r) (set_task_state-task_ne _ next running u b ∙ rw b)
  ]
]

go_to-task_ne :
    (s : Sched) (next u : ℕ)
    → (s.current == u) ≡ false
    → (next == u) ≡ false
    → (go_to s next).task u ≡ s.task u
unfolding go_to
go_to-task_ne s next u a b = prepare_to_switch-task_ne (with_next s next) next u a b

-- A sleeping task is not switched to, and keeps its fields.
module _ (s : Sched) (l : Lists) (c : Core s l) (u : ℕ) (asleep : (s.task u).state ≡ sleep)
    (away : u ≢ s.current) where
  not_next : find_next_run_task s ≢ u
  not_next e = elim (find_next_run_task-IsNext s l c.inv (few-Short s l c.inv c.few)) [
    | inl (is, nobody) ↦ away (sym e ∙ is)
    | inr is ↦ let r = is.ready.1 in cc
  ]

  go_to-asleep :
      ((go_to s (find_next_run_task s)).task u ≡ s.task u)
      × ((go_to s (find_next_run_task s)).current ≢ u)
  unfolding go_to
  go_to-asleep = (
    prepare_to_switch-task_ne (with_next s (find_next_run_task s)) (find_next_run_task s) u
        (ground arith) (ground (arith, not_next)),
    λ e. not_next (sym (go_to-SameGlobals s (find_next_run_task s)).current ∙ e),
  )

-- What the end of a tick makes of a task that is not the current one.
abbrev pub Sleeps : ℕ → ℤ → Sched → Type 0
Sleeps u wait s = ((s.task u).state ≡ sleep) × ((s.task u).wait_time ≡ wait) × (u ≢ s.current)

abbrev pub Woken : ℕ → Sched → Type 0
Woken u s = ((s.task u).state ≡ prepare) ⊎ ((s.current ≡ u) × ((s.task u).state ≡ running))

module _ (s : Sched) (l : Lists) (c : Core s l) (u : ℕ) (away : u ≢ s.current)
    (chosen : s.next_run ≡ s.current) where
  counted-task : (counted s).task u ≡ s.task u
  counted-task = let ne : (s.current == u) ≡ false = ground arith in rw ne

  c' : Core (counted s) l
  c' = Core-set_task s l s.current (older s) refl refl c

  pub turn-Sleeps :
      (wait : ℤ)
      → (s.task u).state ≡ sleep
      → (s.task u).wait_time ≡ wait
      → Sleeps u wait (arch_switch_task_sw (tick_current s))
  turn-Sleeps wait asleep at = elim (tick_current_cases s) [
    | inl e ↦
        let (same, other) =
          go_to-asleep (counted s) l c' u (ap (λ (x : Task). x.state) counted-task ∙ asleep) away in
        subst (Sleeps u wait) (sym e) (
          ap (λ (x : Task). x.state) (same ∙ counted-task) ∙ asleep,
          ap (λ (x : Task). x.wait_time) (same ∙ counted-task) ∙ at,
          λ h. other (sym h),
        )
    | inr e ↦ subst (Sleeps u wait) (sym e) (
      ap (λ (x : Task). x.state) counted-task ∙ asleep,
      ap (λ (x : Task). x.wait_time) counted-task ∙ at,
      λ h. away (h ∙ chosen),
    )
  ]

  next-Woken :
      (s.task u).state ≡ prepare
      → IsNext (counted s) l (find_next_run_task (counted s))
      → Woken u (go_to (counted s) (find_next_run_task (counted s)))
  next-Woken ready is =
      let n = find_next_run_task (counted s) in
      elim (Bool-cases (n == u)) [
        | inl e ↦
            let n_is : n ≡ u = (==_iff n u).0 e in
            let w =
              switched (counted s) l c'.inv c'.here (few-Short (counted s) l c'.inv c'.few) n
                (λ h. away (sym n_is ∙ h)) c'.only is in
            let at : (go_to (counted s) n).current ≡ u =
              (go_to-SameGlobals (counted s) n).current ∙ n_is in
            inr (at, ap (λ x. ((go_to (counted s) n).task x).state) (sym at) ∙ w.now)
        | inr e ↦ inl (
            ap (λ (x : Task). x.state)
              (go_to-task_ne (counted s) n u (ground arith) e ∙ counted-task)
            ∙ ready)
      ]

  pub turn-Woken :
      managed s l u ≡ true
      → (s.task u).state ≡ prepare
      → Woken u (arch_switch_task_sw (tick_current s))
  turn-Woken m ready = elim (tick_current_cases s) [
    | inl e ↦
        subst (Woken u) (sym e)
          (elim (find_next_run_task-IsNext (counted s) l c'.inv
            (few-Short (counted s) l c'.inv c'.few)) [
              | inl (is, nobody) ↦ inl (
                  ap (λ (x : Task). x.state)
                    (go_to-task_ne (counted s) (find_next_run_task (counted s)) u (ground arith)
                        (ground (arith, is))
                      ∙ counted-task)
                  ∙ ready)
              | inr is ↦ next-Woken ready is
            ])
    | inr e ↦ subst (Woken u) (sym e) (inl (ap (λ (x : Task). x.state) counted-task ∙ ready))
  ]

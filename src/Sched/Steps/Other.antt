-- ===== src/Sched/Steps/Other.antt =====
-- kernel/sched.c: priorities, removal, and new tasks lead from a valid state to a valid state.
use mirros.Base.{
  ℕ, ◌≤◌, ◌≡◌, ◌≢◌, ◌⊎◌, refl, ap, ◌∙◌, sym, inl, inr, true, arith, ◌==◌, leb, Bool-cases, ==_iff,
  length, length-erase, ◌∈◌, has-erase_ne,
}
use mirros.Sched.{
  TaskState, prepare, running, sleep, idle, stop, unknown, Task, Sched, set_task, system_del_task,
  idle_del_task,
}
use mirros.Sched.Lists.{Lists}
use mirros.Sched.Prio.{set_task_prio-Inv}
use mirros.Sched.Refine.{Inv, managed}
use mirros.Sched.Remove.{removed, sched_remove_task-Inv}
use mirros.Sched.Steps.{Valid}
use mirros.Sched.Steps.Kept.{ValidWith}
use mirros.Sched.Switch.{
  set_task_prio, prio_by_state, sched_remove_task, is_idle_state, is_boot_pid,
}

-- A state with the same globals and states of tasks.
record Alike (s s' : Sched) : Type 0 where
  pub current : s'.current ≡ s.current
  pub idle_task : s'.idle_task ≡ s.idle_task
  pub next_run : s'.next_run ≡ s.next_run
  pub schedule_running : s'.schedule_running ≡ s.schedule_running
  pub in_interrupt : s'.in_interrupt ≡ s.in_interrupt
  pub states : (u : ℕ) → (s'.task u).state ≡ (s.task u).state

-- It is valid when it knows no more tasks, and still the current one.
Alike-Valid :
    (s s' : Sched) (l l' : Lists)
    → Valid s l
    → Alike s s'
    → Inv s' l'
    → length l'.system_list ≤ length l.system_list
    → ((u : ℕ) → u ∈ l'.system_list → u ∈ l.system_list)
    → managed s l' s.current ≡ true
    → Valid s' l'
Alike-Valid s s' l l' v a inv less sub kept = record {
  inv = inv;
  here = rw (a.current, a.idle_task) kept;
  only = λ u m r.
      v.only u (ground (arith, m, sub u, a.idle_task)) (sym (a.states u) ∙ r) ∙ sym a.current;
  known = λ e. v.known (sym (a.states s.current) ∙ rw a.current at e);
  started = a.schedule_running ∙ v.started;
  outside = a.in_interrupt ∙ v.outside;
  chosen = a.next_run ∙ v.chosen ∙ sym a.current;
  few = omega (arith, v.few, less);
}

Alike-refl : {s : Sched} → Alike s s
Alike-refl = record {
  current = refl;
  idle_task = refl;
  next_run = refl;
  schedule_running = refl;
  in_interrupt = refl;
  states = λ u. refl;
}

set_task-Alike :
    (s : Sched) (t : ℕ) (w : Task) → w.state ≡ (s.task t).state → Alike s (set_task s t w)
set_task-Alike s t w same = record {
  current = refl;
  idle_task = refl;
  next_run = refl;
  schedule_running = refl;
  in_interrupt = refl;
  states = λ u. elim (Bool-cases (t == u)) [
    | inl e ↦ rw e (same ∙ ap (λ x. (s.task x).state) ((==_iff t u).0 e))
    | inr e ↦ rw e
  ];
}

prio_by_state-Alike :
    (s : Sched) (t prio : ℕ) (state : TaskState)
    → (state ≡ running) ⊎ (state ≡ sleep)
    → Alike s (prio_by_state state s t prio)
prio_by_state-Alike s t prio running h = set_task-Alike s t _ refl
prio_by_state-Alike s t prio sleep h = set_task-Alike s t _ refl
prio_by_state-Alike s t prio prepare h = absurd (ground arith)
prio_by_state-Alike s t prio idle h = absurd (ground arith)
prio_by_state-Alike s t prio stop h = absurd (ground arith)
prio_by_state-Alike s t prio unknown h = absurd (ground arith)

module _ (s : Sched) (l : Lists) (v : Valid s l) (t : ℕ) where
  prefer-Alike :
      (prio : ℕ)
      → ((s.task t).state ≡ running) ⊎ ((s.task t).state ≡ sleep)
      → Alike s (set_task_prio s t prio).0
  unfolding set_task_prio
  prefer-Alike prio either = elim (Bool-cases (leb 64 prio)) [
    | inl e ↦ rw e Alike-refl
    | inr e ↦ rw e (prio_by_state-Alike s t prio (s.task t).state either)
  ]

  pub set_task_prio-Valid :
      (prio : ℕ)
      → ((s.task t).state ≡ running) ⊎ ((s.task t).state ≡ sleep)
      → ValidWith l.system_list (set_task_prio s t prio).0
  set_task_prio-Valid prio either = elim (set_task_prio-Inv s l t prio v.inv either) [
    | inl (big, e) ↦ rw e (l, refl, v)
    | inr (small, e, (inv, a, b)) ↦ (
      l,
      refl,
      Alike-Valid s (set_task_prio s t prio).0 l l v (prefer-Alike prio either) inv (omega arith)
          (λ u i. i) v.here,
    )
  ]

  bury-Alike : Alike s (sched_remove_task s t).0
  unfolding sched_remove_task system_del_task idle_del_task
  bury-Alike = elim (Bool-cases (is_idle_state (s.task t).state)) [
    | inl e ↦ elim (Bool-cases (is_boot_pid (s.task t).pid)) [
      | inl h ↦ rw (e, h) Alike-refl
      | inr h ↦
          rw (e, h)
            record {
              current = refl;
              idle_task = refl;
              next_run = refl;
              schedule_running = refl;
              in_interrupt = refl;
              states = λ u. refl;
            }
    ]
    | inr e ↦ rw e Alike-refl
  ]

  pub sched_remove_task-Valid :
      t ∈ l.system_list
      → t ≢ s.idle_task
      → t ≢ s.current
      → (l' : Lists) × Valid (sched_remove_task s t).0 l'
  sched_remove_task-Valid i boot away = elim (sched_remove_task-Inv s l t v.inv i boot) [
    | inl (h, e) ↦ rw e (l, v)
    | inr (is, no_boot, no_init, e, out, inv) ↦ (
      removed t l,
      Alike-Valid s (sched_remove_task s t).0 l (removed t l) v bury-Alike inv
          (omega (arith, length-erase t l.system_list i))
          (λ u j. elim (Bool-cases (u == t)) [
            | inl h ↦ rw ((==_iff u t).0 h) i
            | inr h ↦ ground (arith, has-erase_ne u t l.system_list h)
          ])
          (ground (arith, v.here, has-erase_ne s.current t l.system_list)),
    )
  ]

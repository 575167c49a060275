-- ===== src/Sched/Steps/Moved.antt =====
-- kernel/sched.c: a change to SLEEP or to IDLE of a task that the scheduler knows, and `wakeup_task`,
-- lead from a valid state to a valid state.
use mirros.Base.{
  ℕ, ◌≡◌, ◌≢◌, ◌⊎◌, refl, ap, ◌∙◌, sym, inl, inr, Bool, true, false, arith, ◌==◌, if◌then◌else◌,
  Bool-cases, ==_iff,
}
use mathlib.Core.Path.{subst}
use mirros.Sched.{TaskState, prepare, running, sleep, idle, stop, unknown, Task, Sched, set_task}
use mirros.Sched.Change.{
  StateChange, none_to_prepare, none_to_sleep, none_to_none, get_state_change, set_task_state,
}
use mirros.Sched.Effects.{write_then_state-Inv}
use mirros.Sched.Frame.{
  SameGlobals, SameGlobals-trans, set_task-SameGlobals, set_task_state-SameGlobals,
  set_task_state-state_cases,
}
use mirros.Sched.Lists.{Lists}
use mirros.Sched.Refine.{Admits, managed, move}
use mirros.Sched.Steps.{Valid}
use mirros.Sched.Steps.Kept.{ValidWith}
use mirros.Sched.Switch.{wakeup_task, is_sleep_state}

-- A change that takes on a task.
abbrev takes_on : StateChange → Bool
takes_on none_to_prepare = true
takes_on none_to_sleep = true
takes_on _ = false

to_sleep : (old : TaskState) → old ≢ unknown → takes_on (get_state_change old sleep) ≡ false
unfolding get_state_change
to_sleep prepare k = refl
to_sleep running k = refl
to_sleep sleep k = refl
to_sleep idle k = refl
to_sleep stop k = refl
to_sleep unknown k = absurd (k refl)

to_idle : (old : TaskState) → takes_on (get_state_change old idle) ≡ false
unfolding get_state_change
to_idle prepare = refl
to_idle running = refl
to_idle sleep = refl
to_idle idle = refl
to_idle stop = refl
to_idle unknown = refl

module _ (s : Sched) (l : Lists) (t : ℕ) where
  Admits-managed : (c : StateChange) → takes_on c ≡ false → managed s l t ≡ true → Admits s l t c
  Admits-managed none_to_prepare e m = cc
  Admits-managed none_to_sleep e m = cc
  Admits-managed none_to_none e m = tt
  Admits-managed _ e m = m

  move-system :
      (c : StateChange) (p : ℕ) → takes_on c ≡ false → (move c p t l).system_list ≡ l.system_list
  move-system none_to_prepare p e = cc
  move-system none_to_sleep p e = cc
  move-system _ p e = refl

-- A write of other fields of a task, and then of its state.
module _ (s : Sched) (l : Lists) (v : Valid s l) (t : ℕ) (w : Task) (new : TaskState)
    (m : managed s l t ≡ true) (same_state : w.state ≡ (s.task t).state)
    (same_prio : w.prio ≡ (s.task t).prio) (not_run : new ≢ running) (not_new : new ≢ unknown)
    (change : takes_on (get_state_change (s.task t).state new) ≡ false) where
  written : Sched
  written = set_task_state (set_task s t w) t new

  written-SameGlobals : SameGlobals s written
  unfolding written
  written-SameGlobals =
      SameGlobals-trans (set_task-SameGlobals s t w)
        (set_task_state-SameGlobals (set_task s t w) t new)

  -- Every task has its state or the new one.
  written-state :
      (u : ℕ) → ((written.task u).state ≡ new) ⊎ ((written.task u).state ≡ (s.task u).state)
  unfolding written
  written-state u = elim (set_task_state-state_cases (set_task s t w) t new u) [
    | inl e ↦ inl e.1
    | inr e ↦ inr (
        e ∙ elim (Bool-cases (t == u)) [
          | inl h ↦ rw h (same_state ∙ ap (λ x. (s.task x).state) ((==_iff t u).0 h))
          | inr h ↦ rw h
        ])
  ]

  abbrev moved : Lists
  moved = move (get_state_change (s.task t).state new) (s.task t).prio t l

  written-Valid : ValidWith l.system_list written
  unfolding written
  written-Valid =
      let g = written-SameGlobals in
      let tasks =
        move-system s l t (get_state_change (s.task t).state new) (s.task t).prio change in
      (
        moved,
        tasks,
        record {
          inv =
              write_then_state-Inv s l t w new (get_state_change (s.task t).state new) v.inv m
                same_state same_prio refl
                (Admits-managed (set_task s t w) l t (get_state_change (s.task t).state new) change
                  m);
          here = rw (g.current, g.idle_task, tasks) v.here;
          only = λ u k r. elim (written-state u) [
            | inl e ↦ absurd (not_run (sym e ∙ r))
            | inr e ↦ v.only u (rw (g.idle_task, tasks) at k) (sym e ∙ r) ∙ sym g.current
          ];
          known = λ e. elim (written-state s.current) [
            | inl h ↦ not_new (sym h ∙ rw g.current at e)
            | inr h ↦ v.known (sym h ∙ rw g.current at e)
          ];
          started = g.schedule_running ∙ v.started;
          outside = g.in_interrupt ∙ v.outside;
          chosen = g.next_run ∙ v.chosen ∙ sym g.current;
          few = rw tasks v.few;
        },
      )

set_task_same : (s : Sched) (t : ℕ) → set_task s t (s.task t) ≡ s
set_task_same s t = λ i. record s { task = λ a. same a i }
  where
    same : (a : ℕ) → (if t == a then s.task t else s.task a) ≡ s.task a
    same a = elim (Bool-cases (t == a)) [
      | inl e ↦ rw e (ap s.task ((==_iff t a).0 e))
      | inr e ↦ rw e
    ]

module _ (s : Sched) (l : Lists) (v : Valid s l) (t : ℕ) (m : managed s l t ≡ true) where
  -- Killing a task makes it idle.
  pub kill-Valid : ValidWith l.system_list (set_task_state s t idle)
  unfolding written
  kill-Valid =
      subst (λ x. ValidWith l.system_list (set_task_state x t idle)) (set_task_same s t)
        (written-Valid s l v t (s.task t) idle m refl refl (λ e. cc) (λ e. cc)
          (to_idle (s.task t).state))

  pub sleep-Valid :
      (w : Task)
      → w.state ≡ (s.task t).state
      → w.prio ≡ (s.task t).prio
      → (s.task t).state ≢ unknown
      → ValidWith l.system_list (set_task_state (set_task s t w) t sleep)
  unfolding written
  sleep-Valid w same_state same_prio k =
      written-Valid s l v t w sleep m same_state same_prio (λ e. cc) (λ e. cc)
        (to_sleep (s.task t).state k)

  pub wakeup_task-Valid : ValidWith l.system_list (wakeup_task s t).0
  unfolding wakeup_task get_state_change written
  wakeup_task-Valid = elim (Bool-cases (is_sleep_state (s.task t).state)) [
    | inl e ↦
        let asleep : (s.task t).state ≡ sleep = ground arith in
        rw e (written-Valid s l v t _ prepare m refl refl (λ e. cc) (λ e. cc) (rw asleep refl))
    | inr e ↦ rw e (l, refl, v)
  ]

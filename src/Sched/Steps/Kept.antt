-- ===== src/Sched/Steps/Kept.antt =====
-- kernel/sched.c: `sched` and `suspend_task_timeout` lead from a valid state to a valid state.
use mathlib.Core.Path.{subst}
use mirros.Base.{
  ℕ, ◌+◌, ◌^◌, ◌<◌, ◌≡◌, ◌≢◌, refl, ap, ◌∙◌, sym, inl, inr, Bool, true, false, List, arith, ◌==◌,
  Bool-cases, ==_iff, length,
}
use mirros.Sched.{unknown, Task, Sched, set_task}
use mirros.Sched.Frame.{SameGlobals, set_task-Inv, off_lists-Inv}
use mirros.Sched.Lists.{Lists, prio_erase}
use mirros.Sched.Pick.{IsNext, find_next_run_task-IsNext}
use mirros.Sched.Refine.{Inv, managed}
use mirros.Sched.Round.{
  with_next, with_next-Inv, with_current-Inv, go_to, sched_runs, prepare_to_switch_self, switched,
  requeue-system,
}
use mirros.Sched.Steps.{Valid}
use mirros.Sched.Steps.Short.{few-Short}
use mirros.Sched.Switch.{find_next_run_task, sched}
use mirros.Sched.Turn.{
  OnlyCurrent, requeue, re_run-Inv, re_run-state, prepare_to_switch-SameGlobals,
}

-- A valid state with the same tasks.
abbrev pub ValidWith : List ℕ → Sched → Type 0
ValidWith tasks s = (l : Lists) × (l.system_list ≡ tasks) × Valid s l

-- The globals after the last steps of `sched`.
pub go_to-SameGlobals :
    (s : Sched) (next : ℕ)
    → SameGlobals (record s { current = next; next_run = next }) (go_to s next)
unfolding go_to
go_to-SameGlobals s next =
    let g = prepare_to_switch-SameGlobals (with_next s next) next in
    record {
      current = g.next_run;
      idle_task = g.idle_task;
      next_run = g.next_run;
      schedule_running = g.schedule_running;
      in_interrupt = g.in_interrupt;
      wait_links = g.wait_links;
      mutex_links = g.mutex_links;
      mutex_count = g.mutex_count;
    }

-- The part of a valid state that does not speak of the flags and of `next_run`.
pub record Core (s : Sched) (l : Lists) : Type 0 where
  pub inv : Inv s l
  pub here : managed s l s.current ≡ true
  pub only : OnlyCurrent s l
  pub known : (s.task s.current).state ≢ unknown
  pub few : length l.system_list + 1 < 2 ^ 32

pub Valid-Core : {s : Sched} {l : Lists} → Valid s l → Core s l
Valid-Core v = record { inv = v.inv; here = v.here; only = v.only; known = v.known; few = v.few }

pub Core-Valid :
    {s : Sched} {l : Lists}
    → Core s l
    → s.schedule_running ≡ true
    → s.in_interrupt ≡ false
    → s.next_run ≡ s.current
    → Valid s l
Core-Valid c started outside chosen = record {
  inv = c.inv;
  here = c.here;
  only = c.only;
  known = c.known;
  started = started;
  outside = outside;
  chosen = chosen;
  few = c.few;
}

-- Core of states that differ in fields which it does not read.
pub Core-set_task :
    (s : Sched) (l : Lists) (t : ℕ) (w : Task)
    → w.state ≡ (s.task t).state
    → w.prio ≡ (s.task t).prio
    → Core s l
    → Core (set_task s t w) l
Core-set_task s l t w same_state same_prio c = record {
  inv = set_task-Inv s l t w same_state same_prio c.inv;
  here = c.here;
  only = λ u m r. c.only u m (sym (state u) ∙ r);
  known = λ e. c.known (sym (state s.current) ∙ e);
  few = c.few;
}
  where
    state : (u : ℕ) → ((set_task s t w).task u).state ≡ (s.task u).state
    state u = elim (Bool-cases (t == u)) [
      | inl e ↦ rw e (same_state ∙ ap (λ x. (s.task x).state) ((==_iff t u).0 e))
      | inr e ↦ rw e
    ]

pub Core-current :
    (s : Sched) (l : Lists) (n : ℕ) → n ≡ s.current → Core s l → Core (record s { current = n }) l
Core-current s l n e c = subst (λ k. Core (record s { current = k }) l) (sym e) c

pub Core-in_interrupt :
    (s : Sched) (l : Lists) (b : Bool) → Core s l → Core (record s { in_interrupt = b }) l
Core-in_interrupt s l b c = record {
  inv = off_lists-Inv c.inv;
  here = c.here;
  only = c.only;
  known = c.known;
  few = c.few;
}

abbrev pub CoreWith : List ℕ → Sched → Type 0
CoreWith tasks s = (l : Lists) × (l.system_list ≡ tasks) × Core s l

module _ (s : Sched) (l : Lists) (c : Core s l) where
  stay-Core : Core (go_to s s.current) l
  unfolding go_to
  stay-Core = rw (prepare_to_switch_self (with_next s s.current)) record {
    inv = with_current-Inv _ l _ (re_run-Inv _ l s.current (with_next-Inv s l s.current c.inv));
    here = c.here;
    only = λ u m r. c.only u m (sym (re_run-state s s.current u) ∙ r);
    known = λ e. c.known (sym (re_run-state s s.current s.current) ∙ e);
    few = c.few;
  }

  switch-Core :
      (next : ℕ) → next ≢ s.current → IsNext s l next → CoreWith l.system_list (go_to s next)
  switch-Core next other is =
      let w = switched s l c.inv c.here (few-Short s l c.inv c.few) next other c.only is in
      let g = go_to-SameGlobals s next in
      let tasks = requeue-system s l in
      (
        prio_erase (s.task (go_to s next).current).prio (go_to s next).current (requeue s l),
        tasks,
        record {
          inv = w.kept;
          here = ground (arith, g.current, g.idle_task, tasks, is.ready);
          only = w.only;
          known = λ e. cc;
          few = rw tasks c.few;
        },
      )

  -- Going to the task that is next, whether it is the current one or not.
  pub next-Core : CoreWith l.system_list (go_to s (find_next_run_task s))
  next-Core = elim (find_next_run_task-IsNext s l c.inv (few-Short s l c.inv c.few)) [
    | inl (e, nobody) ↦ rw e (l, refl, stay-Core)
    | inr is ↦ elim (Bool-cases (find_next_run_task s == s.current)) [
      | inl e ↦ rw ((==_iff (find_next_run_task s) s.current).0 e) (l, refl, stay-Core)
      | inr e ↦ switch-Core (find_next_run_task s) (ground arith) is
    ]
  ]

pub sched-Valid : (s : Sched) (l : Lists) → Valid s l → ValidWith l.system_list (sched s)
sched-Valid s l v =
    let (l', tasks, c) = next-Core s l (Valid-Core v) in
    let g = go_to-SameGlobals s (find_next_run_task s) in
    rw (sched_runs s v.outside v.started) (
      l',
      tasks,
      Core-Valid c (g.schedule_running ∙ v.started) (g.in_interrupt ∙ v.outside)
          (g.next_run ∙ sym g.current),
    )

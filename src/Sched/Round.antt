-- ===== src/Sched/Round.antt =====
-- kernel/sched.c: `sched` as a whole, when it is called outside of interrupts.
use mirros.Base.{
  ℕ, ◌≡◌, ◌≢◌, ◌⊎◌, inl, inr, refl, ◌∙◌, Bool, true, false, not, arith, ◌==◌, if◌then◌else◌,
  Bool-cases, eq→==, ==_iff, sym,
}
use mirros.Sched.{prepare, running, Sched}
use mirros.Sched.Frame.{off_lists-Inv}
use mirros.Sched.Lists.{Lists, prio_erase}
use mirros.Sched.Pick.{IsReady, IsNext, Short, find_next_run_task-IsNext}
use mirros.Sched.Refine.{Inv, managed}
use mirros.Sched.Switch.{
  find_next_run_task, prepare_to_switch, arch_switch_task_sw, re_run, is_running, sched,
}
use mirros.Sched.Turn.{
  OnlyCurrent, requeue, re_run-Inv, prepare_to_switch-Inv, next_running, others_stopped,
  prepare_to_switch-SameGlobals, re_run-state,
}

-- What a switch to another task means.
pub record Switched (s : Sched) (l : Lists) (s' : Sched) : Type 0 where
  pub next : IsNext s l s'.current
  pub now : (s'.task s'.current).state ≡ running
  pub kept : Inv s' (prio_erase (s.task s'.current).prio s'.current (requeue s l))
  pub waits : s'.wait_links ≡ s.wait_links
  pub counts : s'.mutex_count ≡ s.mutex_count
  pub only : OnlyCurrent s' (prio_erase (s.task s'.current).prio s'.current (requeue s l))

-- What it means to stay with the current task.
pub record Stayed (s : Sched) (l : Lists) (s' : Sched) : Type 0 where
  pub nobody : (u : ℕ) → ¬ IsReady s l u
  pub same : s'.current ≡ s.current
  pub states : (u : ℕ) → (s'.task u).state ≡ (s.task u).state
  pub kept : Inv s' l

pub with_next-Inv :
    (s : Sched) (l : Lists) (next : ℕ) → Inv s l → Inv (record s { next_run = next }) l
with_next-Inv s l next inv = off_lists-Inv inv

pub with_current-Inv :
    (s : Sched) (l : Lists) (next : ℕ) → Inv s l → Inv (record s { current = next }) l
with_current-Inv s l next inv = off_lists-Inv inv

abbrev pub with_next : Sched → ℕ → Sched
with_next s next = record s { next_run = next }

-- The last three steps of `sched`.
unfoldable pub go_to : Sched → ℕ → Sched
go_to s next = arch_switch_task_sw (prepare_to_switch (with_next s next) next)

pub sched_runs :
    (s : Sched)
    → s.in_interrupt ≡ false
    → s.schedule_running ≡ true
    → sched s ≡ go_to s (find_next_run_task s)
unfolding sched go_to
sched_runs s outside started = cases s.in_interrupt s.schedule_running outside started
  where
    cases :
        (i r : Bool)
        → i ≡ false
        → r ≡ true
        → (if i then s else if not r then s else go_to s (find_next_run_task s))
          ≡ go_to s (find_next_run_task s)
    cases true r e f = cc
    cases false true e f = refl
    cases false false e f = cc

pub requeue-system : (s : Sched) (l : Lists) → (requeue s l).system_list ≡ l.system_list
requeue-system s l = elim (Bool-cases (is_running (s.task s.current).state)) [
  | inl e ↦ rw e
  | inr e ↦ rw e
]

pub prepare_to_switch_self : (s : Sched) → prepare_to_switch s s.current ≡ re_run s s.current
unfolding prepare_to_switch
prepare_to_switch_self s = rw (eq→== s.current s.current refl)

module _ (s : Sched) (l : Lists) (inv : Inv s l) (known : managed s l s.current ≡ true)
    (short : Short l) where
  pub switched :
      (next : ℕ)
      → next ≢ s.current
      → OnlyCurrent s l
      → IsNext s l next
      → Switched s l (go_to s next)
  unfolding go_to
  switched next other only is =
      let s0 = with_next s next in
      let inv0 = with_next-Inv s l next inv in
      let after = prepare_to_switch s0 next in
      let g = prepare_to_switch-SameGlobals s0 next in
      record {
        next = rw g.next_run is;
        now = rw g.next_run (next_running s0 l inv0 known next is.ready other);
        kept =
            with_current-Inv after
              (prio_erase (s.task after.next_run).prio after.next_run (requeue s l)) after.next_run
              (simp g.next_run (prepare_to_switch-Inv s0 l inv0 known next is.ready other));
        waits = g.wait_links;
        counts = g.mutex_count;
        only = λ u m r. elim (Bool-cases (u == next)) [
          | inl e ↦ (==_iff u next).0 e ∙ sym g.next_run
          | inr e ↦ absurd (
              others_stopped s0 l inv0 known next is.ready other only u
                (ground (arith, requeue-system s l, g.idle_task, m)) (ground arith) r)
        ];
      }

  pub stayed : ((u : ℕ) → ¬ IsReady s l u) → Stayed s l (go_to s s.current)
  unfolding go_to
  stayed nobody = rw (prepare_to_switch_self (with_next s s.current)) record {
    nobody = nobody;
    same = refl;
    states = re_run-state s s.current;
    kept = with_current-Inv _ l _ (re_run-Inv _ l s.current (with_next-Inv s l s.current inv));
  }

  -- Outside of interrupts, and once the scheduler runs, `sched` either finds no task that is ready
  -- and stays with the current one, or makes the first task of the best priority current and
  -- running, with every other managed task stopped; the invariant holds either way. Ready
  -- means managed, prepared and of a priority below MAX_PRIO - 1, so the idle task is not ready once main
  -- has given it the last priority. The current task must not be in the PREPARE state, and no counter may have wrapped.
  pub sched_cases :
      OnlyCurrent s l
      → (s.task s.current).state ≢ prepare
      → s.in_interrupt ≡ false
      → s.schedule_running ≡ true
      → Stayed s l (sched s) ⊎ Switched s l (sched s)
  sched_cases only not_ready outside started =
      rw (sched_runs s outside started) (elim (find_next_run_task-IsNext s l inv short) [
        | inl (e, nobody) ↦ inl (rw e (stayed nobody))
        | inr is ↦
            inr (switched (find_next_run_task s) (λ e. not_ready (rw e at is.ready.1)) only is)
      ])

-- ===== src/Sched/Effects.antt =====
-- kernel/sched.c: `wakeup_task` on the lists.
use mirros.Base.{ℕ, ◌≡◌, ◌≢◌, ◌⊎◌, inl, inr, refl, ap, ◌∙◌, true, arith, Bool-cases, eq→==}
use mirros.Base.Int.{pos, einval}
use mirros.Sched.{TaskState, prepare, sleep, Task, Sched, set_task}
use mirros.Sched.Change.{StateChange, get_state_change, sleep_to_prepare, set_task_state}
use mirros.Sched.Frame.{set_task-Inv}
use mirros.Sched.Keeps.{set_task_state-Inv_at}
use mirros.Sched.Lists.{Lists}
use mirros.Sched.Refine.{Inv, Admits, managed, move}
use mirros.Sched.Switch.{wakeup_task, is_sleep_state}

-- A write of other fields of a task before the change of its state.
module _ (s : Sched) (l : Lists) (t : ℕ) (v : Task) (new : TaskState) (c : StateChange)
    (inv : Inv s l) (m : managed s l t ≡ true) (same_state : v.state ≡ (s.task t).state)
    (same_prio : v.prio ≡ (s.task t).prio) where
  written : Sched
  written = set_task s t v

  written-task : written.task t ≡ v
  unfolding written
  written-task = rw (eq→== t t refl)

  pub write_then_state-Inv :
      get_state_change (s.task t).state new ≡ c
      → Admits (set_task s t v) l t c
      → Inv (set_task_state (set_task s t v) t new) (move c (s.task t).prio t l)
  write_then_state-Inv e a =
      let prio_kept : (written.task t).prio ≡ (s.task t).prio =
        ap (λ (w : Task). w.prio) written-task ∙ same_prio in
      let state_kept : (written.task t).state ≡ (s.task t).state =
        ap (λ (w : Task). w.state) written-task ∙ same_state in
      rw (← prio_kept) (through prio_kept state_kept)
    where
      through :
          (written.task t).prio ≡ (s.task t).prio
          → (written.task t).state ≡ (s.task t).state
          → Inv (set_task_state (set_task s t v) t new) (move c (written.task t).prio t l)
      through p q =
          unfold written in
          set_task_state-Inv_at (set_task s t v) l t new c
            (set_task-Inv s l t v same_state same_prio inv) (inv.members.high t m)
            (rw p (inv.members.low t m)) (rw q e) a

-- `wakeup_task` refuses a task that does not sleep and changes nothing; a sleeping task it puts at
-- the end of the list of its priority.
pub wakeup_task-Inv :
    (s : Sched) (l : Lists) (t : ℕ)
    → Inv s l
    → managed s l t ≡ true
    → (((s.task t).state ≢ sleep) × (wakeup_task s t ≡ (s, einval)))
      ⊎ (((s.task t).state ≡ sleep)
          × ((wakeup_task s t).1 ≡ pos 0)
          × Inv (wakeup_task s t).0 (move sleep_to_prepare (s.task t).prio t l))
unfolding wakeup_task get_state_change
wakeup_task-Inv s l t inv m = elim (Bool-cases (is_sleep_state (s.task t).state)) [
  | inl e ↦
      let asleep : (s.task t).state ≡ sleep = ground arith in
      rw e (
        inr (
          asleep,
          refl,
          write_then_state-Inv s l t _ prepare sleep_to_prepare inv m refl refl (rw asleep) m,
        ))
  | inr e ↦ rw e (inl (ground arith, refl))
]

-- ===== src/Sched/Keeps.antt =====
-- kernel/sched.c: each state change keeps the invariant of the scheduler.
use mirros.Base.{
  ℕ, ◌≤◌, ◌<◌, ◌≡◌, ◌≢◌, ◌⊎◌, inl, inr, refl, true, false, arith, ◌∈◌, ◌∉◌, has-snoc, has-erase_ne,
  not-mem-erase_self,
}
use mirros.Sched.{
  TaskState, prepare, sleep, idle, Sched, set_task, prio_list_add_task_tail, prio_list_del_task,
  system_add_task_tail, sleep_add_task, sleep_add_task_tail, sleep_del_task, idle_add_task_tail,
}
use mirros.Sched.Change.{
  StateChange, none_to_prepare, none_to_sleep, prepare_to_running, prepare_to_sleep,
  prepare_to_idle, running_to_sleep, running_to_prepare, running_to_idle, sleep_to_prepare,
  sleep_to_idle, sleep_to_running, prepare_to_unknown, none_to_none, get_state_change, apply_change,
  change_state, set_task_state,
}
use mirros.Sched.Lists.{Lists}
use mirros.Sched.Refine.{Members, Inv, Admits, move, managed}
use mirros.Sched.Rings.{
  Rings, Rings-prio_add_tail, Rings-prio_del, Rings-system_add_tail, Rings-sleep_add,
  Rings-sleep_add_tail, Rings-sleep_del, Rings-idle_add_tail,
}
use mirros.Sched.States.{OldState, NewState, get_state_change_states}

module _ (s : Sched) (l : Lists) (inv : Inv s l) (t : ℕ) (new : TaskState) (high : 64 ≤ t)
    (low : (s.task t).prio < 64) where
  abbrev stored : Sched
  stored = set_task s t (record (s.task t) { state = new })

  stored-Rings : Rings stored l
  stored-Rings = record {
    table = inv.rings.table;
    system = inv.rings.system;
    sleep = inv.rings.sleep;
    idle = inv.rings.idle;
  }

  stored-prio : (stored.task t).prio ≡ (s.task t).prio
  stored-prio = ground arith

  off_prio :
      (managed s l t ≡ false) ⊎ ((s.task t).state ≢ prepare) → (q : ℕ) → q < 64 → t ∉ l.prio_list q
  off_prio h q lq = ground (arith, inv.members.prio_mem q t lq)

  on_prio : managed s l t ≡ true → (s.task t).state ≡ prepare → t ∈ l.prio_list (s.task t).prio
  on_prio m e = ground (arith, inv.members.prio_mem (s.task t).prio t low)

  off_sleep : (managed s l t ≡ false) ⊎ ((s.task t).state ≢ sleep) → t ∉ l.sleep_list
  off_sleep h = ground (arith, inv.members.sleep_mem t)

  on_sleep : managed s l t ≡ true → (s.task t).state ≡ sleep → t ∈ l.sleep_list
  on_sleep m e = ground (arith, inv.members.sleep_mem t)

  off_idle : (s.task t).state ≢ idle → t ∉ l.idle_list
  off_idle h = ground (arith, inv.members.idle_mem t)

  Rings-apply_change :
      (c : StateChange)
      → Admits s l t c
      → OldState c (s.task t).state
      → Rings (apply_change c stored t) (move c (s.task t).prio t l)
  unfolding apply_change prio_list_del_task system_add_task_tail sleep_del_task
  Rings-apply_change none_to_prepare a o =
      Rings-prio_add_tail _ _ (Rings-system_add_tail _ _ stored-Rings t high (ground arith)) t high
        (s.task t).prio stored-prio low (off_prio (inl a))
  Rings-apply_change none_to_sleep a o =
      Rings-sleep_add _ _ (Rings-system_add_tail _ _ stored-Rings t high (ground arith)) t high
        (off_sleep (inl a))
  Rings-apply_change prepare_to_running a o =
      Rings-prio_del _ _ stored-Rings t high (s.task t).prio stored-prio low (on_prio a o)
  Rings-apply_change prepare_to_sleep a o =
      Rings-sleep_add_tail _ _
        (Rings-prio_del _ _ stored-Rings t high (s.task t).prio stored-prio low (on_prio a o)) t
        high (off_sleep (inr (λ e. cc)))
  Rings-apply_change prepare_to_idle a o =
      Rings-idle_add_tail _ _
        (Rings-prio_del _ _ stored-Rings t high (s.task t).prio stored-prio low (on_prio a o)) t
        high (off_idle (λ e. cc))
  Rings-apply_change running_to_sleep a o =
      Rings-sleep_add_tail _ _ stored-Rings t high (off_sleep (inr (λ e. cc)))
  Rings-apply_change running_to_prepare a o =
      Rings-prio_add_tail _ _ stored-Rings t high (s.task t).prio stored-prio low
        (off_prio (inr (λ e. cc)))
  Rings-apply_change running_to_idle a o =
      Rings-idle_add_tail _ _ stored-Rings t high (off_idle (λ e. cc))
  Rings-apply_change sleep_to_prepare a o =
      Rings-prio_add_tail _ _ (Rings-sleep_del _ _ stored-Rings t high (on_sleep a o)) t high
        (s.task t).prio stored-prio low (off_prio (inr (λ e. cc)))
  Rings-apply_change sleep_to_idle a o =
      Rings-idle_add_tail _ _ (Rings-sleep_del _ _ stored-Rings t high (on_sleep a o)) t high
        (off_idle (λ e. cc))
  Rings-apply_change sleep_to_running a o = Rings-sleep_del _ _ stored-Rings t high (on_sleep a o)
  Rings-apply_change prepare_to_unknown a o =
      Rings-prio_del _ _ stored-Rings t high (s.task t).prio stored-prio low (on_prio a o)
  Rings-apply_change none_to_none a o = stored-Rings

  Members-apply_change :
      (c : StateChange)
      → Admits s l t c
      → OldState c (s.task t).state
      → NewState c new
      → c ≢ none_to_none
      → Members (apply_change c stored t) (move c (s.task t).prio t l)
  unfolding apply_change prio_list_add_task_tail prio_list_del_task system_add_task_tail
      sleep_add_task sleep_add_task_tail sleep_del_task idle_add_task_tail
  Members-apply_change none_to_none a o n k = absurd (k refl)
  Members-apply_change _ a o n k = record {
    prio_mem = λ p u lp. ground (
      arith,
      inv.members.prio_mem p u lp,
      has-snoc u t (l.prio_list p),
      has-snoc u t l.system_list,
      has-erase_ne u t (l.prio_list p),
      not-mem-erase_self t (l.prio_list p) (inv.rings.table.lists p lp).ring.distinct,
    );
    sleep_mem = λ u. ground (
      arith,
      inv.members.sleep_mem u,
      has-snoc u t l.system_list,
      has-snoc u t l.sleep_list,
      has-erase_ne u t l.sleep_list,
      not-mem-erase_self t l.sleep_list inv.rings.sleep.ring.distinct,
    );
    idle_mem = λ u.
        ground
          (arith, inv.members.idle_mem u, has-snoc u t l.system_list, has-snoc u t l.idle_list);
    high = λ u m. ground (arith, inv.members.high u, has-snoc u t l.system_list);
    low = λ u m. ground (arith, inv.members.low u, has-snoc u t l.system_list);
  }

  change_state-Inv :
      (c : StateChange)
      → Admits s l t c
      → OldState c (s.task t).state
      → NewState c new
      → Inv (change_state c s t new) (move c (s.task t).prio t l)
  change_state-Inv none_to_none a o n = inv
  change_state-Inv none_to_prepare a o n = record {
    rings = Rings-apply_change none_to_prepare a o;
    members = Members-apply_change none_to_prepare a o n (λ e. cc);
  }
  change_state-Inv c a o n = record {
    rings = Rings-apply_change c a o;
    members = Members-apply_change c a o n (λ e. cc);
  }

  -- `set_task_state` moves the task between the lists as the table says, and the invariant holds
  -- again, if the task stands at 64 or above, its priority is below MAX_PRIO, and it is new to the
  -- scheduler for a change out of UNKNOWN and known to it for any other.
  pub set_task_state-Inv :
      Admits s l t (get_state_change (s.task t).state new)
      → Inv
          (set_task_state s t new)
          (move (get_state_change (s.task t).state new) (s.task t).prio t l)
  unfolding set_task_state
  set_task_state-Inv a =
      change_state-Inv (get_state_change (s.task t).state new) a
        (get_state_change_states (s.task t).state new).0
        (get_state_change_states (s.task t).state new).1

-- The same at a change that is known.
pub set_task_state-Inv_at :
    (s : Sched) (l : Lists) (t : ℕ) (new : TaskState) (c : StateChange)
    → Inv s l
    → 64 ≤ t
    → (s.task t).prio < 64
    → get_state_change (s.task t).state new ≡ c
    → Admits s l t c
    → Inv (set_task_state s t new) (move c (s.task t).prio t l)
set_task_state-Inv_at s l t new c inv high low e a =
    rw (← e) (set_task_state-Inv s l inv t new high low (rw e a))

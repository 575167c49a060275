-- ===== src/Sched/Frame.antt =====
-- kernel/sched.c: what `set_task_state` leaves alone, and changes of a task that no list shows.
use mirros.Base.{
  Bool, ℕ, ◌≡◌, ◌≢◌, ◌⊎◌, inl, inr, Bool-cases, ==_iff, refl, ap, ◌∙◌, false, arith, ◌==◌,
  if◌then◌else◌,
}
use mirros.Sched.{
  TaskState, Task, PidMap, Sched, set_task, prio_list_add_task_tail, prio_list_del_task,
  system_add_task_tail, sleep_add_task, sleep_add_task_tail, sleep_del_task, idle_add_task_tail,
}
use mirros.Link.{Links}
use mirros.Sched.Change.{
  StateChange, none_to_none, apply_change, change_state, get_state_change, set_task_state,
}
use mirros.Sched.Lists.{Lists}
use mirros.Sched.Refine.{Inv}

-- The globals that `set_task_state` never writes.
pub record SameGlobals (s s' : Sched) : Type 0 where
  pub current : s'.current ≡ s.current
  pub idle_task : s'.idle_task ≡ s.idle_task
  pub next_run : s'.next_run ≡ s.next_run
  pub schedule_running : s'.schedule_running ≡ s.schedule_running
  pub in_interrupt : s'.in_interrupt ≡ s.in_interrupt
  pub wait_links : s'.wait_links ≡ s.wait_links
  pub mutex_links : s'.mutex_links ≡ s.mutex_links
  pub mutex_count : s'.mutex_count ≡ s.mutex_count

pub SameGlobals-refl : {s : Sched} → SameGlobals s s
SameGlobals-refl = record {
  current = refl;
  idle_task = refl;
  next_run = refl;
  schedule_running = refl;
  in_interrupt = refl;
  wait_links = refl;
  mutex_links = refl;
  mutex_count = refl;
}

pub set_task-SameGlobals : (s : Sched) (t : ℕ) (v : Task) → SameGlobals s (set_task s t v)
set_task-SameGlobals s t v = record {
  current = refl;
  idle_task = refl;
  next_run = refl;
  schedule_running = refl;
  in_interrupt = refl;
  wait_links = refl;
  mutex_links = refl;
  mutex_count = refl;
}

pub SameGlobals-trans : {s s1 s2 : Sched} → SameGlobals s s1 → SameGlobals s1 s2 → SameGlobals s s2
SameGlobals-trans a b = record {
  current = b.current ∙ a.current;
  idle_task = b.idle_task ∙ a.idle_task;
  next_run = b.next_run ∙ a.next_run;
  schedule_running = b.schedule_running ∙ a.schedule_running;
  in_interrupt = b.in_interrupt ∙ a.in_interrupt;
  wait_links = b.wait_links ∙ a.wait_links;
  mutex_links = b.mutex_links ∙ a.mutex_links;
  mutex_count = b.mutex_count ∙ a.mutex_count;
}

-- What a state change does to the memory of the tasks.
abbrev stored_task : StateChange → Sched → ℕ → TaskState → ℕ → Task
stored_task none_to_none s t new = s.task
stored_task _ s t new = λ a. if t == a then record (s.task t) { state = new } else s.task a

change_state-task :
    (c : StateChange) (s : Sched) (t : ℕ) (new : TaskState)
    → ((change_state c s t new).task ≡ stored_task c s t new)
      × SameGlobals s (change_state c s t new)
unfolding apply_change prio_list_add_task_tail prio_list_del_task system_add_task_tail
    sleep_add_task sleep_add_task_tail sleep_del_task idle_add_task_tail
change_state-task none_to_none s t new = (
  refl,
  record {
    current = refl;
    idle_task = refl;
    next_run = refl;
    schedule_running = refl;
    in_interrupt = refl;
    wait_links = refl;
    mutex_links = refl;
    mutex_count = refl;
  },
)
change_state-task _ s t new = (
  refl,
  record {
    current = refl;
    idle_task = refl;
    next_run = refl;
    schedule_running = refl;
    in_interrupt = refl;
    wait_links = refl;
    mutex_links = refl;
    mutex_count = refl;
  },
)

pub set_task_state-SameGlobals :
    (s : Sched) (t : ℕ) (new : TaskState) → SameGlobals s (set_task_state s t new)
unfolding set_task_state
set_task_state-SameGlobals s t new =
    (change_state-task (get_state_change (s.task t).state new) s t new).1

-- `set_task_state` writes no task but its own.
pub set_task_state-task_ne :
    (s : Sched) (t : ℕ) (new : TaskState) (u : ℕ)
    → (t == u) ≡ false
    → (set_task_state s t new).task u ≡ s.task u
unfolding set_task_state
set_task_state-task_ne s t new u ne =
    ap (λ m. m u) (change_state-task (get_state_change (s.task t).state new) s t new).0
    ∙ cases (get_state_change (s.task t).state new)
  where
    cases : (c : StateChange) → stored_task c s t new u ≡ s.task u
    cases none_to_none = refl
    cases _ = rw ne

-- Of its own task it writes the state alone, when the table has the change.
pub set_task_state-task_self :
    (s : Sched) (t : ℕ) (new : TaskState)
    → get_state_change (s.task t).state new ≢ none_to_none
    → (set_task_state s t new).task t ≡ record (s.task t) { state = new }
unfolding set_task_state
set_task_state-task_self s t new some_change =
    ap (λ m. m t) (change_state-task (get_state_change (s.task t).state new) s t new).0
    ∙ cases (get_state_change (s.task t).state new) some_change
  where
    cases :
        (c : StateChange)
        → c ≢ none_to_none
        → stored_task c s t new t ≡ record (s.task t) { state = new }
    cases none_to_none h = absurd (h refl)
    cases _ h = ground arith

-- So every task has the state that it had, or is the task and has the new one.
pub set_task_state-state_cases :
    (s : Sched) (t : ℕ) (new : TaskState) (u : ℕ)
    → ((t ≡ u) × (((set_task_state s t new).task u).state ≡ new))
      ⊎ (((set_task_state s t new).task u).state ≡ (s.task u).state)
unfolding set_task_state
set_task_state-state_cases s t new u =
    let c = get_state_change (s.task t).state new in
    let stored = ap (λ m. (m u).state) (change_state-task c s t new).0 in
    elim (cases c) [ inl (is, e) ↦ inl (is, stored ∙ e) | inr e ↦ inr (stored ∙ e) ]
  where
    cases :
        (c : StateChange)
        → ((t ≡ u) × ((stored_task c s t new u).state ≡ new))
          ⊎ ((stored_task c s t new u).state ≡ (s.task u).state)
    cases none_to_none = inr refl
    cases _ = elim (Bool-cases (t == u)) [
      | inl e ↦ inl ((==_iff t u).0 e, rw e)
      | inr e ↦ inr (rw e)
    ]

-- A write of other fields of a task keeps the invariant.
pub set_task-Inv :
    (s : Sched) (l : Lists) (t : ℕ) (v : Task)
    → v.state ≡ (s.task t).state
    → v.prio ≡ (s.task t).prio
    → Inv s l
    → Inv (set_task s t v) l
set_task-Inv s l t v same_state same_prio inv = record {
  rings = record {
    table = inv.rings.table;
    system = inv.rings.system;
    sleep = inv.rings.sleep;
    idle = inv.rings.idle;
  };
  members = record {
    prio_mem = λ p u lp. ground (arith, inv.members.prio_mem p u lp);
    sleep_mem = λ u. ground (arith, inv.members.sleep_mem u);
    idle_mem = λ u. ground (arith, inv.members.idle_mem u);
    high = inv.members.high;
    low = λ u m. ground (arith, inv.members.low u);
  };
}

pub set_task_state-eq :
    (s : Sched) (t : ℕ) (new : TaskState) (c : StateChange)
    → get_state_change (s.task t).state new ≡ c
    → set_task_state s t new ≡ change_state c s t new
unfolding set_task_state
set_task_state-eq s t new c e = rw e

-- The globals that no list shows may change: the invariant stays.
pub off_lists-Inv :
    {s : Sched} {l : Lists} {current next_run : ℕ} {waits mutexes : Links} {count : ℕ → ℕ}
    {map : PidMap} {started interrupt : Bool}
    → Inv s l
    → Inv
        (record s {
          current = current;
          next_run = next_run;
          wait_links = waits;
          mutex_links = mutexes;
          mutex_count = count;
          pid_map = map;
          schedule_running = started;
          in_interrupt = interrupt;
        })
        l
off_lists-Inv inv = record {
  rings = record {
    table = inv.rings.table;
    system = inv.rings.system;
    sleep = inv.rings.sleep;
    idle = inv.rings.idle;
  };
  members = record {
    prio_mem = inv.members.prio_mem;
    sleep_mem = inv.members.sleep_mem;
    idle_mem = inv.members.idle_mem;
    high = inv.members.high;
    low = inv.members.low;
  };
}

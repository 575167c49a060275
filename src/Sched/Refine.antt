-- ===== src/Sched/Refine.antt =====
-- kernel/sched.c: `set_task_state` on the lists as sequences, and the invariant that a task stands
-- in exactly the list of its state.
use mirros.Base.{ℕ, ◌≤◌, ◌<◌, ◌≡◌, Bool, true, false, ◌&&◌, ◌||◌, [], ◌∷◌, ◌++◌, ◌==◌, has, erase}
use mirros.Sched.{TaskState, prepare, sleep, idle, Sched}
use mirros.Sched.Change.{
  StateChange, none_to_prepare, none_to_sleep, prepare_to_running, prepare_to_sleep,
  prepare_to_idle, running_to_sleep, running_to_prepare, running_to_idle, sleep_to_prepare,
  sleep_to_idle, sleep_to_running, prepare_to_unknown, none_to_none,
}
use mirros.Sched.Lists.{Lists, prio_snoc, prio_erase}
use mirros.Sched.Rings.{Rings}

abbrev system_snoc : ℕ → Lists → Lists
system_snoc t l = record l { system_list = l.system_list ++ t ∷ [] }

abbrev sleep_snoc : ℕ → Lists → Lists
sleep_snoc t l = record l { sleep_list = l.sleep_list ++ t ∷ [] }

abbrev sleep_erase : ℕ → Lists → Lists
sleep_erase t l = record l { sleep_list = erase t l.sleep_list }

abbrev idle_snoc : ℕ → Lists → Lists
idle_snoc t l = record l { idle_list = l.idle_list ++ t ∷ [] }

-- What a state change of task `t` at priority `p` does to the lists.
abbrev pub move : StateChange → ℕ → ℕ → Lists → Lists
move none_to_prepare p t l = prio_snoc p t (system_snoc t l)
move none_to_sleep p t l = record l {
  system_list = l.system_list ++ t ∷ [];
  sleep_list = t ∷ l.sleep_list;
}
move prepare_to_running p t l = prio_erase p t l
move prepare_to_idle p t l = idle_snoc t (prio_erase p t l)
move prepare_to_sleep p t l = sleep_snoc t (prio_erase p t l)
move running_to_sleep p t l = sleep_snoc t l
move running_to_prepare p t l = prio_snoc p t l
move running_to_idle p t l = idle_snoc t l
move sleep_to_prepare p t l = prio_snoc p t (sleep_erase t l)
move sleep_to_idle p t l = idle_snoc t (sleep_erase t l)
move sleep_to_running p t l = sleep_erase t l
move prepare_to_unknown p t l = prio_erase p t l
move none_to_none p t l = l

abbrev pub is_prepare : TaskState → Bool
is_prepare prepare = true
is_prepare _ = false

abbrev pub is_sleep : TaskState → Bool
is_sleep sleep = true
is_sleep _ = false

abbrev pub is_idle : TaskState → Bool
is_idle idle = true
is_idle _ = false

-- The tasks that the scheduler has taken on: those of the system list, and the boot task.
abbrev pub managed : Sched → Lists → ℕ → Bool
managed s l u = (u == s.idle_task) || has u l.system_list

-- Every list holds exactly the managed tasks of its state, and a prepared list those of its
-- priority.
pub record Members (s : Sched) (l : Lists) : Type 0 where
  pub prio_mem :
      (p u : ℕ)
      → p < 64
      → has u (l.prio_list p)
        ≡ (managed s l u && (is_prepare (s.task u).state && ((s.task u).prio == p)))
  pub sleep_mem : (u : ℕ) → has u l.sleep_list ≡ (managed s l u && is_sleep (s.task u).state)
  pub idle_mem : (u : ℕ) → has u l.idle_list ≡ (managed s l u && is_idle (s.task u).state)
  pub high : (u : ℕ) → managed s l u ≡ true → 64 ≤ u
  pub low : (u : ℕ) → managed s l u ≡ true → (s.task u).prio < 64

-- The invariant of the scheduler.
pub record Inv (s : Sched) (l : Lists) : Type 0 where
  pub rings : Rings s l
  pub members : Members s l

-- A change out of UNKNOWN is for a task that is not managed yet, any other for one that is.
abbrev pub Admits : Sched → Lists → ℕ → StateChange → Type 0
Admits s l t none_to_prepare = managed s l t ≡ false
Admits s l t none_to_sleep = managed s l t ≡ false
Admits s l t none_to_none = Unit
Admits s l t _ = managed s l t ≡ true

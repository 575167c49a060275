-- ===== src/Sched.antt =====
-- kernel/sched.c and include/os/task.h: the state of the scheduler, and `set_task_state`.
-- Tasks are known by their addresses. The four list fields of a task are four link memories
-- (`Link`): entry `p` of os_sched_table has its head at address `p` of the first, so a task stands
-- at 64 or above, and the other three heads stand at address 0. Critical sections only mask
-- interrupts, so they leave no trace here; debug output is left out.
pub mod Change
pub mod Effects
mod Examples
pub mod Frame
pub mod Init
pub mod Keeps
pub mod Lists
pub mod Pick
pub mod Pid
pub mod PidLaws
pub mod Prio
pub mod Refine
pub mod Remove
pub mod Rings
pub mod Round
pub mod Small
pub mod Start
pub mod States
pub mod Steps
pub mod Suspend
pub mod Switch
pub mod Tick
pub mod Turn
use mirros.Base.{
  ℕ, zero, suc, ◌+◌, Bool, true, false, ◌&&◌, List, [], ◌∷◌, ◌==◌, if◌then◌else◌, update,
}
use mirros.Base.Int.{ℤ}
use mirros.Base.Words.{u32, sub32}
use mirros.Link.{Links, list_add, list_add_tail, list_del}

-- `state_t`
pub data TaskState : Type 0 where
  prepare running sleep idle stop unknown : TaskState

-- The fields of `task_struct` that the scheduler uses.
pub record Task : Type 0 where
  pub pid : ℤ
  pub flag : ℕ
  pub parent : ℕ
  pub state : TaskState
  pub exit_state : TaskState
  pub run_time : ℤ
  pub wait_time : ℤ
  pub time_out : ℕ
  pub run_count : ℕ
  pub prio : ℕ
  pub pre_prio : ℕ

-- `struct pid_map`, less its mutex: get_new_pid and release_pid hold it from their first access to
-- their last, so each is one step here. `addr` is the page of task addresses by pid, 0 for a pid
-- that is free.
pub record PidMap : Type 0 where
  pub nr_free : ℕ
  pub current : ℕ
  pub nr : ℕ
  pub addr : ℕ → ℕ

-- The globals of sched.c, and the memory of the tasks. `wait_links` are the `wait` fields of tasks
-- and of mutexes, `mutex_links` the `mutex_get` fields of tasks and the `task` fields of mutexes,
-- and `mutex_count` the `count` of the mutex at an address.
pub record Sched : Type 0 where
  pub task : ℕ → Task
  pub prio_running : Links
  pub system : Links
  pub sleep_links : Links
  pub idle_links : Links
  pub prio_count : ℕ → ℕ
  pub system_count : ℕ
  pub sleep_count : ℕ
  pub idle_count : ℕ
  pub current : ℕ
  pub idle_task : ℕ
  pub next_run : ℕ
  pub wait_links : Links
  pub mutex_links : Links
  pub mutex_count : ℕ → ℕ
  pub pid_map : PidMap
  pub schedule_running : Bool
  pub in_interrupt : Bool

abbrev pub max_prio : ℕ
max_prio = 64

abbrev pub set_task : Sched → ℕ → Task → Sched
set_task s t v = record s { task = λ a. if t == a then v else s.task a }

abbrev pub get_task_state : Sched → ℕ → TaskState
get_task_state s t = (s.task t).state

unfoldable pub prio_list_add_task : Sched → ℕ → Sched
prio_list_add_task s t =
    let p = (s.task t).prio in
    record s {
      prio_running = list_add s.prio_running p t;
      prio_count = update s.prio_count p (u32 (s.prio_count p + 1));
    }

unfoldable pub prio_list_add_task_tail : Sched → ℕ → Sched
prio_list_add_task_tail s t =
    let p = (s.task t).prio in
    record s {
      prio_running = list_add_tail s.prio_running p t;
      prio_count = update s.prio_count p (u32 (s.prio_count p + 1));
    }

unfoldable pub prio_list_del_task : Sched → ℕ → Sched
prio_list_del_task s t =
    let p = (s.task t).prio in
    record s {
      prio_running = list_del s.prio_running t;
      prio_count = update s.prio_count p (sub32 (s.prio_count p) 1);
    }

-- The macros sched_list_add_task, sched_list_add_task_tail and sched_list_del_task, at the lists
-- where the code uses them.
unfoldable pub system_add_task_tail : Sched → ℕ → Sched
system_add_task_tail s t = record s {
  system = list_add_tail s.system 0 t;
  system_count = u32 (s.system_count + 1);
}

unfoldable pub system_del_task : Sched → ℕ → Sched
system_del_task s t = record s {
  system = list_del s.system t;
  system_count = sub32 s.system_count 1;
}

unfoldable pub sleep_add_task : Sched → ℕ → Sched
sleep_add_task s t = record s {
  sleep_links = list_add s.sleep_links 0 t;
  sleep_count = u32 (s.sleep_count + 1);
}

unfoldable pub sleep_add_task_tail : Sched → ℕ → Sched
sleep_add_task_tail s t = record s {
  sleep_links = list_add_tail s.sleep_links 0 t;
  sleep_count = u32 (s.sleep_count + 1);
}

unfoldable pub sleep_del_task : Sched → ℕ → Sched
sleep_del_task s t = record s {
  sleep_links = list_del s.sleep_links t;
  sleep_count = sub32 s.sleep_count 1;
}

unfoldable pub idle_add_task_tail : Sched → ℕ → Sched
idle_add_task_tail s t = record s {
  idle_links = list_add_tail s.idle_links 0 t;
  idle_count = u32 (s.idle_count + 1);
}

unfoldable pub idle_del_task : Sched → ℕ → Sched
idle_del_task s t = record s {
  idle_links = list_del s.idle_links t;
  idle_count = sub32 s.idle_count 1;
}

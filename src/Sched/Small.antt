-- ===== src/Sched/Small.antt =====
-- kernel/sched.c: a small system: the boot task at 70 runs, the task at 65 is prepared at priority
-- 5, the one at 66 sleeps one more tick and the one at 67 is idle.
use mirros.Base.{ℕ, refl, true, false, [], arith, ◌==◌, if◌then◌else◌}
use mirros.Base.Int.{pos}
use mirros.Link.{Links}
use mirros.Sched.{
  TaskState, prepare, running, sleep, idle, unknown, Task, PidMap, Sched, prio_list_add_task_tail,
  system_add_task_tail, sleep_add_task,
}
use mirros.Sched.Change.{
  none_to_prepare, none_to_sleep, prepare_to_idle, get_state_change, apply_change, set_task_state,
}
use mirros.Sched.Keeps.{set_task_state-Inv_at}
use mirros.Sched.Lists.{Lists}
use mirros.Sched.Refine.{Inv, move}

abbrev new_task : ℕ → TaskState → ℕ → Task
new_task pid state prio = record {
  pid = pos pid;
  flag = 0;
  parent = 0;
  state = state;
  exit_state = unknown;
  run_time = pos 1;
  wait_time = pos 1;
  time_out = 0;
  run_count = 0;
  prio = prio;
  pre_prio = prio;
}

abbrev tasks : ℕ → Task
tasks t =
    if t == 70
    then new_task 0 running 63
    else if t == 65
    then new_task 2 unknown 5
    else new_task 3 unknown 20

abbrev pub no_nodes : Links
no_nodes = record { next = λ a. a; pre = λ a. a }

abbrev pub no_pids : PidMap
no_pids = record { nr_free = 2; current = 0; nr = 4; addr = λ i. 0 }

abbrev pub boot : Sched
boot = record {
  task = tasks;
  prio_running = no_nodes;
  system = no_nodes;
  sleep_links = no_nodes;
  idle_links = no_nodes;
  prio_count = λ p. 0;
  system_count = 0;
  sleep_count = 0;
  idle_count = 0;
  current = 70;
  idle_task = 70;
  next_run = 70;
  wait_links = no_nodes;
  mutex_links = no_nodes;
  mutex_count = λ a. 0;
  pid_map = no_pids;
  schedule_running = true;
  in_interrupt = false;
}

abbrev pub no_lists : Lists
no_lists = record { prio_list = λ p. []; system_list = []; sleep_list = []; idle_list = [] }

pub boot-Inv : Inv boot no_lists
boot-Inv = record {
  rings = record {
    table = record {
      lists = λ p low. record {
        ring = record { apart = refl; distinct = tt; linked = (refl, refl) };
        counted = refl;
      };
      above = λ p t low i. cc;
      once = λ p q t lp lq i j. cc;
    };
    system = record {
      ring = record { apart = refl; distinct = tt; linked = (refl, refl) };
      counted = refl;
    };
    sleep = record {
      ring = record { apart = refl; distinct = tt; linked = (refl, refl) };
      counted = refl;
    };
    idle = record {
      ring = record { apart = refl; distinct = tt; linked = (refl, refl) };
      counted = refl;
    };
  };
  members = record {
    prio_mem = λ p u low. ground arith;
    sleep_mem = λ u. ground arith;
    idle_mem = λ u. ground arith;
    high = λ u m. ground arith;
    low = λ u m. ground arith;
  };
}

-- The three tasks are taken on one after the other.
abbrev pub first_on : Sched
first_on = set_task_state boot 65 prepare

abbrev second_on : Sched
second_on = set_task_state first_on 66 sleep

abbrev third_on : Sched
third_on = set_task_state second_on 67 prepare

abbrev pub small : Sched
small = set_task_state third_on 67 idle

abbrev pub small_lists : Lists
small_lists =
    move prepare_to_idle 20 67
      (move none_to_prepare 20 67 (move none_to_sleep 20 66 (move none_to_prepare 5 65 no_lists)))

pub small-Inv : Inv small small_lists
unfolding get_state_change set_task_state apply_change prio_list_add_task_tail system_add_task_tail
    sleep_add_task
small-Inv =
    set_task_state-Inv_at third_on _ 67 idle prepare_to_idle
      (set_task_state-Inv_at second_on _ 67 prepare none_to_prepare
        (set_task_state-Inv_at first_on _ 66 sleep none_to_sleep
          (set_task_state-Inv_at boot no_lists 65 prepare none_to_prepare boot-Inv (omega arith)
            (omega arith) refl refl)
          (omega arith) (omega arith) refl refl)
        (omega arith) (omega arith) refl refl)
      (omega arith) (omega arith) refl refl

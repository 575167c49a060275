-- ===== src/Sched/Init.antt =====
-- kernel/sched.c: the start of the scheduler, and the scheduling fields of a new task; of
-- kernel/task.c, the start of the idle task.
use Prim.Native.Nat.{bit_and}
use mirros.Base.{ℕ, zero, suc, ◌+◌, Bool, true, false, not, ◌&&◌, ◌==◌, if◌then◌else◌, update}
use mirros.Base.Int.{ℤ, pos, enomem, minus_one, is_positive}
use mirros.Link.{init_list}
use mirros.Sched.{running, unknown, Sched, set_task}
use mirros.Sched.Pid.{init_pid_allocater}

abbrev pub kernel_thread_prio : ℕ
kernel_thread_prio = 5

abbrev pub process_default_prio : ℕ
process_default_prio = 20

-- PROCESS_TYPE_KERNEL and PROCESS_TYPE_USER.
abbrev pub is_kernel_task : ℕ → Bool
is_kernel_task flag = not (bit_and flag 1 == 0)

abbrev pub is_user_task : ℕ → Bool
is_user_task flag = not (bit_and flag 2 == 0)

abbrev is_one : ℤ → Bool
is_one (pos (suc zero)) = true
is_one _ = false

abbrev above_one : ℤ → Bool
above_one (pos (suc (suc n))) = true
above_one _ = false

-- The priority by the kind of task: kernel threads other than the idle one, the init process, other
-- processes, and the idle task.
abbrev pub first_prio : Sched → ℕ → ℕ
first_prio s t =
    let v = s.task t in
    if is_kernel_task v.flag && is_positive v.pid
    then kernel_thread_prio
    else if is_user_task v.flag && is_one v.pid
    then process_default_prio
    else if is_user_task v.flag && above_one v.pid
    then (s.task v.parent).prio
    else 4

unfoldable pub init_sched_struct : Sched → ℕ → Sched × ℤ
init_sched_struct s t =
    let s1 = set_task s t (record (s.task t) {
      prio = first_prio s t;
      pre_prio = first_prio s t;
      run_time = pos 1;
      wait_time = minus_one;
      time_out = 0;
      run_count = 0;
      state = unknown;
      exit_state = unknown;
    }) in
    (
      record s1 {
        prio_running = init_list s1.prio_running t;
        system = init_list s1.system t;
        sleep_links = init_list s1.sleep_links t;
        idle_links = init_list s1.idle_links t;
        mutex_links = init_list s1.mutex_links t;
        wait_links = init_list s1.wait_links t;
      },
      pos 0,
    )

-- The loop over os_sched_table, with the rounds left.
unfoldable pub init_table : ℕ → ℕ → Sched → Sched
init_table zero i s = s
init_table (suc k) i s =
    init_table k (i + 1)
      (record s { prio_running = init_list s.prio_running i; prio_count = update s.prio_count i 0 })

-- `page` is what get_free_pages gives for the pid map.
unfoldable pub sched_init : Sched → ℕ → Sched × ℤ
unfolding init_table init_pid_allocater
sched_init s page =
    let s1 = init_table 64 0 s in
    (
      record s1 {
        sleep_links = init_list s1.sleep_links 0;
        sleep_count = 0;
        idle_links = init_list s1.idle_links 0;
        idle_count = 0;
        system = init_list s1.system 0;
        system_count = 0;
        pid_map = (init_pid_allocater page).0;
        current = 0;
        next_run = 0;
        schedule_running = true;
      },
      pos 0,
    )

-- What `build_idle_task` does with the task at `t`. The name, the user, the family lists and the mutex
-- of a task are no part of its model.
unfoldable pub start_idle : Sched → ℕ → Sched
unfolding init_sched_struct
start_idle s t =
    let s1 =
      set_task (record s { idle_task = t }) t
        (record (s.task t) { pid = minus_one; flag = 1; parent = 0 }) in
    let s2 = (init_sched_struct s1 t).0 in
    record (set_task s2 t (record (s2.task t) { state = running })) { current = t; next_run = t }

-- `t` is what kmalloc gives.
unfoldable pub build_idle_task : Sched → ℕ → Sched × ℤ
unfolding start_idle
build_idle_task s t =
    if t == 0 then (record s { idle_task = 0 }, enomem) else (start_idle s t, pos 0)

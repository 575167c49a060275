-- ===== src/Sched/Switch.antt =====
-- kernel/sched.c: choosing the next task and switching to it, the timer tick, suspension and
-- wake-up, priorities, and removal.
use mirros.Base.{
  ℕ, zero, suc, ◌+◌, Bool, true, false, not, ◌||◌, Option, none, some, ◌==◌, leb, if◌then◌else◌,
}
use mirros.Base.Int.{ℤ, pos, negsuc, einval, minus_one, is_positive, is_zero, decrement}
use mirros.Base.Words.{u32}
use mirros.Sched.{
  TaskState, prepare, running, sleep, idle, unknown, PidMap, Sched, max_prio, set_task,
  get_task_state, system_del_task, idle_del_task,
}
use mirros.Sched.Change.{set_task_state}
use mirros.Sched.Pid.{release_pid}

-- `list_first_entry` of the first entry of os_sched_table below MAX_PRIO - 1 that counts a task.
unfoldable pub find_prio : ℕ → ℕ → (ℕ → ℕ) → ℕ
find_prio zero i count = i
find_prio (suc k) i count = let rest = find_prio k (i + 1) count in if count i == 0 then rest else i

unfoldable pub find_next_run_task : Sched → ℕ
unfolding find_prio
find_next_run_task s =
    let i = find_prio 63 0 s.prio_count in if i == 63 then s.current else s.prio_running.next i

abbrev pub get_task_run_time : Sched → ℕ → Sched
get_task_run_time s t = set_task s t (record (s.task t) { run_time = pos 1 })

abbrev pub is_running : TaskState → Bool
is_running running = true
is_running _ = false

-- `re_run`
abbrev pub re_run : Sched → ℕ → Sched
re_run s next =
    get_task_run_time
      (set_task s next (record (s.task next) { run_count = u32 ((s.task next).run_count + 1) }))
      next

-- A task that is switched to has waited long enough, and waits no more.
abbrev pub stop_wait : Sched → ℕ → Sched
stop_wait s next = set_task s next (record (s.task next) {
  time_out = if is_zero (s.task next).wait_time then 1 else (s.task next).time_out;
  wait_time = minus_one;
})

unfoldable pub prepare_to_switch : Sched → ℕ → Sched
prepare_to_switch s next =
    if s.current == next
    then re_run s next
    else (let s1 =
          if is_running (get_task_state s s.current)
          then set_task_state s s.current prepare
          else s in
        re_run (set_task_state (stop_wait s1 next) next running) next)

-- arch_switch_task_sw saves the registers of `current`, makes `next_run` current and loads its
-- registers; what a task does after `sched` is done when it is current again.
abbrev pub arch_switch_task_sw : Sched → Sched
arch_switch_task_sw s = record s { current = s.next_run }

abbrev pub switch_to : Sched → ℕ → Sched
switch_to s next = prepare_to_switch (record s { next_run = next }) next

unfoldable pub sched : Sched → Sched
unfolding find_next_run_task
sched s =
    if s.in_interrupt
    then s
    else if not s.schedule_running
    then s
    else arch_switch_task_sw (switch_to s (find_next_run_task s))

-- The body of the loop over the sleeping tasks.
unfoldable pub tick_task : Sched → ℕ → Sched
tick_task s t =
    let wait =
      if is_positive (s.task t).wait_time
      then decrement (s.task t).wait_time
      else (s.task t).wait_time in
    let s1 = set_task s t (record (s.task t) { wait_time = wait }) in
    if is_zero wait then set_task_state s1 t prepare else s1

-- The loop reads `next` of a node after its body has run. `none` when the fuel runs out.
unfoldable pub tick_loop : ℕ → Sched → ℕ → Option Sched
tick_loop zero s list = none
tick_loop (suc k) s list =
    let s1 = tick_task s list in
    let rest = tick_loop k s1 (s1.sleep_links.next list) in if list == 0 then some s else rest

unfoldable pub tick_current : Sched → Sched
unfolding find_next_run_task
tick_current s =
    let s1 =
      set_task s s.current
        (record (s.task s.current) { run_time = decrement (s.task s.current).run_time }) in
    if is_zero (s1.task s1.current).run_time then switch_to s1 (find_next_run_task s1) else s1

abbrev pub then_current : Option Sched → Option Sched
then_current none = none
then_current (some s) = some (tick_current s)

unfoldable pub os_tick_handler : ℕ → Sched → Option Sched
unfolding tick_loop
os_tick_handler fuel s = then_current (tick_loop fuel s (s.sleep_links.next 0))

abbrev pub is_idle_state : TaskState → Bool
is_idle_state idle = true
is_idle_state _ = false

abbrev pub is_sleep_state : TaskState → Bool
is_sleep_state sleep = true
is_sleep_state _ = false

-- The result is the value returned at once, or `none` when the caller was switched away: then it
-- is the `time_out` of the task when it runs again.
unfoldable pub suspend_task_timeout : Sched → ℕ → ℤ → Sched × Option ℤ
unfolding sched
suspend_task_timeout s task timeout =
    if (task == 0) || is_zero timeout
    then (s, some einval)
    else if is_idle_state (get_task_state s task)
    then (s, some einval)
    else (let s1 = set_task s task (record (s.task task) { wait_time = timeout; time_out = 0 }) in
        let s2 = sched (set_task_state s1 task sleep) in
        (s2, if s2.current == s.current then some (pos (s2.task task).time_out) else none))

unfoldable pub wakeup_task : Sched → ℕ → Sched × ℤ
wakeup_task s task =
    if is_sleep_state (get_task_state s task)
    then (set_task_state (get_task_run_time s task) task prepare, pos 0)
    else (s, einval)

-- The switch of `set_task_prio`. The priority is not negative: the source takes an int and does not
-- refuse a negative one, but then indexes os_sched_table in front of its start. Its one caller, main,
-- gives MAX_PRIO - 1.
abbrev pub prio_by_state : TaskState → Sched → ℕ → ℕ → Sched
prio_by_state running s task prio =
    set_task s task (record (s.task task) { pre_prio = (s.task task).prio; prio = prio })
prio_by_state sleep s task prio =
    set_task s task (record (s.task task) { pre_prio = (s.task task).prio; prio = prio })
prio_by_state prepare s task prio =
    let s1 = set_task_state s task unknown in
    let s2 =
      set_task s1 task (record (s1.task task) { pre_prio = (s1.task task).prio; prio = prio }) in
    set_task_state s2 task prepare
prio_by_state _ s task prio = s

unfoldable pub set_task_prio : Sched → ℕ → ℕ → Sched × ℤ
set_task_prio s task prio =
    if leb max_prio prio
    then (s, einval)
    else (prio_by_state (get_task_state s task) s task prio, pos 0)

abbrev pub is_boot_pid : ℤ → Bool
is_boot_pid (pos zero) = true
is_boot_pid (pos (suc zero)) = true
is_boot_pid _ = false

-- A pid that is not negative indexes the pid map.
abbrev pub release_pid_of : PidMap → ℤ → PidMap
unfolding release_pid
release_pid_of map (pos n) = release_pid map n
release_pid_of map (negsuc n) = map

unfoldable pub sched_remove_task : Sched → ℕ → Sched × ℤ
sched_remove_task s task =
    if not (is_idle_state (get_task_state s task))
    then (s, einval)
    else if is_boot_pid (s.task task).pid
    then (s, einval)
    else (let s1 = system_del_task (idle_del_task s task) task in
        (record s1 { pid_map = release_pid_of s1.pid_map (s1.task task).pid }, pos 0))

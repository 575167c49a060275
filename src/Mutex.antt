-- ===== src/Mutex.antt =====
-- kernel/mutex.c and include/os/mutex.h: mutexes, over the scheduler.
-- A mutex is known by its address `m`. `Sched` holds its count, and its two list fields are in the
-- memories of links of the fields that they are linked with. A count is 0 or 1.
mod Examples
pub mod Lock
pub mod Unlock
use mirros.Base.{
  ℕ, zero, suc, Bool, true, false, not, Option, none, some, ◌==◌, if◌then◌else◌, update,
}
use mirros.Base.Int.{ℤ, pos, is_zero}
use mirros.Link.{Links, init_list, list_add_tail, list_del, is_list_empty}
use mirros.Sched.{Sched}
use mirros.Sched.Switch.{suspend_task_timeout, wakeup_task}

unfoldable pub init_mutex : Sched → ℕ → Sched
init_mutex s m = record s {
  mutex_count = update s.mutex_count m 0;
  wait_links = init_list s.wait_links m;
  mutex_links = init_list s.mutex_links m;
}

-- The branch of the loop for a mutex that is free.
unfoldable pub take_mutex : Sched → ℕ → Sched
take_mutex s m =
    let s1 = record s { mutex_count = update s.mutex_count m 1 } in
    if s1.current == 0
    then s1
    else record s1 { mutex_links = list_add_tail s1.mutex_links s1.current m }

abbrev pub stop_waiting : Sched → ℕ → Sched
stop_waiting s task = record s { wait_links = list_del s.wait_links task }

-- A round of the loop for each unit of fuel. The result is the value returned, or `none` when the
-- caller was switched away in suspend_task_timeout; the task is `current` at the start.
unfoldable pub lock_loop : ℕ → Sched → ℕ → ℕ → ℤ → Option (Sched × Option ℤ)
lock_loop zero s task m ms = none
lock_loop (suc k) s task m ms =
    let s1 = record s { wait_links = list_add_tail s.wait_links m task } in
    let (s2, result) = suspend_task_timeout s1 task ms in
    let rest = lock_loop k s2 task m ms in
    if s.mutex_count m == 0 then some (take_mutex s m, some (pos 0)) else elim result [
      | none ↦ some (s2, none)
      | some timeout ↦ if is_zero timeout then rest else some (stop_waiting s2 task, some (pos 0))
    ]

unfoldable pub mutex_lock_timeout : ℕ → Sched → ℕ → ℤ → Option (Sched × Option ℤ)
unfolding lock_loop
mutex_lock_timeout fuel s m ms = lock_loop fuel s s.current m ms

-- What a task does that runs again after it was switched away: suspend_task_timeout returns its
-- `time_out`.
unfoldable pub lock_resume : ℕ → Sched → ℕ → ℤ → Option (Sched × Option ℤ)
unfolding lock_loop
lock_resume fuel s m ms =
    if (s.task s.current).time_out == 0
    then lock_loop fuel s s.current m ms
    else some (stop_waiting s s.current, some (pos 0))

-- The body of the loop over the tasks that wait, and the loop, which reads `next` of a node after
-- the node was taken out. `none` when the fuel runs out.
unfoldable pub wake_waiter : Sched → ℕ → Sched
wake_waiter s task = (wakeup_task (stop_waiting s task) task).0

unfoldable pub wake_loop : ℕ → Sched → ℕ → ℕ → Option Sched
unfolding wake_waiter
wake_loop zero s m list = none
wake_loop (suc k) s m list =
    let s1 = wake_waiter s list in
    let rest = wake_loop k s1 m (s1.wait_links.next list) in if list == m then some s else rest

unfoldable pub drop_owner : Sched → ℕ → Sched
drop_owner s m =
    if is_list_empty s.mutex_links m then s else record s { mutex_links = list_del s.mutex_links m }

abbrev pub then_drop : ℕ → Option Sched → Option Sched
unfolding drop_owner
then_drop m none = none
then_drop m (some s) = some (drop_owner s m)

unfoldable pub mutex_unlock : ℕ → Sched → ℕ → Option Sched
unfolding wake_loop drop_owner
mutex_unlock fuel s m =
    if s.mutex_count m == 0
    then some s
    else (let s1 = record s { mutex_count = update s.mutex_count m 0 } in
        then_drop m (wake_loop fuel s1 m (s1.wait_links.next m)))

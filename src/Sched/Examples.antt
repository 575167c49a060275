-- ===== src/Sched/Examples.antt =====
-- kernel/sched.c: the theorems at the small system of Sched/Small.
use mirros.Base.{ℕ, ◌+◌, ◌≤◌, ◌<◌, ◌≡◌, ◌≢◌, ◌⊎◌, inr, refl, false, some, [], ◌∷◌, arith}
use mirros.Base.Int.{pos, minus_one, einval}
use mirros.Base.Words.{u32}
use mirros.Link.{list_for_each}
use mirros.Sched.{
  prepare, sleep, idle, Sched, set_task, prio_list_add_task_tail, prio_list_del_task,
  system_add_task_tail, sleep_add_task, idle_add_task_tail,
}
use mirros.Sched.Change.{
  none_to_prepare, running_to_sleep, sleep_to_prepare, get_state_change, apply_change,
  set_task_state,
}
use mirros.Sched.Effects.{wakeup_task-Inv}
use mirros.Sched.Frame.{set_task-Inv}
use mirros.Sched.Init.{first_prio, init_sched_struct}
use mirros.Sched.Keeps.{set_task_state-Inv}
use mirros.Sched.Lists.{prio_erase}
use mirros.Sched.Pick.{IsReady, IsNext, find_next_run_task-IsNext}
use mirros.Sched.Pid.{get_new_pid, pid_get_task}
use mirros.Sched.PidLaws.{get_new_pid_cases, take, release, total_given, total_given-le_nr_free}
use mirros.Sched.Prio.{set_task_prio-Inv, set_task_prio-twice}
use mirros.Sched.Refine.{Inv, move, managed}
use mirros.Sched.Remove.{removed, sched_remove_task-Inv}
use mirros.Sched.Round.{Stayed, Switched, sched_cases}
use mirros.Sched.Start.{init_sched_struct-starts}
use mirros.Sched.Suspend.{put_to_sleep, suspend_task_timeout_cases}
use mirros.Sched.Switch.{
  suspend_task_timeout, find_next_run_task, prepare_to_switch, sched, tick_current, os_tick_handler,
  wakeup_task, set_task_prio, sched_remove_task,
}
use mirros.Sched.Tick.Loop.{Ticked, os_tick_handler-Ticked}
use mirros.Sched.Turn.{requeue, prepare_to_switch-Inv}
use mirros.Sched.Small.{boot, no_lists, boot-Inv, first_on, small, small_lists, small-Inv, no_pids}

set_task_state-Inv_example : Inv first_on (move none_to_prepare 5 65 no_lists)
unfolding get_state_change
set_task_state-Inv_example =
    set_task_state-Inv boot no_lists boot-Inv 65 prepare (omega arith) (omega arith) refl

wakeup_task-Inv_example :
    (((small.task 66).state ≢ sleep) × (wakeup_task small 66 ≡ (small, einval)))
    ⊎ (((small.task 66).state ≡ sleep)
        × ((wakeup_task small 66).1 ≡ pos 0)
        × Inv (wakeup_task small 66).0 (move sleep_to_prepare (small.task 66).prio 66 small_lists))
unfolding get_state_change set_task_state apply_change prio_list_add_task_tail system_add_task_tail
    sleep_add_task prio_list_del_task idle_add_task_tail
wakeup_task-Inv_example = wakeup_task-Inv small small_lists 66 small-Inv refl

set_task_prio-Inv_example :
    ((64 ≤ 9) × (set_task_prio small 66 9 ≡ (small, einval)))
    ⊎ ((9 < 64)
        × ((set_task_prio small 66 9).1 ≡ pos 0)
        × (Inv (set_task_prio small 66 9).0 small_lists
            × (((set_task_prio small 66 9).0.task 66).prio ≡ 9)
            × (((set_task_prio small 66 9).0.task 66).pre_prio ≡ (small.task 66).prio)))
unfolding get_state_change set_task_state apply_change prio_list_add_task_tail system_add_task_tail
    sleep_add_task prio_list_del_task idle_add_task_tail
set_task_prio-Inv_example = set_task_prio-Inv small small_lists 66 9 small-Inv (inr refl)

set_task_prio-twice_example :
    (list_for_each 4 (set_task_prio small 65 9).0.system 0 ≡ some (65 ∷ []))
    × ((set_task_prio small 65 9).0.system_count ≡ u32 (small.system_count + 1))
unfolding get_state_change set_task_state apply_change prio_list_add_task_tail system_add_task_tail
    sleep_add_task prio_list_del_task idle_add_task_tail
set_task_prio-twice_example =
    set_task_prio-twice small small_lists 65 9 [] (66 ∷ 67 ∷ []) 4 small-Inv refl (omega arith) refl
      (omega arith)

sched_remove_task-Inv_example :
    ((((small.task 67).state ≢ idle)
        ⊎ ((small.task 67).pid ≡ pos 0)
        ⊎ ((small.task 67).pid ≡ pos 1))
      × (sched_remove_task small 67 ≡ (small, einval)))
    ⊎ (((small.task 67).state ≡ idle)
        × ((small.task 67).pid ≢ pos 0)
        × ((small.task 67).pid ≢ pos 1)
        × ((sched_remove_task small 67).1 ≡ pos 0)
        × (managed (sched_remove_task small 67).0 (removed 67 small_lists) 67 ≡ false)
        × Inv (sched_remove_task small 67).0 (removed 67 small_lists))
unfolding get_state_change set_task_state apply_change prio_list_add_task_tail system_add_task_tail
    sleep_add_task prio_list_del_task idle_add_task_tail
sched_remove_task-Inv_example =
    sched_remove_task-Inv small small_lists 67 small-Inv refl (omega arith)

find_next_run_task-IsNext_example :
    ((find_next_run_task small ≡ small.current) × ((u : ℕ) → ¬ IsReady small small_lists u))
    ⊎ IsNext small small_lists (find_next_run_task small)
find_next_run_task-IsNext_example =
    find_next_run_task-IsNext small small_lists small-Inv (λ p low. ground arith)

prepare_to_switch-Inv_example :
    Inv
      (prepare_to_switch small 65)
      (prio_erase (small.task 65).prio 65 (requeue small small_lists))
unfolding get_state_change set_task_state apply_change prio_list_add_task_tail system_add_task_tail
    sleep_add_task prio_list_del_task idle_add_task_tail
prepare_to_switch-Inv_example =
    prepare_to_switch-Inv small small_lists small-Inv refl 65 (refl, refl, omega arith)
      (omega arith)

sched_cases_example :
    Stayed small small_lists (sched small) ⊎ Switched small small_lists (sched small)
unfolding get_state_change set_task_state apply_change prio_list_add_task_tail system_add_task_tail
    sleep_add_task prio_list_del_task idle_add_task_tail
sched_cases_example =
    sched_cases small small_lists small-Inv refl (λ p low. ground arith) (λ u m r. ground arith)
      (λ e. cc) refl refl

os_tick_handler-Ticked_example :
    (s' : Sched) × (os_tick_handler 2 small ≡ some (tick_current s'))
    × Ticked small small_lists small_lists.sleep_list s'
os_tick_handler-Ticked_example = os_tick_handler-Ticked 2 small small_lists small-Inv (omega arith)

total_given-le_nr_free_example :
    total_given no_pids (take 65 ∷ release 0 ∷ take 66 ∷ take 67 ∷ []) ≤ 2
total_given-le_nr_free_example =
    total_given-le_nr_free no_pids (take 65 ∷ release 0 ∷ take 66 ∷ take 67 ∷ [])

suspend_task_timeout_cases_example :
    Inv (put_to_sleep small (pos 9)) (move running_to_sleep 63 70 small_lists)
    × (Switched
          (put_to_sleep small (pos 9))
          (move running_to_sleep 63 70 small_lists)
          (suspend_task_timeout small 70 (pos 9)).0
        ⊎ (((u : ℕ) → ¬ IsReady small small_lists u)
            × ((suspend_task_timeout small 70 (pos 9)).0.current ≡ 70)
            × (((suspend_task_timeout small 70 (pos 9)).0.task 70).state ≡ sleep)))
unfolding get_state_change set_task_state apply_change prio_list_add_task_tail system_add_task_tail
    sleep_add_task prio_list_del_task idle_add_task_tail
suspend_task_timeout_cases_example =
    suspend_task_timeout_cases small small_lists (pos 9) small-Inv refl refl (λ u m r. ground arith)
      (λ p low. ground arith) refl refl refl

get_new_pid_cases_example :
    ((get_new_pid no_pids 65 ≡ (no_pids, minus_one))
      × ((no_pids.nr_free ≡ 0) ⊎ ((q : ℕ) → 0 ≤ q → q < 4 → no_pids.addr q ≢ 0)))
    ⊎ ((j : ℕ) × ((get_new_pid no_pids 65).1 ≡ pos j)
        × (0 ≤ j)
        × (j < 4)
        × (no_pids.addr j ≡ 0)
        × (pid_get_task (get_new_pid no_pids 65).0 j ≡ 65)
        × ((q : ℕ) → q ≢ j → pid_get_task (get_new_pid no_pids 65).0 q ≡ pid_get_task no_pids q))
get_new_pid_cases_example = get_new_pid_cases no_pids 65

-- A kernel thread at 90.
abbrev with_thread : Sched
with_thread = set_task boot 90 (record (boot.task 90) { flag = 1 })

init_sched_struct-starts_example :
    Inv
      (set_task_state (init_sched_struct with_thread 90).0 90 prepare)
      (move none_to_prepare (first_prio with_thread 90) 90 no_lists)
init_sched_struct-starts_example =
    init_sched_struct-starts with_thread no_lists 90
      (set_task-Inv boot no_lists 90 _ refl refl boot-Inv) refl (omega arith) (omega arith)

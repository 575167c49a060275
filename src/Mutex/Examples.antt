-- ===== src/Mutex/Examples.antt =====
-- kernel/mutex.c at the small system of Sched/Small, with a mutex at 90 that the boot task holds and
-- the task at 66 waits for, and a free one at 91.
use mirros.Base.{◌≡◌, refl, none, some, [], ◌∷◌, arith, ◌==◌, if◌then◌else◌}
use mirros.Base.Int.{pos}
use mirros.Link.{Links, list_add_tail}
use mirros.Link.Ring.{Ring}
use mirros.Sched.{
  Sched, prio_list_add_task_tail, prio_list_del_task, system_add_task_tail, sleep_add_task,
  idle_add_task_tail,
}
use mirros.Sched.Change.{get_state_change, apply_change, set_task_state}
use mirros.Sched.Frame.{off_lists-Inv}
use mirros.Sched.Refine.{Inv}
use mirros.Sched.Small.{small, small_lists, small-Inv, no_nodes}
use mirros.Mutex.{mutex_lock_timeout, mutex_unlock}
use mirros.Mutex.Lock.{Waits, mutex_lock_timeout-Waits}
use mirros.Mutex.Unlock.{AllAsleep, Woken, freed, mutex_unlock-Woken}

abbrev waiting : Links
unfolding list_add_tail
waiting = list_add_tail no_nodes 90 66

abbrev owned : Links
unfolding list_add_tail
owned = list_add_tail no_nodes 70 90

abbrev held : Sched
held = record small {
  wait_links = waiting;
  mutex_links = owned;
  mutex_count = λ a. if a == 90 then 1 else 0;
}

held-Inv : Inv held small_lists
held-Inv = off_lists-Inv small-Inv

waiting-Ring : Ring waiting 90 (66 ∷ [])
unfolding waiting
waiting-Ring = record { apart = refl; distinct = (refl, tt); linked = (refl, refl, (refl, refl)) }

owned-Ring : Ring owned 70 (90 ∷ [])
unfolding owned
owned-Ring = record { apart = refl; distinct = (refl, tt); linked = (refl, refl, (refl, refl)) }

waiter-AllAsleep : AllAsleep held small_lists (66 ∷ [])
unfolding get_state_change set_task_state apply_change prio_list_add_task_tail system_add_task_tail
    sleep_add_task prio_list_del_task idle_add_task_tail
waiter-AllAsleep u i = ground arith

mutex_unlock-Woken_example :
    (s' : Sched) × (mutex_unlock 2 held 90 ≡ some s')
    × (s'.mutex_count 90 ≡ 0)
    × Woken (freed held 90) 90 (66 ∷ []) s'
mutex_unlock-Woken_example =
    mutex_unlock-Woken 2 held small_lists 90 (66 ∷ []) held-Inv (omega arith) waiting-Ring
      waiter-AllAsleep (omega arith)

mutex_lock_timeout-Waits_example :
    (s' : Sched) × (mutex_lock_timeout 1 held 90 (pos 9) ≡ some (s', none))
    × Waits held small_lists 90 (pos 9) (66 ∷ []) s'
unfolding get_state_change set_task_state apply_change prio_list_add_task_tail system_add_task_tail
    sleep_add_task prio_list_del_task idle_add_task_tail
mutex_lock_timeout-Waits_example =
    mutex_lock_timeout-Waits 0 held small_lists 90 (pos 9) (66 ∷ []) 65 held-Inv refl refl
      (λ u m r. ground arith) (λ p low. ground arith) refl refl refl (omega arith) waiting-Ring refl
      (refl, refl, omega arith)

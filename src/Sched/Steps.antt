-- ===== src/Sched/Steps.antt =====
-- kernel/sched.c as a running system: what the current task, other code and the timer may call, one
-- call after the other, and what holds between two of them.
pub mod Boot
mod Examples
pub mod Kept
pub mod Live
pub mod Moved
pub mod Other
pub mod Reached
pub mod Short
pub mod Starts
pub mod Timer
pub mod Wakes
use mirros.Base.{
  ℕ, ◌+◌, ◌^◌, ◌≤◌, ◌<◌, ◌≡◌, ◌≢◌, ◌⊎◌, false, true, Option, none, some, length, if◌then◌else◌,
}
use mirros.Base.Int.{ℤ, is_zero}
use mirros.Interrupt.{
  Irqs, arch_get_irq_description, do_irq_handler, platform_timer_tick_handler, os_exit_irq,
}
use mirros.Link.{Links}
use mirros.Sched.{prepare, running, sleep, idle, unknown, Sched}
use mirros.Sched.Change.{set_task_state}
use mirros.Sched.Init.{first_prio, init_sched_struct}
use mirros.Sched.Lists.{Lists}
use mirros.Sched.Refine.{Inv, managed}
use mirros.Sched.Switch.{sched, suspend_task_timeout, wakeup_task, set_task_prio, sched_remove_task}
use mirros.Sched.Turn.{OnlyCurrent}

-- The nodes that are reached from the head of a list by following `next`.
pub data OnList (h : Links) (head : ℕ) : ℕ → Type 0 where
  start : OnList h head head
  follow : (t : ℕ) → OnList h head t → OnList h head (h.next t)

-- A task of the system list.
abbrev pub IsTask : Sched → ℕ → Type 0
IsTask s t = (t ≢ 0) × OnList s.system 0 t

-- A timer interrupt of the running task: the handler, and the switch at its end.
abbrev pub after_irq : Option (Sched × ℤ) → Option Sched
after_irq none = none
after_irq (some (s, ret)) = some (os_exit_irq s)

unfoldable pub timer_irq : ℕ → Irqs → ℕ → Sched → Option Sched
unfolding do_irq_handler platform_timer_tick_handler
timer_irq fuel irqs nr s =
    after_irq (do_irq_handler (λ fn arg. platform_timer_tick_handler fuel) irqs nr s)

-- One call. Left out are a change of the priority of a prepared task, which breaks the lists
-- (Sched/Prio), state changes by hand other than to IDLE, suspending another task, and removing the
-- current one. A task that is taken on is new, and its parent has a priority below MAX_PRIO; a
-- priority is given to a task that is not in a list of prepared tasks.
pub data Step (s : Sched) : Sched → Type 0 where
  yields : Step s (sched s)
  suspends :
      (timeout : ℤ) → is_zero timeout ≡ false → Step s (suspend_task_timeout s s.current timeout).0
  wakes : (t : ℕ) → IsTask s t → Step s (wakeup_task s t).0
  prefers :
      (t prio : ℕ)
      → IsTask s t
      → ((s.task t).state ≡ running) ⊎ ((s.task t).state ≡ sleep)
      → Step s (set_task_prio s t prio).0
  kills : (t : ℕ) → IsTask s t → Step s (set_task_state s t idle)
  buries : (t : ℕ) → IsTask s t → t ≢ s.current → t ≢ s.idle_task → Step s (sched_remove_task s t).0
  starts :
      (t : ℕ)
      → 64 ≤ t
      → t ≢ s.idle_task
      → (OnList s.system 0 t → ⊥)
      → first_prio s t < 64
      → s.system_count + 2 < 2 ^ 32
      → Step s (set_task_state (init_sched_struct s t).0 t prepare)
  ticks :
      (fuel : ℕ) (irqs : Irqs) (nr : ℕ) (s' : Sched)
      → arch_get_irq_description irqs nr ≢ 0
      → timer_irq fuel irqs nr s ≡ some s'
      → Step s s'

pub data Reach (s : Sched) : Sched → Type 0 where
  here : Reach s s
  next : {t u : Sched} → Reach s t → Step t u → Reach s u

-- What holds between two calls.
pub record Valid (s : Sched) (l : Lists) : Type 0 where
  pub inv : Inv s l
  pub here : managed s l s.current ≡ true
  pub only : OnlyCurrent s l
  pub known : (s.task s.current).state ≢ unknown
  pub started : s.schedule_running ≡ true
  pub outside : s.in_interrupt ≡ false
  pub chosen : s.next_run ≡ s.current
  pub few : length l.system_list + 1 < 2 ^ 32

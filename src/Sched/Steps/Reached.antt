-- ===== src/Sched/Steps/Reached.antt =====
-- kernel/sched.c: the invariant of the running system, by induction on the calls.
use mirros.Base.{ℕ, ◌≡◌, refl, inl, inr, true, false, ◌||◌, arith, ◌==◌, Bool-cases}
use mirros.Base.Int.{ℤ, is_zero}
use mirros.Sched.{sleep, Sched, set_task}
use mirros.Sched.Change.{set_task_state}
use mirros.Sched.Lists.{Lists}
use mirros.Sched.Refine.{managed}
use mirros.Sched.Steps.{
  Step, yields, suspends, wakes, prefers, kills, buries, starts, ticks, here, IsTask, Valid,
}
use mirros.Sched.Steps.Kept.{sched-Valid}
use mirros.Sched.Steps.Moved.{kill-Valid, sleep-Valid, wakeup_task-Valid}
use mirros.Sched.Steps.Other.{set_task_prio-Valid, sched_remove_task-Valid}
use mirros.Sched.Steps.Short.{IsTask-mem, not_OnList-mem}
use mirros.Sched.Steps.Starts.{starts-Valid}
use mirros.Sched.Steps.Timer.{timer_irq-Valid}
use mirros.Sched.Switch.{suspend_task_timeout, is_idle_state}

suspend-Valid :
    (s : Sched) (l : Lists)
    → Valid s l
    → (timeout : ℤ) → is_zero timeout ≡ false
    → (l' : Lists) × Valid (suspend_task_timeout s s.current timeout).0 l'
unfolding suspend_task_timeout
suspend-Valid s l v timeout some_time =
    let high = v.inv.members.high s.current v.here in
    let test : ((s.current == 0) || is_zero timeout) ≡ false = ground arith in
    elim (Bool-cases (is_idle_state (s.task s.current).state)) [
      | inl e ↦ rw (test, e) (l, v)
      | inr e ↦
          let w = record (s.task s.current) { wait_time = timeout; time_out = 0 } in
          let (l1, tasks1, v1) = sleep-Valid s l v s.current v.here w refl refl v.known in
          let (l2, tasks2, v2) =
            sched-Valid (set_task_state (set_task s s.current w) s.current sleep) l1 v1 in
          rw (test, e) (l2, v2)
    ]

task-managed : (s : Sched) (l : Lists) (t : ℕ) → Valid s l → IsTask s t → managed s l t ≡ true
task-managed s l t v is = ground (arith, IsTask-mem s l t v.inv is)

pub Step-Valid : (s t : Sched) (l : Lists) → Valid s l → Step s t → (l' : Lists) × Valid t l'
Step-Valid s t l v yields = let (l', tasks, v') = sched-Valid s l v in (l', v')
Step-Valid s t l v (suspends timeout some_time) = suspend-Valid s l v timeout some_time
Step-Valid s t l v (wakes u is) =
    let (l', tasks, v') = wakeup_task-Valid s l v u (task-managed s l u v is) in (l', v')
Step-Valid s t l v (prefers u prio is either) =
    let (l', tasks, v') = set_task_prio-Valid s l v u prio either in (l', v')
Step-Valid s t l v (kills u is) =
    let (l', tasks, v') = kill-Valid s l v u (task-managed s l u v is) in (l', v')
Step-Valid s t l v (buries u is away boot) =
    sched_remove_task-Valid s l v u (IsTask-mem s l u v.inv is) boot away
Step-Valid s t l v (starts u high boot fresh parent room) =
    (_, starts-Valid s l v u high boot (not_OnList-mem s l u v.inv fresh) parent room)
Step-Valid s t l v (ticks fuel irqs nr t' some_des e) =
    let (l', tasks, v') = timer_irq-Valid s l v fuel irqs nr t' some_des e in (l', v')

-- ===== src/Mutex/Lock.antt =====
-- kernel/mutex.c: `mutex_lock_timeout` takes a free mutex at once, and waits for one that is
-- locked.
use mirros.Base.{
  ℕ, suc, ◌≡◌, ◌≢◌, inl, inr, ◌∙◌, true, false, none, some, List, [], ◌∷◌, ◌++◌, ◌==◌, arith, ◌∉◌,
}
use mirros.Base.Int.{ℤ, pos, is_zero}
use mirros.Link.{list_add_tail}
use mirros.Link.Ring.{Ring, list_add_tail-snoc}
use mirros.Sched.{TaskState, running, sleep, prepare, Sched}
use mirros.Sched.Change.{running_to_sleep}
use mirros.Sched.Frame.{off_lists-Inv}
use mirros.Sched.Lists.{Lists}
use mirros.Sched.Pick.{IsReady, Short}
use mirros.Sched.Refine.{Inv, managed, move}
use mirros.Sched.Round.{Switched}
use mirros.Sched.Suspend.{
  put_to_sleep, put_to_sleep-SameGlobals, suspend_task_timeout_cases, suspend_away, asleep_then,
}
use mirros.Sched.Switch.{suspend_task_timeout}
use mirros.Sched.Turn.{OnlyCurrent}
use mirros.Mutex.{mutex_lock_timeout, take_mutex}
use mirros.Mutex.Unlock.{with_waits-Inv}

-- A free mutex is taken in one round: it is locked, it stands in the list of the mutexes of the
-- current task, behind those that the task holds already, and the invariant holds.
pub mutex_lock_timeout-takes :
    (fuel : ℕ) (s : Sched) (l : Lists) (m : ℕ) (ms : ℤ) (held : List ℕ)
    → Inv s l
    → s.mutex_count m ≡ 0
    → s.current ≢ 0
    → Ring s.mutex_links s.current held
    → m ∉ (s.current ∷ held)
    → (s' : Sched) × (mutex_lock_timeout (suc fuel) s m ms ≡ some (s', some (pos 0)))
      × (s'.mutex_count m ≡ 1)
      × Ring s'.mutex_links s.current (held ++ m ∷ [])
      × Inv s' l
unfolding mutex_lock_timeout take_mutex
mutex_lock_timeout-takes fuel s l m ms held inv free some_task r out =
    let test : (s.mutex_count m == 0) ≡ true = ground arith in
    let task : (s.current == 0) ≡ false = ground arith in
    (
      take_mutex s m,
      rw test,
      rw task (ground arith),
      rw task (list_add_tail-snoc s.mutex_links s.current m held r out),
      rw task (off_lists-Inv inv),
    )

abbrev pub queued : Sched → ℕ → Sched
queued s m = record s { wait_links = list_add_tail s.wait_links m s.current }

-- What waiting means: another task runs, the mutex is still locked, and the caller stands at the
-- end of the waiting list and sleeps in the scheduler's lists.
pub record Waits (s : Sched) (l : Lists) (m : ℕ) (ms : ℤ) (ws : List ℕ) (s' : Sched) : Type 0 where
  pub elsewhere :
      Switched
        (put_to_sleep (queued s m) ms)
        (move running_to_sleep (s.task s.current).prio s.current l)
        s'
  pub in_line : Ring s'.wait_links m (ws ++ s.current ∷ [])
  pub counts : s'.mutex_count ≡ s.mutex_count

-- When the mutex is locked and another task is ready, the caller is put at the end of the waiting
-- list and to sleep, and another task runs; under the conditions of suspend_task_timeout, for
-- some time, and a caller that does not wait for the mutex already. Ready
-- means managed, prepared and of a priority below MAX_PRIO - 1, so the idle task is not ready once main
-- has given it the last priority.
pub mutex_lock_timeout-Waits :
    (fuel : ℕ) (s : Sched) (l : Lists) (m : ℕ) (ms : ℤ) (ws : List ℕ) (u : ℕ)
    → Inv s l
    → managed s l s.current ≡ true
    → (s.task s.current).state ≡ running
    → OnlyCurrent s l
    → Short l
    → is_zero ms ≡ false
    → s.in_interrupt ≡ false
    → s.schedule_running ≡ true
    → s.mutex_count m ≢ 0
    → Ring s.wait_links m ws
    → s.current ∉ (m ∷ ws)
    → IsReady s l u
    → (s' : Sched) × (mutex_lock_timeout (suc fuel) s m ms ≡ some (s', none)) × Waits s l m ms ws s'
unfolding mutex_lock_timeout
mutex_lock_timeout-Waits fuel s l m ms ws u inv known run only short time outside started locked r
      out ready =
    let q = queued s m in
    let q_inv = with_waits-Inv s l (list_add_tail s.wait_links m s.current) inv in
    let (asleep_inv, either) =
      suspend_task_timeout_cases q l ms q_inv known run only short time outside started in
    elim either [
      | inr (nobody, here, state) ↦ absurd (nobody u ready)
      | inl goes ↦
          let after = (suspend_task_timeout q s.current ms).0 in
          let g = put_to_sleep-SameGlobals q l ms q_inv known run in
          let test : (s.mutex_count m == 0) ≡ false = ground arith in
          let away : after.current ≢ s.current =
            λ e. other_state (asleep_then q l ms q_inv known run) (rw e at goes.next.ready.1) in
          (
            after,
            rw (test, suspend_away q l ms q_inv known run time away),
            record {
              elsewhere = goes;
              in_line =
                  rw (goes.waits ∙ g.wait_links)
                    (list_add_tail-snoc s.wait_links m s.current ws r out);
              counts = goes.counts ∙ g.mutex_count;
            },
          )
    ]
  where
    other_state : {v : TaskState} → v ≡ sleep → v ≡ prepare → ⊥
    other_state e f = cc

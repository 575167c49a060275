-- ===== src/Sched/Suspend.antt =====
-- kernel/sched.c: `suspend_task_timeout` of the current task.
use mirros.Base.{
  ℕ, none, ◌≡◌, ◌≢◌, ◌⊎◌, refl, ap, ◌∙◌, true, false, ◌||◌, some, arith, ◌==◌, ==_iff,
  if◌then◌else◌, Bool-cases, inl, inr, eq→==,
}
use mirros.Base.Int.{ℤ, einval, is_zero}
use mirros.Sched.{running, sleep, idle, Sched, Task, set_task}
use mirros.Sched.Change.{get_state_change, running_to_sleep, set_task_state}
use mirros.Sched.Effects.{write_then_state-Inv}
use mirros.Sched.Frame.{
  SameGlobals, SameGlobals-trans, set_task-SameGlobals, set_task_state-SameGlobals,
  set_task_state-task_ne, set_task_state-task_self,
}
use mirros.Sched.Lists.{Lists}
use mirros.Sched.Pick.{IsReady, Short}
use mirros.Sched.Refine.{Inv, managed, move}
use mirros.Sched.Round.{Switched, sched_cases}
use mirros.Sched.Switch.{sched, suspend_task_timeout, is_idle_state}
use mirros.Sched.Turn.{OnlyCurrent}

-- The state in which `suspend_task_timeout` of the current task calls `sched`.
pub put_to_sleep : Sched → ℤ → Sched
put_to_sleep s timeout =
    set_task_state
      (set_task s s.current (record (s.task s.current) { wait_time = timeout; time_out = 0 }))
      s.current sleep

-- A timeout of 0 and an idle task are refused, and nothing changes.
pub suspend_task_timeout-refused :
    (s : Sched) (t : ℕ) (timeout : ℤ)
    → (t ≡ 0) ⊎ ((is_zero timeout ≡ true) ⊎ ((s.task t).state ≡ idle))
    → suspend_task_timeout s t timeout ≡ (s, some einval)
unfolding suspend_task_timeout
suspend_task_timeout-refused s t timeout h = elim (Bool-cases ((t == 0) || is_zero timeout)) [
  | inl e ↦ rw e
  | inr e ↦
      let is : (s.task t).state ≡ idle = ground arith in
      let test : is_idle_state (s.task t).state ≡ true = rw is in rw (e, test)
]

module _ (s : Sched) (l : Lists) (timeout : ℤ) (inv : Inv s l)
    (known : managed s l s.current ≡ true) (run : (s.task s.current).state ≡ running) where
  abbrev sleeping_lists : Lists
  sleeping_lists = move running_to_sleep (s.task s.current).prio s.current l

  put_to_sleep-Inv : Inv (put_to_sleep s timeout) sleeping_lists
  unfolding put_to_sleep get_state_change
  put_to_sleep-Inv =
      write_then_state-Inv s l s.current _ sleep running_to_sleep inv known refl refl (rw run) known

  pub put_to_sleep-SameGlobals : SameGlobals s (put_to_sleep s timeout)
  unfolding put_to_sleep
  put_to_sleep-SameGlobals =
      let v = record (s.task s.current) { wait_time = timeout; time_out = 0 } in
      SameGlobals-trans (set_task-SameGlobals s s.current v)
        (set_task_state-SameGlobals (set_task s s.current v) s.current sleep)

  put_to_sleep-state :
      (u : ℕ)
      → ((put_to_sleep s timeout).task u).state
        ≡ (if s.current == u then sleep else (s.task u).state)
  unfolding put_to_sleep get_state_change
  put_to_sleep-state u =
      let v = record (s.task s.current) { wait_time = timeout; time_out = 0 } in
      let s0 = set_task s s.current v in
      let at : (s0.task s.current).state ≡ running = rw (eq→== s.current s.current refl) run in
      elim (Bool-cases (s.current == u)) [
        | inl e ↦ rw e (
            rw (← (==_iff s.current u).0 e) (
              ap (λ (w : Task). w.state)
                (set_task_state-task_self s0 s.current sleep (rw at (λ k. cc)))))
        | inr e ↦
            rw e (ap (λ (w : Task). w.state) (set_task_state-task_ne s0 s.current sleep u e) ∙ rw e)
      ]

  put_to_sleep-task_ne :
      (u : ℕ) → (s.current == u) ≡ false → (put_to_sleep s timeout).task u ≡ s.task u
  unfolding put_to_sleep
  put_to_sleep-task_ne u ne =
      set_task_state-task_ne
        (set_task s s.current (record (s.task s.current) { wait_time = timeout; time_out = 0 }))
        s.current sleep u ne
      ∙ rw ne

  still-IsReady : (u : ℕ) → IsReady s l u → IsReady (put_to_sleep s timeout) sleeping_lists u
  still-IsReady u (m, e, low) =
      let other : (s.current == u) ≡ false =
        ground (arith, ap (λ t. (s.task t).state) {x = s.current} {y = u}, run, e) in
      let same = put_to_sleep-task_ne u other in
      (rw put_to_sleep-SameGlobals.idle_task m, rw same e, rw same low)

  suspend_is :
      is_zero timeout ≡ false
      → (suspend_task_timeout s s.current timeout).0 ≡ sched (put_to_sleep s timeout)
  unfolding suspend_task_timeout put_to_sleep
  suspend_is some_time =
      let high = inv.members.high s.current known in
      let test : ((s.current == 0) || is_zero timeout) ≡ false = ground arith in
      let other : is_idle_state (s.task s.current).state ≡ false = rw run in rw (test, other)

  -- Suspending the running task for some time puts it at the end of the sleep list with the
  -- invariant kept, and then either another task runs, the first ready one of the best priority,
  -- or, when no task is ready, the suspended task is still the current one although its state is
  -- SLEEP. Ready
  -- means managed, prepared and of a priority below MAX_PRIO - 1, so the idle task is not ready once main
  -- has given it the last priority. It holds outside of interrupts, once the scheduler runs, while at most the current task
  -- is running and no counter has wrapped.
  pub suspend_task_timeout_cases :
      OnlyCurrent s l
      → Short l
      → is_zero timeout ≡ false
      → s.in_interrupt ≡ false
      → s.schedule_running ≡ true
      → Inv (put_to_sleep s timeout) sleeping_lists
        × (Switched
              (put_to_sleep s timeout)
              sleeping_lists
              (suspend_task_timeout s s.current timeout).0
            ⊎ (((u : ℕ) → ¬ IsReady s l u)
                × ((suspend_task_timeout s s.current timeout).0.current ≡ s.current)
                × (((suspend_task_timeout s s.current timeout).0.task s.current).state ≡ sleep)))
  suspend_task_timeout_cases only short some_time outside started =
      let g = put_to_sleep-SameGlobals in
      let here : ((put_to_sleep s timeout).task s.current).state ≡ sleep =
        ground (arith, put_to_sleep-state s.current) in
      rw (suspend_is some_time) (
        put_to_sleep-Inv,
        elim (sched_cases (put_to_sleep s timeout) sleeping_lists put_to_sleep-Inv
            (rw g.current (ground (arith, g.idle_task, known))) short
            (λ u m r. ground (arith, put_to_sleep-state u, g.current, only u, m, g.idle_task))
            (rw g.current (rw here (λ e. cc))) (g.in_interrupt ∙ outside)
            (g.schedule_running ∙ started)) [
              | inl stays ↦ inr (
                λ u r. stays.nobody u (still-IsReady u r),
                stays.same ∙ g.current,
                stays.states s.current ∙ here,
              )
              | inr goes ↦ inl goes
            ],
      )

  sched_away :
      is_zero timeout ≡ false
      → (suspend_task_timeout s s.current timeout).0.current ≢ s.current
      → ((sched (put_to_sleep s timeout)).current == s.current) ≡ false
  sched_away some_time away =
      let moved : (sched (put_to_sleep s timeout)).current ≢ s.current =
        rw (suspend_is some_time) at away in
      ground arith

  away_none :
      is_zero timeout ≡ false
      → ((sched (put_to_sleep s timeout)).current == s.current) ≡ false
      → (suspend_task_timeout s s.current timeout).1 ≡ none
  unfolding suspend_task_timeout put_to_sleep
  away_none some_time ne =
      let high = inv.members.high s.current known in
      let test : ((s.current == 0) || is_zero timeout) ≡ false = ground arith in
      let other : is_idle_state (s.task s.current).state ≡ false = rw run in rw (test, other, ne)

  -- A caller that was switched away has no result yet.
  pub suspend_away :
      is_zero timeout ≡ false
      → (suspend_task_timeout s s.current timeout).0.current ≢ s.current
      → (suspend_task_timeout s s.current timeout).1 ≡ none
  suspend_away some_time away = away_none some_time (sched_away some_time away)

  pub asleep_then : ((put_to_sleep s timeout).task s.current).state ≡ sleep
  asleep_then = ground (arith, put_to_sleep-state s.current)

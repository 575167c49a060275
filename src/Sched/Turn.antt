-- ===== src/Sched/Turn.antt =====
-- kernel/sched.c: `prepare_to_switch` and `sched` keep the invariant, and at most the current task
-- is running.
use mirros.Base.{
  ℕ, ◌+◌, ◌≡◌, ◌≢◌, inl, inr, refl, ap, ◌∙◌, true, false, arith, ◌==◌, if◌then◌else◌, Bool-cases,
  ==_iff,
}
use mirros.Base.Int.{pos}
use mirros.Base.Words.{u32}
use mirros.Sched.{prepare, running, Sched, set_task}
use mirros.Sched.Change.{get_state_change, running_to_prepare, prepare_to_running, set_task_state}
use mirros.Sched.Frame.{
  SameGlobals, SameGlobals-refl, SameGlobals-trans, set_task-SameGlobals, set_task-Inv,
  set_task_state-SameGlobals, set_task_state-task_ne, set_task_state-task_self,
}
use mirros.Sched.Keeps.{set_task_state-Inv_at}
use mirros.Sched.Lists.{Lists, prio_snoc, prio_erase}
use mirros.Sched.Pick.{IsReady}
use mirros.Sched.Refine.{Inv, managed}
use mirros.Sched.Switch.{prepare_to_switch, re_run, stop_wait, is_running}

-- No managed task but the current one is running.
abbrev pub OnlyCurrent : Sched → Lists → Type 0
OnlyCurrent s l = (u : ℕ) → managed s l u ≡ true → (s.task u).state ≡ running → u ≡ s.current

-- A running task that is switched away goes to the end of the list of its priority.
abbrev pub requeue : Sched → Lists → Lists
requeue s l =
    if is_running (s.task s.current).state then prio_snoc (s.task s.current).prio s.current l else l

-- The first step of a switch: the state with the current task put back.
abbrev put_back : Sched → Sched
put_back s = if is_running (s.task s.current).state then set_task_state s s.current prepare else s

pub re_run-Inv : (s : Sched) (l : Lists) (next : ℕ) → Inv s l → Inv (re_run s next) l
re_run-Inv s l next inv =
    let counted = record (s.task next) { run_count = u32 ((s.task next).run_count + 1) } in
    let s1 = set_task s next counted in
    set_task-Inv s1 l next (record (s1.task next) { run_time = pos 1 }) refl refl
      (set_task-Inv s l next counted refl refl inv)

pub re_run-state : (s : Sched) (next u : ℕ) → ((re_run s next).task u).state ≡ (s.task u).state
re_run-state s next u = ground arith

put_back-SameGlobals : (s : Sched) → SameGlobals s (put_back s)
put_back-SameGlobals s = elim (Bool-cases (is_running (s.task s.current).state)) [
  | inl e ↦ rw e (set_task_state-SameGlobals s s.current prepare)
  | inr e ↦ rw e SameGlobals-refl
]

re_run-SameGlobals : (s : Sched) (next : ℕ) → SameGlobals s (re_run s next)
re_run-SameGlobals s next =
    SameGlobals-trans (set_task-SameGlobals s next _) (set_task-SameGlobals _ next _)

-- A switch is prepared without touching the globals that say who runs.
pub prepare_to_switch-SameGlobals :
    (s : Sched) (next : ℕ) → SameGlobals s (prepare_to_switch s next)
unfolding prepare_to_switch
prepare_to_switch-SameGlobals s next = elim (Bool-cases (s.current == next)) [
  | inl e ↦ rw e (re_run-SameGlobals s next)
  | inr e ↦ rw e (
      SameGlobals-trans (put_back-SameGlobals s) (
        SameGlobals-trans (set_task-SameGlobals (put_back s) next _) (
          SameGlobals-trans (set_task_state-SameGlobals (stop_wait (put_back s) next) next running)
            (re_run-SameGlobals _ next))))
]

module _ (s : Sched) (l : Lists) (inv : Inv s l) (known : managed s l s.current ≡ true) where
  put_back-Inv : Inv (put_back s) (requeue s l)
  unfolding get_state_change
  put_back-Inv = elim (Bool-cases (is_running (s.task s.current).state)) [
    | inl e ↦
        let is : (s.task s.current).state ≡ running = ground arith in
        rw e (
          set_task_state-Inv_at s l s.current prepare running_to_prepare inv
            (inv.members.high s.current known) (inv.members.low s.current known) (rw is) known)
    | inr e ↦ rw e inv
  ]

  put_back-task_ne : (u : ℕ) → (s.current == u) ≡ false → (put_back s).task u ≡ s.task u
  put_back-task_ne u ne = elim (Bool-cases (is_running (s.task s.current).state)) [
    | inl e ↦ rw e (set_task_state-task_ne s s.current prepare u ne)
    | inr e ↦ rw e
  ]

  put_back-not_running : ((put_back s).task s.current).state ≢ running
  unfolding get_state_change
  put_back-not_running r = elim (Bool-cases (is_running (s.task s.current).state)) [
    | inl e ↦
        let is : (s.task s.current).state ≡ running = ground arith in
        let here = set_task_state-task_self s s.current prepare (rw is (λ k. cc)) in ground arith
    | inr e ↦ ground arith
  ]

  managed-requeue : (u : ℕ) → managed (put_back s) (requeue s l) u ≡ managed s l u
  managed-requeue u = elim (Bool-cases (is_running (s.task s.current).state)) [
    | inl e ↦ rw e (rw (set_task_state-SameGlobals s s.current prepare).idle_task)
    | inr e ↦ rw e
  ]

  module _ (next : ℕ) (ready : IsReady s l next) (other : next ≢ s.current) where
    put_back-next : (put_back s).task next ≡ s.task next
    put_back-next = put_back-task_ne next (ground arith)

    waits : Sched
    waits = stop_wait (put_back s) next

    waits-Inv : Inv waits (requeue s l)
    unfolding waits
    waits-Inv = set_task-Inv (put_back s) (requeue s l) next _ refl refl put_back-Inv

    waits-next : ((waits.task next).state ≡ prepare) × ((waits.task next).prio ≡ (s.task next).prio)
    unfolding waits
    waits-next = (
      ground (arith, ready, ap (λ t. t.state) put_back-next),
      ground (arith, ap (λ t. t.prio) put_back-next),
    )

    turn-Inv :
        Inv (set_task_state waits next running) (prio_erase (s.task next).prio next (requeue s l))
    unfolding get_state_change waits
    turn-Inv = rw (← waits-next.1) (
        set_task_state-Inv_at waits (requeue s l) next running prepare_to_running waits-Inv
          (inv.members.high next ready.0) (rw waits-next.1 (inv.members.low next ready.0))
          (rw waits-next.0) (managed-requeue next ∙ ready.0))

    -- Switching to a ready task other than the current one takes it out of the list of its
    -- priority, puts the current task at the end of its own when it was running, and keeps the
    -- invariant.
    pub prepare_to_switch-Inv :
        Inv (prepare_to_switch s next) (prio_erase (s.task next).prio next (requeue s l))
    unfolding prepare_to_switch waits
    prepare_to_switch-Inv =
        let ne : (s.current == next) ≡ false = ground arith in
        rw ne (re_run-Inv (set_task_state waits next running) _ next turn-Inv)

    prepare_to_switch-state :
        (u : ℕ)
        → ((prepare_to_switch s next).task u).state
          ≡ ((set_task_state waits next running).task u).state
    unfolding prepare_to_switch waits
    prepare_to_switch-state u =
        let ne : (s.current == next) ≡ false = ground arith in
        rw ne (re_run-state (set_task_state waits next running) next u)

    pub next_running : ((prepare_to_switch s next).task next).state ≡ running
    unfolding get_state_change
    next_running =
        prepare_to_switch-state next
        ∙ ap (λ t. t.state)
            (set_task_state-task_self waits next running (rw waits-next.0 (λ e. cc)))

    pub others_stopped :
        OnlyCurrent s l
        → (u : ℕ) → managed s l u ≡ true
        → u ≢ next
        → ((prepare_to_switch s next).task u).state ≢ running
    unfolding waits
    others_stopped only u m ne r =
        let r1 = ap (λ t. t.state) (set_task_state-task_ne waits next running u (ground arith)) in
        let r2 = prepare_to_switch-state u in
        elim (Bool-cases (s.current == u)) [
          | inl e ↦
              let is : s.current ≡ u = (==_iff _ _).0 e in
              put_back-not_running (rw is (ground arith))
          | inr e ↦
              let r3 = ap (λ t. t.state) (put_back-task_ne u e) in absurd (ground (arith, only u m))
        ]

-- ===== src/Sched/Steps/Starts.antt =====
-- kernel/sched.c: taking on a new task leads from a valid state to a valid state.
use mirros.Base.{
  ℕ, ◌+◌, ◌^◌, ◌≤◌, ◌<◌, ◌≡◌, ◌≢◌, refl, ap, ◌∙◌, sym, inl, inr, false, [], ◌∷◌, arith, ◌==◌,
  if◌then◌else◌, Bool-cases, ==_iff, length-append, has, has-snoc, ◌∉◌,
}
use mirros.Sched.{prepare, running, unknown, Sched}
use mirros.Sched.Change.{none_to_prepare, set_task_state}
use mirros.Sched.Frame.{set_task_state-SameGlobals, set_task_state-state_cases}
use mirros.Sched.Init.{first_prio, init_sched_struct}
use mirros.Sched.Lists.{Lists}
use mirros.Sched.Refine.{move}
use mirros.Sched.Start.{init_sched_struct-starts}
use mirros.Sched.Steps.{Valid}

module _ (s : Sched) (l : Lists) (v : Valid s l) (t : ℕ) (high : 64 ≤ t) (boot : t ≢ s.idle_task)
    (fresh : t ∉ l.system_list) (parent : first_prio s t < 64)
    (room : s.system_count + 2 < 2 ^ 32) where
  begun : Sched
  begun = (init_sched_struct s t).0

  begun-globals :
      (begun.current ≡ s.current)
      × (begun.idle_task ≡ s.idle_task)
      × (begun.next_run ≡ s.next_run)
      × (begun.schedule_running ≡ s.schedule_running)
      × (begun.in_interrupt ≡ s.in_interrupt)
  unfolding begun init_sched_struct
  begun-globals = (refl, refl, refl, refl, refl)

  begun-state : (u : ℕ) → (begun.task u).state ≡ (if t == u then unknown else (s.task u).state)
  unfolding begun init_sched_struct
  begun-state u = elim (Bool-cases (t == u)) [ inl e ↦ rw e | inr e ↦ rw e ]

  apart : (t == s.current) ≡ false
  apart = elim (Bool-cases (t == s.current)) [
    | inl e ↦
        let is : t ≡ s.current = (==_iff _ _).0 e in
        absurd (ground (arith, v.here, fresh, ap (λ x. has x l.system_list) is))
    | inr e ↦ e
  ]

  run_before :
      (u : ℕ)
      → ((set_task_state begun t prepare).task u).state ≡ running
      → ((s.task u).state ≡ running) × ((t == u) ≡ false)
  run_before u r = elim (set_task_state-state_cases begun t prepare u) [
    | inl (is, e) ↦ cc
    | inr e ↦ elim (Bool-cases (t == u)) [
      | inl h ↦ let b : (begun.task u).state ≡ unknown = begun-state u ∙ rw h in cc
      | inr h ↦ (sym (begun-state u ∙ rw h) ∙ sym e ∙ r, h)
    ]
  ]

  abbrev longer : Lists
  longer = move none_to_prepare (first_prio s t) t l

  pub starts-Valid : Valid (set_task_state (init_sched_struct s t).0 t prepare) longer
  unfolding begun
  starts-Valid =
      let g = set_task_state-SameGlobals begun t prepare in
      let (current, idle_task, next_run, started, outside) = begun-globals in
      record {
        inv = init_sched_struct-starts s l t v.inv (ground (arith, fresh, boot)) high parent;
        here =
            rw (g.current ∙ current, g.idle_task ∙ idle_task)
              (ground (arith, v.here, has-snoc s.current t l.system_list));
        only = λ u m r.
            let (r', ne) = run_before u r in
            v.only u
              (ground (arith, rw (g.idle_task ∙ idle_task) at m, has-snoc u t l.system_list, ne)) r'
            ∙ sym (g.current ∙ current);
        known = λ e.
            let at : ((set_task_state begun t prepare).task s.current).state ≡ unknown =
              rw (g.current ∙ current) at e in
            elim (set_task_state-state_cases begun t prepare s.current) [
              | inl (is, h) ↦ cc
              | inr h ↦ v.known (sym (begun-state s.current ∙ rw apart) ∙ sym h ∙ at)
            ];
        started = g.schedule_running ∙ started ∙ v.started;
        outside = g.in_interrupt ∙ outside ∙ v.outside;
        chosen = g.next_run ∙ next_run ∙ v.chosen ∙ sym (g.current ∙ current);
        few =
            omega (
              arith,
              length-append l.system_list (t ∷ []),
              v.inv.rings.system.counted,
              v.few,
              room,
            );
      }

-- ===== src/Sched/Tick/Loop.antt =====
-- kernel/sched.c: the loop of `os_tick_handler` over the sleeping tasks, which takes tasks out of
-- the list that it walks.
use mathlib.Core.List.{append_assoc}
use mirros.Base.{
  ℕ, zero, suc, ◌<◌, ◌≡◌, refl, sym, ap, ◌∙◌, inl, inr, false, some, List, [], ◌∷◌, ◌++◌, arith,
  ◌==◌, if◌then◌else◌, Bool-cases, ==_iff, length, ◌∈◌, ◌∉◌, has-append, Distinct, erase,
}
use mirros.Link.Ring.{Ring}
use mirros.Base.Int.{is_zero}
use mirros.Sched.{prepare, Sched, set_task}
use mirros.Sched.Frame.{
  SameGlobals, SameGlobals-refl, SameGlobals-trans, set_task-SameGlobals,
  set_task_state-SameGlobals,
}
use mirros.Sched.Lists.{Lists}
use mirros.Sched.Refine.{Inv}
use mirros.Sched.Switch.{tick_task, tick_loop, tick_current, os_tick_handler}
use mirros.Sched.Tick.{
  ticked, tick_wait, expires, tick_lists, first, next-append, erase-append, tick_task-Inv,
  tick_task_self, tick_task_ne, tick_task-next,
}

-- What the loop leaves after the tasks `xs`: the invariant with the same tasks in all, every one of
-- them a tick older, and every other task and the other globals as they were.
pub record Ticked (s : Sched) (l : Lists) (xs : List ℕ) (s' : Sched) : Type 0 where
  pub lists : Lists
  pub kept : Inv s' lists
  pub older : (u : ℕ) → u ∈ xs → s'.task u ≡ ticked (s.task u)
  pub others : (u : ℕ) → u ∉ xs → s'.task u ≡ s.task u
  pub tasks : lists.system_list ≡ l.system_list
  pub globals : SameGlobals s s'

split-Distinct :
    (x : ℕ) (xs ys : List ℕ) → Distinct (xs ++ x ∷ ys) → (x ∉ xs) × (x ∉ ys) × Distinct ys
split-Distinct x [] ys d = (refl, d.0, d.1)
split-Distinct x (z ∷ zs) ys d =
    let (a, b, c) = split-Distinct x zs ys d.1 in
    (ground (arith, has-append z zs (x ∷ ys), d.0), b, c)

-- The round at a task that is in the list.
module _ (s : Sched) (l : Lists) (x : ℕ) (before rest : List ℕ) (inv : Inv s l)
    (e : l.sleep_list ≡ before ++ x ∷ rest) where
  asleep : x ∈ l.sleep_list
  asleep = rw e (ground (arith, has-append x before (x ∷ rest)))

  parts : (x ∉ before) × (x ∉ rest) × Distinct rest
  parts = split-Distinct x before rest (rw e at inv.rings.sleep.ring.distinct)

  not_head : (x == 0) ≡ false
  not_head = ground (arith, inv.members.sleep_mem x, inv.members.high x, asleep)

  go_on : (tick_task s x).sleep_links.next x ≡ first rest 0
  go_on =
      tick_task-next s l inv x asleep
      ∙ next-append s.sleep_links 0 0 x before rest (rw e at inv.rings.sleep.ring.linked)

  abbrev behind : List ℕ
  behind = if expires (s.task x).wait_time then before else before ++ x ∷ []

  tick_lists-sleep : (tick_lists s x l).sleep_list ≡ behind ++ rest
  tick_lists-sleep = elim (Bool-cases (expires (s.task x).wait_time)) [
    | inl h ↦
        rw h (ap (erase x) e ∙ erase-append x before rest (rw e at inv.rings.sleep.ring.distinct))
    | inr h ↦ rw h (e ∙ sym (append_assoc before (x ∷ []) rest))
  ]

  tick_lists-system : (tick_lists s x l).system_list ≡ l.system_list
  tick_lists-system = elim (Bool-cases (expires (s.task x).wait_time)) [
    | inl h ↦ rw h
    | inr h ↦ rw h
  ]

  tick_task-SameGlobals : SameGlobals s (tick_task s x)
  unfolding tick_task
  tick_task-SameGlobals =
      let w = tick_wait (s.task x).wait_time in
      let s1 = set_task s x (record (s.task x) { wait_time = w }) in
      elim (Bool-cases (is_zero w)) [
        | inl h ↦ rw h (
            SameGlobals-trans (set_task-SameGlobals s x _)
              (set_task_state-SameGlobals s1 x prepare))
        | inr h ↦ rw h (set_task-SameGlobals s x _)
      ]

  Ticked-cons :
      (s' : Sched) → Ticked (tick_task s x) (tick_lists s x l) rest s' → Ticked s l (x ∷ rest) s'
  Ticked-cons s' t = record {
    lists = t.lists;
    kept = t.kept;
    older = λ u i. elim (Bool-cases (x == u)) [
      | inl h ↦
          let is : x ≡ u = (==_iff x u).0 h in
          rw (← is) (t.others x parts.1 ∙ tick_task_self s l inv x asleep)
      | inr h ↦ t.older u (ground arith) ∙ ap ticked (tick_task_ne s l inv x asleep u h)
    ];
    others = λ u o. t.others u (ground arith) ∙ tick_task_ne s l inv x asleep u (ground arith);
    tasks = t.tasks ∙ tick_lists-system;
    globals = SameGlobals-trans tick_task-SameGlobals t.globals;
  }

tick_loop-Ticked :
    (k : ℕ) (s : Sched) (l : Lists) (before rest : List ℕ)
    → Inv s l
    → l.sleep_list ≡ before ++ rest
    → length rest < k
    → (s' : Sched) × (tick_loop k s (first rest 0) ≡ some s') × Ticked s l rest s'
unfolding tick_loop
tick_loop-Ticked zero s l before rest inv e f = absurd (omega arith)
tick_loop-Ticked (suc k) s l before [] inv e f = (
  s,
  refl,
  record {
    lists = l;
    kept = inv;
    older = λ u i. cc;
    others = λ u o. refl;
    tasks = refl;
    globals = SameGlobals-refl;
  },
)
tick_loop-Ticked (suc k) s l before (x ∷ xs) inv e f =
    let (s', found, t) =
      tick_loop-Ticked k (tick_task s x) (tick_lists s x l) (behind s l x before xs inv e) xs
        (tick_task-Inv s l inv x (asleep s l x before xs inv e))
        (tick_lists-sleep s l x before xs inv e) (omega arith) in
    (
      s',
      rw (not_head s l x before xs inv e) (rw (go_on s l x before xs inv e) found),
      Ticked-cons s l x before xs inv e s' t,
    )

-- The tick handler ends, and before it turns to the current task it has made every sleeping task a
-- tick older, woken those whose time is up, and left every other task, the invariant, and the set
-- of all tasks alone.
pub os_tick_handler-Ticked :
    (fuel : ℕ) (s : Sched) (l : Lists)
    → Inv s l
    → length l.sleep_list < fuel
    → (s' : Sched) × (os_tick_handler fuel s ≡ some (tick_current s')) × Ticked s l l.sleep_list s'
unfolding os_tick_handler
os_tick_handler-Ticked fuel s l inv f =
    let (s', found, t) = tick_loop-Ticked fuel s l [] l.sleep_list inv refl f in
    (s', rw (start l.sleep_list inv.rings.sleep.ring) (rw found), t)
  where
    start : (xs : List ℕ) → Ring s.sleep_links 0 xs → s.sleep_links.next 0 ≡ first xs 0
    start [] r = r.linked.0
    start (x ∷ xs) r = r.linked.0

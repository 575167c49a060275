-- ===== src/Sched/Tick.antt =====
-- kernel/sched.c: one round of the loop of `os_tick_handler`.
pub mod Loop
use mathlib.Core.List.{append_assoc}
use mirros.Base.{
  ℕ, zero, suc, ◌+◌, ◌≤◌, ◌<◌, ◌≡◌, ◌≢◌, refl, sym, ap, ◌∙◌, inl, inr, Bool, true, false, Option,
  none, some, List, [], ◌∷◌, ◌++◌, arith, ◌==◌, if◌then◌else◌, Bool-cases, length, has, ◌∈◌, ◌∉◌,
  Distinct, erase, has-append, eq→==,
}
use mirros.Base.Int.{ℤ, is_positive, is_zero, decrement}
use mirros.Link.{Links, list_del}
use mirros.Link.Ring.{Ring, Seg}
use mirros.Sched.{
  TaskState, prepare, sleep, Task, Sched, set_task, prio_list_add_task_tail, sleep_del_task,
}
use mirros.Sched.Change.{
  get_state_change, sleep_to_prepare, none_to_none, apply_change, change_state, set_task_state,
}
use mirros.Sched.Frame.{
  SameGlobals, set_task-Inv, set_task_state-SameGlobals, set_task_state-task_ne,
  set_task_state-task_self, set_task_state-eq,
}
use mirros.Sched.Keeps.{set_task_state-Inv_at}
use mirros.Sched.Lists.{Lists}
use mirros.Sched.Refine.{Inv, managed, move, is_sleep}
use mirros.Sched.Switch.{tick_task, tick_loop, tick_current, os_tick_handler}

-- The wait time of a sleeping task after a tick, and whether it then wakes.
abbrev pub tick_wait : ℤ → ℤ
tick_wait w = if is_positive w then decrement w else w

abbrev pub expires : ℤ → Bool
expires w = is_zero (tick_wait w)

-- A sleeping task after a tick.
abbrev pub ticked : Task → Task
ticked v = record v {
  wait_time = tick_wait v.wait_time;
  state = if expires v.wait_time then prepare else v.state;
}

abbrev pub tick_lists : Sched → ℕ → Lists → Lists
tick_lists s t l =
    if expires (s.task t).wait_time then move sleep_to_prepare (s.task t).prio t l else l

pre-ne :
    (h : Links) (a b x : ℕ) (xs : List ℕ)
    → Seg h a xs b
    → a ∉ xs
    → Distinct xs
    → x ∈ xs
    → (h.pre x == x) ≡ false
pre-ne h a b x [] g o d i = cc
pre-ne h a b x (y ∷ ys) g o d i = elim (Bool-cases (x == y)) [
  | inl e ↦ ground arith
  | inr e ↦ pre-ne h y b x ys g.2 d.0 d.1 (ground arith)
]

abbrev pub first : List ℕ → ℕ → ℕ
first [] b = b
first (x ∷ xs) b = x

pub next-append :
    (h : Links) (a b x : ℕ) (xs ys : List ℕ) → Seg h a (xs ++ x ∷ ys) b → h.next x ≡ first ys b
next-append h a b x [] [] g = g.2.0
next-append h a b x [] (y ∷ ys) g = g.2.0
next-append h a b x (z ∷ zs) ys g = next-append h z b x zs ys g.2

pub erase-append :
    (x : ℕ) (xs ys : List ℕ) → Distinct (xs ++ x ∷ ys) → erase x (xs ++ x ∷ ys) ≡ xs ++ ys
erase-append x [] ys d = rw (eq→== x x refl)
erase-append x (z ∷ zs) ys d = ground (arith, erase-append x zs ys d.1, has-append z zs (x ∷ ys))

module _ (s : Sched) (l : Lists) (inv : Inv s l) (t : ℕ) (asleep : t ∈ l.sleep_list) where
  is_asleep : (managed s l t ≡ true) × ((s.task t).state ≡ sleep)
  is_asleep = ground (arith, inv.members.sleep_mem t)

  counted_down : Sched
  counted_down = set_task s t (record (s.task t) { wait_time = tick_wait (s.task t).wait_time })

  tick_task_cases : tick_task s t ≡ (
      if expires (s.task t).wait_time then set_task_state counted_down t prepare else counted_down)
  unfolding tick_task counted_down
  tick_task_cases = refl

  counted_down-Inv : Inv counted_down l
  unfolding counted_down
  counted_down-Inv = set_task-Inv s l t _ refl refl inv

  counted_down_self :
      counted_down.task t ≡ record (s.task t) { wait_time = tick_wait (s.task t).wait_time }
  unfolding counted_down
  counted_down_self = rw (eq→== t t refl)

  still_asleep : (counted_down.task t).state ≡ sleep
  still_asleep = ap (λ v. v.state) counted_down_self ∙ is_asleep.1

  same_prio : (counted_down.task t).prio ≡ (s.task t).prio
  same_prio = ap (λ v. v.prio) counted_down_self

  counted_down-managed : managed counted_down l t ≡ true
  unfolding counted_down
  counted_down-managed = is_asleep.0

  wakes : get_state_change (counted_down.task t).state prepare ≡ sleep_to_prepare
  unfolding get_state_change
  wakes = rw still_asleep

  woken-Inv :
      Inv (set_task_state counted_down t prepare) (move sleep_to_prepare (s.task t).prio t l)
  unfolding get_state_change
  woken-Inv = rw (← same_prio) (
      set_task_state-Inv_at counted_down l t prepare sleep_to_prepare counted_down-Inv
        (inv.members.high t is_asleep.0) (rw same_prio (inv.members.low t is_asleep.0))
        (rw still_asleep) counted_down-managed)

  pub tick_task-Inv : Inv (tick_task s t) (tick_lists s t l)
  tick_task-Inv = elim (Bool-cases (expires (s.task t).wait_time)) [
    | inl e ↦ rw (tick_task_cases, e) woken-Inv
    | inr e ↦ rw (tick_task_cases, e) counted_down-Inv
  ]

  pub tick_task_self : (tick_task s t).task t ≡ ticked (s.task t)
  unfolding get_state_change
  tick_task_self = elim (Bool-cases (expires (s.task t).wait_time)) [
    | inl e ↦
        rw (tick_task_cases, e)
          (set_task_state-task_self counted_down t prepare (rw still_asleep (λ k. cc))
            ∙ ap (λ (v : Task). record v { state = prepare }) counted_down_self)
    | inr e ↦ rw (tick_task_cases, e) counted_down_self
  ]

  pub tick_task_ne : (u : ℕ) → (t == u) ≡ false → (tick_task s t).task u ≡ s.task u
  unfolding counted_down
  tick_task_ne u ne = elim (Bool-cases (expires (s.task t).wait_time)) [
    | inl e ↦ rw (tick_task_cases, e) (set_task_state-task_ne counted_down t prepare u ne ∙ rw ne)
    | inr e ↦ rw (tick_task_cases, e) (rw ne)
  ]

  unlinked :
      (change_state sleep_to_prepare counted_down t prepare).sleep_links.next t
      ≡ s.sleep_links.next t
  unfolding apply_change prio_list_add_task_tail sleep_del_task list_del counted_down
  unlinked = ground (
    arith,
    pre-ne s.sleep_links 0 0 t l.sleep_list inv.rings.sleep.ring.linked inv.rings.sleep.ring.apart
        inv.rings.sleep.ring.distinct asleep,
  )

  -- The walk can go on from a task that has left the list.
  pub tick_task-next : (tick_task s t).sleep_links.next t ≡ s.sleep_links.next t
  unfolding counted_down
  tick_task-next = elim (Bool-cases (expires (s.task t).wait_time)) [
    | inl e ↦
        rw (tick_task_cases, e)
          (ap (λ (r : Sched). r.sleep_links.next t)
              (set_task_state-eq counted_down t prepare sleep_to_prepare wakes)
            ∙ unlinked)
    | inr e ↦ rw (tick_task_cases, e)
  ]

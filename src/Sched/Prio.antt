-- ===== src/Sched/Prio.antt =====
-- kernel/sched.c: `set_task_prio` on the lists.
use mirros.Base.{
  ℕ, ◌+◌, ◌≤◌, ◌<◌, ◌≡◌, ◌≢◌, ◌⊎◌, inl, inr, refl, ap, ◌∙◌, false, some, List, [], ◌∷◌, ◌++◌, arith,
  leb, Bool-cases, eq→==, length,
}
use mirros.Base.Int.{pos, einval}
use mirros.Base.Words.{u32}
use mirros.Link.{list_add_tail, list_for_each}
use mirros.Link.Twice.{list_add_tail-twice}
use mirros.Sched.{
  TaskState, prepare, running, sleep, idle, stop, unknown, Task, Sched, set_task,
  system_add_task_tail, prio_list_add_task_tail, prio_list_del_task,
}
use mirros.Sched.Change.{
  get_state_change, prepare_to_unknown, none_to_prepare, apply_change, set_task_state,
}
use mirros.Sched.Frame.{set_task_state-task_self, set_task_state-eq}
use mirros.Sched.Lists.{Lists}
use mirros.Sched.Refine.{Inv}
use mirros.Sched.Switch.{set_task_prio, prio_by_state}

-- A task outside of the prepared lists may get another priority.
set_prio-Inv :
    (s : Sched) (l : Lists) (t : ℕ) (v : Task)
    → v.state ≡ (s.task t).state
    → (s.task t).state ≢ prepare
    → v.prio < 64
    → Inv s l
    → Inv (set_task s t v) l
set_prio-Inv s l t v same_state outside low inv = record {
  rings = record {
    table = inv.rings.table;
    system = inv.rings.system;
    sleep = inv.rings.sleep;
    idle = inv.rings.idle;
  };
  members = record {
    prio_mem = λ p u lp. ground (arith, inv.members.prio_mem p u lp);
    sleep_mem = λ u. ground (arith, inv.members.sleep_mem u);
    idle_mem = λ u. ground (arith, inv.members.idle_mem u);
    high = inv.members.high;
    low = λ u m. ground (arith, inv.members.low u);
  };
}

at_once-Inv :
    (s : Sched) (l : Lists) (t prio : ℕ) (state : TaskState)
    → (s.task t).state ≡ state
    → Inv s l
    → prio < 64
    → (state ≡ running) ⊎ (state ≡ sleep)
    → Inv (prio_by_state state s t prio) l
      × (((prio_by_state state s t prio).task t).prio ≡ prio)
      × (((prio_by_state state s t prio).task t).pre_prio ≡ (s.task t).prio)
at_once-Inv s l t prio running is inv low h =
    (set_prio-Inv s l t _ refl (λ e. cc) low inv, ground arith, ground arith)
at_once-Inv s l t prio sleep is inv low h =
    (set_prio-Inv s l t _ refl (λ e. cc) low inv, ground arith, ground arith)
at_once-Inv s l t prio prepare is inv low h = absurd (ground arith)
at_once-Inv s l t prio idle is inv low h = absurd (ground arith)
at_once-Inv s l t prio stop is inv low h = absurd (ground arith)
at_once-Inv s l t prio unknown is inv low h = absurd (ground arith)

-- `set_task_prio`, of a task that runs or sleeps and with a priority that is not negative, refuses
-- one of MAX_PRIO or more and changes nothing; the task it else gives the priority and remembers the old one, and the lists stay as they are.
pub set_task_prio-Inv :
    (s : Sched) (l : Lists) (t prio : ℕ)
    → Inv s l
    → ((s.task t).state ≡ running) ⊎ ((s.task t).state ≡ sleep)
    → ((64 ≤ prio) × (set_task_prio s t prio ≡ (s, einval)))
      ⊎ ((prio < 64)
          × ((set_task_prio s t prio).1 ≡ pos 0)
          × (Inv (set_task_prio s t prio).0 l
              × (((set_task_prio s t prio).0.task t).prio ≡ prio)
              × (((set_task_prio s t prio).0.task t).pre_prio ≡ (s.task t).prio)))
unfolding set_task_prio
set_task_prio-Inv s l t prio inv either = elim (Bool-cases (leb 64 prio)) [
  | inl e ↦ rw e (inl (ground arith, refl))
  | inr e ↦ rw e (
      inr (
        ground arith,
        refl,
        at_once-Inv s l t prio (s.task t).state refl inv (ground arith) either,
      ))
]

module _ (s : Sched) (t : ℕ) where
  dropped :
      (s.task t).state ≡ prepare
      → ((set_task_state s t unknown).system ≡ s.system)
        × ((set_task_state s t unknown).system_count ≡ s.system_count)
        × (((set_task_state s t unknown).task t).state ≡ unknown)
  unfolding apply_change prio_list_del_task get_state_change
  dropped e =
      let is = set_task_state-eq s t unknown prepare_to_unknown (rw e) in
      (
        ap (λ (r : Sched). r.system) is,
        ap (λ (r : Sched). r.system_count) is,
        ap (λ (v : Task). v.state) (set_task_state-task_self s t unknown (rw e (λ k. cc))),
      )

  added :
      (s.task t).state ≡ unknown
      → ((set_task_state s t prepare).system ≡ list_add_tail s.system 0 t)
        × ((set_task_state s t prepare).system_count ≡ u32 (s.system_count + 1))
  unfolding apply_change prio_list_add_task_tail system_add_task_tail get_state_change
  added e =
      let is = set_task_state-eq s t prepare none_to_prepare (rw e) in
      (ap (λ (r : Sched). r.system) is, ap (λ (r : Sched). r.system_count) is)

moved_up :
    (s : Sched) (t prio : ℕ) (state : TaskState)
    → (s.task t).state ≡ state
    → state ≡ prepare
    → ((prio_by_state state s t prio).system ≡ list_add_tail s.system 0 t)
      × ((prio_by_state state s t prio).system_count ≡ u32 (s.system_count + 1))
moved_up s t prio prepare is e =
    let s1 = set_task_state s t unknown in
    let (a, b, c) = dropped s t is in
    let v = record (s1.task t) { pre_prio = (s1.task t).prio; prio = prio } in
    let (p, q) = added (set_task s1 t v) t (rw (eq→== t t refl) c) in
    (p ∙ ap (λ h. list_add_tail h 0 t) a, q ∙ ap (λ n. u32 (n + 1)) b)
moved_up s t prio running is e = cc
moved_up s t prio sleep is e = cc
moved_up s t prio idle is e = cc
moved_up s t prio stop is e = cc
moved_up s t prio unknown is e = cc

-- A prepared task that `set_task_prio` moves is added to the system list a second time: the walk
-- of the system list then ends at it, so the tasks behind it are lost, and the list counts one
-- task more.
pub set_task_prio-twice :
    (s : Sched) (l : Lists) (t prio : ℕ) (xs ys : List ℕ) (fuel : ℕ)
    → Inv s l
    → (s.task t).state ≡ prepare
    → prio < 64
    → l.system_list ≡ xs ++ t ∷ ys
    → length xs + 1 < fuel
    → (list_for_each fuel (set_task_prio s t prio).0.system 0 ≡ some (xs ++ t ∷ []))
      × ((set_task_prio s t prio).0.system_count ≡ u32 (s.system_count + 1))
unfolding set_task_prio
set_task_prio-twice s l t prio xs ys fuel inv e low split f =
    let small : leb 64 prio ≡ false = ground arith in
    let (a, b) = moved_up s t prio (s.task t).state refl e in
    rw small
      (rw a (list_add_tail-twice s.system 0 t xs ys fuel (rw split at inv.rings.system.ring) f), b)

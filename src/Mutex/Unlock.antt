-- ===== src/Mutex/Unlock.antt =====
-- kernel/mutex.c: `mutex_unlock` wakes every task that waits.
use mirros.Base.{
  ℕ, zero, suc, ◌<◌, ◌≡◌, ◌≢◌, refl, ap, ◌∙◌, true, false, some, List, [], ◌∷◌, ◌==◌, arith, length,
  ◌∈◌, ◌∉◌, Bool-cases, inl, inr, update, eq→==, ==_iff, has,
}
use mirros.Link.{Links, list_del, is_list_empty}
use mirros.Link.Ring.{Ring, list_del-erase, next-head}
use mirros.Sched.{prepare, sleep, Sched, Task}
use mirros.Sched.Change.{get_state_change, sleep_to_prepare, set_task_state}
use mirros.Sched.Effects.{write_then_state-Inv}
use mirros.Sched.Frame.{
  off_lists-Inv, SameGlobals, set_task_state-SameGlobals, set_task_state-task_ne,
  set_task_state-task_self,
}
use mirros.Sched.Lists.{Lists}
use mirros.Sched.Refine.{Inv, managed, move}
use mirros.Sched.Switch.{get_task_run_time, wakeup_task, is_sleep_state}
use mirros.Mutex.{stop_waiting, wake_waiter, wake_loop, mutex_unlock, drop_owner}

pub with_waits-Inv :
    (s : Sched) (l : Lists) (h : Links) → Inv s l → Inv (record s { wait_links = h }) l
with_waits-Inv s l h inv = off_lists-Inv inv

-- One task that waits and sleeps.
module _ (s : Sched) (l : Lists) (t : ℕ) (inv : Inv s l) (m : managed s l t ≡ true)
    (asleep : (s.task t).state ≡ sleep) where
  abbrev woken : Lists
  woken = move sleep_to_prepare (s.task t).prio t l

  abbrev out : Sched
  out = get_task_run_time (stop_waiting s t) t

  wake_waiter_is : wake_waiter s t ≡ set_task_state out t prepare
  unfolding wake_waiter wakeup_task
  wake_waiter_is =
      let test : is_sleep_state (s.task t).state ≡ true = rw asleep in
      rw (wake_waiter, wakeup_task, test)

  wake_waiter-Inv : Inv (wake_waiter s t) woken
  unfolding get_state_change
  wake_waiter-Inv = rw wake_waiter_is (
      write_then_state-Inv (stop_waiting s t) l t _ prepare sleep_to_prepare
        (with_waits-Inv s l _ inv) m refl refl (rw asleep) m)

  wake_waiter-SameGlobals : SameGlobals out (wake_waiter s t)
  wake_waiter-SameGlobals = rw wake_waiter_is (set_task_state-SameGlobals out t prepare)

  wake_waiter-task_ne : (u : ℕ) → (t == u) ≡ false → (wake_waiter s t).task u ≡ s.task u
  wake_waiter-task_ne u ne = rw wake_waiter_is (set_task_state-task_ne out t prepare u ne ∙ rw ne)

  wake_waiter-state : ((wake_waiter s t).task t).state ≡ prepare
  unfolding get_state_change
  wake_waiter-state =
      let at : (out.task t).state ≡ sleep = rw (eq→== t t refl) asleep in
      rw wake_waiter_is
        (ap (λ (v : Task). v.state) (set_task_state-task_self out t prepare (rw at (λ k. cc))))

-- What `mutex_unlock` leaves after it has woken the tasks `ws`: the invariant, each of them
-- prepared, every other task as it was, and no task in the waiting list.
pub record Woken (s : Sched) (m : ℕ) (ws : List ℕ) (s' : Sched) : Type 0 where
  pub lists : Lists
  pub kept : Inv s' lists
  pub prepared : (u : ℕ) → u ∈ ws → (s'.task u).state ≡ prepare
  pub others : (u : ℕ) → u ∉ ws → s'.task u ≡ s.task u
  pub nobody : Ring s'.wait_links m []
  pub count : s'.mutex_count ≡ s.mutex_count

-- Each task of the list is known to the scheduler and sleeps.
abbrev pub AllAsleep : Sched → Lists → List ℕ → Type 0
AllAsleep s l ws = (u : ℕ) → u ∈ ws → (managed s l u ≡ true) × ((s.task u).state ≡ sleep)

Ring-rest :
    (s : Sched) (m x : ℕ) (xs : List ℕ)
    → Ring s.wait_links m (x ∷ xs)
    → Ring (stop_waiting s x).wait_links m xs
Ring-rest s m x xs r =
    let whole = list_del-erase s.wait_links m x (x ∷ xs) r (ground arith) in
    rw (eq→== x x refl) at whole

-- The node that was taken out still leads where the head leads then.
next_same :
    (s : Sched) (m x : ℕ) (xs : List ℕ)
    → Ring s.wait_links m (x ∷ xs)
    → (stop_waiting s x).wait_links.next x ≡ (stop_waiting s x).wait_links.next m
unfolding list_del
next_same s m x xs r = ground (arith, r.linked.1, r.apart)

apart_from : (x : ℕ) (xs : List ℕ) → x ∉ xs → (u : ℕ) → u ∈ xs → (x == u) ≡ false
apart_from x xs o u i = ground (arith, ap (λ t. has t xs) {x = x} {y = u})

still_asleep :
    (s : Sched) (l : Lists) (t : ℕ) (inv : Inv s l) (m : managed s l t ≡ true)
    (asleep : (s.task t).state ≡ sleep) (u : ℕ)
    → (t == u) ≡ false
    → (managed s l u ≡ true) × ((s.task u).state ≡ sleep)
    → (managed (wake_waiter s t) (woken s l t inv m asleep) u ≡ true)
      × (((wake_waiter s t).task u).state ≡ sleep)
still_asleep s l t inv m asleep u ne (known, state) =
    let g = wake_waiter-SameGlobals s l t inv m asleep in
    (
      rw g.idle_task known,
      ap (λ (v : Task). v.state) (wake_waiter-task_ne s l t inv m asleep u ne) ∙ state,
    )

wake_loop-Woken :
    (k : ℕ) (s : Sched) (l : Lists) (m : ℕ) (ws : List ℕ)
    → Inv s l
    → Ring s.wait_links m ws
    → AllAsleep s l ws
    → length ws < k
    → (s' : Sched) × (wake_loop k s m (s.wait_links.next m) ≡ some s') × Woken s m ws s'
unfolding wake_loop
wake_loop-Woken zero s l m ws inv r a f = absurd (omega arith)
wake_loop-Woken (suc k) s l m [] inv r a f =
    let last : (s.wait_links.next m == m) ≡ true = ground (arith, r.linked) in
    (
      s,
      rw last,
      record {
        lists = l;
        kept = inv;
        prepared = λ u i. cc;
        others = λ u o. refl;
        nobody = r;
        count = refl;
      },
    )
wake_loop-Woken (suc k) s l m (x ∷ xs) inv r a f =
    let (known, asleep) = a x (ground arith) in
    let g = wake_waiter-SameGlobals s l x inv known asleep in
    let at : s.wait_links.next m ≡ x = next-head s.wait_links m x xs r in
    let here = Ring-rest s m x xs r in
    let (s', found, w) =
      wake_loop-Woken k (wake_waiter s x) (woken s l x inv known asleep) m xs
        (wake_waiter-Inv s l x inv known asleep) (rw g.wait_links here)
        (λ u i.
          still_asleep s l x inv known asleep u (apart_from x xs r.distinct.0 u i)
            (a u (ground arith)))
        (omega arith) in
    let go_on : (x == m) ≡ false = ground (arith, r.apart) in
    let follow : (wake_waiter s x).wait_links.next x ≡ (wake_waiter s x).wait_links.next m =
      rw g.wait_links (next_same s m x xs r) in
    (
      s',
      rw (at, go_on, follow) found,
      record {
        lists = w.lists;
        kept = w.kept;
        prepared = λ u i. elim (Bool-cases (u == x)) [
          | inl e ↦
              let is : u ≡ x = (==_iff u x).0 e in
              rw is (rw (w.others x r.distinct.0) (wake_waiter-state s l x inv known asleep))
          | inr e ↦ w.prepared u (ground arith)
        ];
        others = λ u o.
            w.others u (ground arith) ∙ wake_waiter-task_ne s l x inv known asleep u (ground arith);
        nobody = w.nobody;
        count = w.count ∙ g.mutex_count;
      },
    )

drop_owner-Woken :
    (s : Sched) (m : ℕ) (ws : List ℕ) (s' : Sched)
    → Woken s m ws s'
    → Woken s m ws (drop_owner s' m)
unfolding drop_owner
drop_owner-Woken s m ws s' w = elim (Bool-cases (is_list_empty s'.mutex_links m)) [
  | inl e ↦ rw e w
  | inr e ↦ rw e record {
    lists = w.lists;
    kept = off_lists-Inv w.kept;
    prepared = w.prepared;
    others = w.others;
    nobody = w.nobody;
    count = w.count;
  }
]

abbrev pub freed : Sched → ℕ → Sched
freed s m = record s { mutex_count = update s.mutex_count m 0 }

freed-Inv : (s : Sched) (l : Lists) (m : ℕ) → Inv s l → Inv (freed s m) l
freed-Inv s l m inv = off_lists-Inv inv

-- `mutex_unlock` of a locked mutex ends, with more fuel than tasks wait: the mutex is free, no task
-- waits for it, every task that waited is prepared, every other task is as it was, and the
-- invariant of the scheduler holds; the tasks that wait are known to the scheduler and asleep.
pub mutex_unlock-Woken :
    (fuel : ℕ) (s : Sched) (l : Lists) (m : ℕ) (ws : List ℕ)
    → Inv s l
    → s.mutex_count m ≢ 0
    → Ring s.wait_links m ws
    → AllAsleep s l ws
    → length ws < fuel
    → (s' : Sched) × (mutex_unlock fuel s m ≡ some s')
      × (s'.mutex_count m ≡ 0)
      × Woken (freed s m) m ws s'
unfolding mutex_unlock
mutex_unlock-Woken fuel s l m ws inv locked r a f =
    let (s', found, w) = wake_loop-Woken fuel (freed s m) l m ws (freed-Inv s l m inv) r a f in
    let dropped = drop_owner-Woken (freed s m) m ws s' w in
    let test : (s.mutex_count m == 0) ≡ false = ground arith in
    (drop_owner s' m, rw (test, found), rw dropped.count (ground arith), dropped)

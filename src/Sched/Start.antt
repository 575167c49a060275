-- ===== src/Sched/Start.antt =====
-- kernel/sched.c: the scheduler starts with empty lists, and a new task enters it.
use mirros.Base.{
  ℕ, zero, suc, ◌+◌, ◌≤◌, ◌<◌, ◌≡◌, refl, Bool, true, false, ◌&&◌, ◌||◌, List, [], ◌∷◌, arith, ◌==◌,
  ltb, leb, if◌then◌else◌, eq→==, ◌∉◌,
}
use mirros.Link.{Links, init_list}
use mirros.Link.Ring.{Ring-frame}
use mirros.Sched.{TaskState, prepare, unknown, Sched}
use mirros.Sched.Change.{none_to_prepare, get_state_change, set_task_state}
use mirros.Sched.Init.{first_prio, init_sched_struct, init_table, sched_init}
use mirros.Sched.Keeps.{set_task_state-Inv_at}
use mirros.Sched.Lists.{Lists, Counted}
use mirros.Sched.Rings.{Rings}
use mirros.Sched.Refine.{Inv, managed, move, is_prepare, is_sleep, is_idle}

-- A node that is in no list may be linked to itself.
Counted-init :
    {h : Links} {count head : ℕ} {xs : List ℕ}
    → Counted h count head xs
    → (t : ℕ) → t ∉ (head ∷ xs)
    → Counted (init_list h t) count head xs
unfolding init_list
Counted-init {h} {count} {head} {xs} c t out = record {
  ring = Ring-frame h (init_list h t) head xs (λ u i. (ground arith, ground arith)) c.ring;
  counted = c.counted;
}

-- `init_sched_struct` of a task that stands in no list keeps the lists.
pub init_sched_struct-Rings :
    (s : Sched) (l : Lists) (t : ℕ)
    → Rings s l
    → 64 ≤ t
    → ((p : ℕ) → p < 64 → t ∉ l.prio_list p)
    → t ∉ l.system_list
    → t ∉ l.sleep_list
    → t ∉ l.idle_list
    → Rings (init_sched_struct s t).0 l
unfolding init_sched_struct
init_sched_struct-Rings s l t r high a b c d = record {
  table = record {
    lists = λ p low. Counted-init (r.table.lists p low) t (ground (arith, a p low, high));
    above = r.table.above;
    once = r.table.once;
  };
  system = Counted-init r.system t (ground (arith, b, high));
  sleep = Counted-init r.sleep t (ground (arith, c, high));
  idle = Counted-init r.idle t (ground (arith, d, high));
}

module _ (s : Sched) (l : Lists) (t : ℕ) (inv : Inv s l) (fresh : managed s l t ≡ false)
    (high : 64 ≤ t) (parent : first_prio s t < 64) where
  unlisted : (p : ℕ) → p < 64 → t ∉ l.prio_list p
  unlisted p low = ground (arith, inv.members.prio_mem p t low, fresh)

  fresh_system : t ∉ l.system_list
  fresh_system = ground (arith, fresh)

  init_sched_struct-Inv : Inv (init_sched_struct s t).0 l
  unfolding init_sched_struct
  init_sched_struct-Inv = record {
    rings =
        init_sched_struct-Rings s l t inv.rings high unlisted fresh_system
          (ground (arith, inv.members.sleep_mem t, fresh))
          (ground (arith, inv.members.idle_mem t, fresh));
    members = record {
      prio_mem = λ p u low. ground (arith, inv.members.prio_mem p u low, fresh);
      sleep_mem = λ u. ground (arith, inv.members.sleep_mem u, fresh);
      idle_mem = λ u. ground (arith, inv.members.idle_mem u, fresh);
      high = inv.members.high;
      low = λ u m. ground (arith, inv.members.low u m, fresh);
    };
  }

  init_sched_struct-task :
      (((init_sched_struct s t).0.task t).state ≡ unknown)
      × (((init_sched_struct s t).0.task t).prio ≡ first_prio s t)
      × (managed (init_sched_struct s t).0 l t ≡ false)
  unfolding init_sched_struct
  init_sched_struct-task = (rw (eq→== t t refl), rw (eq→== t t refl), fresh)

  -- A task that the scheduler does not know yet, made ready after init_sched_struct as do_fork
  -- does, keeps the invariant and is then the last task of its priority and of all tasks. It stands
  -- behind the heads of the lists, and its parent's priority, where it takes that, is below MAX_PRIO.
  pub init_sched_struct-starts :
      Inv
        (set_task_state (init_sched_struct s t).0 t prepare)
        (move none_to_prepare (first_prio s t) t l)
  unfolding get_state_change
  init_sched_struct-starts =
      let (unready, at, out) = init_sched_struct-task in
      rw (← at) (
        set_task_state-Inv_at (init_sched_struct s t).0 l t prepare none_to_prepare
          init_sched_struct-Inv high (rw at parent) (rw unready) out)

abbrev pub no_tasks : Lists
no_tasks = record { prio_list = λ p. []; system_list = []; sleep_list = []; idle_list = [] }

init_table-at :
    (k i : ℕ) (s : Sched) (p : ℕ)
    → ((init_table k i s).prio_count p ≡ (if leb i p && ltb p (i + k) then 0 else s.prio_count p))
      × ((init_table k i s).prio_running.next p
          ≡ (if leb i p && ltb p (i + k) then p else s.prio_running.next p))
      × ((init_table k i s).prio_running.pre p
          ≡ (if leb i p && ltb p (i + k) then p else s.prio_running.pre p))
unfolding init_table init_list
init_table-at zero i s p = (ground arith, ground arith, ground arith)
init_table-at (suc k) i s p =
    let s1 = record s {
      prio_running = init_list s.prio_running i;
      prio_count = λ q. if i == q then 0 else s.prio_count q;
    } in
    let (a, b, c) = init_table-at k (i + 1) s1 p in (ground arith, ground arith, ground arith)

pub init_table-outside : (k i : ℕ) (s : Sched) → (init_table k i s).in_interrupt ≡ s.in_interrupt
unfolding init_table
init_table-outside zero i s = refl
init_table-outside (suc k) i s = init_table-outside k (i + 1) (record s {
  prio_running = init_list s.prio_running i;
  prio_count = λ q. if i == q then 0 else s.prio_count q;
})

init_table-head :
    (s : Sched) (p : ℕ)
    → p < 64
    → ((init_table 64 0 s).prio_count p ≡ 0)
      × ((init_table 64 0 s).prio_running.next p ≡ p)
      × ((init_table 64 0 s).prio_running.pre p ≡ p)
init_table-head s p low =
    let (a, b, c) = init_table-at 64 0 s p in
    let test : (leb 0 p && ltb p (0 + 64)) ≡ true = ground arith in
    (rw test at a, rw test at b, rw test at c)

-- The states that have a list.
abbrev pub is_listed : TaskState → Bool
is_listed state = is_prepare state || (is_sleep state || is_idle state)

-- After sched_init every list is empty, whatever the memory of the lists and counters was.
pub sched_init-Rings : (s : Sched) (page : ℕ) → Rings (sched_init s page).0 no_tasks
unfolding sched_init init_list
sched_init-Rings s page = record {
  table = record {
    lists = λ p lp.
        let (a, b, c) = init_table-head s p lp in
        record { ring = record { apart = refl; distinct = tt; linked = (b, c) }; counted = a };
    above = λ p u lp i. cc;
    once = λ p q u lp lq i j. cc;
  };
  system = record {
    ring = record { apart = refl; distinct = tt; linked = (refl, refl) };
    counted = refl;
  };
  sleep = record {
    ring = record { apart = refl; distinct = tt; linked = (refl, refl) };
    counted = refl;
  };
  idle = record {
    ring = record { apart = refl; distinct = tt; linked = (refl, refl) };
    counted = refl;
  };
}

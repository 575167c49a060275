-- ===== src/Sched/Rings.antt =====
-- kernel/sched.c: the links and counters of the scheduler hold its abstract lists, and each list
-- macro keeps them together.
use mirros.Base.{ℕ, ◌≤◌, ◌<◌, ◌≡◌, [], ◌∷◌, ◌++◌, arith, ◌∈◌, ◌∉◌, erase}
use mirros.Sched.{
  Sched, prio_list_add_task_tail, prio_list_del_task, system_add_task_tail, system_del_task,
  sleep_add_task, sleep_add_task_tail, sleep_del_task, idle_add_task_tail, idle_del_task,
}
use mirros.Sched.Lists.{
  Lists, prio_snoc, prio_erase, Counted, Counted-add, Counted-add_tail, Counted-del, Table,
  Table-add_tail, Table-del,
}

-- The links and the counters of the state hold the abstract lists.
pub record Rings (s : Sched) (l : Lists) : Type 0 where
  pub table : Table s.prio_running s.prio_count l.prio_list
  pub system : Counted s.system s.system_count 0 l.system_list
  pub sleep : Counted s.sleep_links s.sleep_count 0 l.sleep_list
  pub idle : Counted s.idle_links s.idle_count 0 l.idle_list

module _ (s : Sched) (l : Lists) (r : Rings s l) (t : ℕ) (high : 64 ≤ t) where
  pub Rings-prio_add_tail :
      (p : ℕ)
      → (s.task t).prio ≡ p
      → p < 64
      → ((q : ℕ) → q < 64 → t ∉ l.prio_list q)
      → Rings (prio_list_add_task_tail s t) (prio_snoc p t l)
  unfolding prio_list_add_task_tail
  Rings-prio_add_tail p e low out = record {
    table = rw e (Table-add_tail r.table t p low high out);
    system = r.system;
    sleep = r.sleep;
    idle = r.idle;
  }

  pub Rings-prio_del :
      (p : ℕ)
      → (s.task t).prio ≡ p
      → p < 64
      → t ∈ l.prio_list p
      → Rings (prio_list_del_task s t) (prio_erase p t l)
  unfolding prio_list_del_task
  Rings-prio_del p e low i = record {
    table = rw e (Table-del r.table t p low high i);
    system = r.system;
    sleep = r.sleep;
    idle = r.idle;
  }

  pub Rings-system_add_tail :
      t ∉ l.system_list
      → Rings (system_add_task_tail s t) (record l { system_list = l.system_list ++ t ∷ [] })
  unfolding system_add_task_tail
  Rings-system_add_tail out = record {
    table = r.table;
    system = Counted-add_tail r.system t (ground arith);
    sleep = r.sleep;
    idle = r.idle;
  }

  pub Rings-system_del :
      t ∈ l.system_list
      → Rings (system_del_task s t) (record l { system_list = erase t l.system_list })
  unfolding system_del_task
  Rings-system_del i = record {
    table = r.table;
    system = Counted-del r.system t i;
    sleep = r.sleep;
    idle = r.idle;
  }

  pub Rings-sleep_add :
      t ∉ l.sleep_list → Rings (sleep_add_task s t) (record l { sleep_list = t ∷ l.sleep_list })
  unfolding sleep_add_task
  Rings-sleep_add out = record {
    table = r.table;
    system = r.system;
    sleep = Counted-add r.sleep t (ground arith);
    idle = r.idle;
  }

  pub Rings-sleep_add_tail :
      t ∉ l.sleep_list
      → Rings (sleep_add_task_tail s t) (record l { sleep_list = l.sleep_list ++ t ∷ [] })
  unfolding sleep_add_task_tail
  Rings-sleep_add_tail out = record {
    table = r.table;
    system = r.system;
    sleep = Counted-add_tail r.sleep t (ground arith);
    idle = r.idle;
  }

  pub Rings-sleep_del :
      t ∈ l.sleep_list → Rings (sleep_del_task s t) (record l { sleep_list = erase t l.sleep_list })
  unfolding sleep_del_task
  Rings-sleep_del i = record {
    table = r.table;
    system = r.system;
    sleep = Counted-del r.sleep t i;
    idle = r.idle;
  }

  pub Rings-idle_add_tail :
      t ∉ l.idle_list
      → Rings (idle_add_task_tail s t) (record l { idle_list = l.idle_list ++ t ∷ [] })
  unfolding idle_add_task_tail
  Rings-idle_add_tail out = record {
    table = r.table;
    system = r.system;
    sleep = r.sleep;
    idle = Counted-add_tail r.idle t (ground arith);
  }

  pub Rings-idle_del :
      t ∈ l.idle_list → Rings (idle_del_task s t) (record l { idle_list = erase t l.idle_list })
  unfolding idle_del_task
  Rings-idle_del i = record {
    table = r.table;
    system = r.system;
    sleep = r.sleep;
    idle = Counted-del r.idle t i;
  }

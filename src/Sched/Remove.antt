-- ===== src/Sched/Remove.antt =====
-- kernel/sched.c: `sched_remove_task` on the lists.
use mirros.Base.{
  ℕ, zero, suc, ◌≡◌, ◌≢◌, ◌⊎◌, inl, inr, refl, true, false, arith, Bool-cases, ◌∈◌, erase,
  has-erase_ne, not-mem-erase_self,
}
use mirros.Base.Int.{ℤ, pos, negsuc, einval}
use mirros.Sched.{idle, PidMap, Sched, system_del_task, idle_del_task}
use mirros.Sched.Frame.{off_lists-Inv}
use mirros.Sched.Lists.{Lists}
use mirros.Sched.Refine.{Members, Inv, managed}
use mirros.Sched.Rings.{Rings, Rings-idle_del, Rings-system_del}
use mirros.Sched.Switch.{sched_remove_task, is_boot_pid, is_idle_state}

-- The lists less a task that is gone.
abbrev pub removed : ℕ → Lists → Lists
removed t l = record l { system_list = erase t l.system_list; idle_list = erase t l.idle_list }

-- The pid map is no part of the invariant.
with_pid_map-Inv :
    (s : Sched) (l : Lists) (map : PidMap) → Inv s l → Inv (record s { pid_map = map }) l
with_pid_map-Inv s l map inv = off_lists-Inv inv

module _ (s : Sched) (l : Lists) (t : ℕ) (inv : Inv s l) (i : t ∈ l.system_list)
    (ne : t ≢ s.idle_task) (is : (s.task t).state ≡ idle) where
  abbrev taken_out : Sched
  taken_out = system_del_task (idle_del_task s t) t

  known : managed s l t ≡ true
  known = ground arith

  taken_out-Rings : Rings taken_out (removed t l)
  taken_out-Rings =
      Rings-system_del _ _
        (Rings-idle_del s l inv.rings t (inv.members.high t known)
          (ground (arith, inv.members.idle_mem t)))
        t (inv.members.high t known) i

  taken_out-Members : Members taken_out (removed t l)
  unfolding system_del_task idle_del_task
  taken_out-Members = record {
    prio_mem = λ p u lp. ground (
      arith,
      inv.members.prio_mem p u lp,
      has-erase_ne u t l.system_list,
      not-mem-erase_self t l.system_list inv.rings.system.ring.distinct,
    );
    sleep_mem = λ u. ground (
      arith,
      inv.members.sleep_mem u,
      has-erase_ne u t l.system_list,
      not-mem-erase_self t l.system_list inv.rings.system.ring.distinct,
    );
    idle_mem = λ u. ground (
      arith,
      inv.members.idle_mem u,
      has-erase_ne u t l.system_list,
      has-erase_ne u t l.idle_list,
      not-mem-erase_self t l.system_list inv.rings.system.ring.distinct,
      not-mem-erase_self t l.idle_list inv.rings.idle.ring.distinct,
    );
    high = λ u m. ground (
      arith,
      inv.members.high u,
      has-erase_ne u t l.system_list,
      not-mem-erase_self t l.system_list inv.rings.system.ring.distinct,
    );
    low = λ u m. ground (
      arith,
      inv.members.low u,
      has-erase_ne u t l.system_list,
      not-mem-erase_self t l.system_list inv.rings.system.ring.distinct,
    );
  }

  taken_out-managed : managed taken_out (removed t l) t ≡ false
  unfolding system_del_task idle_del_task
  taken_out-managed =
      ground (arith, not-mem-erase_self t l.system_list inv.rings.system.ring.distinct)

boot_pid : (pid : ℤ) → is_boot_pid pid ≡ true → (pid ≡ pos 0) ⊎ (pid ≡ pos 1)
boot_pid (pos zero) e = inl refl
boot_pid (pos (suc zero)) e = inr refl
boot_pid (pos (suc (suc n))) e = cc
boot_pid (negsuc n) e = cc

true_not_false : true ≡ false → ⊥
true_not_false e = cc

-- `sched_remove_task` refuses a task that is not idle, or whose pid is 0 or 1, and changes
-- nothing; any other task of the system list, which is idle with another pid, the boot task
-- apart, it takes out of the system list
-- and the idle list, after which the scheduler does not manage it, and the invariant holds.
pub sched_remove_task-Inv :
    (s : Sched) (l : Lists) (t : ℕ)
    → Inv s l
    → t ∈ l.system_list
    → t ≢ s.idle_task
    → ((((s.task t).state ≢ idle) ⊎ ((s.task t).pid ≡ pos 0) ⊎ ((s.task t).pid ≡ pos 1))
        × (sched_remove_task s t ≡ (s, einval)))
      ⊎ (((s.task t).state ≡ idle)
          × ((s.task t).pid ≢ pos 0)
          × ((s.task t).pid ≢ pos 1)
          × ((sched_remove_task s t).1 ≡ pos 0)
          × (managed (sched_remove_task s t).0 (removed t l) t ≡ false)
          × Inv (sched_remove_task s t).0 (removed t l))
unfolding sched_remove_task
sched_remove_task-Inv s l t inv i ne = elim (Bool-cases (is_idle_state (s.task t).state)) [
  | inl e ↦
      let is : (s.task t).state ≡ idle = ground arith in
      elim (Bool-cases (is_boot_pid (s.task t).pid)) [
        | inl boot ↦ rw (e, boot) (inl (inr (boot_pid (s.task t).pid boot), refl))
        | inr other ↦
            rw (e, other)
              (inr (
                is,
                λ z. true_not_false (rw z at other),
                λ z. true_not_false (rw z at other),
                refl,
                taken_out-managed s l t inv i ne is,
                with_pid_map-Inv _ _ _ (record {
                  rings = taken_out-Rings s l t inv i ne is;
                  members = taken_out-Members s l t inv i ne is;
                }),
              ))
      ]
  | inr e ↦ rw e (inl (inl (ground arith), refl))
]

-- ===== src/Sched/Pick.antt =====
-- kernel/sched.c: `find_next_run_task` takes the first task of the best priority.
use mirros.Base.{
  ℕ, zero, suc, ◌+◌, ◌≤◌, ◌<◌, ◌^◌, ◌≡◌, ◌≢◌, ◌⊎◌, inl, inr, refl, true, false, List, [], ◌∷◌,
  arith, ◌==◌, Bool-cases, ltb, ==_iff, length, has,
}
use mirros.Sched.{prepare, Sched}
use mirros.Sched.Lists.{Lists, Counted}
use mirros.Sched.Refine.{Inv, managed}
use mirros.Sched.Switch.{find_prio, find_next_run_task}

-- The scan stops at the first entry that counts a task, or at its end.
find_prio_lem :
    (k i : ℕ) (count : ℕ → ℕ)
    → (i ≤ find_prio k i count)
      × (find_prio k i count ≤ i + k)
      × ((q : ℕ) → i ≤ q → q < find_prio k i count → count q ≡ 0)
      × (find_prio k i count < i + k → count (find_prio k i count) ≢ 0)
unfolding find_prio
find_prio_lem zero i count =
    (omega arith, omega arith, λ q a b. absurd (omega arith), λ a. absurd (omega arith))
find_prio_lem (suc k) i count = elim (Bool-cases (count i == 0)) [
  | inl e ↦
      let (a, b, c, d) = find_prio_lem k (i + 1) count in
      rw e (
        omega (arith, a),
        omega (arith, b),
        λ q iq qf. elim (Bool-cases (q == i)) [
          | inl same ↦ ground arith
          | inr other ↦ c q (ground arith) qf
        ],
        λ lt. d (omega arith),
      )
  | inr e ↦ rw e (omega arith, omega arith, λ q a b. absurd (omega arith), λ a. ground arith)
]

-- The lists of os_sched_table are shorter than 2^32, so no counter has wrapped.
abbrev pub Short : Lists → Type 0
Short l = (p : ℕ) → p < 64 → length (l.prio_list p) < 2 ^ 32

-- Task `u` waits for the processor at a priority that the scan reads, which is not the last.
abbrev pub IsReady : Sched → Lists → ℕ → Type 0
IsReady s l u = (managed s l u ≡ true) × ((s.task u).state ≡ prepare) × ((s.task u).prio < 63)

-- The task that is next: ready, at the best priority of all ready tasks, and the first of its list.
pub record IsNext (s : Sched) (l : Lists) (next : ℕ) : Type 0 where
  pub ready : IsReady s l next
  pub best : (u : ℕ) → IsReady s l u → (s.task next).prio ≤ (s.task u).prio
  pub rest : List ℕ
  pub first : l.prio_list (s.task next).prio ≡ next ∷ rest

module _ (s : Sched) (l : Lists) (inv : Inv s l) (short : Short l) where
  counted_none : (p u : ℕ) → p < 63 → s.prio_count p ≡ 0 → has u (l.prio_list p) ≡ false
  counted_none p u low e =
      go (l.prio_list p)
        (omega (arith, (inv.rings.table.lists p (omega arith)).counted, short p (omega arith)))
    where
      go : (xs : List ℕ) → length xs ≡ 0 → has u xs ≡ false
      go [] h = refl
      go (x ∷ xs) h = absurd (omega arith)

  ready_listed : (u : ℕ) → IsReady s l u → has u (l.prio_list (s.task u).prio) ≡ true
  ready_listed u r = ground (arith, inv.members.prio_mem (s.task u).prio u, r)

  -- No task that is ready stands below the entry where the scan stops.
  above_scan :
      (i : ℕ)
      → ((q : ℕ) → 0 ≤ q → q < i → s.prio_count q ≡ 0)
      → i ≤ 63
      → (u : ℕ) → IsReady s l u
      → i ≤ (s.task u).prio
  above_scan i zeros top u r = elim (Bool-cases (ltb (s.task u).prio i)) [
    | inl below ↦ absurd (
        ground (
          arith,
          ready_listed u r,
          counted_none (s.task u).prio u r.2 (zeros (s.task u).prio (omega arith) (ground arith)),
        ))
    | inr above ↦ ground arith
  ]

  first_of_entry :
      (i : ℕ)
      → i < 63
      → s.prio_count i ≢ 0
      → (rest : List ℕ) × (l.prio_list i ≡ s.prio_running.next i ∷ rest)
  first_of_entry i low some_task = go (l.prio_list i) (inv.rings.table.lists i (omega arith))
    where
      go :
          (xs : List ℕ)
          → Counted s.prio_running (s.prio_count i) i xs
          → (rest : List ℕ) × (xs ≡ s.prio_running.next i ∷ rest)
      go [] c = absurd (some_task c.counted)
      go (x ∷ xs) c = (xs, rw (c.ring.linked.0))

  next_of_entry :
      (i : ℕ)
      → i < 63
      → s.prio_count i ≢ 0
      → ((u : ℕ) → IsReady s l u → i ≤ (s.task u).prio)
      → IsNext s l (s.prio_running.next i)
  next_of_entry i low some_task least =
      let (rest, e) = first_of_entry i low some_task in
      let m = inv.members.prio_mem i (s.prio_running.next i) (omega arith) in
      let inside : has (s.prio_running.next i) (l.prio_list i) ≡ true = rw e (ground arith) in
      let at : (s.task (s.prio_running.next i)).prio ≡ i = ground (arith, m) in
      record {
        ready = (ground (arith, m), ground (arith, m), omega arith);
        best = λ u r. omega (arith, least u r);
        rest = rest;
        first = rw at e;
      }

  -- `find_next_run_task` returns the first task of the best priority among those that are ready,
  -- and the current task when none is ready, even if a task is prepared at the last priority. Ready
  -- means managed, prepared and of a priority below MAX_PRIO - 1, so the idle task is not ready once main
  -- has given it the last priority. No counter has wrapped.
  pub find_next_run_task-IsNext :
      ((find_next_run_task s ≡ s.current) × ((u : ℕ) → ¬ IsReady s l u))
      ⊎ IsNext s l (find_next_run_task s)
  unfolding find_next_run_task
  find_next_run_task-IsNext =
      let (a, b, zeros, found) = find_prio_lem 63 0 s.prio_count in
      let least = above_scan (find_prio 63 0 s.prio_count) zeros (omega arith) in
      elim (Bool-cases (find_prio 63 0 s.prio_count == 63)) [
        | inl e ↦ rw e (inl (refl, λ u r. omega (arith, r.2, least u r, (==_iff _ _).0 e)))
        | inr e ↦ rw e (inr (next_of_entry _ (ground arith) (found (ground arith)) least))
      ]

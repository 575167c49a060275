-- ===== src/Sched/Lists.antt =====
-- kernel/sched.c: the sequences of tasks that the scheduler's lists stand for, what each macro
-- makes of them, and that the links and the counters follow.
use mirros.Base.{
  ℕ, ◌+◌, ◌≤◌, ◌<◌, ◌≡◌, inl, inr, false, List, [], ◌∷◌, ◌++◌, arith, ◌==◌, if◌then◌else◌,
  Bool-cases, length, length-append, length-erase, has, ◌∈◌, ◌∉◌, erase, has-snoc, not-mem-erase,
  update,
}
use mirros.Base.Words.{u32, sub32}
use mirros.Link.{Links, list_add, list_add_tail, list_del}
use mirros.Link.Ring.{Ring, list_add-cons, list_add_tail-snoc, list_del-erase}
use mirros.Link.Frame.{list_add_tail-Disjoint, list_del-Disjoint}

-- The abstract state: the tasks of each list, in order.
pub record Lists : Type 0 where
  pub prio_list : ℕ → List ℕ
  pub system_list : List ℕ
  pub sleep_list : List ℕ
  pub idle_list : List ℕ

abbrev pub at_prio : (ℕ → List ℕ) → ℕ → List ℕ → ℕ → List ℕ
at_prio f p xs q = if p == q then xs else f q

abbrev pub prio_snoc : ℕ → ℕ → Lists → Lists
prio_snoc p t l = record l { prio_list = at_prio l.prio_list p (l.prio_list p ++ t ∷ []) }

abbrev pub prio_erase : ℕ → ℕ → Lists → Lists
prio_erase p t l = record l { prio_list = at_prio l.prio_list p (erase t (l.prio_list p)) }

-- A list in the memory and its counter.
pub record Counted (h : Links) (count head : ℕ) (xs : List ℕ) : Type 0 where
  pub ring : Ring h head xs
  pub counted : count ≡ u32 (length xs)

module _ {h : Links} {count head : ℕ} {xs : List ℕ} (c : Counted h count head xs) (t : ℕ) where
  pub Counted-add : t ∉ (head ∷ xs) → Counted (list_add h head t) (u32 (count + 1)) head (t ∷ xs)
  Counted-add out = record {
    ring = list_add-cons h head t xs c.ring out;
    counted = omega (arith, c.counted);
  }

  pub Counted-add_tail :
      t ∉ (head ∷ xs) → Counted (list_add_tail h head t) (u32 (count + 1)) head (xs ++ t ∷ [])
  Counted-add_tail out = record {
    ring = list_add_tail-snoc h head t xs c.ring out;
    counted = omega (arith, c.counted, length-append xs (t ∷ []));
  }

  pub Counted-del : t ∈ xs → Counted (list_del h t) (sub32 count 1) head (erase t xs)
  Counted-del i = record {
    ring = list_del-erase h head t xs c.ring i;
    counted = omega (arith, c.counted, length-erase t xs i);
  }

-- The heads of os_sched_table share their links, so their lists are kept apart.
pub record Table (h : Links) (count : ℕ → ℕ) (f : ℕ → List ℕ) : Type 0 where
  pub lists : (p : ℕ) → p < 64 → Counted h (count p) p (f p)
  pub above : (p t : ℕ) → p < 64 → t ∈ f p → 64 ≤ t
  pub once : (p q t : ℕ) → p < 64 → q < 64 → t ∈ f p → t ∈ f q → p ≡ q

module _ {h : Links} {count : ℕ → ℕ} {f : ℕ → List ℕ} (r : Table h count f) (t p : ℕ) (low : p < 64)
    (high : 64 ≤ t) where
  others :
      (q : ℕ) → q < 64 → (p == q) ≡ false → t ∉ f q → (c : ℕ) → c ∈ (q ∷ f q) → c ∉ (t ∷ p ∷ f p)
  others q lq ne out c i = elim (Bool-cases (c == q)) [
    | inl is ↦ elim (Bool-cases (has c (f p))) [
      | inl j ↦ absurd (ground (arith, r.above p c low j))
      | inr j ↦ ground arith
    ]
    | inr is ↦ elim (Bool-cases (has c (f p))) [
      | inl j ↦ absurd (ground (arith, r.once p q c low lq j))
      | inr j ↦ ground (arith, r.above q c lq)
    ]
  ]

  pub Table-add_tail :
      ((q : ℕ) → q < 64 → t ∉ f q)
      → Table
          (list_add_tail h p t)
          (update count p (u32 (count p + 1)))
          (at_prio f p (f p ++ t ∷ []))
  Table-add_tail out = record {
    lists = λ q lq. elim (Bool-cases (p == q)) [
      | inl is ↦
          let is' : p ≡ q = ground arith in
          rw is (rw (← is') (Counted-add_tail (r.lists p low) t (ground (arith, out p low))))
      | inr ne ↦ rw ne record {
        ring =
            list_add_tail-Disjoint h p t (f p) (r.lists p low).ring q (f q)
              (others q lq ne (out q lq)) (r.lists q lq).ring;
        counted = (r.lists q lq).counted;
      }
    ];
    above = λ q u lq i. ground (arith, r.above q u lq, has-snoc u t (f p), r.above p u);
    once = λ q q' u lq lq' i j.
        ground
          (arith, r.once q q' u, has-snoc u t (f p), out q, out q', r.once p q' u, r.once q p u);
  }

  pub Table-del :
      t ∈ f p
      → Table (list_del h t) (update count p (sub32 (count p) 1)) (at_prio f p (erase t (f p)))
  Table-del i = record {
    lists = λ q lq. elim (Bool-cases (p == q)) [
      | inl is ↦
          let is' : p ≡ q = ground arith in rw is (rw (← is') (Counted-del (r.lists p low) t i))
      | inr ne ↦ rw ne record {
        ring =
            list_del-Disjoint h p t (f p) (r.lists p low).ring q (f q)
              (others q lq ne (elsewhere q lq ne)) i (r.lists q lq).ring;
        counted = (r.lists q lq).counted;
      }
    ];
    above = λ q u lq j. ground (arith, r.above q u lq, r.above p u low, not-mem-erase u t (f p));
    once = λ q q' u lq lq' j k. ground (
      arith,
      r.once q q' u lq lq',
      r.once p q' u low lq',
      r.once q p u lq low,
      not-mem-erase u t (f p),
    );
  }
    where
      elsewhere : (q : ℕ) → q < 64 → (p == q) ≡ false → t ∉ f q
      elsewhere q lq ne = elim (Bool-cases (has t (f q))) [
        | inl j ↦ absurd (ground (arith, r.once p q t low lq i j))
        | inr j ↦ j
      ]

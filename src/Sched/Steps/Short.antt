-- ===== src/Sched/Steps/Short.antt =====
-- kernel/sched.c: the lists of priorities are no longer than the system list, so their counters do
-- not wrap.
use mirros.Base.{
  ℕ, ◌+◌, ◌^◌, ◌≤◌, ◌<◌, ◌≡◌, inl, inr, false, List, [], ◌∷◌, arith, ◌==◌, Bool-cases, ==_iff,
  length, length-erase, has, ◌∈◌, ◌∉◌, Distinct, erase, has-erase_ne,
}
use mirros.Link.{Links}
use mirros.Link.Ring.{Ring, Seg, next_mem}
use mirros.Sched.{Sched}
use mirros.Sched.Lists.{Lists}
use mirros.Sched.Pick.{Short}
use mirros.Sched.Refine.{Inv}
use mirros.Sched.Steps.{OnList, start, follow, IsTask}

-- Distinct numbers that all stand in another list are at most as many.
pub length-le : (xs ys : List ℕ) → Distinct xs → ((u : ℕ) → u ∈ xs → u ∈ ys) → length xs ≤ length ys
length-le [] ys d sub = omega arith
length-le (x ∷ xs) ys d sub =
    let inside : x ∈ ys = sub x (ground arith) in
    let rest = length-le xs (erase x ys) d.1 (λ u i.
      let ne : (u == x) ≡ false = elim (Bool-cases (u == x)) [
        | inl e ↦ absurd (ground (arith, d.0, (==_iff u x).0 e))
        | inr e ↦ e
      ] in
      ground (arith, has-erase_ne u x ys ne, sub u)) in
    omega (arith, rest, length-erase x ys inside)

pub few-Short : (s : Sched) (l : Lists) → Inv s l → length l.system_list + 1 < 2 ^ 32 → Short l
few-Short s l inv few p low =
    let c = inv.rings.table.lists p low in
    omega (
      arith,
      few,
      length-le (l.prio_list p) (s.idle_task ∷ l.system_list) c.ring.distinct
          (λ u i. ground (arith, inv.members.prio_mem p u low)),
    )

-- The nodes that are reached are those of the list.
OnList-mem :
    (h : Links) (head t : ℕ) (xs : List ℕ) → Ring h head xs → OnList h head t → t ∈ (head ∷ xs)
OnList-mem h head t xs r start = ground arith
OnList-mem h head t xs r (follow u o) =
    next_mem h head head u xs r.linked (OnList-mem h head u xs r o)

mem-OnList_from :
    (h : Links) (head a b t : ℕ) (xs : List ℕ)
    → OnList h head a
    → Seg h a xs b
    → t ∈ xs
    → OnList h head t
mem-OnList_from h head a b t [] o g i = absurd (ground arith)
mem-OnList_from h head a b t (x ∷ xs) o g i =
    let at_x : OnList h head x = rw (← g.0) (follow a o) in
    elim (Bool-cases (t == x)) [
      | inl e ↦ rw ((==_iff t x).0 e) at_x
      | inr e ↦ mem-OnList_from h head x b t xs at_x g.2 (ground arith)
    ]

pub not_OnList-mem :
    (s : Sched) (l : Lists) (t : ℕ) → Inv s l → (OnList s.system 0 t → ⊥) → t ∉ l.system_list
not_OnList-mem s l t inv out = elim (Bool-cases (has t l.system_list)) [
  | inl i ↦
      absurd
        (out (mem-OnList_from s.system 0 0 0 t l.system_list start inv.rings.system.ring.linked i))
  | inr i ↦ i
]

pub IsTask-mem : (s : Sched) (l : Lists) (t : ℕ) → Inv s l → IsTask s t → t ∈ l.system_list
IsTask-mem s l t inv is =
    ground (arith, is.0, OnList-mem s.system 0 t l.system_list inv.rings.system.ring is.1)

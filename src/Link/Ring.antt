-- ===== src/Link/Ring.antt =====
-- include/os/list.h: which sequence of nodes a head stands for, and what each operation of the
-- list makes of that sequence.
use mirros.Base.{
  ℕ, ◌≡◌, refl, ◌∙◌, inl, inr, false, List, [], ◌∷◌, ◌++◌, arith, ◌==◌, Bool-cases, ◌∈◌, ◌∉◌,
  Distinct, erase, has-snoc, Distinct-snoc, Distinct-erase, not-mem-erase,
}
use mirros.Link.{Links, list_add, list_add_tail, list_del}

-- From `a` the links lead through `xs` to `b`, and back.
abbrev pub Seg : Links → ℕ → List ℕ → ℕ → Type 0
Seg h a [] b = (h.next a ≡ b) × (h.pre b ≡ a)
Seg h a (x ∷ xs) b = (h.next a ≡ x) × (h.pre x ≡ a) × Seg h x xs b

-- `head` is the head of the circular list of the nodes `xs`, in this order.
pub record Ring (h : Links) (head : ℕ) (xs : List ℕ) : Type 0 where
  pub apart : head ∉ xs
  pub distinct : Distinct xs
  pub linked : Seg h head xs head

abbrev pub last : ℕ → List ℕ → ℕ
last a [] = a
last a (x ∷ xs) = last x xs

pub pre-last : (h : Links) (a b : ℕ) (xs : List ℕ) → Seg h a xs b → h.pre b ≡ last a xs
pre-last h a b [] s = s.1
pre-last h a b (x ∷ xs) s = pre-last h x b xs s.2

pub last_mem : (a : ℕ) (xs : List ℕ) → last a xs ∈ (a ∷ xs)
last_mem a [] = ground arith
last_mem a (x ∷ xs) = ground (arith, last_mem x xs)

-- Links that keep `next` before the end and `pre` after the start keep the segment.
pub Seg-frame :
    (h g : Links) (a b : ℕ) (xs : List ℕ)
    → ((c : ℕ) → c ∈ (a ∷ xs) → g.next c ≡ h.next c)
    → ((c : ℕ) → c ∈ (b ∷ xs) → g.pre c ≡ h.pre c)
    → Seg h a xs b
    → Seg g a xs b
Seg-frame h g a b [] n p s = (n a (ground arith) ∙ s.0, p b (ground arith) ∙ s.1)
Seg-frame h g a b (x ∷ xs) n p s = (
  n a (ground arith) ∙ s.0,
  p x (ground arith) ∙ s.1,
  Seg-frame h g x b xs (λ c i. n c (ground arith)) (λ c i. p c (ground arith)) s.2,
)

-- A change that spares a ring's nodes and its head leaves the ring.
pub Ring-frame :
    (h g : Links) (head : ℕ) (xs : List ℕ)
    → ((c : ℕ) → c ∈ (head ∷ xs) → (g.next c ≡ h.next c) × (g.pre c ≡ h.pre c))
    → Ring h head xs
    → Ring g head xs
Ring-frame h g head xs same r = record {
  apart = r.apart;
  distinct = r.distinct;
  linked = Seg-frame h g head head xs (λ c i. (same c i).0) (λ c i. (same c i).1) r.linked;
}

-- The first node, and the head when there is none.
pub next-head : (h : Links) (head x : ℕ) (xs : List ℕ) → Ring h head (x ∷ xs) → h.next head ≡ x
next-head h head x xs r = r.linked.0

-- `list_add` puts the node in front.
pub list_add-cons :
    (h : Links) (head new : ℕ) (xs : List ℕ)
    → Ring h head xs
    → new ∉ (head ∷ xs)
    → Ring (list_add h head new) head (new ∷ xs)
unfolding list_add
list_add-cons h head new [] r out = record {
  apart = ground arith;
  distinct = (refl, tt);
  linked = ground (arith, r.linked);
}
list_add-cons h head new (x ∷ xs) r out = record {
  apart = ground (arith, r.apart);
  distinct = ground (arith, r.distinct);
  linked = (
    ground (arith, r.linked),
    ground (arith, r.linked, r.apart),
    (
      ground (arith, r.linked, r.apart),
      ground (arith, r.linked, r.apart),
      Seg-frame h (list_add h head new) x head xs (λ c i. ground (arith, r.apart, r.distinct))
          (λ c i. ground (arith, r.apart, r.distinct, r.linked)) r.linked.2,
    ),
  );
}

-- Links that hang `new` in between the last node of a segment and its end.
module _ (h g : Links) (new b : ℕ) where
  Seg-snoc :
      (a : ℕ) (xs : List ℕ)
      → a ∉ xs
      → Distinct xs
      → new ∉ (a ∷ xs)
      → b ∉ xs
      → g.next (last a xs) ≡ new
      → g.pre new ≡ last a xs
      → g.next new ≡ b
      → g.pre b ≡ new
      → ((c : ℕ) → (c == last a xs) ≡ false → (c == new) ≡ false → g.next c ≡ h.next c)
      → ((c : ℕ) → (c == new) ≡ false → (c == b) ≡ false → g.pre c ≡ h.pre c)
      → Seg h a xs b
      → Seg g a (xs ++ new ∷ []) b
  Seg-snoc a [] o d m e n1 p1 n2 p2 n p s = (n1, p1, (n2, p2))
  Seg-snoc a (x ∷ xs) o d m e n1 p1 n2 p2 n p s = (
    n a (ground (arith, last_mem x xs)) (ground arith) ∙ s.0,
    p x (ground arith) (ground arith) ∙ s.1,
    Seg-snoc x xs d.0 d.1 (ground arith) (ground arith) n1 p1 n2 p2 n p s.2,
  )

-- `list_add_tail` puts the node at the end.
pub list_add_tail-snoc :
    (h : Links) (head new : ℕ) (xs : List ℕ)
    → Ring h head xs
    → new ∉ (head ∷ xs)
    → Ring (list_add_tail h head new) head (xs ++ new ∷ [])
unfolding list_add_tail
list_add_tail-snoc h head new xs r out =
    let e : h.pre head ≡ last head xs = pre-last h head head xs r.linked in
    let m = last_mem head xs in
    record {
      apart = ground (arith, has-snoc head new xs, r.apart);
      distinct = Distinct-snoc new xs r.distinct (ground arith);
      linked =
          Seg-snoc h (list_add_tail h head new) new head head xs r.apart r.distinct out r.apart
            (ground arith) (ground arith) (ground arith) (ground arith) (λ c i j. ground arith)
            (λ c i j. ground arith) r.linked;
    }

-- The neighbours of a node of a segment.
pub next_mem :
    (h : Links) (a b x : ℕ) (xs : List ℕ) → Seg h a xs b → x ∈ (a ∷ xs) → h.next x ∈ (b ∷ xs)
next_mem h a b x [] s i = ground arith
next_mem h a b x (y ∷ ys) s i = elim (Bool-cases (x == a)) [
  | inl e ↦ ground arith
  | inr e ↦ ground (arith, next_mem h y b x ys s.2)
]

pub pre_mem : (h : Links) (a b x : ℕ) (xs : List ℕ) → Seg h a xs b → x ∈ xs → h.pre x ∈ (a ∷ xs)
pre_mem h a b x [] s i = cc
pre_mem h a b x (y ∷ ys) s i = elim (Bool-cases (x == y)) [
  | inl e ↦ ground arith
  | inr e ↦ ground (arith, pre_mem h y b x ys s.2)
]

-- Links that join the neighbours of `x`, and are as before elsewhere.
record Joins (h g : Links) (x : ℕ) : Type 0 where
  forth : g.next (h.pre x) ≡ h.next x
  back : g.pre (h.next x) ≡ h.pre x
  same_next : (c : ℕ) → (c == h.pre x) ≡ false → g.next c ≡ h.next c
  same_pre : (c : ℕ) → (c == h.next x) ≡ false → g.pre c ≡ h.pre c

module _ (h g : Links) (x : ℕ) (j : Joins h g x) (b : ℕ) where
  Seg-join :
      (a : ℕ) (xs : List ℕ)
      → a ∉ xs
      → Distinct xs
      → b ∉ xs
      → Seg h a (x ∷ xs) b
      → x ∉ xs
      → (x == b) ≡ false
      → Seg g a xs b
  Seg-join a [] o d e s i k = ground (arith, j.forth, j.back)
  Seg-join a (y ∷ ys) o d e s i k = (
    ground (arith, j.forth),
    ground (arith, j.back),
    Seg-frame h g y b ys (λ c m. j.same_next c (ground arith)) (λ c m. j.same_pre c (ground arith))
        s.2.2,
  )

  Seg-erase :
      (a : ℕ) (xs : List ℕ)
      → a ∉ xs
      → Distinct xs
      → b ∉ xs
      → x ∈ xs
      → Seg h a xs b
      → Seg g a (erase x xs) b
  Seg-erase a [] o d e i s = cc
  Seg-erase a (y ∷ ys) o d e i s = elim (Bool-cases (x == y)) [
    | inl hit ↦
        let is : x ≡ y = ground arith in
        rw hit (
          Seg-join a ys (ground arith) d.1 (ground arith) (ground arith) (ground arith)
            (ground arith))
    | inr miss ↦
        let inside : x ∈ ys = ground arith in
        let p = pre_mem h y b x ys s.2 inside in
        let n = next_mem h y b x ys s.2 (ground arith) in
        rw miss (
          j.same_next a (ground arith) ∙ s.0,
          j.same_pre y (ground arith) ∙ s.1,
          Seg-erase y ys d.0 d.1 (ground arith) inside s.2,
        )
  ]

-- `list_del` takes the node out, and the order of the others stays.
pub list_del-erase :
    (h : Links) (head x : ℕ) (xs : List ℕ)
    → Ring h head xs
    → x ∈ xs
    → Ring (list_del h x) head (erase x xs)
unfolding list_del
list_del-erase h head x xs r i = record {
  apart = not-mem-erase head x xs r.apart;
  distinct = Distinct-erase x xs r.distinct;
  linked = Seg-erase h (list_del h x) x joins head head xs r.apart r.distinct r.apart i r.linked;
}
  where
    joins : Joins h (list_del h x) x
    joins = record {
      forth = ground arith;
      back = ground arith;
      same_next = λ c k. ground arith;
      same_pre = λ c k. ground arith;
    }

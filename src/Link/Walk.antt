-- ===== src/Link/Walk.antt =====
-- include/os/list.h: traversal, the tests, and the empty list.

use mirros.Base.{
  ℕ, zero, suc, ◌<◌, ◌≡◌, ◌↔◌, ◌∙◌, refl, true, false, some, List, [], ◌∷◌, ◌++◌, arith, ◌==◌,
  length, Bool-cases, inl, inr, ◌∈◌, ◌∉◌, Distinct, has-snoc,
}
use mirros.Link.{
  Links, init_list, list_del_tail, is_list_empty, is_list_last, list_walk, list_for_each,
}
use mirros.Link.Ring.{Seg, Ring, last, last_mem, pre-last}

-- After `init_list` the node heads the empty list.
pub init_list-Ring : (h : Links) (list : ℕ) → Ring (init_list h list) list []
unfolding init_list
init_list-Ring h list = record { apart = refl; distinct = tt; linked = ground arith }

list_walk-Seg :
    (k : ℕ) (h : Links) (head a : ℕ) (xs : List ℕ)
    → Seg h a xs head
    → head ∉ xs
    → length xs < k
    → list_walk k h head (h.next a) ≡ some xs
unfolding list_walk
list_walk-Seg zero h head a xs s o f = absurd (omega arith)
list_walk-Seg (suc k) h head a [] s o f = ground arith
list_walk-Seg (suc k) h head a (x ∷ xs) s o f =
    rw s.0 (ground (arith, list_walk-Seg k h head x xs s.2 (ground arith) (omega arith)))

-- `list_for_each` visits exactly the nodes of the list, in order, and ends.
pub list_for_each-Ring :
    (h : Links) (head : ℕ) (xs : List ℕ) (fuel : ℕ)
    → Ring h head xs
    → length xs < fuel
    → list_for_each fuel h head ≡ some xs
unfolding list_for_each
list_for_each-Ring h head xs fuel r f = list_walk-Seg fuel h head head xs r.linked r.apart f

-- `is_list_empty` is true of the empty list only.
pub is_list_empty-Ring :
    (h : Links) (head : ℕ) (xs : List ℕ)
    → Ring h head xs
    → (is_list_empty h head ≡ true) ↔ (xs ≡ [])
unfolding is_list_empty
is_list_empty-Ring h head [] r = (λ e. refl, λ e. ground (arith, r.linked))
is_list_empty-Ring h head (x ∷ xs) r =
    (λ e. absurd (ground (arith, r.linked, r.apart)), λ e. ground arith)

pre-snoc : (h : Links) (a x b : ℕ) (xs : List ℕ) → Seg h a (xs ++ x ∷ []) b → h.pre x ≡ last a xs
pre-snoc h a x b [] s = s.1
pre-snoc h a x b (y ∷ ys) s = pre-snoc h y x b ys s.2

last-snoc : (a x : ℕ) (xs : List ℕ) → last a (xs ++ x ∷ []) ≡ x
last-snoc a x [] = refl
last-snoc a x (y ∷ ys) = last-snoc y x ys

Seg-init :
    (h g : Links) (a x b : ℕ) (xs : List ℕ)
    → a ∉ (xs ++ x ∷ [])
    → Distinct (xs ++ x ∷ [])
    → b ∉ (xs ++ x ∷ [])
    → g.next (last a xs) ≡ b
    → g.pre b ≡ last a xs
    → ((c : ℕ) → (c == last a xs) ≡ false → g.next c ≡ h.next c)
    → ((c : ℕ) → (c == b) ≡ false → g.pre c ≡ h.pre c)
    → Seg h a (xs ++ x ∷ []) b
    → Seg g a xs b
Seg-init h g a x b [] o d m n p same_n same_p s = (n, p)
Seg-init h g a x b (y ∷ ys) o d m n p same_n same_p s = (
  same_n a (ground (arith, last_mem y ys, has-snoc a x ys)) ∙ s.0,
  same_p y (ground arith) ∙ s.1,
  Seg-init h g y x b ys d.0 d.1 (ground arith) n p same_n same_p s.2,
)

Distinct-init : (x : ℕ) (xs : List ℕ) → Distinct (xs ++ x ∷ []) → Distinct xs
Distinct-init x [] d = tt
Distinct-init x (y ∷ ys) d = (ground (arith, has-snoc y x ys), Distinct-init x ys d.1)

-- `list_del_tail` takes the last node out.
pub list_del_tail-snoc :
    (h : Links) (head x : ℕ) (xs : List ℕ)
    → Ring h head (xs ++ x ∷ [])
    → Ring (list_del_tail h head) head xs
unfolding list_del_tail
list_del_tail-snoc h head x xs r =
    let e : h.pre head ≡ x = pre-last h head head (xs ++ x ∷ []) r.linked ∙ last-snoc head x xs in
    let e' : h.pre x ≡ last head xs = pre-snoc h head x head xs r.linked in
    record {
      apart = ground (arith, r.apart, has-snoc head x xs);
      distinct = Distinct-init x xs r.distinct;
      linked =
          Seg-init h (list_del_tail h head) head x head xs r.apart r.distinct r.apart (ground arith)
            (ground arith) (λ c i. ground arith) (λ c i. ground arith) r.linked;
    }

next-snoc : (h : Links) (a x b : ℕ) (xs : List ℕ) → Seg h a (xs ++ x ∷ []) b → h.next x ≡ b
next-snoc h a x b [] s = s.2.0
next-snoc h a x b (y ∷ ys) s = next-snoc h y x b ys s.2

next_inner :
    (h : Links) (a x b y : ℕ) (xs : List ℕ)
    → Seg h a (xs ++ x ∷ []) b
    → y ∈ (a ∷ xs)
    → h.next y ∈ (xs ++ x ∷ [])
next_inner h a x b y [] s i = ground arith
next_inner h a x b y (z ∷ zs) s i = elim (Bool-cases (y == a)) [
  | inl e ↦ ground arith
  | inr e ↦ ground (arith, next_inner h z x b y zs s.2)
]

-- `is_list_last` is true of the last node only.
pub is_list_last-Ring :
    (h : Links) (head x : ℕ) (xs : List ℕ)
    → Ring h head (xs ++ x ∷ [])
    → (is_list_last h head x ≡ true) × ((y : ℕ) → y ∈ xs → is_list_last h head y ≡ false)
unfolding is_list_last
is_list_last-Ring h head x xs r = (
  ground (arith, next-snoc h head x head xs r.linked),
  λ y i. ground (arith, next_inner h head x head y xs r.linked, r.apart),
)

-- The links lead forward from `a` through `xs` to `b`, whatever they say backward.
abbrev pub IsChain : Links → ℕ → List ℕ → ℕ → Type 0
IsChain h a [] b = h.next a ≡ b
IsChain h a (x ∷ xs) b = (h.next a ≡ x) × IsChain h x xs b

list_walk-forward :
    (k : ℕ) (h : Links) (head a : ℕ) (xs : List ℕ)
    → IsChain h a xs head
    → head ∉ xs
    → length xs < k
    → list_walk k h head (h.next a) ≡ some xs
unfolding list_walk
list_walk-forward zero h head a xs s o f = absurd (omega arith)
list_walk-forward (suc k) h head a [] s o f = ground arith
list_walk-forward (suc k) h head a (x ∷ xs) s o f =
    rw s.0 (ground (arith, list_walk-forward k h head x xs s.1 (ground arith) (omega arith)))

pub list_for_each-forward :
    (h : Links) (head : ℕ) (xs : List ℕ) (fuel : ℕ)
    → IsChain h head xs head
    → head ∉ xs
    → length xs < fuel
    → list_for_each fuel h head ≡ some xs
unfolding list_for_each
list_for_each-forward h head xs fuel p o f = list_walk-forward fuel h head head xs p o f

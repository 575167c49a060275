-- ===== src/Link/Twice.antt =====
-- include/os/list.h: `list_add_tail` of a node that is in the list already cuts the list off
-- behind it.
use mirros.Base.{
  ℕ, ◌+◌, ◌<◌, ◌≡◌, refl, ◌∙◌, inl, inr, some, List, [], ◌∷◌, ◌++◌, arith, ◌==◌, Bool-cases, length,
  length-append, ◌∈◌, ◌∉◌, Distinct, has-append, has-snoc,
}
use mirros.Link.{Links, list_add_tail, list_for_each}
use mirros.Link.Ring.{Seg, Ring, last, last_mem, pre-last}
use mirros.Link.Walk.{IsChain, list_for_each-forward}

last-append : (a x : ℕ) (xs ys : List ℕ) → last a (xs ++ x ∷ ys) ≡ last x ys
last-append a x [] ys = refl
last-append a x (z ∷ zs) ys = last-append z x zs ys

module _ (h g : Links) (t : ℕ) (head : ℕ) (ends : g.next t ≡ head) where
  IsChain-cut :
      (a : ℕ) (xs ys : List ℕ)
      → Seg h a (xs ++ t ∷ ys) head
      → ((c : ℕ) → c ∈ (a ∷ xs) → g.next c ≡ h.next c)
      → IsChain g a (xs ++ t ∷ []) head
  IsChain-cut a [] ys s n = (n a (ground arith) ∙ s.0, ends)
  IsChain-cut a (x ∷ xs) ys s n =
      (n a (ground arith) ∙ s.0, IsChain-cut x xs ys s.2 (λ c i. n c (ground arith)))

apart_of : (c t : ℕ) (xs ys : List ℕ) → Distinct (xs ++ t ∷ ys) → c ∈ xs → c ∉ (t ∷ ys)
apart_of c t [] ys d i = cc
apart_of c t (x ∷ xs) ys d i = elim (Bool-cases (c == x)) [
  | inl e ↦ ground (arith, has-append x xs (t ∷ ys))
  | inr e ↦ apart_of c t xs ys d.1 (ground arith)
]

-- The walk then ends at the node that was added twice.
pub list_add_tail-twice :
    (h : Links) (head t : ℕ) (xs ys : List ℕ) (fuel : ℕ)
    → Ring h head (xs ++ t ∷ ys)
    → length xs + 1 < fuel
    → list_for_each fuel (list_add_tail h head t) head ≡ some (xs ++ t ∷ [])
unfolding list_add_tail
list_add_tail-twice h head t xs ys fuel r f =
    let z = pre-last h head head (xs ++ t ∷ ys) r.linked ∙ last-append head t xs ys in
    let out : (head ∉ xs) × (head ∉ (t ∷ ys)) =
      ground (arith, has-append head xs (t ∷ ys), r.apart) in
    list_for_each-forward (list_add_tail h head t) head (xs ++ t ∷ []) fuel
      (IsChain-cut h (list_add_tail h head t) t head (ground arith) head xs ys r.linked (λ c i.
        elim (Bool-cases (c == head)) [
          | inl e ↦ ground (arith, last_mem t ys)
          | inr e ↦ ground (arith, last_mem t ys, apart_of c t xs ys r.distinct)
        ]))
      (ground (arith, has-snoc head t xs)) (omega (arith, length-append xs (t ∷ [])))

-- ===== src/Link/Frame.antt =====
-- include/os/list.h: what the operations on one list leave of another list over the same fields.
use mirros.Base.{ℕ, List, ◌∷◌, arith, ◌∈◌, ◌∉◌}
use mirros.Link.{Links, list_add, list_add_tail, list_del}
use mirros.Link.Ring.{Ring, Ring-frame, next_mem, pre_mem, last_mem, pre-last}

-- The two lists share no node and no head.
abbrev pub Disjoint : List ℕ → List ℕ → Type 0
Disjoint ys xs = (c : ℕ) → c ∈ ys → c ∉ xs

module _ (h : Links) (head x : ℕ) (xs : List ℕ) (r : Ring h head xs) (other : ℕ) (ys : List ℕ)
    (d : Disjoint (other ∷ ys) (x ∷ head ∷ xs)) where
  pub list_add-Disjoint : Ring h other ys → Ring (list_add h head x) other ys
  unfolding list_add
  list_add-Disjoint =
      Ring-frame h (list_add h head x) other ys
        λ c i. (ground (arith, d c), ground (arith, d c, next_mem h head head head xs r.linked))

  pub list_add_tail-Disjoint : Ring h other ys → Ring (list_add_tail h head x) other ys
  unfolding list_add_tail
  list_add_tail-Disjoint = Ring-frame h (list_add_tail h head x) other ys λ c i.
      (ground (arith, d c, pre-last h head head xs r.linked, last_mem head xs), ground (arith, d c))

  pub list_del-Disjoint : x ∈ xs → Ring h other ys → Ring (list_del h x) other ys
  unfolding list_del
  list_del-Disjoint inside = Ring-frame h (list_del h x) other ys λ c i. (
    ground (arith, d c, pre_mem h head head x xs r.linked),
    ground (arith, d c, next_mem h head head x xs r.linked),
  )

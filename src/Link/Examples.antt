-- ===== src/Link/Examples.antt =====
-- include/os/list.h at one list: a head at 1, and nodes at 4, 5 and 6.
use mirros.Base.{ℕ, ◌≡◌, refl, some, List, [], ◌∷◌, arith}
use mirros.Link.{Links, init_list, list_add_tail, list_del, list_for_each}
use mirros.Link.Ring.{Ring, list_del-erase}
use mirros.Link.Walk.{list_for_each-Ring}

abbrev blank : Links
blank = record { next = λ a. 0; pre = λ a. 0 }

abbrev nodes : List ℕ
nodes = 4 ∷ 5 ∷ []

abbrev two : Links
unfolding list_add_tail init_list
two = list_add_tail (list_add_tail (init_list blank 1) 1 4) 1 5

two-Ring : Ring two 1 (4 ∷ 5 ∷ [])
unfolding two
two-Ring = record { apart = refl; distinct = (refl, (refl, tt)); linked = omega arith }

list_del-erase_example : Ring (list_del two 4) 1 (5 ∷ [])
list_del-erase_example = list_del-erase two 1 4 (4 ∷ 5 ∷ []) two-Ring refl

list_for_each-Ring_example : list_for_each 3 two 1 ≡ some (4 ∷ 5 ∷ [])
list_for_each-Ring_example = list_for_each-Ring two 1 (4 ∷ 5 ∷ []) 3 two-Ring (omega arith)

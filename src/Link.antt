-- ===== src/Link.antt =====
-- include/os/list.h: circular doubly linked lists, intrusive in the structures that they link.
-- The `list_head` fields of one name in all structures are one memory, indexed by the address of
-- the structure; so `container_of` is the identity, and a head stands at an address of its own.
pub mod Frame
pub mod Twice
mod Examples
pub mod Ring
pub mod Walk
use mirros.Base.{ℕ, zero, suc, Bool, Option, none, some, List, [], ◌∷◌, ◌==◌, if◌then◌else◌, update}
use mathlib.Core.Option

pub record Links : Type 0 where
  pub next : ℕ → ℕ
  pub pre : ℕ → ℕ

-- `a->next = b` and `a->pre = b`.
abbrev pub set_next : Links → ℕ → ℕ → Links
set_next h a b = record h { next = update h.next a b }

abbrev pub set_pre : Links → ℕ → ℕ → Links
set_pre h a b = record h { pre = update h.pre a b }

unfoldable pub init_list : Links → ℕ → Links
init_list h list = set_pre (set_next h list list) list list

unfoldable pub list_add : Links → ℕ → ℕ → Links
list_add h head new =
    let h1 = set_pre h (h.next head) new in
    let h2 = set_next h1 new (h1.next head) in let h3 = set_pre h2 new head in set_next h3 head new

unfoldable pub list_add_tail : Links → ℕ → ℕ → Links
list_add_tail h head new =
    let h1 = set_next h (h.pre head) new in
    let h2 = set_next h1 new head in let h3 = set_pre h2 new (h2.pre head) in set_pre h3 head new

unfoldable pub list_del : Links → ℕ → Links
list_del h list =
    let h1 = set_pre h (h.next list) (h.pre list) in set_next h1 (h1.pre list) (h1.next list)

unfoldable pub list_del_tail : Links → ℕ → Links
list_del_tail h head =
    let h1 = set_next h (h.pre (h.pre head)) head in set_pre h1 head (h1.pre (h1.pre head))

unfoldable pub is_list_empty : Links → ℕ → Bool
is_list_empty h head = h.next head == head

unfoldable pub is_list_last : Links → ℕ → ℕ → Bool
is_list_last h head list = h.next list == head

unfoldable pub list_next : Links → ℕ → ℕ
list_next h list = h.next list

unfoldable pub list_prve : Links → ℕ → ℕ
list_prve h list = h.pre list

unfoldable pub list_first_entry : Links → ℕ → ℕ
list_first_entry h head = h.next head

-- The nodes that `list_for_each` visits from `list` on, when the body changes no `next` that is
-- still to be read; `none` when the fuel runs out.
unfoldable pub list_walk : ℕ → Links → ℕ → ℕ → Option (List ℕ)
list_walk zero h head list = none
list_walk (suc k) h head list =
    let rest = list_walk k h head (h.next list) in
    if list == head then some [] else Option.map (λ xs. list ∷ xs) rest

unfoldable pub list_for_each : ℕ → Links → ℕ → Option (List ℕ)
unfolding list_walk
list_for_each fuel h head = list_walk fuel h head (h.next head)

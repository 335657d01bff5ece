-- ===== src/LinkedList.antt =====
-- logic/dataStructures/ll.c and ll.h. A node with its followers is the list of their values, and a
-- null pointer the empty list; an operation that writes through `Node **` returns the new list.
pub mod Laws
mod Tests
use iiw_udp_gbn.Base.{
  ℕ, zero, suc, ◌+◌, ◌||◌, List, [], ◌∷◌, Option, none, some, if◌then◌else◌, not, Bool,
}
use iiw_udp_gbn.Base.Int.{ℤ, pos, ltb_ℤ, pos_part}

module _ {ℓ} {V : Type ℓ} where
  abbrev pub new_node : V → List V
  new_node value = value ∷ []

  unfoldable pub append_ll : List V → V → List V
  append_ll [] value = new_node value
  append_ll (x ∷ []) value = x ∷ new_node value
  append_ll (x ∷ y ∷ r) value = x ∷ append_ll (y ∷ r) value

  len_loop : ℕ → List V → ℕ
  len_loop count [] = count
  len_loop count (x ∷ r) = len_loop (count + 1) r

  unfoldable pub len_ll : List V → ℕ
  unfolding len_loop
  len_ll current = len_loop 0 current

  abbrev pub out_of_range : List V → ℤ → Bool
  out_of_range l index = ltb_ℤ index (pos 0) || not (ltb_ℤ index (pos (len_ll l)))

  -- `index` steps along `next`; a step from null is a fault, which the callers' test rules out.
  travel : ℕ → List V → Option (List V)
  travel zero l = some l
  travel (suc i) [] = none
  travel (suc i) (x ∷ r) = travel i r

  -- The node at `index`, as the list that starts there; `none` is the error return 1.
  unfoldable pub get_ll : List V → ℤ → Option (List V)
  unfolding travel
  get_ll head index = if out_of_range head index then none else travel (pos_part index) head

  -- The node before the popped one is linked to the one behind it.
  unlink : ℕ → List V → Option (V × List V)
  unlink i [] = none
  unlink zero (x ∷ r) = some (x, r)
  unlink (suc i) (x ∷ r) = elim (unlink i r) [ none ↦ none | some (y, s) ↦ some (y, x ∷ s) ]

  -- The value for `*destination` and the list without the node; `none` is the error return 1, which
  -- leaves the list alone.
  unfoldable pub pop_ll : List V → ℤ → Option (V × List V)
  unfolding unlink
  pop_ll [] index = none
  pop_ll (x ∷ r) index =
      if out_of_range (x ∷ r) index then none else unlink (pos_part index) (x ∷ r)

-- ===== src/HashTable.antt =====
-- logic/dataStructures/hTable.c and hTable.h: an array of collision lists. A key is the bytes of its
-- block, and a value is whatever the void pointer stands for. An operation also returns the
-- values that it hands to free, since a later lookup must not find one of those.
pub mod Chain
pub mod Removal
pub mod Map
use iiw_udp_gbn.Base.{
  ℕ, zero, suc, ◌+◌, ◌*◌, ◌%◌, ◌^◌, Bool, true, false, List, [], ◌∷◌, Option, none, some, ◌==◌,
  if◌then◌else◌, update, ◌>>=◌,
}
use iiw_udp_gbn.Base.Int.{pos}
use iiw_udp_gbn.LinkedList.{new_node, append_ll, pop_ll}

abbrev pub hash_size : ℕ
hash_size = 101

abbrev pub prime : ℕ
prime = 31

pub record Pair {ℓ} (V : Type ℓ) : Type ℓ where
  pub key : List ℕ
  pub value : V

abbrev pub HashTable {ℓ} : Type ℓ → Type ℓ
HashTable V = ℕ → List (Pair V)

abbrev pub new_hash_table {ℓ} : {V : Type ℓ} → HashTable V
new_hash_table _ = []

-- `hash += key[i] + PRIME * hash` on a 32-bit unsigned
hash_loop : ℕ → List ℕ → ℕ
hash_loop h [] = h
hash_loop h (b ∷ key) = hash_loop ((h + (b + prime * h)) % 2 ^ 32) key

unfoldable pub hash : List ℕ → ℕ
unfolding hash_loop
hash key = hash_loop 1 key % hash_size

-- `memcmp(stored, key, keyLen) == 0`: the bytes of `key` decide how many are compared. A stored block
-- that ends first counts as different; the keys of one table have one length, or end in a byte
-- that the other key does not hold.
unfoldable pub memcmp_eq : List ℕ → List ℕ → Bool
memcmp_eq stored [] = true
memcmp_eq [] (b ∷ key) = false
memcmp_eq (a ∷ stored) (b ∷ key) = if a == b then memcmp_eq stored key else false

module _ {ℓ} {V : Type ℓ} where
  abbrev pub get_collision_list : HashTable V → ℕ → List (Pair V)
  get_collision_list self h = self h

  -- the loop of getValueFromHashTable
  unfoldable pub find : List ℕ → List (Pair V) → Option V
  find key [] = none
  find key (p ∷ c) = if memcmp_eq p.key key then some p.value else find key c

  unfoldable pub get_value_from_hash_table : HashTable V → List ℕ → Option V
  get_value_from_hash_table self key = find key (get_collision_list self (hash key))

  -- The loop of addToHashTable: the list with the new value in the first pair of that key.
  unfoldable pub reassign : List ℕ → V → List (Pair V) → Option (List (Pair V))
  reassign key value [] = none
  reassign key value (p ∷ c) =
      let rest = reassign key value c >>= λ r. some (p ∷ r) in
      if memcmp_eq p.key key then some (record p { value = value } ∷ c) else rest

  -- destroyPair on the new pair frees the new value where the key was bound already.
  unfoldable pub add_to_chain : List (Pair V) → List ℕ → V → List (Pair V) × List V
  add_to_chain [] key value = (new_node (record { key = key; value = value }), [])
  add_to_chain (p ∷ c) key value = elim (reassign key value (p ∷ c)) [
    | some chain ↦ (chain, value ∷ [])
    | none ↦ (append_ll (p ∷ c) (record { key = key; value = value }), [])
  ]

  unfoldable pub add_to_hash_table : HashTable V → List ℕ → V → HashTable V × List V
  unfolding add_to_chain
  add_to_hash_table self key value =
      let (chain, freed) = add_to_chain (get_collision_list self (hash key)) key value in
      (update self (hash key) chain, freed)

  -- the loop of removeFromHashTable, up to the pair that it destroys: its place and its value
  unfoldable pub position : List ℕ → ℕ → List (Pair V) → Option (ℕ × V)
  position key i [] = none
  position key i (p ∷ c) = if memcmp_eq p.key key then some (i, p.value) else position key (i + 1) c

  unfoldable pub remove_from_chain : List (Pair V) → List ℕ → List (Pair V) × List V
  remove_from_chain c key = elim (position key 0 c) [
    | none ↦ (c, [])
    | some (i, value) ↦ elim (pop_ll c (pos i)) [
      | none ↦ (c, value ∷ [])
      | some (_, r) ↦ (r, value ∷ [])
    ]
  ]

  unfoldable pub remove_from_hash_table : HashTable V → List ℕ → HashTable V × List V
  unfolding remove_from_chain
  remove_from_hash_table self key =
      let (chain, freed) = remove_from_chain (get_collision_list self (hash key)) key in
      (update self (hash key) chain, freed)

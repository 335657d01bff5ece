-- ===== src/Release/Once.antt =====
-- How often a destructor frees each block.
use iiw_udp_gbn.Base.{ℕ, zero, suc, ◌+◌, ◌≡◌, refl, List, [], ◌∷◌, ◌++◌, arith, if◌then◌else◌, ◌==◌}
use iiw_udp_gbn.HashTable.{hash_size}
use iiw_udp_gbn.Release.{
  free, destroy_pair, NodeBlocks, destroy_ll, destroy_pairs, destroy_lists, destroy_hash_table,
  SortingTableBlocks, destroy_sorting_table,
}

-- How often the block occurs.
abbrev pub times : ℕ → List ℕ → ℕ
times block [] = 0
times block (b ∷ bs) = (if b == block then 1 else 0) + times block bs

times-append :
    (block : ℕ) (xs ys : List ℕ) → times block (xs ++ ys) ≡ times block xs + times block ys
times-append block [] ys = omega arith
times-append block (x ∷ xs) ys = omega (arith, times-append block xs ys)

-- The blocks of a node: itself, its pair, and the key and the value of that.
abbrev pub node_blocks : NodeBlocks → List ℕ
node_blocks node = node.self ∷ (node.pair.self ∷ (free node.pair.key ++ free node.pair.value))

abbrev pub chain_blocks : List NodeBlocks → List ℕ
chain_blocks [] = []
chain_blocks (node ∷ next) = node_blocks node ++ chain_blocks next

-- The sum over the collision lists from the i-th on, `n` of them.
abbrev pub times_in : ℕ → ℕ → ℕ → (ℕ → List NodeBlocks) → ℕ
times_in block zero i table = 0
times_in block (suc n) i table =
    times block (chain_blocks (table i)) + times_in block n (i + 1) table

chain_times :
    (block : ℕ) (chain : List NodeBlocks)
    → times block (destroy_pairs chain) + times block (destroy_ll chain)
      ≡ times block (chain_blocks chain)
unfolding destroy_pairs destroy_ll
chain_times block [] = refl
chain_times block (node ∷ next) =
    let p = node.pair in
    omega (
      arith,
      chain_times block next,
      times-append block (destroy_pair p) (destroy_pairs next),
      times-append block (free p.key) (free p.value ++ p.self ∷ []),
      times-append block (free p.value) (p.self ∷ []),
      times-append block (destroy_ll next) (node.self ∷ []),
      times-append block (node_blocks node) (chain_blocks next),
      times-append block (free p.key) (free p.value),
    )

lists_times :
    (block n i : ℕ) (table : ℕ → List NodeBlocks)
    → times block (destroy_lists n i table) ≡ times_in block n i table
unfolding destroy_lists
lists_times block zero i table = refl
lists_times block (suc n) i table =
    let chain = table i in
    let later = destroy_lists n (i + 1) table in
    omega (
      arith,
      chain_times block chain,
      lists_times block n (i + 1) table,
      times-append block (destroy_pairs chain) (destroy_ll chain ++ later),
      times-append block (destroy_ll chain) later,
    )

-- destroySortingTable frees each block as often as it is one of the table's: the two structs, and in the 101
-- collision lists each node with its pair, the key and the value of that.
pub destroy_sorting_table_lem :
    (block : ℕ) (t : SortingTableBlocks)
    → times block (destroy_sorting_table t)
      ≡ times_in block hash_size 0 t.table.table + times block (t.table.self ∷ t.self ∷ [])
unfolding destroy_sorting_table destroy_hash_table
destroy_sorting_table_lem block t =
    let lists = destroy_lists hash_size 0 t.table.table in
    omega (
      arith,
      lists_times block hash_size 0 t.table.table,
      times-append block (lists ++ t.table.self ∷ []) (t.self ∷ []),
      times-append block lists (t.table.self ∷ []),
    )

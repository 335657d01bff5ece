-- ===== src/Release/Tests.antt =====
-- A table with one entry.
use iiw_udp_gbn.Base.{ℕ, ◌+◌, ◌≡◌, refl, [], ◌∷◌, some, if◌then◌else◌, ◌==◌}
use iiw_udp_gbn.Release.{
  NodeBlocks, SortingTableBlocks, destroy_pairs, destroy_ll, destroy_sorting_table,
}
use iiw_udp_gbn.Release.Once.{times, destroy_sorting_table_lem}

abbrev node : ℕ → NodeBlocks
node i = record {
  self = i;
  pair = record { self = i + 1; key = some (i + 2); value = some (i + 3) };
}

-- the pairs from the front, the nodes from the back
chain_order : destroy_pairs (node 10 ∷ node 20 ∷ []) ≡ 12 ∷ 13 ∷ 11 ∷ 22 ∷ 23 ∷ 21 ∷ []
unfolding destroy_pairs
chain_order = refl

nodes_order : destroy_ll (node 10 ∷ node 20 ∷ []) ≡ 20 ∷ 10 ∷ []
unfolding destroy_ll
nodes_order = refl

-- The nodes stand in the first collision list; the key of the first is the block 12.
abbrev table : SortingTableBlocks
table = record {
  self = 1;
  table = record { self = 2; table = λ i. if i == 0 then node 10 ∷ node 20 ∷ [] else [] };
}

destroy_sorting_table_lem_example : times 12 (destroy_sorting_table table) ≡ 1
destroy_sorting_table_lem_example = destroy_sorting_table_lem 12 table

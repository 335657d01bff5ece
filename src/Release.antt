-- ===== src/Release.antt =====
-- The destructors of logic: which blocks they hand to free, in the order of the calls. A block is its
-- address, and a null pointer, for which free does nothing, is `none`.
pub mod Once
mod Tests
use iiw_udp_gbn.Base.{ℕ, zero, suc, ◌+◌, List, [], ◌∷◌, ◌++◌, Option, none, some}
use iiw_udp_gbn.HashTable.{hash_size}
use iiw_udp_gbn.SendWindow.{queue_len}

abbrev pub free : Option ℕ → List ℕ
free none = []
free (some block) = block ∷ []

pub record PacketBlocks : Type 0 where
  pub self : ℕ
  pub header : ℕ
  pub data_block : Option ℕ

unfoldable pub destroy_packet : Option PacketBlocks → List ℕ
destroy_packet none = []
destroy_packet (some p) = free p.data_block ++ p.header ∷ p.self ∷ []

pub record MessageBlocks : Type 0 where
  pub self : ℕ
  pub message_header : ℕ
  pub payload : Option ℕ

-- The payload is left to the caller.
unfoldable pub destroy_message : MessageBlocks → List ℕ
destroy_message m = m.message_header ∷ m.self ∷ []

pub record PairBlocks : Type 0 where
  pub self : ℕ
  pub key : Option ℕ
  pub value : Option ℕ

abbrev pub destroy_pair : PairBlocks → List ℕ
destroy_pair p = free p.key ++ (free p.value ++ p.self ∷ [])

-- A node of a collision list and its value.
pub record NodeBlocks : Type 0 where
  pub self : ℕ
  pub pair : PairBlocks

-- The followers of a node go before the node.
unfoldable pub destroy_ll : List NodeBlocks → List ℕ
destroy_ll [] = []
destroy_ll (node ∷ next) = destroy_ll next ++ node.self ∷ []

unfoldable pub destroy_pairs : List NodeBlocks → List ℕ
destroy_pairs [] = []
destroy_pairs (node ∷ next) = destroy_pair node.pair ++ destroy_pairs next

-- The rounds from `i` on, by their number.
unfoldable pub destroy_lists : ℕ → ℕ → (ℕ → List NodeBlocks) → List ℕ
destroy_lists zero i table = []
destroy_lists (suc n) i table =
    destroy_pairs (table i) ++ (destroy_ll (table i) ++ destroy_lists n (i + 1) table)

pub record HashTableBlocks : Type 0 where
  pub self : ℕ
  pub table : ℕ → List NodeBlocks

unfoldable pub destroy_hash_table : HashTableBlocks → List ℕ
destroy_hash_table t = destroy_lists hash_size 0 t.table ++ t.self ∷ []

pub record SortingTableBlocks : Type 0 where
  pub self : ℕ
  pub table : HashTableBlocks

unfoldable pub destroy_sorting_table : SortingTableBlocks → List ℕ
unfolding destroy_hash_table
destroy_sorting_table t = destroy_hash_table t.table ++ t.self ∷ []

pub record PadBlocks : Type 0 where
  pub self : ℕ
  pub packet : Option PacketBlocks

unfoldable pub destroy_launch_pad : PadBlocks → List ℕ
unfolding destroy_packet
destroy_launch_pad pad = destroy_packet pad.packet ++ pad.self ∷ []

-- The loop of destroyLaunchBattery frees the pads themselves.
unfoldable pub free_pads : ℕ → ℕ → (ℕ → PadBlocks) → List ℕ
free_pads zero i battery = []
free_pads (suc n) i battery = (battery i).self ∷ free_pads n (i + 1) battery

unfoldable pub destroy_launch_battery : ℕ → (ℕ → PadBlocks) → List ℕ
unfolding free_pads
destroy_launch_battery self battery = free_pads queue_len 0 battery ++ self ∷ []

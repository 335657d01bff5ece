-- ===== src/SortingTable.antt =====
-- logic/gbn/sortingTable.c and sortingTable.h: what the sender keeps of each message, in a hash
-- table under the four bytes of the message id.
pub mod Laws
mod Tests
use iiw_udp_gbn.Base.{ℕ, List, Option}
use iiw_udp_gbn.Base.Int.{ℤ}
use iiw_udp_gbn.HashTable.{
  HashTable, new_hash_table, get_value_from_hash_table, add_to_hash_table, remove_from_hash_table,
}
use iiw_udp_gbn.Wire.{store_int}

-- The content of a sockaddr_in.
pub record Address : Type 0 where
  pub host : ℕ
  pub port : ℕ

-- `error_handler` is a function pointer, which the code stores and never calls.
pub record SortingEntry : Type 0 where
  pub sd : ℤ
  pub addr : Address
  pub addrlen : ℕ
  pub error_handler : Option ℕ

abbrev pub SortingTable : Type 0
SortingTable = HashTable SortingEntry

abbrev pub new_sorting_table : SortingTable
new_sorting_table = new_hash_table

abbrev pub craft_key_from_msg_id : ℤ → List ℕ
craft_key_from_msg_id msg_id = store_int msg_id

-- The table, and the entries that the call has handed to free.
unfoldable pub add_to_sorting_table :
    SortingTable → ℤ → SortingEntry → SortingTable × List SortingEntry
add_to_sorting_table self msg_id entry = add_to_hash_table self (craft_key_from_msg_id msg_id) entry

unfoldable pub get_from_sorting_table : SortingTable → ℤ → Option SortingEntry
get_from_sorting_table self msg_id = get_value_from_hash_table self (craft_key_from_msg_id msg_id)

unfoldable pub remove_from_sorting_table : SortingTable → ℤ → SortingTable × List SortingEntry
remove_from_sorting_table self msg_id = remove_from_hash_table self (craft_key_from_msg_id msg_id)

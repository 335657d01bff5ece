-- ===== src/SortingTable/Tests.antt =====
-- A table with one message.
use iiw_udp_gbn.Base.{◌≡◌, [], ◌∷◌, none, some, arith}
use iiw_udp_gbn.Base.Int.{ℤ, pos}
use iiw_udp_gbn.SortingTable.{
  SortingTable, SortingEntry, new_sorting_table, add_to_sorting_table, get_from_sorting_table,
  remove_from_sorting_table,
}
use iiw_udp_gbn.SortingTable.Laws.{
  IsSortingTable, new_sorting_table-IsSortingTable, get-add_to_sorting_table,
  get-remove_from_sorting_table, add_to_sorting_table_dangles,
}

abbrev entry_at : ℤ → SortingEntry
entry_at sd = record {
  sd = sd;
  addr = record { host = 1; port = 2 };
  addrlen = 16;
  error_handler = none;
}

abbrev one_message : SortingTable
one_message = (add_to_sorting_table new_sorting_table (pos 5) (entry_at (pos 3))).0

get-add_to_sorting_table_example :
    IsSortingTable (add_to_sorting_table new_sorting_table (pos 5) (entry_at (pos 3))).0
    × (get_from_sorting_table
          (add_to_sorting_table new_sorting_table (pos 5) (entry_at (pos 3))).0
          (pos 5)
        ≡ some (entry_at (pos 3)))
get-add_to_sorting_table_example =
    get-add_to_sorting_table new_sorting_table (pos 5) (pos 5) (entry_at (pos 3))
      new_sorting_table-IsSortingTable (omega arith) (omega arith)

one_message_lem :
    IsSortingTable one_message
    × (get_from_sorting_table one_message (pos 5) ≡ some (entry_at (pos 3)))
one_message_lem =
    get-add_to_sorting_table new_sorting_table (pos 5) (pos 5) (entry_at (pos 3))
      new_sorting_table-IsSortingTable (omega arith) (omega arith)

get-remove_from_sorting_table_example :
    let (t', freed) = remove_from_sorting_table one_message (pos 5) in
    IsSortingTable t'
    × (get_from_sorting_table t' (pos 6) ≡ get_from_sorting_table one_message (pos 6))
    × (freed ≡ elim (get_from_sorting_table one_message (pos 5)) [ none ↦ [] | some e ↦ e ∷ [] ])
get-remove_from_sorting_table_example =
    get-remove_from_sorting_table one_message (pos 5) (pos 6) one_message_lem.0 (omega arith)
      (omega arith)

add_to_sorting_table_dangles_example :
    let (t', freed) = add_to_sorting_table one_message (pos 5) (entry_at (pos 4)) in
    (get_from_sorting_table t' (pos 5) ≡ some (entry_at (pos 4))) × (freed ≡ entry_at (pos 4) ∷ [])
add_to_sorting_table_dangles_example =
    add_to_sorting_table_dangles one_message (pos 5) (entry_at (pos 3)) (entry_at (pos 4))
      one_message_lem.0 (omega arith) one_message_lem.1

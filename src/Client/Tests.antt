-- ===== src/Client/Tests.antt =====
-- The client's socket and command line at concrete values.
use iiw_udp_gbn.Base.{◌≡◌, ◌↔◌, refl, [], ◌∷◌, ◌++◌, some, none, replicate}
use iiw_udp_gbn.Base.Int.{pos, negsuc}
use iiw_udp_gbn.Client.Commands.{
  supported_command_names, get_command_by_name, get_command_by_name_lem, name_of, get_name,
  parse_command_name,
}
use iiw_udp_gbn.Client.Socket.{
  binds, in_use, refuses, bound_to, gave_up, trying, socket_result, get_global_socket,
  get_global_socket_search, get_global_socket_again,
}
use iiw_udp_gbn.HashTable.{get_value_from_hash_table, find, add_to_hash_table, hash}
use iiw_udp_gbn.Protocol.{get}

get_global_socket_search_example :
    (get_global_socket (negsuc 0) (pos 3) (replicate 2 in_use ++ binds ∷ [])
      ≡ (pos 3, some (bound_to 1026)))
    × (get_global_socket (negsuc 0) (pos 3) (replicate 2 in_use ++ refuses ∷ [])
        ≡ (pos 3, some gave_up))
    × (get_global_socket (negsuc 0) (pos 3) (replicate 2 in_use ++ [])
        ≡ (pos 3, some (trying 1026)))
get_global_socket_search_example = get_global_socket_search 2 0 3 []

known_names : (get_command_by_name get_name ≡ some get) ↔ (name_of get ≡ some get_name)
known_names = get_command_by_name_lem get_name get

get_global_socket_again_example :
    (socket_result (get_global_socket (negsuc 0) (pos 3) (refuses ∷ [])) ≡ some (negsuc 0))
    × (socket_result (get_global_socket (pos 3) (pos 4) (binds ∷ [])) ≡ some (pos 3))
unfolding get_global_socket
get_global_socket_again_example = get_global_socket_again 0 0 3 4 [] (binds ∷ [])

-- "PUT" in capitals is no command.
parse_capitals : parse_command_name ([] ∷ (80 ∷ 85 ∷ 84 ∷ []) ∷ []) ≡ none
unfolding parse_command_name get_command_by_name get_value_from_hash_table find
    supported_command_names add_to_hash_table hash
parse_capitals = refl

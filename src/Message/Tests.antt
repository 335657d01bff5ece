-- ===== src/Message/Tests.antt =====
-- A message with a payload.
use iiw_udp_gbn.Base.{ℕ, ◌≡◌, refl, true, List, [], ◌∷◌, ◌++◌, some, arith, length}
use iiw_udp_gbn.Base.Int.{pos, negsuc}
use iiw_udp_gbn.Message.{Message, calc_message_size, serialize_message, deserialize_message}
use iiw_udp_gbn.Message.RoundTrip.{IsWellFormed, deserialize-serialize_message}

abbrev three_bytes : Message
three_bytes = record {
  message_header = record {
    command = pos 1;
    status = negsuc 0;
    payload_lentgh = pos 3;
    more = true;
  };
  payload = 97 ∷ 98 ∷ 99 ∷ [];
}

three_bytes-IsWellFormed : IsWellFormed three_bytes
three_bytes-IsWellFormed = record {
  command = omega arith;
  status = omega arith;
  payload_lentgh = omega arith;
  carried = refl;
}

deserialize-serialize_message_example :
    (bytes : List ℕ) × (serialize_message three_bytes ≡ some bytes)
    × (calc_message_size three_bytes ≡ pos (length bytes))
    × (deserialize_message (bytes ++ 1 ∷ []) ≡ some three_bytes)
deserialize-serialize_message_example =
    deserialize-serialize_message three_bytes (1 ∷ []) three_bytes-IsWellFormed

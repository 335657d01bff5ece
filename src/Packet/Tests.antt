-- ===== src/Packet/Tests.antt =====
-- The packet operations on concrete packets and messages.
use iiw_udp_gbn.Base.{
  ℕ, ◌+◌, ◌-◌, ◌/◌, ◌%◌, ◌≡◌, refl, true, false, List, [], ◌∷◌, ◌++◌, none, some, arith, length,
  replicate, if◌then◌else◌, ◌==◌,
}
use iiw_udp_gbn.Base.Int.{pos}
use iiw_udp_gbn.Packet.{
  Packet, calc_max_data_len, calc_packet_size, serialize_packet, deserialize_packet,
  generate_msg_id, int_max, packetize,
}
use iiw_udp_gbn.Packet.Packetize.{payload, AreParts, payload-packetize, packetize-AreParts}
use iiw_udp_gbn.Packet.RoundTrip.{IsWellFormed, deserialize-serialize}
use iiw_udp_gbn.Wire.{load_bool, load_int}

abbrev two_bytes : Packet
two_bytes = record {
  header = record {
    is_ack = false;
    is_first = true;
    index = pos 1023;
    end_index = pos 3;
    msg_id = pos 9;
    data_len = pos 2;
    queue_len = pos 1024;
    ack_port = 40000;
  };
  content = 104 ∷ 105 ∷ [];
}

two_bytes-IsWellFormed : IsWellFormed two_bytes
two_bytes-IsWellFormed = record {
  index = omega arith;
  end_index = omega arith;
  msg_id = omega arith;
  queue_len = omega arith;
  data_len = omega arith;
  ack_port = omega arith;
  carried = refl;
}

deserialize-serialize_example :
    (bytes : List ℕ) × (serialize_packet two_bytes ≡ some bytes)
    × (calc_packet_size two_bytes ≡ pos (length bytes))
    × (deserialize_packet (bytes ++ 0 ∷ 7 ∷ []) ≡ some two_bytes)
deserialize-serialize_example = deserialize-serialize two_bytes (0 ∷ 7 ∷ []) two_bytes-IsWellFormed

-- a buffer that ends in the header
short_buffer : deserialize_packet (1 ∷ 0 ∷ 2 ∷ []) ≡ none
unfolding deserialize_packet load_bool load_int
short_buffer = refl

three_bytes : payload (packetize 4 (1 ∷ 2 ∷ 3 ∷ [])).0 ≡ 1 ∷ 2 ∷ 3 ∷ []
three_bytes = payload-packetize 4 (1 ∷ 2 ∷ 3 ∷ [])

packetize-AreParts_example :
    AreParts 4 (3 / calc_max_data_len) (3 % calc_max_data_len) 0 (packetize 4 (1 ∷ 2 ∷ 3 ∷ [])).0
    × (length (packetize 4 (1 ∷ 2 ∷ 3 ∷ [])).0
        ≡ 3 / calc_max_data_len + (if 3 % calc_max_data_len == 0 then 0 else 1))
packetize-AreParts_example = packetize-AreParts 4 (1 ∷ 2 ∷ 3 ∷ [])

-- one byte more than fits into a packet makes two of them
two_packets : length (packetize 0 (replicate 1477 0)).0 ≡ 2
unfolding packetize
two_packets = refl

-- ids start again below the largest int
last_id : generate_msg_id (int_max - 1) ≡ (int_max - 1, 0)
unfolding generate_msg_id
last_id = refl

-- ===== src/Catcher/Tests.antt =====
-- A message of two packets, from the last pad of the ring on, at the receiver.
use iiw_udp_gbn.Base.{
  ℕ, ◌+◌, ◌%◌, ◌≡◌, ◌≤◌, refl, Bool, true, false, List, [], ◌∷◌, ◌++◌, none, some, arith, length,
  ltb, take, All,
}
use iiw_udp_gbn.Base.Int.{pos}
use iiw_udp_gbn.Catcher.{
  Arrival, failed, datagram, Catcher, Ack, returned, finish, start_catcher, listen_for_data, accept,
  acknowledge, catch_packet,
}
use iiw_udp_gbn.Catcher.Acks.{IsAckOf, catch_packet-IsAckOf}
use iiw_udp_gbn.Catcher.Complete.{none_left, other, next, listen_for_data_complete}
use iiw_udp_gbn.Catcher.Prefix.{IsPacketAt, listen_for_data_prefix, IsAt, start-IsAt}
use iiw_udp_gbn.Packet.{Packet, serialize_packet}
use iiw_udp_gbn.Packet.Packetize.{payload}
use iiw_udp_gbn.Packet.RoundTrip.{deserialize-serialize}
use iiw_udp_gbn.Packet.Series.{IsStamped, AreStamped}
use iiw_udp_gbn.SortingTable.{Address}

abbrev sender : Address
sender = record { host = 9; port = 9000 }

-- The packet with index 1023 + i of a message of two packets.
abbrev packet_at : ℕ → Bool → List ℕ → Packet
packet_at i first content = record {
  header = record {
    is_ack = false;
    is_first = first;
    index = pos ((1023 + i) % 1024);
    end_index = pos 0;
    msg_id = pos 7;
    data_len = pos (length content);
    queue_len = pos 1024;
    ack_port = 4000;
  };
  content = content;
}

abbrev p₀ : Packet
p₀ = packet_at 0 true (104 ∷ 105 ∷ [])

abbrev p₁ : Packet
p₁ = packet_at 1 false (33 ∷ [])

abbrev packets : List Packet
packets = p₀ ∷ p₁ ∷ []

p₀-IsStamped : IsStamped 1023 2 0 p₀
p₀-IsStamped = record {
  not_ack = refl;
  is_first = refl;
  index = refl;
  end_index = refl;
  queue_len = refl;
  formed = record {
    index = omega arith;
    end_index = omega arith;
    msg_id = omega arith;
    queue_len = omega arith;
    data_len = omega arith;
    ack_port = omega arith;
    carried = refl;
  };
  short = omega arith;
}

p₁-IsStamped : IsStamped 1023 2 1 p₁
p₁-IsStamped = record {
  not_ack = refl;
  is_first = refl;
  index = refl;
  end_index = refl;
  queue_len = refl;
  formed = record {
    index = omega arith;
    end_index = omega arith;
    msg_id = omega arith;
    queue_len = omega arith;
    data_len = omega arith;
    ack_port = omega arith;
    carried = refl;
  };
  short = omega arith;
}

packets-AreStamped : AreStamped 1023 2 0 packets
packets-AreStamped = (p₀-IsStamped, (p₁-IsStamped, tt))

wire₀ : (bytes : List ℕ) × (serialize_packet p₀ ≡ some bytes)
wire₀ =
    let (bytes, written, _, _) = deserialize-serialize p₀ [] p₀-IsStamped.formed in (bytes, written)

wire₁ : (bytes : List ℕ) × (serialize_packet p₁ ≡ some bytes)
wire₁ =
    let (bytes, written, _, _) = deserialize-serialize p₁ [] p₁-IsStamped.formed in (bytes, written)

abbrev first_arrives : Arrival
first_arrives = datagram wire₀.0 sender

abbrev second_arrives : Arrival
second_arrives = datagram wire₁.0 sender

first_is : IsPacketAt packets 0 first_arrives
first_is = (p₀, refl, wire₀.1)

second_is : IsPacketAt packets 1 second_arrives
second_is = (p₁, refl, wire₁.1)

-- the second before the first, and the first twice
abbrev mixed : List Arrival
mixed = second_arrives ∷ failed ∷ first_arrives ∷ first_arrives ∷ []

listen_for_data_prefix_example :
    (c : Catcher) × (acks : List Ack) × (k : ℕ) × (listen_for_data true mixed
      ≡ some (finish c, acks))
    × (k ≤ 2)
    × (c.msg_buf ≡ payload (take k packets))
    × (c.more ≡ ltb k 2)
listen_for_data_prefix_example =
    listen_for_data_prefix 1023 packets packets-AreStamped (omega arith) mixed (omega arith)
      ((1, second_is), (tt, ((0, first_is), ((0, first_is), tt))))

-- and then the second in its turn
listen_for_data_complete_example :
    (c : Catcher) × (acks : List Ack) × (listen_for_data true (mixed ++ second_arrives ∷ [])
      ≡ some (returned (pos 0) c, acks))
    × (c.msg_buf ≡ 104 ∷ 105 ∷ 33 ∷ [])
    × (c.connected ≡ none)
listen_for_data_complete_example =
    listen_for_data_complete 1023 packets packets-AreStamped (omega arith)
      (mixed ++ second_arrives ∷ []) (omega arith)
      (other (1, second_is)
        (other tt (next first_is (other (0, first_is) (next second_is (none_left (omega arith)))))))

-- the first packet is answered with the place of the second
catch_packet-IsAckOf_example :
    (c' : Catcher) × (acks : List Ack) × (catch_packet start_catcher p₀ sender ≡ some (c', acks))
    × IsAt 1023 packets 1 c'
    × All (IsAckOf 1023 2 1 p₀ c') acks
    × (length acks ≡ 1)
catch_packet-IsAckOf_example =
    catch_packet-IsAckOf 1023 packets 0 0 start_catcher p₀ sender
      (start-IsAt 1023 packets packets-AreStamped (omega arith) (omega arith)) packets-AreStamped
      refl (omega arith) (omega arith)

-- a packet that is not the first one of its message, before anything was received, has no answer
no_answer : catch_packet start_catcher p₁ sender ≡ some (start_catcher, [])
unfolding catch_packet acknowledge
no_answer = refl

-- a packet without a queue length
zero_queue :
    accept start_catcher (record p₀ { header = record p₀.header { queue_len = pos 0 } }) sender
    ≡ none
unfolding accept
zero_queue = refl

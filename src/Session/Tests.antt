-- ===== src/Session/Tests.antt =====
-- A handshake request on its way through the transport.
use iiw_udp_gbn.Base.{ℕ, ◌≡◌, refl, true, List, [], ◌∷◌, some, arith, length}
use iiw_udp_gbn.Base.Int.{pos}
use iiw_udp_gbn.Catcher.{Catcher, Ack, Arrival, datagram, returned}
use iiw_udp_gbn.Catcher.Complete.{next, none_left}
use iiw_udp_gbn.Gbn.{send_message_gbn, recv_message_gbn}
use iiw_udp_gbn.Gbn.Delivery.{airborne}
use iiw_udp_gbn.Gbn.Tests.{idle, idle-IsSender, entry}
use iiw_udp_gbn.LaunchBattery.Adding.{AreLoaded}
use iiw_udp_gbn.Launcher.{Launcher}
use iiw_udp_gbn.Packet.{
  Packet, make_packet, packetize, packetize_loop, generate_msg_id, serialize_packet,
}
use iiw_udp_gbn.Packet.RoundTrip.{IsWellFormed, deserialize-serialize}
use iiw_udp_gbn.SortingTable.Laws.{new_sorting_table-IsSortingTable}
use iiw_udp_gbn.Message.{Message, serialize_message, deserialize_message}
use iiw_udp_gbn.Message.RoundTrip
use iiw_udp_gbn.Message.RoundTrip.{wire_of}
use iiw_udp_gbn.Protocol.{hs, op_status_ok, message}
use iiw_udp_gbn.Protocol.Text.{message-IsWellFormed}
use iiw_udp_gbn.Session.Carriage.{deserialize-recv_message_gbn}
use iiw_udp_gbn.Wire.{store_int, store_bool}

-- A handshake request of 13 bytes, in one packet.
abbrev request : Message
request = message hs op_status_ok []

request-IsWellFormed : RoundTrip.IsWellFormed request
request-IsWellFormed = message-IsWellFormed hs op_status_ok [] (omega arith) (omega arith)

abbrev request_packet : Packet
request_packet = make_packet 5 0 (wire_of request) 0 13

abbrev request_stamped : Packet
request_stamped = airborne 0 1 4000 0 request_packet

request_stamped-IsWellFormed : IsWellFormed request_stamped
unfolding store_int store_bool
request_stamped-IsWellFormed = record {
  index = omega arith;
  end_index = omega arith;
  msg_id = omega arith;
  queue_len = omega arith;
  data_len = omega arith;
  ack_port = omega arith;
  carried = refl;
}

request_wire : (bytes : List ℕ) × (serialize_packet request_stamped ≡ some bytes)
request_wire =
    let (bytes, written, _, _) =
      deserialize-serialize request_stamped [] request_stamped-IsWellFormed in
    (bytes, written)

abbrev request_arrival : Arrival
request_arrival = datagram request_wire.0 (record { host = 9; port = 9000 })

deserialize-recv_message_gbn_example :
    (bytes : List ℕ) × (l' : Launcher) × (c : Catcher) × (acks : List Ack) × (serialize_message
        request
      ≡ some bytes)
    × (send_message_gbn idle 5 entry bytes ≡ some (l', 6, pos 0))
    × AreLoaded 0 (length (packetize 5 bytes).0) 0 (packetize 5 bytes).0 l'.battery.battery
    × (recv_message_gbn true (request_arrival ∷ []) ≡ some (returned (pos 0) c, acks))
    × (deserialize_message c.msg_buf ≡ some request)
unfolding packetize packetize_loop generate_msg_id store_int store_bool
deserialize-recv_message_gbn_example =
    deserialize-recv_message_gbn idle 1024 5 4000 entry request (request_arrival ∷ []) idle-IsSender
      new_sorting_table-IsSortingTable request-IsWellFormed (omega arith) (omega arith)
      (omega arith) (next (request_stamped, refl, request_wire.1) (none_left (omega arith)))

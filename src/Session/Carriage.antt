-- ===== src/Session/Carriage.antt =====
-- How a letter travels: sendMessageDMProtocol and receiveMessageDMProtocol on top of sendMessageGbn and
-- recvMessageGbn.
use iiw_udp_gbn.Base.{ℕ, ◌+◌, ◌<◌, ◌≤◌, ◌^◌, ◌%◌, ◌≡◌, true, List, some, arith, length}
use iiw_udp_gbn.Base.Int.{pos}
use iiw_udp_gbn.Catcher.{Catcher, Ack, Arrival, returned}
use iiw_udp_gbn.Catcher.Complete.{InOrder}
use iiw_udp_gbn.Gbn.{send_message_gbn, recv_message_gbn}
use iiw_udp_gbn.Gbn.Delivery.{on_air, recv_message_gbn-delivers}
use iiw_udp_gbn.Gbn.Sending.{send_message_gbn-accepts}
use iiw_udp_gbn.Launcher.{Launcher}
use iiw_udp_gbn.Launcher.Acks.{IsSender}
use iiw_udp_gbn.LaunchBattery.Adding.{AreLoaded}
use iiw_udp_gbn.Message.{Message, serialize_message, deserialize_message}
use iiw_udp_gbn.Message.RoundTrip.{
  IsWellFormed, wire_of, serialize_message-wire_of, deserialize_message-wire_of_self,
  length-wire_of,
}
use iiw_udp_gbn.Packet.{packetize, int_max}
use iiw_udp_gbn.SortingTable.{SortingEntry}
use iiw_udp_gbn.SortingTable.Laws.{IsSortingTable}

-- A message that is well formed travels whole: where the sender's invariant holds, its table is well
-- formed, the battery has room for all packets, the next id is below INT_MAX and the port has 16 bits,
-- the message is written, sendMessageGbn takes the bytes and returns 0 with the packets READY on
-- consecutive pads; and once the receiver's socket has handed over those packets, each in its turn,
-- whatever earlier, later or repeated ones and failures come between them, recvMessageGbn has returned
-- 0 with bytes that deserializeMessage reads as the same message.
pub deserialize-recv_message_gbn :
    (l : Launcher) (free last_msg_id port : ℕ) (entry : SortingEntry) (msg : Message)
    (arrivals : List Arrival)
    → IsSender l free
    → IsSortingTable l.send_table
    → IsWellFormed msg
    → last_msg_id < int_max
    → port < 2 ^ 16
    → length (packetize last_msg_id (wire_of msg)).0 ≤ free
    → InOrder
        (on_air l.battery.next_available_index
          (length (packetize last_msg_id (wire_of msg)).0)
          port
          0
          (packetize last_msg_id (wire_of msg)).0)
        0
        arrivals
    → (bytes : List ℕ) × (l' : Launcher) × (c : Catcher) × (acks : List Ack) × (serialize_message
          msg
        ≡ some bytes)
      × (send_message_gbn l last_msg_id entry bytes ≡ some (l', (last_msg_id + 1) % int_max, pos 0))
      × AreLoaded l.battery.next_available_index
          (length (packetize last_msg_id bytes).0)
          0
          (packetize last_msg_id bytes).0
          l'.battery.battery
      × (recv_message_gbn true arrivals ≡ some (returned (pos 0) c, acks))
      × (deserialize_message c.msg_buf ≡ some msg)
deserialize-recv_message_gbn l free last_msg_id port entry msg arrivals v table w id_in port_in fit
      order =
    let some_bytes : 0 < length (wire_of msg) = omega (arith, length-wire_of msg) in
    let (l', sent, _, loaded, _, _, _, _) =
      send_message_gbn-accepts l free last_msg_id entry (wire_of msg) (pos 0) v table id_in
        (omega arith) some_bytes fit in
    let (c, acks, run, whole) =
      recv_message_gbn-delivers l.battery.next_available_index port last_msg_id (wire_of msg)
        arrivals id_in port_in some_bytes (omega (arith, fit, v.valid.ring.fits)) order in
    (
      wire_of msg,
      l',
      c,
      acks,
      serialize_message-wire_of msg w,
      sent,
      loaded,
      run,
      rw whole (deserialize_message-wire_of_self msg w),
    )

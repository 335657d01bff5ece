-- ===== src/Packet/RoundTrip.antt =====
-- serializePacket and deserializePacket.
use mathlib.Core.List.{append_assoc}
use iiw_udp_gbn.Base.{
  ℕ, ◌+◌, ◌^◌, ◌<◌, ◌≡◌, sym, ◌∙◌, some_eq, List, ◌++◌, some, arith, length, length-append,
}
use iiw_udp_gbn.Base.Int.{pos, IsInt, ◌+ℤ◌}
use iiw_udp_gbn.Wire.{
  store_bool, store_int, store_port, load_bool-store_bool, load_int-store_int, load_port-store_port,
  copy_bytes-append, copy_bytes_self, length-store_bool,
}
use iiw_udp_gbn.Packet.{
  Packet, calc_header_size, calc_packet_size, serialize_packet, deserialize_packet,
}

-- Every member fits its C type, and `data_len` is the number of bytes that `data` points to.
pub record IsWellFormed (p : Packet) : Type 0 where
  pub index : IsInt p.header.index
  pub end_index : IsInt p.header.end_index
  pub msg_id : IsInt p.header.msg_id
  pub queue_len : IsInt p.header.queue_len
  pub data_len : IsInt p.header.data_len
  pub ack_port : p.header.ack_port < 2 ^ 16
  pub carried : p.header.data_len ≡ pos (length p.content)

abbrev wire_of : Packet → List ℕ
wire_of p =
    store_bool p.header.is_ack
    ++ (store_bool p.header.is_first
        ++ (store_int p.header.data_len
            ++ (store_int p.header.msg_id
                ++ (store_int p.header.index
                    ++ (store_int p.header.end_index
                        ++ (store_int p.header.queue_len
                            ++ (store_port p.header.ack_port ++ p.content)))))))

serialize_packet-wire_of : (p : Packet) → IsWellFormed p → serialize_packet p ≡ some (wire_of p)
unfolding serialize_packet
serialize_packet-wire_of p w = rw (copy_bytes_self _ p.content w.carried)

deserialize_packet-wire_of :
    (p : Packet) (rest : List ℕ) → IsWellFormed p → deserialize_packet (wire_of p ++ rest) ≡ some p
unfolding deserialize_packet
deserialize_packet-wire_of p rest w =
    simp
      (
        append_assoc, load_bool-store_bool, load_int-store_int, load_port-store_port, w.index,
        w.end_index, w.msg_id, w.queue_len, w.data_len, w.ack_port,
      )
      (rw (copy_bytes-append _ p.content rest w.carried))

length-wire_of : (p : Packet) → length (wire_of p) ≡ calc_header_size + length p.content
unfolding store_int store_port
length-wire_of p = simp (length-append, length-store_bool) (omega arith)

calc_packet_size_lem :
    (p : Packet) → IsWellFormed p → calc_packet_size p ≡ pos (calc_header_size + length p.content)
unfolding calc_packet_size ◌+ℤ◌
calc_packet_size_lem p w = rw w.carried (ground arith)

-- A well-formed packet is written in exactly calcPacketSize bytes, and whatever stands behind
-- those bytes in the receive buffer, reading them gives the same packet back.
pub deserialize-serialize :
    (p : Packet) (rest : List ℕ)
    → IsWellFormed p
    → (bytes : List ℕ) × (serialize_packet p ≡ some bytes)
      × (calc_packet_size p ≡ pos (length bytes))
      × (deserialize_packet (bytes ++ rest) ≡ some p)
deserialize-serialize p rest w = (
  wire_of p,
  serialize_packet-wire_of p w,
  rw length-wire_of (calc_packet_size_lem p w),
  deserialize_packet-wire_of p rest w,
)

-- The bytes that serializePacket has made of a packet.
pub serialized-read :
    (p : Packet) (bytes rest : List ℕ)
    → IsWellFormed p
    → serialize_packet p ≡ some bytes
    → (deserialize_packet (bytes ++ rest) ≡ some p)
      × (length bytes ≡ calc_header_size + length p.content)
serialized-read p bytes rest w e =
    let same : wire_of p ≡ bytes = some_eq (sym (serialize_packet-wire_of p w) ∙ e) in
    (rw (← same) (deserialize_packet-wire_of p rest w), rw (← same) (length-wire_of p))

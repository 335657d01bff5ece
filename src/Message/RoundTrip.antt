-- ===== src/Message/RoundTrip.antt =====
-- serializeMessage and deserializeMessage.
use mathlib.Core.List.{append_assoc, append-nil}
use iiw_udp_gbn.Base.{ℕ, ◌+◌, ◌≡◌, List, [], ◌++◌, some, arith, length, length-append}
use iiw_udp_gbn.Base.Int.{pos, IsInt, ◌+ℤ◌}
use iiw_udp_gbn.Message.{
  Message, calc_msg_header_size, calc_message_size, serialize_message, deserialize_message,
}
use iiw_udp_gbn.Wire.{
  store_bool, store_int, load_bool-store_bool, load_int-store_int, copy_bytes-append,
  copy_bytes_self, length-store_bool,
}

-- The members fit an int, and `payload_lentgh` is the number of bytes that `payload` points to.
pub record IsWellFormed (m : Message) : Type 0 where
  pub command : IsInt m.message_header.command
  pub status : IsInt m.message_header.status
  pub payload_lentgh : IsInt m.message_header.payload_lentgh
  pub carried : m.message_header.payload_lentgh ≡ pos (length m.payload)

-- The bytes of a message.
abbrev pub wire_of : Message → List ℕ
wire_of m =
    store_int m.message_header.command
    ++ (store_int m.message_header.status
        ++ (store_int m.message_header.payload_lentgh
            ++ (store_bool m.message_header.more ++ m.payload)))

pub serialize_message-wire_of :
    (m : Message) → IsWellFormed m → serialize_message m ≡ some (wire_of m)
unfolding serialize_message
serialize_message-wire_of m w = rw (copy_bytes_self _ m.payload w.carried)

deserialize_message-wire_of :
    (m : Message) (rest : List ℕ)
    → IsWellFormed m
    → deserialize_message (wire_of m ++ rest) ≡ some m
unfolding deserialize_message
deserialize_message-wire_of m rest w =
    simp
      (
        append_assoc, load_bool-store_bool, load_int-store_int, w.command, w.status,
        w.payload_lentgh,
      )
      (rw (copy_bytes-append _ m.payload rest w.carried))

pub deserialize_message-wire_of_self :
    (m : Message) → IsWellFormed m → deserialize_message (wire_of m) ≡ some m
deserialize_message-wire_of_self m w = rw append-nil at (deserialize_message-wire_of m [] w)

pub length-wire_of : (m : Message) → length (wire_of m) ≡ calc_msg_header_size + length m.payload
unfolding store_int
length-wire_of m = simp (length-append, length-store_bool) (omega arith)

calc_message_size_lem :
    (m : Message)
    → IsWellFormed m
    → calc_message_size m ≡ pos (calc_msg_header_size + length m.payload)
unfolding calc_message_size ◌+ℤ◌
calc_message_size_lem m w = rw w.carried (ground arith)

-- A well-formed message is written in exactly calcMessageSize bytes, and reading those bytes back,
-- whatever follows them, gives the same message.
pub deserialize-serialize_message :
    (m : Message) (rest : List ℕ)
    → IsWellFormed m
    → (bytes : List ℕ) × (serialize_message m ≡ some bytes)
      × (calc_message_size m ≡ pos (length bytes))
      × (deserialize_message (bytes ++ rest) ≡ some m)
deserialize-serialize_message m rest w = (
  wire_of m,
  serialize_message-wire_of m w,
  rw length-wire_of (calc_message_size_lem m w),
  deserialize_message-wire_of m rest w,
)

-- ===== src/Message.antt =====
-- logic/dm_protocol/message.c and message.h: the message of the application protocol.
pub mod RoundTrip
mod Tests
use iiw_udp_gbn.Base.{ℕ, ◌+◌, ◌*◌, Bool, false, List, [], ◌++◌, Option, some, ◌>>=◌}
use iiw_udp_gbn.Base.Int.{ℤ, pos, ◌+ℤ◌}
use iiw_udp_gbn.Packet.{size_of_bool, size_of_int}
use iiw_udp_gbn.Wire.{store_bool, load_bool, store_int, load_int, copy_bytes}

-- `payload_lentgh` is the source's spelling.
pub record MessageHeader : Type 0 where
  pub command : ℤ
  pub status : ℤ
  pub payload_lentgh : ℤ
  pub more : Bool

-- `payload` is what the pointer points to; a null pointer is the empty list.
pub record Message : Type 0 where
  pub message_header : MessageHeader
  pub payload : List ℕ

-- calloc leaves every member zero
abbrev pub new_message : Message
new_message = record {
  message_header = record { command = pos 0; status = pos 0; payload_lentgh = pos 0; more = false };
  payload = [];
}

abbrev pub calc_msg_header_size : ℕ
calc_msg_header_size = 3 * size_of_int + size_of_bool

unfoldable pub calc_message_size : Message → ℤ
calc_message_size msg = pos calc_msg_header_size +ℤ msg.message_header.payload_lentgh

unfoldable pub serialize_message : Message → Option (List ℕ)
serialize_message msg = do
  payload ← copy_bytes msg.message_header.payload_lentgh msg.payload
  some (
      store_int msg.message_header.command
      ++ (store_int msg.message_header.status
          ++ (store_int msg.message_header.payload_lentgh
              ++ (store_bool msg.message_header.more ++ payload))))

unfoldable pub deserialize_message : List ℕ → Option Message
deserialize_message bytes = do
  (command, b₁) ← load_int bytes
  (status, b₂) ← load_int b₁
  (payload_lentgh, b₃) ← load_int b₂
  (more, b₄) ← load_bool b₃
  payload ← copy_bytes payload_lentgh b₄
  some (record {
    message_header = record {
      command = command;
      status = status;
      payload_lentgh = payload_lentgh;
      more = more;
    };
    payload = payload;
  })

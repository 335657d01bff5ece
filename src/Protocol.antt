-- ===== src/Protocol.antt =====
-- logic/dm_protocol/dm_protocol.h: what client and server agree on, and the text in a payload.
pub mod Text
use iiw_udp_gbn.Base.{
  ℕ, ◌-◌, ◌^◌, List, [], ◌∷◌, ◌++◌, Option, none, some, ◌>>=◌, if◌then◌else◌, ◌==◌, length,
}
use iiw_udp_gbn.Base.Int.{ℤ, pos, negsuc}
use iiw_udp_gbn.Message.{Message, new_message}
use iiw_udp_gbn.SortingTable.{Address}

pub data DmProtocolCommand : Type 0 where
  unspecified put get list hs : DmProtocolCommand

abbrev pub command_code : DmProtocolCommand → ℤ
command_code unspecified = pos 0
command_code put = pos 1
command_code get = pos 2
command_code list = pos 3
command_code hs = pos 4

-- OP_STATUS_E is -INT_MAX, and the codes behind it count up.
abbrev pub op_status_e : ℤ
op_status_e = negsuc (2 ^ 31 - 2)

abbrev pub op_status_e_file_not_found : ℤ
op_status_e_file_not_found = negsuc (2 ^ 31 - 3)

abbrev pub op_status_incorrect : ℤ
op_status_incorrect = negsuc (2 ^ 31 - 4)

abbrev pub op_status_ok : ℤ
op_status_ok = pos 0

abbrev pub default_server_port : ℕ
default_server_port = 8888

-- INADDR_LOOPBACK
abbrev pub default_server_addr : ℕ
default_server_addr = 2130706433

-- getServerAddress
abbrev pub server_address : Address
server_address = record { host = default_server_addr; port = default_server_port }

-- A new message with a command, a status and a payload.
abbrev pub message : DmProtocolCommand → ℤ → List ℕ → Message
message command status payload = record {
  message_header = record new_message.message_header {
    command = command_code command;
    status = status;
    payload_lentgh = pos (length payload);
  };
  payload = payload;
}

-- A C string: the bytes before the first zero. Without one the read goes beyond the block, a fault.
abbrev pub c_string : List ℕ → Option (List ℕ)
c_string [] = none
c_string (b ∷ bytes) =
    let rest = c_string bytes >>= λ s. some (b ∷ s) in if b == 0 then some [] else rest

-- A payload as a string; without bytes it is a null pointer, the inner `none`.
abbrev pub payload_string : List ℕ → Option (Option (List ℕ))
payload_string [] = some none
payload_string (b ∷ bytes) = c_string (b ∷ bytes) >>= λ s. some (some s)

-- The block of a string, with the zero at its end.
abbrev pub terminated : List ℕ → List ℕ
terminated s = s ++ 0 ∷ []

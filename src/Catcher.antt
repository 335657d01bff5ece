-- ===== src/Catcher.antt =====
-- logic/gbn/catcher.c: listenForData, and with it recvMessageGbn of gbn.c. What the socket hands over is
-- a list of arrivals; the loop reads them until the message is complete.
pub mod Prefix
pub mod Complete
pub mod Acks
mod Tests
use iiw_udp_gbn.Base.{
  ℕ, zero, suc, ◌+◌, ◌%◌, Bool, true, false, ◌&&◌, ◌||◌, not, List, [], ◌∷◌, ◌++◌, Option, none,
  some, ◌>>=◌, if◌then◌else◌, length, take, drop, replicate, ◌==◌,
}
use iiw_udp_gbn.Base.Int.{ℤ, pos, negsuc, ◌+ℤ◌, eqb_ℤ, rem_ℤ, abs_ℤ}
use iiw_udp_gbn.Packet.{Packet, new_packet, mtu, deserialize_packet, serialize_packet}
use iiw_udp_gbn.SortingTable.{Address}

-- What one call of recvfrom returns.
pub data Arrival : Type 0 where
  failed : Arrival
  datagram : List ℕ → Address → Arrival

-- The locals of listenForData. `connected` is the address that the socket is connected to,
-- `send_ack_addr` where acknowledgments go, `sender_addr` whom the last datagram is from; `msg_buf` is
-- *msgBuf, whose length is *size.
pub record Catcher : Type 0 where
  pub byte_buf : List ℕ
  pub msg_buf : List ℕ
  pub expected_seq_num : ℤ
  pub more : Bool
  pub connected : Option Address
  pub send_ack_addr : Address
  pub sender_addr : Address

-- An acknowledgment that is handed to sendto.
pub record Ack : Type 0 where
  pub packet : Packet
  pub dest : Address

abbrev pub no_address : Address
no_address = record { host = 0; port = 0 }

-- -1: no packet was received yet
abbrev pub nothing_expected : ℤ
nothing_expected = negsuc 0

abbrev pub start_catcher : Catcher
start_catcher = record {
  byte_buf = replicate mtu 0;
  msg_buf = [];
  expected_seq_num = nothing_expected;
  more = true;
  connected = none;
  send_ack_addr = no_address;
  sender_addr = no_address;
}

-- recvfrom writes over the front of the buffer, and leaves what stood behind.
abbrev pub fill_byte_buf : List ℕ → List ℕ → List ℕ
fill_byte_buf byte_buf bytes = let d = take mtu bytes in d ++ drop (length d) byte_buf

abbrev pub is_start : Catcher → Packet → Bool
is_start c p = eqb_ℤ c.expected_seq_num nothing_expected && p.header.is_first

abbrev pub is_in_order : Catcher → Packet → Bool
is_in_order c p = is_start c p || eqb_ℤ p.header.index c.expected_seq_num

-- The state behind the branch of a packet in order.
unfoldable pub accepted : Catcher → Packet → Address → Catcher
accepted c p sender =
    let opened =
      if is_start c p
      then record c {
        connected = some sender;
        send_ack_addr = record { host = sender.host; port = p.header.ack_port };
      }
      else c in
    record opened {
      msg_buf = c.msg_buf ++ p.content;
      expected_seq_num = rem_ℤ (p.header.index +ℤ pos 1) (abs_ℤ p.header.queue_len);
      more = not (eqb_ℤ p.header.index p.header.end_index);
    }

-- That branch; a `%` by zero is a fault.
unfoldable pub accept : Catcher → Packet → Address → Option Catcher
accept c p sender = if abs_ℤ p.header.queue_len == 0 then none else some (accepted c p sender)

-- The acknowledgment for a packet, if one is sent.
unfoldable pub acknowledge : Catcher → Packet → List Ack
acknowledge c p =
    let ack = record new_packet {
      header = record new_packet.header {
        is_ack = true;
        index = c.expected_seq_num;
        end_index = p.header.end_index;
        msg_id = p.header.msg_id;
      };
    } in
    if not (eqb_ℤ c.expected_seq_num nothing_expected) || p.header.is_first
    then record { packet = ack; dest = c.send_ack_addr } ∷ []
    else []

unfoldable pub catch_packet : Catcher → Packet → Address → Option (Catcher × List Ack)
catch_packet c p sender =
    if p.header.is_ack
    then some (c, [])
    else if is_in_order c p
    then (accept c p sender >>= λ c'. some (c', acknowledge c' p))
    else if is_start c p
    then some (c, [])
    else some (c, acknowledge c p)

-- One turn of the loop.
unfoldable pub catch : Catcher → Arrival → Option (Catcher × List Ack)
catch c failed = some (c, [])
catch c (datagram bytes sender) =
    let filled = record c { byte_buf = fill_byte_buf c.byte_buf bytes; sender_addr = sender } in
    deserialize_packet filled.byte_buf >>= λ p. catch_packet filled p sender

-- `while (more)`; what arrives after the message is complete stays in the socket.
unfoldable pub listen_loop : Catcher → List Arrival → Option (Catcher × List Ack)
listen_loop c [] = some (c, [])
listen_loop c (a ∷ as') =
    let rest = catch c a >>= λ (c', acks).
    listen_loop c' as' >>= λ (d, more_acks). some (d, acks ++ more_acks) in
    if c.more then rest else some (c, [])

-- After the given arrivals the call has returned, or it still waits in recvfrom.
pub data Outcome : Type 0 where
  returned : ℤ → Catcher → Outcome
  waiting : Catcher → Outcome

-- Behind the loop the socket is disconnected.
abbrev pub finish : Catcher → Outcome
finish c = if c.more then waiting c else returned (pos 0) (record c { connected = none })

-- `has_msg_buf` tells that the caller's pointer is not null; `negsuc 0` is -1.
unfoldable pub listen_for_data : Bool → List Arrival → Option (Outcome × List Ack)
listen_for_data has_msg_buf arrivals =
    let loop = listen_loop start_catcher arrivals >>= λ (c, acks). some (finish c, acks) in
    if has_msg_buf then loop else some (returned (negsuc 0) start_catcher, [])

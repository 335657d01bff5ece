-- ===== src/Packet.antt =====
-- logic/gbn/packet.c and packet.h: the unit that travels, its wire form, and the division of a
-- message into packets. A buffer that the source passes as pointer and size is one list of bytes.

pub mod RoundTrip
pub mod Packetize
pub mod Series
mod Tests
use iiw_udp_gbn.Base.{
  ℕ, zero, suc, ◌+◌, ◌-◌, ◌*◌, ◌/◌, ◌%◌, ◌^◌, ◌<◌, Bool, true, false, not, List, [], ◌∷◌, ◌++◌,
  Option, none, some, ◌>>=◌, ltb, ◌==◌, if◌then◌else◌, take, drop, length,
}
use iiw_udp_gbn.Base.Int.{ℤ, pos, ◌+ℤ◌}
use iiw_udp_gbn.Wire.{store_bool, load_bool, store_int, load_int, store_port, load_port, copy_bytes}

abbrev pub mtu : ℕ
mtu = 1500

-- The int members are integers; `ack_port` is an in_port_t.
pub record Header : Type 0 where
  pub is_ack : Bool
  pub is_first : Bool
  pub index : ℤ
  pub end_index : ℤ
  pub msg_id : ℤ
  pub data_len : ℤ
  pub queue_len : ℤ
  pub ack_port : ℕ

-- `content` is what `data` points to; a null pointer is the empty list.
pub record Packet : Type 0 where
  pub header : Header
  pub content : List ℕ

-- calloc leaves every member zero
abbrev pub new_packet : Packet
new_packet = record {
  header = record {
    is_ack = false;
    is_first = false;
    index = pos 0;
    end_index = pos 0;
    msg_id = pos 0;
    data_len = pos 0;
    queue_len = pos 0;
    ack_port = 0;
  };
  content = [];
}

abbrev pub size_of_bool : ℕ
size_of_bool = 1

abbrev pub size_of_int : ℕ
size_of_int = 4

abbrev pub size_of_port : ℕ
size_of_port = 2

abbrev pub calc_header_size : ℕ
calc_header_size = 2 * size_of_bool + 5 * size_of_int + size_of_port

unfoldable pub calc_packet_size : Packet → ℤ
calc_packet_size p = pos calc_header_size +ℤ p.header.data_len

abbrev pub calc_max_data_len : ℕ
calc_max_data_len = mtu - calc_header_size

abbrev pub calc_ack_size : ℕ
calc_ack_size = calc_header_size

unfoldable pub serialize_packet : Packet → Option (List ℕ)
serialize_packet p = do
  content ← copy_bytes p.header.data_len p.content
  some (
      store_bool p.header.is_ack
      ++ (store_bool p.header.is_first
          ++ (store_int p.header.data_len
              ++ (store_int p.header.msg_id
                  ++ (store_int p.header.index
                      ++ (store_int p.header.end_index
                          ++ (store_int p.header.queue_len
                              ++ (store_port p.header.ack_port ++ content))))))))

unfoldable pub deserialize_packet : List ℕ → Option Packet
deserialize_packet bytes = do
  (is_ack, b₁) ← load_bool bytes
  (is_first, b₂) ← load_bool b₁
  (data_len, b₃) ← load_int b₂
  (msg_id, b₄) ← load_int b₃
  (index, b₅) ← load_int b₄
  (end_index, b₆) ← load_int b₅
  (queue_len, b₇) ← load_int b₆
  (ack_port, b₈) ← load_port b₇
  content ← copy_bytes data_len b₈
  some (record {
    header = record {
      is_ack = is_ack;
      is_first = is_first;
      index = index;
      end_index = end_index;
      msg_id = msg_id;
      data_len = data_len;
      queue_len = queue_len;
      ack_port = ack_port;
    };
    content = content;
  })

abbrev pub int_max : ℕ
int_max = 2 ^ 31 - 1

-- The static LAST_MSG_ID goes in and comes out: the generated id, and the next one.
unfoldable pub generate_msg_id : ℕ → ℕ × ℕ
generate_msg_id last_msg_id = (last_msg_id, (last_msg_id + 1) % int_max)

-- One round of the loop in packetize; `j` is the offset of the packet's bytes in the message.
abbrev pub make_packet : ℕ → ℕ → List ℕ → ℕ → ℕ → Packet
make_packet id i msg j how_many = record {
  header = record new_packet.header { is_first = i == 0; msg_id = pos id; data_len = pos how_many };
  content = take how_many (drop j msg);
}

-- The loop, by the number of packets left; `how_many` changes in the round for the remainder.
module _ (id full remain : ℕ) (msg : List ℕ) where
  unfoldable pub packetize_loop : ℕ → ℕ → ℕ → ℕ → List Packet
  packetize_loop zero i j how_many = []
  packetize_loop (suc n) i j how_many =
      let h = if ltb i full then how_many else remain in
      make_packet id i msg j h ∷ packetize_loop n (i + 1) (j + h) h

-- The packets, and the static LAST_MSG_ID after the call.
unfoldable pub packetize : ℕ → List ℕ → List Packet × ℕ
unfolding packetize_loop generate_msg_id
packetize last_msg_id msg =
    let size = length msg in
    let num_of_full_packets = size / calc_max_data_len in
    let remain = size % calc_max_data_len in
    let has_remain = if remain == 0 then 0 else 1 in
    let num_of_packets = num_of_full_packets + has_remain in
    let (id, next_id) = generate_msg_id last_msg_id in
    (packetize_loop id num_of_full_packets remain msg num_of_packets 0 0 calc_max_data_len, next_id)

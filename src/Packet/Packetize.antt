-- ===== src/Packet/Packetize.antt =====
-- packetize: how a message is divided.
use iiw_udp_gbn.Base.{
  ℕ, zero, suc, ◌+◌, ◌*◌, ◌/◌, ◌%◌, ◌<◌, ◌≤◌, ◌≡◌, refl, ap, sym, ◌∙◌, false, List, [], ◌∷◌, ◌++◌,
  arith, ltb, ◌==◌, if◌then◌else◌, length, take, drop, length-take, length-drop, take-append-drop,
  drop-drop, drop_all,
}
use iiw_udp_gbn.Base.Int.{pos}
use iiw_udp_gbn.Packet.{Packet, calc_max_data_len, make_packet, packetize_loop, packetize}

-- The bytes that a run of packets carries, in order.
abbrev pub payload : List Packet → List ℕ
payload [] = []
payload (p ∷ ps) = p.content ++ payload ps

-- What a packet of a message says of itself, at place `k` of `full` full packets and, unless
-- `remain` is zero, one more.
pub record IsPart (id full remain k : ℕ) (p : Packet) : Type 0 where
  pub msg_id : p.header.msg_id ≡ pos id
  pub is_first : p.header.is_first ≡ (k == 0)
  pub is_ack : p.header.is_ack ≡ false
  pub carried : p.header.data_len ≡ pos (length p.content)
  pub ack_port : p.header.ack_port ≡ 0
  pub nonempty : 0 < length p.content
  pub short : length p.content ≤ calc_max_data_len
  pub sized : length p.content ≡ (if ltb k full then calc_max_data_len else remain)

abbrev pub AreParts : ℕ → ℕ → ℕ → ℕ → List Packet → Type 0
AreParts id full remain k [] = Unit
AreParts id full remain k (p ∷ ps) = IsPart id full remain k p × AreParts id full remain (k + 1) ps

-- What holds at the top of the loop, before round `i` with `n` rounds to go.
record IsRound (full remain size n i j how_many : ℕ) : Type 0 where
  total : size ≡ full * calc_max_data_len + remain
  left : i + n ≡ full + (if remain == 0 then 0 else 1)
  offset : i ≤ full → j ≡ i * calc_max_data_len
  ended : full < i → size ≤ j
  small : remain < calc_max_data_len
  steady : i < full → how_many ≡ calc_max_data_len

next-IsRound :
    (full remain size n i j how_many : ℕ)
    → IsRound full remain size (suc n) i j how_many
    → let h = if ltb i full then how_many else remain in
      IsRound full remain size n (i + 1) (j + h) h
next-IsRound full remain size n i j how_many r = ground arith

module _ (id full remain : ℕ) (msg : List ℕ) where
  payload-packetize_loop :
      (n i j how_many : ℕ)
      → IsRound full remain (length msg) n i j how_many
      → payload (packetize_loop id full remain msg n i j how_many) ≡ drop j msg
  unfolding packetize_loop
  payload-packetize_loop zero i j how_many r = sym (drop_all j msg (ground arith))
  payload-packetize_loop (suc n) i j how_many r =
      let h = if ltb i full then how_many else remain in
      ap (λ l. take h (drop j msg) ++ l)
        (payload-packetize_loop n (i + 1) (j + h) h
            (next-IsRound full remain (length msg) n i j how_many r)
          ∙ sym (drop-drop j h msg))
      ∙ take-append-drop h (drop j msg)

  make_packet-IsPart :
      (n i j how_many : ℕ)
      → IsRound full remain (length msg) (suc n) i j how_many
      → IsPart id full remain i (make_packet id i msg j (if ltb i full then how_many else remain))
  make_packet-IsPart n i j how_many r =
      let h = if ltb i full then how_many else remain in
      let size : length (take h (drop j msg)) ≡ h =
        ground (arith, length-take h (drop j msg), length-drop j msg) in
      record {
        msg_id = refl;
        is_first = refl;
        is_ack = refl;
        carried = rw size;
        nonempty = rw size (ground arith);
        short = rw size (ground arith);
        ack_port = refl;
        sized = rw size (ground arith);
      }

  packetize_loop-AreParts :
      (n i j how_many : ℕ)
      → IsRound full remain (length msg) n i j how_many
      → AreParts id full remain i (packetize_loop id full remain msg n i j how_many)
  unfolding packetize_loop
  packetize_loop-AreParts zero i j how_many r = tt
  packetize_loop-AreParts (suc n) i j how_many r =
      let h = if ltb i full then how_many else remain in
      (
        make_packet-IsPart n i j how_many r,
        packetize_loop-AreParts n (i + 1) (j + h) h
            (next-IsRound full remain (length msg) n i j how_many r),
      )

  length-packetize_loop :
      (n i j how_many : ℕ) → length (packetize_loop id full remain msg n i j how_many) ≡ n
  unfolding packetize_loop
  length-packetize_loop zero i j how_many = refl
  length-packetize_loop (suc n) i j how_many = ap suc (length-packetize_loop n (i + 1) _ _)

start-IsRound :
    (size : ℕ)
    → let remain = size % calc_max_data_len in
      let full = size / calc_max_data_len in
      IsRound full remain size (full + (if remain == 0 then 0 else 1)) 0 0 calc_max_data_len
start-IsRound size = ground arith

-- Dividing a message loses and reorders nothing: the data of the packets, one after the other, is
-- the message.
pub payload-packetize :
    (last_msg_id : ℕ) (msg : List ℕ) → payload (packetize last_msg_id msg).0 ≡ msg
unfolding packetize
payload-packetize last_msg_id msg =
    payload-packetize_loop _ _ _ msg _ 0 0 calc_max_data_len (start-IsRound (length msg))

-- Every packet of a message carries the fresh id and its true length, at least one byte and at most
-- calcMaxDataLen, is no acknowledgment, and is marked first exactly if it is the first; the packets
-- are full but for a last one with the remainder, and number size / max, one more for a remainder.
pub packetize-AreParts :
    (last_msg_id : ℕ) (msg : List ℕ)
    → let full = length msg / calc_max_data_len in
      let remain = length msg % calc_max_data_len in
      let packets = (packetize last_msg_id msg).0 in
      AreParts last_msg_id full remain 0 packets
      × (length packets ≡ full + (if remain == 0 then 0 else 1))
unfolding packetize
packetize-AreParts last_msg_id msg = (
  packetize_loop-AreParts _ _ _ msg _ 0 0 calc_max_data_len (start-IsRound (length msg)),
  length-packetize_loop _ _ _ msg _ 0 0 calc_max_data_len,
)

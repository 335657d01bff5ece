-- ===== src/Catcher/Acks.antt =====
-- What the receiver answers to the packets of one message.
use mathlib.Core.Path.{subst}
use iiw_udp_gbn.Base.{
  ℕ, zero, suc, ◌+◌, ◌-◌, ◌%◌, ◌<◌, ◌≤◌, ◌≡◌, refl, ◌∙◌, true, false, not, List, [], some, arith,
  length, get_elem?, ◌==◌, if◌then◌else◌, Bool-cases, inl, inr, All, ==_iff,
}
use iiw_udp_gbn.Base.Int.{pos, eqb_ℤ}
use iiw_udp_gbn.Catcher.{
  Catcher, Ack, is_start, accepted, acknowledge, catch_packet, nothing_expected,
}
use iiw_udp_gbn.Catcher.Prefix.{IsAt, in_order_next, accept_next}
use iiw_udp_gbn.Packet.{Packet, new_packet}
use iiw_udp_gbn.Packet.RoundTrip.{IsWellFormed}
use iiw_udp_gbn.Packet.Series.{IsStamped, AreStamped, IsStamped-at}
use iiw_udp_gbn.SortingTable.{Address}

-- An acknowledgment of the first `k` packets of the message of `p`.
pub record IsAckOf (start n k : ℕ) (p : Packet) (c : Catcher) (a : Ack) : Type 0 where
  pub is_ack : a.packet.header.is_ack ≡ true
  pub index : a.packet.header.index ≡ pos ((start + k) % 1024)
  pub end_index : a.packet.header.end_index ≡ pos ((start + n - 1) % 1024)
  pub msg_id : a.packet.header.msg_id ≡ p.header.msg_id
  pub dest : a.dest ≡ c.send_ack_addr
  pub formed : IsWellFormed a.packet
  pub bare : a.packet.content ≡ []

-- The acknowledgment that acknowledge makes.
abbrev answer : Catcher → Packet → Ack
answer c p = record {
  packet = record new_packet {
    header = record new_packet.header {
      is_ack = true;
      index = c.expected_seq_num;
      end_index = p.header.end_index;
      msg_id = p.header.msg_id;
    };
  };
  dest = c.send_ack_addr;
}

acknowledge_lem :
    (start : ℕ) (ps : List Packet) (k i : ℕ) (c : Catcher) (p : Packet)
    → IsAt start ps k c
    → IsStamped start (length ps) i p
    → (k ≡ 0 → 0 < i)
    → All (IsAckOf start (length ps) k p c) (acknowledge c p)
      × (length (acknowledge c p) ≡ (if k == 0 then 0 else 1))
unfolding acknowledge
acknowledge_lem start ps zero i c p a s later =
    let none_yet : (not (eqb_ℤ c.expected_seq_num nothing_expected)) ≡ false = rw a.expected refl in
    let not_first : p.header.is_first ≡ false = s.is_first ∙ ground (arith, later refl) in
    simp (none_yet, not_first) (tt, refl)
acknowledge_lem start ps (suc k) i c p a s later =
    let some_yet : (not (eqb_ℤ c.expected_seq_num nothing_expected)) ≡ true =
      rw a.expected (ground arith) in
    let ack : IsAckOf start (length ps) (suc k) p c (answer c p) = record {
      is_ack = refl;
      index = a.expected ∙ ground arith;
      end_index = s.end_index;
      msg_id = refl;
      dest = refl;
      formed = record {
        index = rw a.expected (ground arith);
        end_index = s.formed.end_index;
        msg_id = s.formed.msg_id;
        queue_len = omega arith;
        data_len = omega arith;
        ack_port = omega arith;
        carried = refl;
      };
      bare = refl;
    } in
    simp some_yet ((ack, tt), ground arith)

-- Let the receiver have the first k packets of a message, and take another packet of it, the i-th. It
-- does not fault, it takes the packet exactly if it is the next one, and it sends one acknowledgment,
-- to the address that it keeps for them, unless it still has no packet: its index is the place of the
-- first packet that is missing, and its end and id are those of the message.
pub catch_packet-IsAckOf :
    (start : ℕ) (ps : List Packet) (k i : ℕ) (c : Catcher) (p : Packet) (sender : Address)
    → IsAt start ps k c
    → AreStamped start (length ps) 0 ps
    → get_elem? ps i ≡ some p
    → length ps ≤ 1024
    → k < length ps
    → let k' = if i == k then suc k else k in
      (c' : Catcher) × (acks : List Ack) × (catch_packet c p sender ≡ some (c', acks))
      × IsAt start ps k' c'
      × All (IsAckOf start (length ps) k' p c') acks
      × (length acks ≡ (if k' == 0 then 0 else 1))
unfolding catch_packet
catch_packet-IsAckOf start ps k i c p sender a st e small hk =
    let (s, hi) = IsStamped-at start (length ps) 0 i ps p st e in
    let s' : IsStamped start (length ps) i p =
      subst (λ j. IsStamped start (length ps) j p) (omega arith) s in
    let (first, order) = in_order_next start ps k i c p a s' small hi hk in
    elim (Bool-cases (i == k)) [
      | inl same ↦
          let k_is_i = (==_iff i k).0 same in
          let (done, at_next) =
            accept_next start ps k c p sender a
              (subst (λ j. IsStamped start (length ps) j p) k_is_i s')
              (subst (λ j. get_elem? ps j ≡ some p) k_is_i e) small hk in
          let c' = accepted c p sender in
          let (answers, count) =
            acknowledge_lem start ps (suc k) i c' p at_next s' (λ z. absurd (omega arith)) in
          (
            c',
            acknowledge c' p,
            simp (s'.not_ack, order, same, done),
            rw same at_next,
            rw same answers,
            rw same count,
          )
      | inr other ↦
          let no_start : is_start c p ≡ false = first ∙ ground arith in
          let (answers, count) =
            acknowledge_lem start ps k i c p a s' (λ z. ground (arith, other, z)) in
          (
            c,
            acknowledge c p,
            simp (s'.not_ack, order, other) (simp no_start),
            rw other a,
            rw other answers,
            rw other count,
          )
    ]

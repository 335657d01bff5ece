-- ===== src/Gbn/Delivery.antt =====
-- From the pads of the sender to the buffer of the receiver.
use mathlib.Core.Path.{subst}
use iiw_udp_gbn.Base.{
  ℕ, zero, suc, ◌+◌, ◌-◌, ◌%◌, ◌^◌, ◌<◌, ◌≤◌, ◌≡◌, refl, ap, sym, ◌∙◌, Bool, true, false, List, [],
  ◌∷◌, ◌++◌, some, arith, length, if◌then◌else◌, get_elem?, Bool-cases, inl, inr, some_eq, ap₂,
  ◌||◌, All,
}
use iiw_udp_gbn.Base.Int.{pos}
use iiw_udp_gbn.Catcher.{Arrival, datagram, Catcher, Ack, returned}
use iiw_udp_gbn.Catcher.Complete.{InOrder, listen_for_data_complete}
use iiw_udp_gbn.Catcher.Prefix.{IsPacketAt}
use iiw_udp_gbn.Gbn.{recv_message_gbn}
use iiw_udp_gbn.LaunchBattery.{LaunchPad, sent, stamp}
use iiw_udp_gbn.Launcher.{Attempt, Sent, launched, fire_launch_pad, set_ack_port, is_jammed}
use iiw_udp_gbn.Packet.{Packet, packetize, int_max}
use iiw_udp_gbn.Packet.Packetize.{payload, IsPart, AreParts, payload-packetize, packetize-AreParts}
use iiw_udp_gbn.Packet.RoundTrip.{deserialize-serialize}
use iiw_udp_gbn.Packet.Series.{IsStamped, AreStamped}
use iiw_udp_gbn.SendWindow.{queue_len}
use iiw_udp_gbn.SortingTable.{Address, SortingTable, SortingEntry, get_from_sorting_table}

-- The packet as it travels: stamped by the battery, with the port that the launcher writes into it.
abbrev pub airborne : ℕ → ℕ → ℕ → ℕ → Packet → Packet
airborne start n port i p =
    set_ack_port (stamp ((start + i) % queue_len) ((start + n - 1) % queue_len) p) port

-- The packets of a message of `n`, from the i-th on, as they travel from the pads behind `start`.
abbrev pub on_air : ℕ → ℕ → ℕ → ℕ → List Packet → List Packet
on_air start n port i [] = []
on_air start n port i (p ∷ ps) = airborne start n port i p ∷ on_air start n port (i + 1) ps

pub length-on_air :
    (start n port i : ℕ) (ps : List Packet) → length (on_air start n port i ps) ≡ length ps
length-on_air start n port i [] = refl
length-on_air start n port i (p ∷ ps) = ap suc (length-on_air start n port (i + 1) ps)

pub payload-on_air :
    (start n port i : ℕ) (ps : List Packet) → payload (on_air start n port i ps) ≡ payload ps
payload-on_air start n port i [] = refl
payload-on_air start n port i (p ∷ ps) =
    ap (λ l. p.content ++ l) (payload-on_air start n port (i + 1) ps)

pub get_elem?-on_air :
    (start n port i k : ℕ) (ps : List Packet) (p : Packet)
    → get_elem? ps k ≡ some p
    → get_elem? (on_air start n port i ps) k ≡ some (airborne start n port (i + k) p)
get_elem?-on_air start n port i k [] p e = cc
get_elem?-on_air start n port i zero (x ∷ ps) p e =
    ap some (ap₂ (λ (q : Packet) (j : ℕ). airborne start n port j q) (some_eq e) (omega arith))
get_elem?-on_air start n port i (suc k) (x ∷ ps) p e =
    get_elem?-on_air start n port (i + 1) k ps p e
    ∙ ap some (ap (λ (j : ℕ). airborne start n port j p) (omega arith))

airborne-IsStamped :
    (start n port id full remain i : ℕ) (p : Packet)
    → id < int_max
    → port < 2 ^ 16
    → IsPart id full remain i p
    → IsStamped start n i (airborne start n port i p)
airborne-IsStamped start n port id full remain i p id_in port_in part = record {
  not_ack = part.is_ack;
  is_first = part.is_first;
  index = refl;
  end_index = refl;
  queue_len = refl;
  formed = record {
    index = omega arith;
    end_index = omega arith;
    msg_id = rw part.msg_id (omega arith);
    queue_len = omega arith;
    data_len = rw part.carried (omega (arith, part.short));
    ack_port = port_in;
    carried = part.carried;
  };
  short = part.short;
}

pub on_air-AreStamped :
    (start n port id full remain i : ℕ) (ps : List Packet)
    → id < int_max
    → port < 2 ^ 16
    → AreParts id full remain i ps
    → AreStamped start n i (on_air start n port i ps)
on_air-AreStamped start n port id full remain i [] id_in port_in parts = tt
on_air-AreStamped start n port id full remain i (p ∷ ps) id_in port_in parts = (
  airborne-IsStamped start n port id full remain i p id_in port_in parts.0,
  on_air-AreStamped start n port id full remain (i + 1) ps id_in port_in parts.1,
)

-- A message of at least one byte and at most 1024 packets, with an id below INT_MAX and a port of 16
-- bits, arrives unchanged from whatever pad on: once the receiver's socket has handed over the packets
-- that sendMessageGbn makes of it, each in its turn, whatever earlier, later or repeated ones and
-- failures come between them, recvMessageGbn has returned 0 with the sender's bytes.
pub recv_message_gbn-delivers :
    (start port last_msg_id : ℕ) (msg : List ℕ) (arrivals : List Arrival)
    → last_msg_id < int_max
    → port < 2 ^ 16
    → 0 < length msg
    → length (packetize last_msg_id msg).0 ≤ queue_len
    → InOrder
        (on_air start (length (packetize last_msg_id msg).0) port 0 (packetize last_msg_id msg).0)
        0
        arrivals
    → (c : Catcher) × (acks : List Ack) × (recv_message_gbn true arrivals
        ≡ some (returned (pos 0) c, acks))
      × (c.msg_buf ≡ msg)
recv_message_gbn-delivers start port last_msg_id msg arrivals id_in port_in some_bytes fit order =
    let ps = (packetize last_msg_id msg).0 in
    let n = length ps in
    let (parts, count) = packetize-AreParts last_msg_id msg in
    let same = length-on_air start n port 0 ps in
    let stamped = on_air-AreStamped start n port last_msg_id _ _ 0 ps id_in port_in parts in
    let (c, acks, run, bytes, _) =
      listen_for_data_complete start (on_air start n port 0 ps)
        (subst (λ m. AreStamped start m 0 (on_air start n port 0 ps)) (sym same) stamped)
        (omega (arith, same)) arrivals (ground (arith, same, count)) order in
    (c, acks, run, bytes ∙ payload-on_air start n port 0 ps ∙ payload-packetize last_msg_id msg)

-- What one launch of a pad with a stamped packet of a message does: where the id is below INT_MAX, the
-- socket for acknowledgments has a port of 16 bits and the table an entry for the id, fireLaunchPad
-- does not fault. It writes the port into the packet, hands over at most one datagram, which is an
-- arrival of that packet for the receiver and goes to the entry's address, and it returns 0 and marks
-- the pad SENT unless sendto fails.
pub fire_launch_pad-IsPacketAt :
    (start port old id full remain k : ℕ) (ps : List Packet) (p : Packet) (table : SortingTable)
    (io : Attempt)
    → (pad : LaunchPad) (entry : SortingEntry) (sender : Address) → id < int_max
    → port < 2 ^ 16
    → IsPart id full remain k p
    → get_elem? ps k ≡ some p
    → pad.packet ≡ some (airborne start (length ps) old k p)
    → io.sockname ≡ some port
    → get_from_sorting_table table p.header.msg_id ≡ some entry
    → (pad' : LaunchPad) × (datagrams : List Sent) × (works : Bool) × (fire_launch_pad table io pad
        ≡ some (pad', datagrams, works))
      × (pad'.packet ≡ some (airborne start (length ps) port k p))
      × All
          (λ d.
            (d.entry ≡ entry)
            × IsPacketAt (on_air start (length ps) port 0 ps) k (datagram d.bytes sender))
          datagrams
      × (length datagrams ≤ 1)
      × (works ≡ (is_jammed io.rand || io.sendto_works))
      × (pad'.status ≡ (if works then sent else pad.status))
unfolding fire_launch_pad
fire_launch_pad-IsPacketAt start port old id full remain k ps p table io pad entry sender id_in
      port_in part at_k held bound found =
    let q = airborne start (length ps) port k p in
    let stamped = airborne-IsStamped start (length ps) port id full remain k p id_in port_in part in
    let (bytes, written, _, _) = deserialize-serialize q [] stamped.formed in
    let here : IsPacketAt (on_air start (length ps) port 0 ps) k (datagram bytes sender) = (
      q,
      get_elem?-on_air start (length ps) port 0 k ps p at_k
          ∙ ap some (ap (λ (j : ℕ). airborne start (length ps) port j p) (omega arith)),
      written,
    ) in
    let ported : LaunchPad = record pad { packet = some q } in
    elim (Bool-cases (is_jammed io.rand)) [
      | inl jam ↦ (
        launched ported io.now,
        [],
        true,
        rw bound (simp (held, written, found, jam) refl),
        refl,
        tt,
        omega arith,
        rw jam,
        refl,
      )
      | inr air ↦ elim (Bool-cases io.sendto_works) [
        | inl good ↦ (
          launched ported io.now,
          record { bytes = bytes; entry = entry } ∷ [],
          true,
          rw bound (simp (held, written, found, air, good) refl),
          refl,
          ((refl, here), tt),
          omega arith,
          rw (air, good),
          refl,
        )
        | inr bad ↦ (
          ported,
          [],
          false,
          rw bound (simp (held, written, found, air, bad) refl),
          refl,
          tt,
          omega arith,
          rw (air, bad),
          refl,
        )
      ]
    ]

-- ===== src/Link/Loaded.antt =====
-- The system behind sendMessageGbn on an empty battery.
use mathlib.Core.Path.{subst, subst₂}
use iiw_udp_gbn.Base.{
  ℕ, zero, suc, ◌+◌, ◌-◌, ◌%◌, ◌^◌, ◌<◌, ◌≤◌, ◌≡◌, refl, sym, ap, ◌∙◌, List, [], ◌∷◌, some, arith,
  length, get_elem?, get_elem?_below, some_eq, All, All-at,
}
use iiw_udp_gbn.Base.Int.{ℤ, pos}
use iiw_udp_gbn.Catcher.Prefix.{start-IsAt}
use iiw_udp_gbn.Gbn.{send_message_gbn}
use iiw_udp_gbn.Gbn.Delivery.{on_air, length-on_air, get_elem?-on_air, on_air-AreStamped}
use iiw_udp_gbn.Gbn.Sending.{send_message_gbn-accepts}
use iiw_udp_gbn.LaunchBattery.{LaunchPad, stamp}
use iiw_udp_gbn.LaunchBattery.Adding.{AreLoaded}
use iiw_udp_gbn.LaunchBattery.Ring.{IsRing}
use iiw_udp_gbn.Launcher.{Launcher, set_ack_port}
use iiw_udp_gbn.Launcher.Acks.{IsSender}
use iiw_udp_gbn.Link.{loaded_system}
use iiw_udp_gbn.Link.Invariant.{Transfer, IsOurs, IsOurs_stays, IsLinked}
use iiw_udp_gbn.Link.Pads.{Holds}
use iiw_udp_gbn.Packet.{Packet, packetize, int_max}
use iiw_udp_gbn.Packet.Packetize.{AreParts, packetize-AreParts}
use iiw_udp_gbn.Packet.Series.{AreStamped}
use iiw_udp_gbn.SendWindow.{SendWindow, queue_len}
use iiw_udp_gbn.SendWindow.Range.{distance}
use iiw_udp_gbn.SortingTable.{SortingEntry}
use iiw_udp_gbn.SortingTable.Laws.{IsSortingTable}

-- The pad at `m` holds the packet.
abbrev HoldsAt : ℕ → ℕ → (ℕ → LaunchPad) → ℕ → Packet → Type 0
HoldsAt start n pads i p =
    let m = (start + i) % queue_len in
    (pads m).packet ≡ some (stamp m ((start + n - 1) % queue_len) p)

AreLoaded-at :
    (start n i k : ℕ) (ps : List Packet) (p : Packet) (pads : ℕ → LaunchPad)
    → AreLoaded start n i ps pads
    → get_elem? ps k ≡ some p
    → HoldsAt start n pads (i + k) p
AreLoaded-at start n i k [] p pads h e = cc
AreLoaded-at start n i zero (x ∷ ps) p pads h e =
    subst₂ (HoldsAt start n pads) (omega arith) (some_eq e) h.0
AreLoaded-at start n i (suc k) (x ∷ ps) p pads h e =
    subst (λ m. HoldsAt start n pads m p) (omega arith)
      (AreLoaded-at start n (i + 1) k ps p pads h.2 e)

AreParts-unported :
    (id full remain i : ℕ) (ps : List Packet)
    → AreParts id full remain i ps
    → All (λ p. p.header.ack_port ≡ 0) ps
AreParts-unported id full remain i [] parts = tt
AreParts-unported id full remain i (p ∷ ps) (part, parts) =
    (part.ack_port, AreParts-unported id full remain (i + 1) ps parts)

pub on_air-numbered :
    (start n port id full remain i : ℕ) (ps : List Packet)
    → AreParts id full remain i ps
    → All (λ p. p.header.msg_id ≡ pos id) (on_air start n port i ps)
on_air-numbered start n port id full remain i [] parts = tt
on_air-numbered start n port id full remain i (p ∷ ps) (part, parts) =
    (part.msg_id, on_air-numbered start n port id full remain (i + 1) ps parts)

-- The pads behind `start` hold the packets of the message.
loaded-Holds :
    (x : Transfer) (ps : List Packet) (pads : ℕ → LaunchPad) (next : ℕ)
    → let n = length ps in
      x.air ≡ on_air x.start n x.port 0 ps
      → All (λ p. p.header.ack_port ≡ 0) ps
      → AreLoaded x.start n 0 ps pads
      → IsRing pads next (queue_len - n)
      → next ≡ (x.start + n) % queue_len
      → x.start < queue_len
      → n < queue_len
      → Holds (IsOurs x) x.port (IsOurs_stays x) pads
loaded-Holds x ps pads next is_air unported loaded ring next_is start_in small i busy =
    let n = length ps in
    let k = distance x.start (i % queue_len) in
    let place : (x.start + (0 + k)) % queue_len ≡ i % queue_len = omega arith in
    let k_in : k < n = ground (arith, ring.frees i, busy, next_is) in
    let (p, e) = get_elem?_below ps k k_in in
    let q = stamp ((x.start + (0 + k)) % queue_len) ((x.start + n - 1) % queue_len) p in
    (
      q,
      subst (λ m. (pads m).packet ≡ some q) place (AreLoaded-at x.start n 0 k ps p pads loaded e),
      (
        k,
        subst (λ air. get_elem? air k ≡ some (set_ack_port q x.port)) (sym is_air)
            (get_elem?-on_air x.start n x.port 0 k ps p e),
        omega arith,
        rw (All-at (λ (p : Packet). p.header.ack_port ≡ 0) ps k p unported e) (omega arith),
      ),
    )

-- A launcher with a full battery of free pads, and one with the same window and `n` fewer.
loaded_members :
    (l l₁ : Launcher) (n : ℕ)
    → IsSender l queue_len
    → IsSender l₁ (queue_len - n)
    → l₁.window ≡ l.window
    → n < queue_len
    → (l₁.battery.next_available_index ≡ (l.battery.next_available_index + n) % queue_len)
      × (l₁.winsize ≡ l.winsize)
loaded_members l l₁ n v v₁ same small =
    let start_in = v.valid.ring.next_in in
    let next_in = v₁.valid.ring.next_in in
    let base = ap (λ (w : SendWindow). w.base) (sym v₁.opened ∙ same ∙ v.opened) in
    let end = ap (λ (w : SendWindow). w.next_seq_num) (sym v₁.opened ∙ same ∙ v.opened) in
    let room = v.less_than_all in
    let room₁ = v₁.less_than_all in (omega (arith, base), omega (arith, base, end))

-- Behind sendMessageGbn on an empty battery.
module _ (l : Launcher) (last_msg_id port : ℕ) (entry : SortingEntry) (msg : List ℕ)
    (v : IsSender l queue_len) (table : IsSortingTable l.send_table) (id_in : last_msg_id < int_max)
    (port_in : port < 2 ^ 16) (some_bytes : 0 < length msg)
    (fits : l.winsize + length (packetize last_msg_id msg).0 ≤ queue_len) where
  abbrev packets : List Packet
  packets = (packetize last_msg_id msg).0

  pub air-AreStamped :
      let air = on_air l.battery.next_available_index (length packets) port 0 packets in
      AreStamped l.battery.next_available_index (length air) 0 air
  air-AreStamped =
      let start = l.battery.next_available_index in
      let n = length packets in
      let air = on_air start n port 0 packets in
      let (parts, count) = packetize-AreParts last_msg_id msg in
      subst (λ m. AreStamped start m 0 air) (sym (length-on_air start n port 0 packets))
        (on_air-AreStamped start n port last_msg_id _ _ 0 packets id_in port_in parts)

  abbrev pub transfer : Transfer
  transfer = record {
    start = l.battery.next_available_index;
    port = port;
    port_in = port_in;
    air = on_air l.battery.next_available_index (length packets) port 0 packets;
    stamped = air-AreStamped;
    id = pos last_msg_id;
    numbered =
        on_air-numbered l.battery.next_available_index (length packets) port last_msg_id _ _ 0
          packets (packetize-AreParts last_msg_id msg).0;
    entry = entry;
  }

  pub loaded-IsLinked :
      (l' : Launcher) (next_id : ℕ)
      → send_message_gbn l last_msg_id entry msg ≡ some (l', next_id, pos 0)
      → IsLinked transfer 0 0 (loaded_system l')
  loaded-IsLinked l' next_id run =
      let start = l.battery.next_available_index in
      let n = length packets in
      let (l₁, taken, v₁, loaded, table₁, found, window, _) =
        send_message_gbn-accepts l queue_len last_msg_id entry msg (pos last_msg_id) v table id_in
          (omega arith) some_bytes (omega arith) in
      let count = length-on_air start n port 0 packets in
      let room = v.some_room in
      let (next, size) = loaded_members l l₁ n v v₁ window (omega arith) in
      let (parts, full_count) = packetize-AreParts last_msg_id msg in
      let linked : IsLinked transfer 0 0 (loaded_system l₁) = record {
        sending = record {
          valid = subst (IsSender l₁) (omega (arith, count)) v₁;
          next = next ∙ omega (arith, count);
          fits = rw size (omega (arith, count, fits));
          below = omega arith;
        };
        pads =
            loaded-Holds transfer packets l₁.battery.battery _ refl
              (AreParts-unported _ _ _ _ packets parts) loaded v₁.valid.ring next
              v.valid.ring.next_in (omega arith);
        table = table₁;
        known = λ h. found ∙ ground arith;
        out = tt;
        receiving =
            start-IsAt start transfer.air transfer.stamped (omega (arith, count))
              (ground (arith, count, full_count));
        acks = tt;
        order = omega arith;
        below = omega arith;
        near = omega arith;
      } in
      subst (λ l₂. IsLinked transfer 0 0 (loaded_system l₂))
        (ap (λ (r : Launcher × ℕ × ℤ). r.0) (some_eq (sym taken ∙ run))) linked

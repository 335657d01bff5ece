-- ===== src/Catcher/Prefix.antt =====
-- listenForData on packets of one message, in whatever order, number and selection they arrive.
use mathlib.Core.Path.{subst}
use iiw_udp_gbn.Base.{
  ℕ, suc, ◌+◌, ◌%◌, ◌<◌, ◌≤◌, ◌≡◌, refl, ap, sym, ◌∙◌, true, false, not, ◌&&◌, List, [], ◌∷◌, ◌++◌,
  some, arith, length, take, drop, get_elem?, ◌==◌, ltb, if◌then◌else◌, Bool-cases, inl, inr,
  take_all, All, ==_iff,
}
use iiw_udp_gbn.Base.Int.{pos, ◌+ℤ◌}
use iiw_udp_gbn.Catcher.{
  Arrival, failed, datagram, Catcher, Ack, start_catcher, nothing_expected, is_start, is_in_order,
  accept, accepted, acknowledge, catch_packet, catch, listen_loop, finish, listen_for_data,
  fill_byte_buf,
}
use iiw_udp_gbn.Packet.{Packet, mtu, serialize_packet, deserialize_packet}
use iiw_udp_gbn.Packet.Packetize.{payload}
use iiw_udp_gbn.Packet.RoundTrip.{serialized-read}
use iiw_udp_gbn.Packet.Series.{IsStamped, AreStamped, IsStamped-at, payload-take-suc}
use iiw_udp_gbn.SortingTable.{Address}

-- The message has the packets `ps`, and those before place `k` were taken.
pub record IsAt (start : ℕ) (ps : List Packet) (k : ℕ) (c : Catcher) : Type 0 where
  pub bytes : c.msg_buf ≡ payload (take k ps)
  pub expected :
      c.expected_seq_num ≡ (if k == 0 then nothing_expected else pos ((start + k) % 1024))
  pub more : c.more ≡ ltb k (length ps)

-- Among the packets of a message that is shorter than the ring exactly the next one is in order.
pub in_order_next :
    (start : ℕ) (ps : List Packet) (k i : ℕ) (c : Catcher) (p : Packet)
    → IsAt start ps k c
    → IsStamped start (length ps) i p
    → length ps ≤ 1024
    → i < length ps
    → k < length ps
    → (is_start c p ≡ ((k == 0) && (i == 0))) × (is_in_order c p ≡ (i == k))
in_order_next start ps k i c p a s small hi hk =
    rw (a.expected, s.is_first, s.index) (ground arith, ground arith)

pub accept_next :
    (start : ℕ) (ps : List Packet) (k : ℕ) (c : Catcher) (p : Packet) (sender : Address)
    → IsAt start ps k c
    → IsStamped start (length ps) k p
    → get_elem? ps k ≡ some p
    → length ps ≤ 1024
    → k < length ps
    → (accept c p sender ≡ some (accepted c p sender)) × IsAt start ps (suc k) (accepted c p sender)
unfolding accept accepted ◌+ℤ◌ not
accept_next start ps k c p sender a s e small hk = (
  rw s.queue_len,
  record {
    bytes = ap (λ l. l ++ p.content) a.bytes ∙ sym (payload-take-suc k ps p e);
    expected = rw (s.index, s.queue_len) (ground arith);
    more = rw (s.index, s.end_index) (ground arith);
  },
)

-- One packet: the next one in order is taken, and any other leaves everything as it was.
catch_packet_next :
    (start : ℕ) (ps : List Packet) (k i : ℕ) (c : Catcher) (p : Packet) (sender : Address)
    → IsAt start ps k c
    → AreStamped start (length ps) 0 ps
    → get_elem? ps i ≡ some p
    → length ps ≤ 1024
    → k < length ps
    → (c' : Catcher) × (acks : List Ack) × (catch_packet c p sender ≡ some (c', acks))
      × IsAt start ps (if i == k then suc k else k) c'
unfolding catch_packet
catch_packet_next start ps k i c p sender a st e small hk =
    let (s, hi) = IsStamped-at start (length ps) 0 i ps p st e in
    let s' : IsStamped start (length ps) i p =
      subst (λ j. IsStamped start (length ps) j p) (omega arith) s in
    let (first, order) = in_order_next start ps k i c p a s' small hi hk in
    elim (Bool-cases (i == k)) [
      | inl same ↦
          let k_is_i = (==_iff i k).0 same in
          let (done, at_next) =
            accept_next start ps k c p sender a
              (subst (λ j. IsStamped start (length ps) j p) k_is_i s')
              (subst (λ j. get_elem? ps j ≡ some p) k_is_i e) small hk in
          (
            accepted c p sender,
            acknowledge (accepted c p sender) p,
            simp (s'.not_ack, order, same, done),
            rw same at_next,
          )
      | inr other ↦
          let no_start : is_start c p ≡ false = first ∙ ground arith in
          (c, acknowledge c p, simp (s'.not_ack, order, other) (simp no_start), rw other a)
    ]

-- The arrival carries the i-th packet of the message.
abbrev pub IsPacketAt : List Packet → ℕ → Arrival → Type 0
IsPacketAt ps i failed = ⊥
IsPacketAt ps i (datagram bytes sender) =
    (p : Packet) × (get_elem? ps i ≡ some p) × (serialize_packet p ≡ some bytes)

-- recvfrom fails, or hands over some packet of the message.
abbrev pub IsArrivalOf : List Packet → Arrival → Type 0
IsArrivalOf ps failed = Unit
IsArrivalOf ps (datagram bytes sender) = (i : ℕ) × IsPacketAt ps i (datagram bytes sender)

module _ (start : ℕ) (ps : List Packet) (st : AreStamped start (length ps) 0 ps)
    (small : length ps ≤ 1024) where
  -- A datagram of the message is read as its packet, whatever the buffer held before.
  pub catch-IsPacketAt :
      (k i : ℕ) (c : Catcher) (bytes : List ℕ) (sender : Address)
      → IsAt start ps k c
      → IsPacketAt ps i (datagram bytes sender)
      → (p : Packet) × (filled : Catcher) × (get_elem? ps i ≡ some p)
        × (catch c (datagram bytes sender) ≡ catch_packet filled p sender)
        × IsAt start ps k filled
  unfolding catch
  catch-IsPacketAt k i c bytes sender at (p, e, s) =
      let (t, _) = IsStamped-at start (length ps) 0 i ps p st e in
      let whole : take mtu bytes ≡ bytes =
        take_all mtu bytes (omega (arith, (serialized-read p bytes [] t.formed s).1, t.short)) in
      let read : deserialize_packet (fill_byte_buf c.byte_buf bytes) ≡ some p =
        rw whole (serialized-read p bytes (drop (length bytes) c.byte_buf) t.formed s).0 in
      (
        p,
        record c { byte_buf = fill_byte_buf c.byte_buf bytes; sender_addr = sender },
        e,
        simp read refl,
        record { bytes = at.bytes; expected = at.expected; more = at.more },
      )

  pub catch_packet-IsAt :
      (k i : ℕ) (c : Catcher) (a : Arrival)
      → IsAt start ps k c
      → k < length ps
      → IsPacketAt ps i a
      → (c' : Catcher) × (acks : List Ack) × (catch c a ≡ some (c', acks))
        × IsAt start ps (if i == k then suc k else k) c'
  catch_packet-IsAt k i c failed at hk h = elim h [ ]
  catch_packet-IsAt k i c (datagram bytes sender) at hk h =
      let (p, filled, e, is_catch, at') = catch-IsPacketAt k i c bytes sender at h in
      let (c', acks, run, at_next) =
        catch_packet_next start ps k i filled p sender at' st e small hk in
      (c', acks, is_catch ∙ run, at_next)

  pub catch_any :
      (k : ℕ) (c : Catcher) (a : Arrival)
      → IsAt start ps k c
      → k < length ps
      → IsArrivalOf ps a
      → (c' : Catcher) × (acks : List Ack) × (k' : ℕ) × (catch c a ≡ some (c', acks))
        × IsAt start ps k' c'
        × (k ≤ k')
        × (k' ≤ length ps)
  unfolding catch
  catch_any k c failed at hk h = (c, [], k, refl, at, omega arith, omega arith)
  catch_any k c (datagram bytes sender) at hk (i, h) =
      let (c', acks, run, at_next) = catch_packet-IsAt k i c (datagram bytes sender) at hk h in
      (c', acks, (if i == k then suc k else k), run, at_next, ground arith, ground arith)

  listen_loop-IsAt :
      (k : ℕ) (c : Catcher) (arrivals : List Arrival)
      → IsAt start ps k c
      → k ≤ length ps
      → All (IsArrivalOf ps) arrivals
      → (c' : Catcher) × (acks : List Ack) × (k' : ℕ) × (listen_loop c arrivals ≡ some (c', acks))
        × IsAt start ps k' c'
        × (k' ≤ length ps)
  unfolding listen_loop
  listen_loop-IsAt k c [] at hk h = (c, [], k, refl, at, hk)
  listen_loop-IsAt k c (a ∷ as') at hk h = elim (Bool-cases c.more) [
    | inr e ↦ (c, [], k, rw e, at, hk)
    | inl e ↦
        let (c₁, acks₁, k₁, run₁, at₁, up, hk₁) =
          catch_any k c a at (ground (arith, at.more)) h.0 in
        let (c₂, acks₂, k₂, run₂, at₂, hk₂) = listen_loop-IsAt k₁ c₁ as' at₁ hk₁ h.1 in
        (c₂, acks₁ ++ acks₂, k₂, simp (e, run₁, run₂), at₂, hk₂)
  ]

  pub start-IsAt : 0 < length ps → IsAt start ps 0 start_catcher
  start-IsAt h = record { bytes = refl; expected = refl; more = ground arith }

  -- Of the packets of one message, which is no longer than the ring, let any selection arrive in any
  -- order and number, with failures of recvfrom between them. The receiver does not fault; it has the
  -- data of the first k packets for some k; and it has returned 0 exactly if those are all.
  pub listen_for_data_prefix :
      (arrivals : List Arrival)
      → 0 < length ps
      → All (IsArrivalOf ps) arrivals
      → (c : Catcher) × (acks : List Ack) × (k : ℕ) × (listen_for_data true arrivals
          ≡ some (finish c, acks))
        × (k ≤ length ps)
        × (c.msg_buf ≡ payload (take k ps))
        × (c.more ≡ ltb k (length ps))
  unfolding listen_for_data
  listen_for_data_prefix arrivals some_packet h =
      let (c, acks, k, run, at, hk) =
        listen_loop-IsAt 0 start_catcher arrivals (start-IsAt some_packet) (omega arith) h in
      (c, acks, k, rw run, hk, at.bytes, at.more)

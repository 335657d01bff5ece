-- ===== src/Catcher/Complete.antt =====
-- listenForData on arrivals that have every packet of the message in its turn.
use mathlib.Core.Path.{subst}
use iiw_udp_gbn.Base.{
  ℕ, suc, ◌<◌, ◌≤◌, ◌≡◌, refl, ap, ◌∙◌, true, false, List, [], ◌∷◌, ◌++◌, some, none, arith, length,
  ◌==◌, if◌then◌else◌, take_all, dec_lt,
}
use iiw_udp_gbn.Base.Int.{pos}
use iiw_udp_gbn.Catcher.{
  Arrival, Catcher, Ack, start_catcher, catch, listen_loop, returned, listen_for_data,
}
use iiw_udp_gbn.Catcher.Prefix.{
  IsAt, IsPacketAt, IsArrivalOf, catch_packet-IsAt, catch_any, start-IsAt,
}
use iiw_udp_gbn.Packet.{Packet}
use iiw_udp_gbn.Packet.Packetize.{payload}
use iiw_udp_gbn.Packet.Series.{AreStamped}

-- Among the arrivals are the packets from the k-th on, one after the other, with any other packets of the
-- message, earlier, later or repeated, and failures between them.
pub data InOrder (ps : List Packet) : ℕ → List Arrival → Type 0 where
  none_left : {k : ℕ} {rest : List Arrival} → length ps ≤ k → InOrder ps k rest
  other :
      {k : ℕ} {a : Arrival} {rest : List Arrival}
      → IsArrivalOf ps a
      → InOrder ps k rest
      → InOrder ps k (a ∷ rest)
  next :
      {k : ℕ} {a : Arrival} {rest : List Arrival}
      → IsPacketAt ps k a
      → InOrder ps (suc k) rest
      → InOrder ps k (a ∷ rest)

module _ (start : ℕ) (ps : List Packet) (st : AreStamped start (length ps) 0 ps)
    (small : length ps ≤ 1024) where
  -- The loop has ended with the whole message.
  abbrev Completes : Catcher → List Arrival → Type 0
  Completes c arrivals =
      (c' : Catcher) × (acks : List Ack) × (listen_loop c arrivals ≡ some (c', acks))
      × IsAt start ps (length ps) c'

  Completes-step :
      (c : Catcher) (a : Arrival) (rest : List Arrival) (c₁ : Catcher) (acks : List Ack)
      → c.more ≡ true
      → catch c a ≡ some (c₁, acks)
      → Completes c₁ rest
      → Completes c (a ∷ rest)
  unfolding listen_loop
  Completes-step c a rest c₁ acks e run (c₂, acks₂, run₂, at₂) =
      (c₂, acks ++ acks₂, simp (e, run, run₂), at₂)

  Completes-ended :
      (k : ℕ) (c : Catcher) (arrivals : List Arrival)
      → IsAt start ps k c
      → k ≡ length ps
      → Completes c arrivals
  unfolding listen_loop
  Completes-ended k c [] at e = (c, [], refl, subst (λ j. IsAt start ps j c) e at)
  Completes-ended k c (a ∷ rest) at e =
      let ended : c.more ≡ false = at.more ∙ ground arith in
      (c, [], simp ended, subst (λ j. IsAt start ps j c) e at)

  InOrder-Completes :
      {j : ℕ} {arrivals : List Arrival} (k : ℕ) (c : Catcher)
      → InOrder ps j arrivals
      → IsAt start ps k c
      → j ≤ k
      → k ≤ length ps
      → Completes c arrivals
  InOrder-Completes k c (none_left h) at le hk = Completes-ended k c _ at (omega arith)
  InOrder-Completes k c (other {a = a} {rest = rest} h order) at le hk =
      elim (dec_lt k (length ps)) [
        | no full ↦ Completes-ended k c (a ∷ rest) at (omega arith)
        | yes more ↦
            let (c₁, acks, k₁, run, at₁, up, hk₁) = catch_any start ps st small k c a at more h in
            Completes-step c a rest c₁ acks (at.more ∙ ground arith) run
              (InOrder-Completes k₁ c₁ order at₁ (omega arith) hk₁)
      ]
  InOrder-Completes k c (next {k = j} {a = a} {rest = rest} h order) at le hk =
      elim (dec_lt k (length ps)) [
        | no full ↦ Completes-ended k c (a ∷ rest) at (omega arith)
        | yes more ↦
            let (c₁, acks, run, at₁) = catch_packet-IsAt start ps st small k j c a at more h in
            Completes-step c a rest c₁ acks (at.more ∙ ground arith) run (
              InOrder-Completes (if j == k then suc k else k) c₁ order at₁ (ground arith)
                (ground arith))
      ]

  -- If among the arrivals are all packets of a message that is no longer than the ring, one after the
  -- other, whatever other packets of it come between them, listenForData has returned 0 with the data of
  -- all of them and has disconnected its socket.
  pub listen_for_data_complete :
      (arrivals : List Arrival)
      → 0 < length ps
      → InOrder ps 0 arrivals
      → (c : Catcher) × (acks : List Ack) × (listen_for_data true arrivals
          ≡ some (returned (pos 0) c, acks))
        × (c.msg_buf ≡ payload ps)
        × (c.connected ≡ none)
  unfolding listen_for_data
  listen_for_data_complete arrivals some_packet order =
      let (c, acks, run, at) =
        InOrder-Completes 0 start_catcher order (start-IsAt start ps st small some_packet)
          (omega arith) (omega arith) in
      let ended : c.more ≡ false = at.more ∙ ground arith in
      (
        record c { connected = none },
        acks,
        simp (run, ended),
        at.bytes ∙ ap payload (take_all (length ps) ps (omega arith)),
        refl,
      )

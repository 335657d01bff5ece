-- ===== src/Link/Acks.antt =====
-- An acknowledgment of the message at the sender: new, repeated or late.
use mathlib.Core.Path.{subst}
use iiw_udp_gbn.Base.{ℕ, ◌+◌, ◌-◌, ◌%◌, ◌<◌, ◌≤◌, ◌≡◌, ◌⊎◌, ap, arith, Bool-cases, inl, inr, ltb}
use iiw_udp_gbn.Base.Int.{pos}
use iiw_udp_gbn.Launcher.{Launcher}
use iiw_udp_gbn.Launcher.Acks.{IsSender, handle_ack_stale}
use iiw_udp_gbn.Launcher.Events.{handle_ack}
use iiw_udp_gbn.Launcher.Reachable.{handle_ack-cases}
use iiw_udp_gbn.NetworkSampler.{Timespec}
use iiw_udp_gbn.Packet.{Packet}
use iiw_udp_gbn.SendWindow.{SendWindow, queue_len}
use iiw_udp_gbn.SendWindow.Range.{distance}

distance_ahead :
    (start j k : ℕ)
    → j ≤ k
    → k - j < queue_len
    → distance ((start + j) % queue_len) ((start + k) % queue_len) ≡ k - j
distance_ahead start j k order near = omega arith

distance_behind :
    (start j k : ℕ)
    → k < j
    → j - k < queue_len
    → distance ((start + j) % queue_len) ((start + k) % queue_len) ≡ queue_len - (j - k)
distance_behind start j k order near = omega arith

-- The sender holds the packets from the j-th to the last of the `n` that stand from `start` on.
pub record IsSending (start n j : ℕ) (l : Launcher) : Type 0 where
  pub valid : IsSender l (queue_len - n + j)
  pub next : l.battery.next_available_index ≡ (start + n) % queue_len
  pub fits : l.winsize + n ≤ queue_len
  pub below : j ≤ n

pub IsSending-base :
    (start n j : ℕ) (l : Launcher) → IsSending start n j l → l.window.base ≡ (start + j) % queue_len
IsSending-base start n j l v =
    let base_is = ap (λ (w : SendWindow). w.base) v.valid.opened in
    omega (arith, base_is, v.next, v.fits, v.below)

-- An acknowledgment of the first k packets moves the window there or leaves the launcher as it is.
pub handle_ack-IsSending :
    (start n j k : ℕ) (l : Launcher) (ack : Packet) (now : ℕ → Timespec)
    → IsSending start n j l
    → ack.header.index ≡ pos ((start + k) % queue_len)
    → 0 < k
    → k ≤ n
    → (handle_ack l ack now ≡ l) ⊎ ((j ≤ k) × IsSender (handle_ack l ack now) (queue_len - n + k))
handle_ack-IsSending start n j k l ack now v e some_k k_in =
    let base_is = IsSending-base start n j l v in
    let free = queue_len - n + j in
    let fits = v.fits in
    let below = v.below in
    let size = v.valid.some_room in
    let i = (start + k) % queue_len in
    elim (Bool-cases (ltb k j)) [
      | inl late ↦
          (let k_below : k < j = ground (arith, late) in
            let far : l.winsize < distance l.window.base i =
              rw base_is (rw (distance_behind start j k k_below (omega arith)) (omega arith)) in
            inl (handle_ack_stale l free v.valid ack now i (omega arith) e (inr far)))
      | inr new ↦
          (let order : j ≤ k = ground (arith, new) in
            let near : distance l.window.base i ≡ k - j =
              rw base_is (distance_ahead start j k order (omega arith)) in
            elim (handle_ack-cases l free i ack now v.valid (omega arith) e (omega (arith, near))) [
              | inl same ↦ inl same
              | inr taken ↦
                  inr (order, subst (IsSender (handle_ack l ack now)) (omega (arith, near)) taken)
            ])
    ]

-- ===== src/Gbn/Feedback.antt =====
-- An acknowledgment of the receiver, back at the sender.
use iiw_udp_gbn.Base.{
  ℕ, ◌+◌, ◌-◌, ◌%◌, ◌<◌, ◌≤◌, ◌≡◌, refl, ap, sym, ◌∙◌, true, false, List, [], ◌++◌, some, arith,
  length, take, drop, take_all,
}
use iiw_udp_gbn.Base.Int.{pos}
use iiw_udp_gbn.Catcher.{Catcher, Ack}
use iiw_udp_gbn.Catcher.Acks.{IsAckOf}
use iiw_udp_gbn.Launcher.{Launcher}
use iiw_udp_gbn.Launcher.AckRounds.{AreAcked}
use iiw_udp_gbn.Launcher.Acks.{IsSender, handle_ack_in_order}
use iiw_udp_gbn.Launcher.Events.{handle_ack, listen_for_ack}
use iiw_udp_gbn.NetworkSampler.{Timespec}
use iiw_udp_gbn.Packet.{Packet, calc_ack_size, serialize_packet}
use iiw_udp_gbn.Packet.RoundTrip.{IsWellFormed, serialized-read}
use iiw_udp_gbn.SendWindow.{queue_len}

abbrev pub received : Launcher → List ℕ → Launcher
received l buf = record l { ack_buf = buf; signals_blocked = true }

pub received-IsSender :
    (l : Launcher) (free : ℕ) (buf : List ℕ) → IsSender l free → IsSender (received l buf) free
received-IsSender l free buf v = record {
  valid = v.valid;
  opened = v.opened;
  some_room = v.some_room;
  less_than_all = v.less_than_all;
}

-- The bytes of an acknowledgment are read as that acknowledgment, whatever the buffer held before.
pub listen_for_ack_eq :
    (l : Launcher) (p : Packet) (bytes : List ℕ) (now : ℕ → Timespec)
    → IsWellFormed p
    → p.content ≡ []
    → p.header.is_ack ≡ true
    → serialize_packet p ≡ some bytes
    → (buf : List ℕ) × (listen_for_ack l bytes now
        ≡ some (record (handle_ack (received l buf) p now) { signals_blocked = false }))
unfolding listen_for_ack
listen_for_ack_eq l p bytes now formed bare is_ack written =
    let rest = drop (length bytes) l.ack_buf in
    let (read, size) = serialized-read p bytes rest formed written in
    let whole : take calc_ack_size bytes ≡ bytes =
      take_all calc_ack_size bytes (omega (arith, size, ap (λ (c : List ℕ). length c) bare)) in
    (bytes ++ rest, simp (whole, read, is_ack) refl)

-- Let the sender's invariant hold, its window stand behind the first j packets of a message that starts
-- at the pad `start`, and the receiver acknowledge k of them, more than j by no more than the window
-- and the pads that are not free, none of them beyond the end of the array. Then the launcher takes the
-- acknowledgment: the window moves to the first packet that the receiver lacks, the pads before it are
-- ACKED, the invariant holds with that many more free pads, and its signals are unblocked again.
pub listen_for_ack-IsAckOf :
    (l : Launcher) (free start n j k : ℕ) (p : Packet) (c : Catcher) (a : Ack) (bytes : List ℕ)
    (now : ℕ → Timespec)
    → IsSender l free
    → IsAckOf start n k p c a
    → serialize_packet a.packet ≡ some bytes
    → l.window.base ≡ (start + j) % queue_len
    → j < k
    → k - j ≤ l.winsize
    → free + (k - j) ≤ queue_len
    → l.window.base + (k - j) ≤ queue_len
    → (l' : Launcher) × (listen_for_ack l bytes now ≡ some l')
      × IsSender l' (free + (k - j))
      × (l'.window.base ≡ (start + k) % queue_len)
      × AreAcked (k - j) l.window.base l'.battery.battery
      × (l'.signals_blocked ≡ false)
listen_for_ack-IsAckOf l free start n j k p c a bytes now v ack written at_j more m₁ fit wrap =
    let (buf, run) =
      listen_for_ack_eq l a.packet bytes now ack.formed ack.bare ack.is_ack written in
    let moved : (start + k) % queue_len ≡ (l.window.base + (k - j)) % queue_len =
      omega (arith, at_j) in
    let (sender, base, done, _, _) =
      handle_ack_in_order (received l buf) free (received-IsSender l free buf v) a.packet now
        (k - j) 0 (omega arith) m₁ fit wrap (ack.index ∙ ap pos moved) in
    (
      record (handle_ack (received l buf) a.packet now) { signals_blocked = false },
      run,
      record {
        valid = sender.valid;
        opened = sender.opened;
        some_room = sender.some_room;
        less_than_all = sender.less_than_all;
      },
      base ∙ sym moved,
      done,
      refl,
    )

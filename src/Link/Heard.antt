-- ===== src/Link/Heard.antt =====
-- What a launcher that waits keeps when it takes an acknowledgment.
use iiw_udp_gbn.Base.{
  ℕ, ◌≡◌, refl, ap, ◌∙◌, Bool, true, false, List, [], ◌∷◌, ◌++◌, inr, if◌then◌else◌,
}
use iiw_udp_gbn.Base.Int.{ℤ}
use iiw_udp_gbn.Catcher.{Ack}
use iiw_udp_gbn.Gbn.Feedback.{received}
use iiw_udp_gbn.LaunchBattery.{LaunchPadStatus, ready, sent}
use iiw_udp_gbn.Launcher.{Launcher, new_packets_in_send_window}
use iiw_udp_gbn.Launcher.Acks.{notify_launcher-pending}
use iiw_udp_gbn.Launcher.Events.{handle_ack, advance_window}
use iiw_udp_gbn.Link.Launches.{IsWaiting}
use iiw_udp_gbn.Link.Live.{CanRing, IsLive}
use iiw_udp_gbn.Link.Steps.{heard}
use iiw_udp_gbn.NetworkSampler.{Timespec}
use iiw_udp_gbn.Packet.{Packet}
use iiw_udp_gbn.Timer.{Timer, restart, timeout}

-- What a launcher keeps when it takes an acknowledgment.
abbrev KeepsTimer : Launcher → Launcher → Type 0
KeepsTimer l l' =
    (l'.is_available ≡ l.is_available)
    × (l'.timer.is_alive ≡ l.timer.is_alive)
    × (CanRing l.timer → CanRing l'.timer)

restarted-CanRing :
    (t : Timer) (asked : Bool)
    → let u = if asked then timeout t restart else t in
      (u.is_alive ≡ t.is_alive) × (CanRing t → CanRing u)
unfolding timeout
restarted-CanRing t true = (refl, λ c. record { has_ring = c.has_ring; recurs = inr refl })
restarted-CanRing t false = (refl, λ c. c)

advance_window-KeepsTimer :
    (l : Launcher) (ack : Packet) (ack_index : ℤ) → KeepsTimer l (advance_window l ack ack_index)
unfolding advance_window
advance_window-KeepsTimer l ack ack_index = simp (notify_launcher-pending) (
  refl,
  (restarted-CanRing l.timer l.timer.is_alive).0,
  (restarted-CanRing l.timer l.timer.is_alive).1,
)

one-KeepsTimer :
    (l m m' : Launcher) (moved : Bool)
    → KeepsTimer l m
    → KeepsTimer l m'
    → KeepsTimer l (if moved then m else m')
one-KeepsTimer l m m' true k k' = k
one-KeepsTimer l m m' false k k' = k'

handle_ack-KeepsTimer :
    (l : Launcher) (ack : Packet) (now : ℕ → Timespec) → KeepsTimer l (handle_ack l ack now)
unfolding handle_ack
handle_ack-KeepsTimer l ack now =
    one-KeepsTimer l _ _ _ (advance_window-KeepsTimer _ ack _) (refl, refl, λ c. c)

pub heard-IsLive :
    (l : Launcher) (buf : List ℕ) (a : Ack) (now : ℕ → Timespec)
    → IsWaiting l
    → (handle_ack (received l buf) a.packet now).pending
      ≡ (if l.is_available then l.pending ++ new_packets_in_send_window ∷ [] else l.pending)
    → IsLive (heard l buf a now)
heard-IsLive l buf a now w pending =
    let (available, alive, can) = handle_ack-KeepsTimer (received l buf) a.packet now in
    record {
      available = available ∙ w.available;
      unblocked = refl;
      can_ring = λ e. can w.can_ring;
      queued = λ e. (
        l.pending,
        [],
        pending
            ∙ ap
                (λ (b : Bool).
                  if b then l.pending ++ new_packets_in_send_window ∷ [] else l.pending)
                w.available,
      );
      alive = λ e. alive ∙ w.alive;
    }

sent_or_ready : (status : LaunchPadStatus) → status ≡ ready → status ≡ sent → ⊥
sent_or_ready status e e' = cc

pub waiting-IsLive : (l : Launcher) → IsWaiting l → IsLive l
waiting-IsLive l w = record {
  available = w.available;
  unblocked = w.unblocked;
  can_ring = λ e. w.can_ring;
  queued = λ e. absurd (sent_or_ready _ e w.on_air);
  alive = λ e. w.alive;
}

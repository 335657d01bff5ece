-- ===== src/Link/Live.antt =====
-- The steps of the system that the launcher's thread, its timer and the network really take. The thread runs, and
-- handles a signal that is queued and not blocked, the one with the lowest number first; the timer's
-- thread is alive when it wakes, and rings through the launcher.
use iiw_udp_gbn.Base.{
  ℕ, ◌%◌, ◌≤◌, ◌≡◌, ◌⊎◌, true, false, List, ◌∷◌, ◌++◌, some, get_elem?, All, if◌then◌else◌,
}
use iiw_udp_gbn.Catcher.{datagram, Catcher, Ack, catch}
use iiw_udp_gbn.LaunchBattery.{ready, sent}
use iiw_udp_gbn.Launcher.{Launcher, LauncherEvent, new_packets_in_send_window, Attempt, Sent, ring}
use iiw_udp_gbn.Launcher.Events.{event_code, launcher_sig_handler, listen_for_ack}
use iiw_udp_gbn.Link.{System}
use iiw_udp_gbn.Link.Pads.{IsBoundTo}
use iiw_udp_gbn.NetworkSampler.{Timespec}
use iiw_udp_gbn.Packet.{serialize_packet}
use iiw_udp_gbn.SendWindow.{queue_len}
use iiw_udp_gbn.SortingTable.{Address}
use iiw_udp_gbn.Timer.{Timer, ring_then_restart, restart, timer_step}

abbrev pub with_pending : System → List LauncherEvent → System
with_pending s pending = record s { sender = record s.sender { pending = pending } }

-- The launcher behind a wake of its timer.
abbrev pub woken : Launcher → Launcher
woken l =
    let (timer, rang) = timer_step l.timer in
    if rang then ring (record l { timer = timer }) else record l { timer = timer }

pub data LiveStep (port : ℕ) : System → System → Type 0 where
  -- a signal leaves the queue and is handled
  handles_signal :
      {s : System} (before after : List LauncherEvent) (event : LauncherEvent) (io : ℕ → Attempt)
      (l : Launcher) (ds : List Sent)
      → s.sender.is_available ≡ true
      → s.sender.signals_blocked ≡ false
      → s.sender.pending ≡ before ++ event ∷ after
      → All (λ e. event_code event ≤ event_code e) (before ++ after)
      → ((i : ℕ) → IsBoundTo port (io i))
      → launcher_sig_handler (record s.sender { pending = before ++ after }) event io ≡ some (l, ds)
      → LiveStep port s (record s { sender = l; data_air = s.data_air ++ ds })
  -- a datagram, at a receiver that still listens
  delivers_data :
      {s : System} (m : ℕ) (d : Sent) (from : Address) (c : Catcher) (acks : List Ack)
      → get_elem? s.data_air m ≡ some d
      → s.receiver.more ≡ true
      → catch s.receiver (datagram d.bytes from) ≡ some (c, acks)
      → LiveStep port s (record s { receiver = c; acks_air = s.acks_air ++ acks })
  -- an acknowledgment, at a launcher that runs
  hears_ack :
      {s : System} (m : ℕ) (a : Ack) (bytes : List ℕ) (now : ℕ → Timespec) (l : Launcher)
      → s.sender.is_available ≡ true
      → get_elem? s.acks_air m ≡ some a
      → serialize_packet a.packet ≡ some bytes
      → listen_for_ack s.sender bytes now ≡ some l
      → LiveStep port s (record s { sender = l })
  -- the timer
  wakes_timer :
      {s : System}
      → s.sender.timer.is_alive ≡ true
      → LiveStep port s (record s { sender = woken s.sender })

pub data Runs (port : ℕ) (s : System) : System → Type 0 where
  stays : Runs port s s
  runs_on : {t u : System} → Runs port s t → LiveStep port t u → Runs port s u

pub Runs-trans : (port : ℕ) (s t u : System) → Runs port s t → Runs port t u → Runs port s u
Runs-trans port s t u r stays = r
Runs-trans port s t u r (runs_on {t = w} r' step) = runs_on (Runs-trans port s t w r r') step

-- A timer that has a function to call, and will call it at this wake or at the next.
pub record CanRing (t : Timer) : Type 0 where
  pub has_ring : t.ring ≡ true
  pub recurs : (t.at_timeout ≡ ring_then_restart) ⊎ (t.at_timeout ≡ restart)

-- A launcher that runs and does not block its signals, and has not given up: where the packet at the base of
-- its window is READY the signal for it is queued, and where it is SENT the timer is alive.
pub record IsLive (l : Launcher) : Type 0 where
  pub available : l.is_available ≡ true
  pub unblocked : l.signals_blocked ≡ false
  pub can_ring : l.timer.is_alive ≡ true → CanRing l.timer
  pub queued :
      (l.battery.battery (l.window.base % queue_len)).status ≡ ready
      → (before : List LauncherEvent) × (after : List LauncherEvent) × (l.pending
          ≡ before ++ new_packets_in_send_window ∷ after)
  pub alive :
      (l.battery.battery (l.window.base % queue_len)).status ≡ sent → l.timer.is_alive ≡ true

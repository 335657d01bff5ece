-- ===== src/Link/Launches.antt =====
-- The steps by which the packet at the base of the window leaves, from a launcher that has not given up.
use mathlib.Core.List.{append-nil}
use mathlib.Core.Path.{subst}
use iiw_udp_gbn.Base.{
  ℕ, ◌%◌, ◌^◌, ◌<◌, ◌≤◌, ◌≡◌, refl, sym, ap, ◌∙◌, true, false, List, [], ◌∷◌, ◌++◌, some, arith,
  length, All, All-at, inl, inr, if◌then◌else◌, Bool,
}
use iiw_udp_gbn.Base.Int.{ℤ, pos, negsuc}
use iiw_udp_gbn.LaunchBattery.{ready, sent, is_launch_pad_available}
use iiw_udp_gbn.LaunchBattery.Ring.{is_free}
use iiw_udp_gbn.Launcher.{
  Launcher, new_packets_in_send_window, packet_timed_out, Attempt, Sent, set_ack_port,
}
use iiw_udp_gbn.Launcher.Events.{event_code}
use iiw_udp_gbn.Launcher.Firing.{AreArmed}
use iiw_udp_gbn.Launcher.Stalled.{IsNumbered}
use iiw_udp_gbn.Link.{System}
use iiw_udp_gbn.Link.Drains.{above_new, drain, rung_launcher, wakes_to_ring}
use iiw_udp_gbn.Link.Fires.{IsKind}
use iiw_udp_gbn.Link.Handlers.{busy_status, launch_ready, launch_sent}
use iiw_udp_gbn.Link.Invariant.{Transfer, IsLinked, with_sender, handles-IsLinked}
use iiw_udp_gbn.Link.Live.{
  handles_signal, Runs, stays, runs_on, Runs-trans, with_pending, CanRing, IsLive,
}
use iiw_udp_gbn.Link.Pads.{IsBoundTo}
use iiw_udp_gbn.Packet.{Packet, serialize_packet}
use iiw_udp_gbn.Packet.RoundTrip.{IsWellFormed}
use iiw_udp_gbn.Packet.Series.{IsStamped-at}
use iiw_udp_gbn.SendWindow.{SendWindow, queue_len}
use iiw_udp_gbn.SortingTable.{get_from_sorting_table}
use iiw_udp_gbn.Timer.{Timer, ring_then_restart, start_timer}

-- The port in the packet aside.
unported-IsWellFormed :
    (p : Packet) (port : ℕ)
    → IsWellFormed (set_ack_port p port)
    → p.header.ack_port < 2 ^ 16
    → IsWellFormed p
unported-IsWellFormed p port w h = record {
  index = w.index;
  end_index = w.end_index;
  msg_id = w.msg_id;
  queue_len = w.queue_len;
  data_len = w.data_len;
  ack_port = h;
  carried = w.carried;
}

-- The launcher runs and its timer is alive, with the packet at the base of the window on air.
pub record IsWaiting (l : Launcher) : Type 0 where
  pub available : l.is_available ≡ true
  pub unblocked : l.signals_blocked ≡ false
  pub alive : l.timer.is_alive ≡ true
  pub can_ring : CanRing l.timer
  pub on_air : (l.battery.battery (l.window.base % queue_len)).status ≡ sent

abbrev pub sent_on : System → Launcher → Sent → List Sent → System
sent_on s l d more = record s { sender = l; data_air = s.data_air ++ d ∷ more }

-- The packet `d` was launched from `s` on, and nothing arrived anywhere.
pub record IsLaunched (x : Transfer) (j k : ℕ) (s : System) (d : Sent) : Type 0 where
  pub after : Launcher
  pub more : List Sent
  pub runs : Runs x.port s (sent_on s after d more)
  pub linked : IsLinked x j k (sent_on s after d more)
  pub waiting : IsWaiting after

chosen-CanRing :
    (t : Timer) (is_alive : Bool)
    → (is_alive ≡ true → (t.is_alive ≡ true) × CanRing t)
    → let new : Timer = record t { ring = true; at_timeout = ring_then_restart; is_alive = true } in
      let made : Timer × ℤ = if is_alive then (t, negsuc 0) else (new, pos 0) in
      let u = if is_alive then t else made.0 in (u.is_alive ≡ true) × CanRing u
chosen-CanRing t true h = h refl
chosen-CanRing t false h = (refl, record { has_ring = refl; recurs = inl refl })

started-CanRing :
    (t : Timer)
    → (t.is_alive ≡ true → CanRing t)
    → let u = if t.is_alive then t else (start_timer t ring_then_restart true).0 in
      (u.is_alive ≡ true) × CanRing u
unfolding start_timer
started-CanRing t h = chosen-CanRing t t.is_alive (λ alive. (alive, h alive))

module _ (x : Transfer) (id : ℕ) (is_id : x.id ≡ pos id) (io : ℕ → Attempt)
    (kind : (i : ℕ) → IsKind x.port (io i)) where
  bound : (i : ℕ) → IsBoundTo x.port (io i)
  bound i = inr (kind i).bound

  pub IsLinked-AreArmed :
      (j k : ℕ) (s : System)
      → IsLinked x j k s
      → AreArmed s.sender.send_table s.sender.battery.battery
  IsLinked-AreArmed j k s v i busy =
      let (p, is_p, (m, e, _, port_small)) = v.pads i busy in
      let (t, _) = IsStamped-at x.start (length x.air) 0 m x.air _ x.stamped e in
      let numbered = All-at (λ (q : Packet). q.header.msg_id ≡ x.id) x.air m _ x.numbered e in
      let fits = v.sending.fits in
      let left : j < length x.air =
        ground (arith, v.sending.valid.valid.ring.frees i, busy, fits) in
      record {
        packet = p;
        entry = x.entry;
        held = is_p;
        formed = unported-IsWellFormed p x.port t.formed port_small;
        found = rw numbered (v.known left);
      }

  IsLinked-IsNumbered :
      (j k : ℕ) (s : System)
      → IsLinked x j k s
      → (i : ℕ) → IsNumbered (s.sender.battery.battery (i % queue_len))
  unfolding is_launch_pad_available
  IsLinked-IsNumbered j k s v i is_ready =
      let (p, is_p, (m, e, _, _)) = v.pads i (ap is_launch_pad_available is_ready) in
      (p, id, is_p, All-at (λ (q : Packet). q.header.msg_id ≡ x.id) x.air m _ x.numbered e ∙ is_id)

  -- The packet at the base of the window of the launcher in `s`, as it is handed to the network.
  module _ (j k : ℕ) (p : Packet) (bytes : List ℕ) (more_to_come : j < length x.air)
      (is_ours : p.header.msg_id ≡ x.id)
      (written : serialize_packet (set_ack_port p x.port) ≡ some bytes) where
    abbrev leaving : Sent
    leaving = record { bytes = bytes; entry = x.entry }

    -- It is READY, and the signal for it is queued.
    launches_ready :
        (s : System)
        → IsLinked x j k s
        → IsLive s.sender
        → is_free s.sender.battery.battery (s.sender.window.base % queue_len) ≡ false
        → (s.sender.battery.battery (s.sender.window.base % queue_len)).packet ≡ some p
        → (s.sender.battery.battery (s.sender.window.base % queue_len)).status ≡ ready
        → IsLaunched x j k s leaving
    launches_ready s v live busy held is_ready =
        let (before, rest, queue) = live.queued is_ready in
        let l : Launcher = record s.sender { pending = before ++ rest } in
        let w : IsLinked x j k (record s { sender = l }) =
          with_sender x j k s l v refl refl refl refl in
        let f =
          launch_ready l _ w.sending.valid (IsLinked-AreArmed j k _ w) x.port x.port_in io kind busy
            p x.entry bytes held
            (ap (get_from_sorting_table l.send_table) is_ours ∙ w.known more_to_come) written
            is_ready in
        let (alive, can) = started-CanRing s.sender.timer live.can_ring in
        record {
          after = f.after;
          more = f.rest;
          runs = runs_on stays (
              handles_signal before rest new_packets_in_send_window io f.after (leaving ∷ f.rest)
                live.available live.unblocked queue (above_new (before ++ rest)) bound f.run);
          linked =
              handles-IsLinked x j k (record s { sender = l }) new_packets_in_send_window io f.after
                (leaving ∷ f.rest) w bound f.run;
          waiting = record {
            available = f.same_available ∙ live.available;
            unblocked = f.same_blocked ∙ live.unblocked;
            alive = ap (λ (t : Timer). t.is_alive) f.same_timer ∙ alive;
            can_ring = subst CanRing (sym f.same_timer) can;
            on_air =
                ap (λ (win : SendWindow). (f.after.battery.battery (win.base % queue_len)).status)
                  f.same_window
                ∙ f.base_sent;
          };
        }

    -- It is SENT, and the timer is alive.
    launches_sent :
        (s : System)
        → IsLinked x j k s
        → IsLive s.sender
        → is_free s.sender.battery.battery (s.sender.window.base % queue_len) ≡ false
        → (s.sender.battery.battery (s.sender.window.base % queue_len)).packet ≡ some p
        → (s.sender.battery.battery (s.sender.window.base % queue_len)).status ≡ sent
        → IsLaunched x j k s leaving
    launches_sent s v live busy held was_sent =
        let alive = live.alive was_sent in
        let can = live.can_ring alive in
        let s₁ : System = record s { sender = rung_launcher s.sender } in
        let v₁ : IsLinked x j k s₁ = with_sender x j k s _ v refl refl refl refl in
        let (left, later, drained) =
          drain x.port io bound s₁ live.available live.unblocked (IsLinked-IsNumbered j k s₁ v₁)
            was_sent s.sender.pending [] (packet_timed_out ∷ []) tt in
        let l : Launcher = record (rung_launcher s.sender) { pending = left ++ [] } in
        let w : IsLinked x j k (record s { sender = l }) =
          with_sender x j k s l v refl refl refl refl in
        let f =
          launch_sent l _ w.sending.valid (IsLinked-AreArmed j k _ w) x.port x.port_in io kind busy
            p x.entry bytes held
            (ap (get_from_sorting_table l.send_table) is_ours ∙ w.known more_to_come) written
            was_sent in
        record {
          after = f.after;
          more = f.rest;
          runs =
              runs_on
                (Runs-trans x.port s s₁ (with_pending s₁ (left ++ packet_timed_out ∷ []))
                  (wakes_to_ring x.port s live.available alive can) drained)
                (handles_signal left [] packet_timed_out io f.after (leaving ∷ f.rest)
                  live.available live.unblocked refl
                  (subst (All (λ e. event_code packet_timed_out ≤ event_code e))
                    (sym (append-nil left)) later)
                  bound f.run);
          linked =
              handles-IsLinked x j k (record s { sender = l }) packet_timed_out io f.after
                (leaving ∷ f.rest) w bound f.run;
          waiting = record {
            available = f.same_available ∙ live.available;
            unblocked = f.same_blocked ∙ live.unblocked;
            alive = ap (λ (t : Timer). t.is_alive) f.same_timer ∙ alive;
            can_ring =
                subst CanRing (sym f.same_timer)
                  (record { has_ring = can.has_ring; recurs = inl refl });
            on_air =
                ap (λ (win : SendWindow). (f.after.battery.battery (win.base % queue_len)).status)
                  f.same_window
                ∙ f.base_sent;
          };
        }

    -- One or the other.
    pub launches :
        (s : System)
        → IsLinked x j k s
        → IsLive s.sender
        → is_free s.sender.battery.battery (s.sender.window.base % queue_len) ≡ false
        → (s.sender.battery.battery (s.sender.window.base % queue_len)).packet ≡ some p
        → IsLaunched x j k s leaving
    launches s v live busy held =
        elim (busy_status (s.sender.battery.battery (s.sender.window.base % queue_len)).status
          busy) [
            | inl is_ready ↦ launches_ready s v live busy held is_ready
            | inr was_sent ↦ launches_sent s v live busy held was_sent
          ]

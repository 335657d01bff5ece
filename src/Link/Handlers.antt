-- ===== src/Link/Handlers.antt =====
-- The signals that launch the packet at the base of the window, where the network and the system calls are kind.
use iiw_udp_gbn.Base.{
  ℕ, ◌+◌, ◌-◌, ◌%◌, ◌^◌, ◌<◌, ◌≡◌, ◌⊎◌, Bool, refl, ap, ap₂, true, false, List, [], ◌∷◌, some,
  arith, if◌then◌else◌, ltb, ◌==◌, ◌&&◌, not, inl, inr,
}
use iiw_udp_gbn.Base.Int.{negsuc}
use iiw_udp_gbn.LaunchBattery.{
  LaunchPadStatus, empty, ready, sent, acked, lost, LaunchPad, is_launch_pad_available,
}
use iiw_udp_gbn.LaunchBattery.Ring.{is_free}
use iiw_udp_gbn.Launcher.{
  Launcher, LauncherEvent, new_packets_in_send_window, packet_timed_out, Attempt, Sent, Pass,
  set_ack_port, send_all_packets_in_window_core, with_pads,
}
use iiw_udp_gbn.Launcher.Acks.{IsSender}
use iiw_udp_gbn.Launcher.Events.{launcher_sig_handler}
use iiw_udp_gbn.Launcher.Firing.{AreArmed, HasPort}
use iiw_udp_gbn.Launcher.Passes.{bind_some}
use iiw_udp_gbn.Launcher.Sweep.{launcher_sig_handler-IsSender}
use iiw_udp_gbn.Link.Pads.{window_wide}
use iiw_udp_gbn.Packet.{Packet, serialize_packet}
use iiw_udp_gbn.SendWindow.{queue_len}
use iiw_udp_gbn.Timer.{Timer, ring_then_restart, start_timer}
use iiw_udp_gbn.SortingTable.{SortingEntry, get_from_sorting_table}
use iiw_udp_gbn.Link.Fires.{IsKind, first_rounds}

started :
    (l : Launcher) (t : Timer) (some_launch is_alive : Bool)
    → some_launch ≡ true
    → (if some_launch && not is_alive then record l { timer = t } else l)
      ≡ record l { timer = if is_alive then l.timer else t }
started l t some_launch true e = rw e refl
started l t some_launch false e = rw e refl

-- The launcher at its base pad.
module _ (l : Launcher) (free : ℕ) (v : IsSender l free)
    (armed : AreArmed l.send_table l.battery.battery) (port : ℕ) (port_in : port < 2 ^ 16)
    (io : ℕ → Attempt) (kind : (i : ℕ) → IsKind port (io i))
    (busy : is_free l.battery.battery (l.window.base % queue_len) ≡ false) where
  base_pad : LaunchPad
  base_pad = l.battery.battery (l.window.base % queue_len)

  core_base :
      (p : Packet) (entry : SortingEntry) (bytes : List ℕ) (status : LaunchPadStatus) (pass : Pass)
      → base_pad.packet ≡ some p
      → get_from_sorting_table l.send_table p.header.msg_id ≡ some entry
      → serialize_packet (set_ack_port p port) ≡ some bytes
      → base_pad.status ≡ status
      → send_all_packets_in_window_core l io (status ∷ []) ≡ some pass
      → (rest : List Sent) × (pass.datagrams ≡ record { bytes = bytes; entry = entry } ∷ rest)
        × (0 < pass.launches)
        × ((pass.pads (l.window.base % queue_len)).status ≡ sent)
  unfolding send_all_packets_in_window_core base_pad
  core_base p entry bytes status pass held found written is_status run =
      let base = l.window.base in
      let next =
        if ltb l.window.next_seq_num base
        then l.window.next_seq_num + queue_len
        else l.window.next_seq_num in
      let start : Pass = record {
        pads = l.battery.battery;
        msg_id_to_send = negsuc 0;
        launches = 0;
        datagrams = [];
      } in
      first_rounds l.send_table p entry port bytes found written io base (next - base) start pass
        (omega (arith, window_wide l free v, v.some_room)) held (kind base) (rw is_status run)

  -- The handler's two ways to launch the packet at the base of the window, and what they leave.
  pub record IsFired (d : Sent) (event : LauncherEvent) (t : Timer) : Type 0 where
    pub after : Launcher
    pub rest : List Sent
    pub run : launcher_sig_handler l event io ≡ some (after, d ∷ rest)
    pub base_sent : (after.battery.battery (l.window.base % queue_len)).status ≡ sent
    pub same_window : after.window ≡ l.window
    pub same_pending : after.pending ≡ l.pending
    pub same_blocked : after.signals_blocked ≡ l.signals_blocked
    pub same_available : after.is_available ≡ l.is_available
    pub same_timer : after.timer ≡ t

  module _ (p : Packet) (entry : SortingEntry) (bytes : List ℕ)
      (held : (l.battery.battery (l.window.base % queue_len)).packet ≡ some p)
      (found : get_from_sorting_table l.send_table p.header.msg_id ≡ some entry)
      (written : serialize_packet (set_ack_port p port) ≡ some bytes) where
    ports : (i : ℕ) → HasPort (io i)
    ports i = (port, (kind i).bound, port_in)

    abbrev out : Sent
    out = record { bytes = bytes; entry = entry }

    -- The timer is started, if it is not alive.
    pub launch_ready :
        (l.battery.battery (l.window.base % queue_len)).status ≡ ready
        → IsFired out new_packets_in_send_window
            (if l.timer.is_alive then l.timer else (start_timer l.timer ring_then_restart true).0)
    unfolding launcher_sig_handler base_pad
    launch_ready is_ready =
        let (l', ds, run, _, _, _, _, _, _, _) =
          launcher_sig_handler-IsSender l free v armed io ports new_packets_in_send_window in
        let (pass, ran, _) =
          bind_some (send_all_packets_in_window_core l io (ready ∷ [])) _ (l', ds) run in
        let (rest, e, some_launch, is_sent) =
          core_base p entry bytes ready pass held found written is_ready ran in
        let launched : ltb 0 pass.launches ≡ true = ground (arith, some_launch) in
        record {
          after = record (with_pads l pass.pads) {
            timer =
                if l.timer.is_alive
                then l.timer
                else (start_timer l.timer ring_then_restart true).0;
          };
          rest = rest;
          run = rw ran (
              ap₂ (λ (m : Launcher) (d : List Sent). some (m, d))
                (started (with_pads l pass.pads) (start_timer l.timer ring_then_restart true).0
                  (ltb 0 pass.launches) l.timer.is_alive launched)
                e);
          base_sent = is_sent;
          same_window = refl;
          same_pending = refl;
          same_blocked = refl;
          same_available = refl;
          same_timer = refl;
        }

    -- The timer stays as it is.
    pub launch_sent :
        (l.battery.battery (l.window.base % queue_len)).status ≡ sent
        → IsFired out packet_timed_out l.timer
    unfolding launcher_sig_handler base_pad
    launch_sent was_sent =
        let (l', ds, run, _, _, _, _, _, _, _) =
          launcher_sig_handler-IsSender l free v armed io ports packet_timed_out in
        let (pass, ran, _) =
          bind_some (send_all_packets_in_window_core l io (sent ∷ [])) _ (l', ds) run in
        let (rest, e, some_launch, is_sent) =
          core_base p entry bytes sent pass held found written was_sent ran in
        let launched : (pass.launches == 0) ≡ false = ground (arith, some_launch) in
        record {
          after = with_pads l pass.pads;
          rest = rest;
          run = rw ran (rw launched (ap (λ (d : List Sent). some (with_pads l pass.pads, d)) e));
          base_sent = is_sent;
          same_window = refl;
          same_pending = refl;
          same_blocked = refl;
          same_available = refl;
          same_timer = refl;
        }

pub busy_status :
    (status : LaunchPadStatus)
    → is_launch_pad_available status ≡ false
    → (status ≡ ready) ⊎ (status ≡ sent)
unfolding is_launch_pad_available
busy_status empty e = cc
busy_status ready e = inl refl
busy_status sent e = inr refl
busy_status acked e = cc
busy_status lost e = cc

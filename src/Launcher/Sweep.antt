-- ===== src/Launcher/Sweep.antt =====
-- The passes over the window that send packets, and the handler of the launcher's events.
use iiw_udp_gbn.Base.{
  ℕ, ◌+◌, ◌-◌, ◌%◌, ◌≤◌, ◌≡◌, refl, ap, ◌∙◌, true, false, not, ◌&&◌, List, [], ◌∷◌, some, arith,
  length, if◌then◌else◌, ltb, ◌==◌, Bool-cases, inl, inr,
}
use iiw_udp_gbn.Base.Int.{negsuc}
use iiw_udp_gbn.LaunchBattery.{LaunchPadStatus, ready, sent, is_launch_pad_available}
use iiw_udp_gbn.Launcher.{
  Launcher, LauncherEvent, new_packets_in_send_window, packet_timed_out, launcher_shutdown, Attempt,
  Sent, Pass, send_all_packets_in_window_core, with_pads,
}
use iiw_udp_gbn.Launcher.Acks.{IsSender}
use iiw_udp_gbn.Launcher.Events.{launcher_sig_handler, event_code, stop_timer}
use iiw_udp_gbn.Launcher.Firing.{AreArmed, HasPort, portless, AreBusy}
use iiw_udp_gbn.SendWindow.{queue_len, SendWindow}
use iiw_udp_gbn.Timer.{Timer, ring_then_restart, start_timer}
use iiw_udp_gbn.Launcher.Rounds.{send_rounds-Keeps}

-- The launcher after a pass.
module _ (l : Launcher) (free : ℕ) (v : IsSender l free)
    (armed : AreArmed l.send_table l.battery.battery) (io : ℕ → Attempt)
    (ports : (i : ℕ) → HasPort (io i)) where
  -- Where the sender's invariant holds, every pad that is not free holds a packet of a known message, and
  -- getsockname always answers a port, a pass for READY pads, SENT pads or
  -- both does not fault: it keeps the invariant with the same free pads, leaves every pad its packet but
  -- for the port, and launches and sends no more packets than the window is wide.
  pub send_all_packets-IsSender :
      (statuses : List LaunchPadStatus) (j : ℕ)
      → AreBusy statuses
      → (pass : Pass) × (send_all_packets_in_window_core l io statuses ≡ some pass)
        × IsSender (with_pads l pass.pads) free
        × AreArmed l.send_table pass.pads
        × (portless (pass.pads (j % queue_len)) ≡ portless (l.battery.battery (j % queue_len)))
        × (length pass.datagrams ≤ pass.launches)
        × (pass.launches ≤ l.winsize)
  unfolding send_all_packets_in_window_core
  send_all_packets-IsSender statuses j wanted =
      let base = l.window.base in
      let next =
        if ltb l.window.next_seq_num base
        then l.window.next_seq_num + queue_len
        else l.window.next_seq_num in
      let start : Pass = record {
        pads = l.battery.battery;
        msg_id_to_send = negsuc 0;
        launches = 0;
        datagrams = [];
      } in
      let (pass, run, keeps) =
        send_rounds-Keeps l.send_table io ports statuses wanted base (next - base) base start
          armed in
      let wide : next - base ≡ l.winsize = ground (
        arith,
        ap (λ (w : SendWindow). w.base) v.opened,
        ap (λ (w : SendWindow). w.next_seq_num) v.opened,
        v.some_room,
        v.less_than_all,
      ) in
      (
        pass,
        run,
        record {
          valid = record {
            ring = record {
              next_in = v.valid.ring.next_in;
              fits = v.valid.ring.fits;
              frees = λ i. keeps.frees i ∙ v.valid.ring.frees i;
            };
            counted = v.valid.counted;
          };
          opened = v.opened;
          some_room = v.some_room;
          less_than_all = v.less_than_all;
        },
        keeps.armed,
        keeps.same j,
        keeps.counted (omega arith),
        omega (arith, keeps.few, wide),
      )

  with_timer-IsSender :
      (m : Launcher) → IsSender m free → (t : Timer) → IsSender (record m { timer = t }) free
  with_timer-IsSender m w t = record {
    valid = w.valid;
    opened = w.opened;
    some_room = w.some_room;
    less_than_all = w.less_than_all;
  }

  -- Where the sender's invariant holds, every pad that is not free holds a packet of a known message,
  -- and getsockname always answers a port, every event of the launcher is handled without a fault, and
  -- the handler keeps the invariant, the window and the table; at most as many datagrams leave as the
  -- window is wide, and none on a shutdown, after which the launcher takes no more work.
  pub launcher_sig_handler-IsSender :
      (event : LauncherEvent)
      → (l' : Launcher) × (datagrams : List Sent) × (launcher_sig_handler l event io
          ≡ some (l', datagrams))
        × IsSender l' free
        × AreArmed l'.send_table l'.battery.battery
        × (length datagrams ≤ l.winsize)
        × (l'.window ≡ l.window)
        × (l'.send_table ≡ l.send_table)
        × (l'.is_available ≡ (if event_code event == 2 then false else l.is_available))
        × (datagrams ≡ (if event_code event == 2 then [] else datagrams))
  unfolding launcher_sig_handler is_launch_pad_available
  launcher_sig_handler-IsSender new_packets_in_send_window =
      let (pass, run, sender, armed', _, sent_some, few) =
        send_all_packets-IsSender (ready ∷ []) 0 (refl, tt) in
      let kept = with_timer-IsSender (with_pads l pass.pads) sender in
      elim (Bool-cases (ltb 0 pass.launches && not l.timer.is_alive)) [
        | inl e ↦ (
          record (with_pads l pass.pads) { timer = (start_timer l.timer ring_then_restart true).0 },
          pass.datagrams,
          simp (run, e) refl,
          kept _,
          armed',
          omega (arith, sent_some, few),
          refl,
          refl,
          refl,
          refl,
        )
        | inr e ↦ (
          with_pads l pass.pads,
          pass.datagrams,
          simp (run, e) refl,
          sender,
          armed',
          omega (arith, sent_some, few),
          refl,
          refl,
          refl,
          refl,
        )
      ]
  launcher_sig_handler-IsSender packet_timed_out =
      let (pass, run, sender, armed', _, sent_some, few) =
        send_all_packets-IsSender (sent ∷ []) 0 (refl, tt) in
      let kept = with_timer-IsSender (with_pads l pass.pads) sender in
      elim (Bool-cases ((pass.launches == 0) && l.timer.is_alive)) [
        | inl e ↦ (
          record (with_pads l pass.pads) { timer = stop_timer l.timer },
          pass.datagrams,
          simp (run, e) refl,
          kept _,
          armed',
          omega (arith, sent_some, few),
          refl,
          refl,
          refl,
          refl,
        )
        | inr e ↦ (
          with_pads l pass.pads,
          pass.datagrams,
          simp (run, e) refl,
          sender,
          armed',
          omega (arith, sent_some, few),
          refl,
          refl,
          refl,
          refl,
        )
      ]
  launcher_sig_handler-IsSender launcher_shutdown = (
    record l { is_available = false },
    [],
    refl,
    record {
      valid = v.valid;
      opened = v.opened;
      some_room = v.some_room;
      less_than_all = v.less_than_all;
    },
    armed,
    omega arith,
    refl,
    refl,
    refl,
    refl,
  )

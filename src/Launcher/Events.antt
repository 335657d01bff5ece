-- ===== src/Launcher/Events.antt =====
-- launcherSigHandler and the body of the loop in listenForAcks.
use iiw_udp_gbn.Base.{
  ℕ, zero, suc, ◌+◌, ◌-◌, ◌%◌, Bool, true, false, not, ◌&&◌, ◌||◌, List, [], ◌++◌, Option, none,
  some, ◌>>=◌, if◌then◌else◌, ltb, ◌==◌, update, take, drop, length,
}
use iiw_udp_gbn.Base.Int.{ℤ, pos, negsuc, ◌+ℤ◌, ◌-ℤ◌, ltb_ℤ, eqb_ℤ, rem_ℤ, pos_part}
use iiw_udp_gbn.LaunchBattery.{acked, LaunchPad, LaunchBattery, update_contiguous_pads}
use iiw_udp_gbn.Launcher.{
  LauncherEvent, new_packets_in_send_window, packet_timed_out, launcher_shutdown, Launcher, Attempt,
  Sent, status_code, send_all_ready_packets_in_window, send_all_sent_packets_in_window, with_pads,
  notify_launcher,
}
use iiw_udp_gbn.NetworkSampler.{Timespec, NetworkParams, update_estimated_rtt}
use iiw_udp_gbn.Packet.{Packet, deserialize_packet, calc_ack_size}
use iiw_udp_gbn.SendWindow.{SendWindow, queue_len, is_in_window}
use iiw_udp_gbn.SortingTable.{remove_from_sorting_table}
use iiw_udp_gbn.Timer.{
  Timer, ring_then_restart, restart, shutdown, start_timer, timeout, timer_step,
}

-- checkRtSignal: 0 is valid. The bounds of the range are those of the host.
unfoldable pub check_rt_signal : ℕ → ℕ → ℕ → ℕ
check_rt_signal rt_min rt_max signal = if not (ltb rt_min signal) || ltb rt_max signal then 1 else 0

abbrev pub event_code : LauncherEvent → ℕ
event_code new_packets_in_send_window = 0
event_code packet_timed_out = 1
event_code launcher_shutdown = 2

unfoldable pub get_signal_from_launcher_event : ℕ → ℕ → LauncherEvent → ℤ
unfolding check_rt_signal
get_signal_from_launcher_event rt_min rt_max event =
    let signal = rt_min + event_code event + 1 in
    if check_rt_signal rt_min rt_max signal == 0 then pos signal else negsuc 0

-- The chain of tests at the head of launcherSigHandler.
unfoldable pub dispatch : ℕ → ℕ → ℤ → Option LauncherEvent
unfolding get_signal_from_launcher_event
dispatch rt_min rt_max sig =
    let is = λ (e : LauncherEvent). eqb_ℤ sig (get_signal_from_launcher_event rt_min rt_max e) in
    if is new_packets_in_send_window
    then some new_packets_in_send_window
    else (if is packet_timed_out
        then some packet_timed_out
        else (if is launcher_shutdown then some launcher_shutdown else none))

-- The timer is set off and its thread joined: it takes the step that the shutdown asks for.
abbrev pub stop_timer : Timer → Timer
stop_timer t = (timer_step (timeout t shutdown)).0

-- launcherSigHandler, behind that dispatch.
unfoldable pub launcher_sig_handler :
    Launcher → LauncherEvent → (ℕ → Attempt) → Option (Launcher × List Sent)
launcher_sig_handler l new_packets_in_send_window io = do
  pass ← send_all_ready_packets_in_window l io
  let l' = with_pads l pass.pads
  let started = record l' { timer = (start_timer l.timer ring_then_restart true).0 }
  some (if ltb 0 pass.launches && not l.timer.is_alive then started else l', pass.datagrams)
launcher_sig_handler l packet_timed_out io = do
  pass ← send_all_sent_packets_in_window l io
  let l' = with_pads l pass.pads
  let stopped = record l' { timer = stop_timer l.timer }
  some (if (pass.launches == 0) && l.timer.is_alive then stopped else l', pass.datagrams)
launcher_sig_handler l launcher_shutdown io = some (record l { is_available = false }, [])

-- The variables of the loop over the pads that an acknowledgment covers.
pub record AckPass : Type 0 where
  pub battery : LaunchBattery
  pub params : NetworkParams
  pub acked_packs : ℕ

abbrev pub sample_of : Timespec → LaunchPad → Timespec
sample_of now pad = record {
  tv_sec = now.tv_sec -ℤ pad.launch_time.tv_sec;
  tv_nsec = now.tv_nsec -ℤ pad.launch_time.tv_nsec;
}

-- A pad is acknowledged.
abbrev pub ack_pad : AckPass → ℕ → Timespec → AckPass
ack_pad s j now =
    let pad = s.battery.battery j in
    let marked = record s.battery {
      battery = update s.battery.battery j (record pad { status = acked });
    } in
    record {
      battery = update_contiguous_pads marked (pos 1);
      params = update_estimated_rtt s.params (sample_of now pad);
      acked_packs = s.acked_packs + 1;
    }

-- One round; `in_window` is isInWindow(ackIndex - 1), and `now` what clock_gettime reads.
unfoldable pub ack_round : Bool → ℕ → Timespec → AckPass → AckPass
ack_round in_window i now s =
    let j = i % queue_len in
    let fresh = not (status_code (s.battery.battery j).status == status_code acked) in
    if in_window && fresh then ack_pad s j now else s

-- The rounds from `i` on, by their number.
unfoldable pub ack_rounds : Bool → (ℕ → Timespec) → ℕ → ℕ → AckPass → AckPass
ack_rounds in_window now zero i s = s
ack_rounds in_window now (suc n) i s =
    ack_rounds in_window now n (i + 1) (ack_round in_window i (now i) s)

abbrev pub unwrap : ℕ → ℤ → ℤ
unwrap base index = if ltb_ℤ index (pos base) then index +ℤ pos queue_len else index

-- Behind the loop, where a packet was acknowledged.
unfoldable pub advance_window : Launcher → Packet → ℤ → Launcher
advance_window l ack ack_index =
    let is_last = eqb_ℤ ack_index (rem_ℤ (ack.header.end_index +ℤ pos 1) queue_len) in
    let table =
      if is_last
      then (remove_from_sorting_table l.send_table ack.header.msg_id).0
      else l.send_table in
    let timer = if l.timer.is_alive then timeout l.timer restart else l.timer in
    let new_base = pos_part (rem_ℤ ack_index queue_len) in
    let window : SendWindow = record {
      base = new_base;
      next_seq_num = (new_base + l.winsize) % queue_len;
    } in
    (notify_launcher (record l { send_table = table; timer = timer; window = window })
      new_packets_in_send_window).0

-- The branch for an acknowledgment.
unfoldable pub handle_ack : Launcher → Packet → (ℕ → Timespec) → Launcher
handle_ack l ack now =
    let base = l.window.base in
    let ack_index = unwrap base ack.header.index in
    let in_window = is_in_window l.window (ack_index -ℤ pos 1) in
    let start : AckPass = record { battery = l.battery; params = l.params; acked_packs = 0 } in
    let pass = ack_rounds in_window now (pos_part ack_index - base) base start in
    let l' = record l { battery = pass.battery; params = pass.params } in
    if ltb 0 pass.acked_packs then advance_window l' ack ack_index else l'

-- One turn of the loop in listenForAcks. The signals are blocked when a datagram arrives, and unblocked
-- only behind the branch for an acknowledgment.
unfoldable pub listen_for_ack : Launcher → List ℕ → (ℕ → Timespec) → Option Launcher
listen_for_ack l bytes now =
    let d = take calc_ack_size bytes in
    let buf = d ++ drop (length d) l.ack_buf in
    let got = record l { ack_buf = buf; signals_blocked = true } in
    deserialize_packet buf >>= λ p.
    some
      (if p.header.is_ack then record (handle_ack got p now) { signals_blocked = false } else got)

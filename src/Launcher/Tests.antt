-- ===== src/Launcher/Tests.antt =====
-- Senders with two packets on air or waiting.
use iiw_udp_gbn.Launcher.{LauncherEvent}
use iiw_udp_gbn.Launcher.Once.{get_launcher_id_once}
use iiw_udp_gbn.Launcher.Start.{new_startup, get_launcher_id, gets_id, shuts_down, after_calls}
use iiw_udp_gbn.Base.{
  ◌++◌, ℕ, ◌+◌, ◌*◌, ◌%◌, ◌≡◌, refl, inr, Bool, true, false, List, [], ◌∷◌, none, some, arith, ltb,
  if◌then◌else◌, length, ◌==◌, ◌≤◌,
}
use iiw_udp_gbn.Base.Int.{pos, negsuc}
use iiw_udp_gbn.LaunchBattery.{ready, sent, LaunchPad, new_launch_pad, is_launch_pad_available}
use iiw_udp_gbn.Launcher.{
  Launcher, packet_timed_out, new_packets_in_send_window, Attempt, Sent,
  send_all_ready_packets_in_window, with_pads,
}
use iiw_udp_gbn.Launcher.AckRounds.{AreAcked}
use iiw_udp_gbn.Launcher.Acks.{IsSender, handle_ack_in_order, handle_ack_stale, handle_ack_wrapped}
use iiw_udp_gbn.Launcher.Events.{
  handle_ack, launcher_sig_handler, get_signal_from_launcher_event, dispatch,
}
use iiw_udp_gbn.Launcher.Firing.{AreArmed, IsArmed, HasPort}
use iiw_udp_gbn.Launcher.Signals.{dispatch-get_signal}
use iiw_udp_gbn.Launcher.Stalled.{IsNumbered, send_all_ready_packets_stalled}
use iiw_udp_gbn.Launcher.Sweep.{launcher_sig_handler-IsSender}
use iiw_udp_gbn.NetworkSampler.{Timespec, new_network_params, zero_time}
use iiw_udp_gbn.Packet.{Packet, new_packet}
use iiw_udp_gbn.Packet.RoundTrip.{IsWellFormed}
use iiw_udp_gbn.SendWindow.{queue_len}
use iiw_udp_gbn.SendWindow.Range.{distance, window_at}
use iiw_udp_gbn.SortingTable.{
  SortingEntry, SortingTable, new_sorting_table, add_to_sorting_table, get_from_sorting_table,
}
use iiw_udp_gbn.SortingTable.Laws.{get-add_to_sorting_table, new_sorting_table-IsSortingTable}
use iiw_udp_gbn.Timer.{new_timer}

abbrev entry : SortingEntry
entry = record {
  sd = pos 3;
  addr = record { host = 1; port = 2 };
  addrlen = 16;
  error_handler = none;
}

-- Message 5 is known.
abbrev table : SortingTable
table = (add_to_sorting_table new_sorting_table (pos 5) entry).0

abbrev packet : Packet
packet = record new_packet {
  header = record new_packet.header { msg_id = pos 5; data_len = pos 1; queue_len = pos 1024 };
  content = 65 ∷ [];
}

abbrev on_air : LaunchPad
on_air = record { packet = some packet; launches = 1; status = sent; launch_time = zero_time }

-- Two pads on air from `start` on, with the window upon them.
abbrev sender : ℕ → Launcher
sender start = record {
  battery = record {
    battery = λ i. if ltb (distance start i) 2 then on_air else new_launch_pad;
    contiguous_pads_available = pos 1022;
    next_available_index = (start + 2) % queue_len;
  };
  window = window_at start 2;
  winsize = 2;
  send_table = table;
  timer = new_timer;
  params = new_network_params;
  pending = [];
  signals_blocked = true;
  is_available = true;
  ack_buf = [];
}

sender_0-IsSender : IsSender (sender 0) 1022
unfolding is_launch_pad_available
sender_0-IsSender = record {
  valid = record {
    ring = record { next_in = omega arith; fits = omega arith; frees = λ i. ground arith };
    counted = refl;
  };
  opened = refl;
  some_room = omega arith;
  less_than_all = omega arith;
}

sender_1023-IsSender : IsSender (sender 1023) 1022
unfolding is_launch_pad_available
sender_1023-IsSender = record {
  valid = record {
    ring = record { next_in = omega arith; fits = omega arith; frees = λ i. ground arith };
    counted = refl;
  };
  opened = refl;
  some_room = omega arith;
  less_than_all = omega arith;
}

abbrev ack_of : ℕ → Packet
ack_of index = record new_packet {
  header = record new_packet.header { is_ack = true; index = pos index; end_index = pos 1 };
}

abbrev clock : ℕ → Timespec
clock _ = record { tv_sec = pos 1; tv_nsec = pos 500 }

-- both packets are acknowledged at once
handle_ack_in_order_example :
    let l' = handle_ack (sender 0) (ack_of 2) clock in
    IsSender l' 1024
    × (l'.window.base ≡ 2)
    × AreAcked 2 0 l'.battery.battery
    × (l'.battery.battery 5 ≡ new_launch_pad)
    × (l'.pending ≡ new_packets_in_send_window ∷ [])
handle_ack_in_order_example =
    handle_ack_in_order (sender 0) 1022 sender_0-IsSender (ack_of 2) clock 2 5 (omega arith)
      (omega arith) (omega arith) (omega arith) refl

stale_ack : handle_ack (sender 0) (ack_of 3) clock ≡ sender 0
stale_ack =
    handle_ack_stale (sender 0) 1022 sender_0-IsSender (ack_of 3) clock 3 (omega arith) refl
      (inr (omega arith))

handle_ack_wrapped_example : handle_ack (sender 1023) (ack_of 1) clock ≡ sender 1023
handle_ack_wrapped_example =
    handle_ack_wrapped (sender 1023) 1022 sender_1023-IsSender (ack_of 1) clock 2 (omega arith)
      (omega arith) refl

abbrev io : ℕ → Attempt
io i = record { sockname = some 4000; rand = 73 * i + 60; sendto_works = true; now = zero_time }

io-HasPort : (i : ℕ) → HasPort (io i)
io-HasPort i = (4000, refl, omega arith)

packet-IsWellFormed : IsWellFormed packet
packet-IsWellFormed = record {
  index = omega arith;
  end_index = omega arith;
  msg_id = omega arith;
  queue_len = omega arith;
  data_len = omega arith;
  ack_port = omega arith;
  carried = refl;
}

table_found : get_from_sorting_table table (pos 5) ≡ some entry
table_found =
    (get-add_to_sorting_table new_sorting_table (pos 5) (pos 5) entry
      new_sorting_table-IsSortingTable (omega arith) (omega arith)).1

on_air-IsArmed :
    (near : Bool)
    → let pad : LaunchPad = if near then on_air else new_launch_pad in
      is_launch_pad_available pad.status ≡ false → IsArmed table pad
unfolding is_launch_pad_available
on_air-IsArmed true h = record {
  packet = packet;
  entry = entry;
  held = refl;
  formed = packet-IsWellFormed;
  found = table_found;
}
on_air-IsArmed false h = cc

sender-AreArmed : AreArmed table (sender 0).battery.battery
sender-AreArmed i h = on_air-IsArmed (ltb (distance 0 (i % queue_len)) 2) h

launcher_sig_handler-IsSender_example :
    (l' : Launcher) × (datagrams : List Sent) × (launcher_sig_handler (sender 0) packet_timed_out io
      ≡ some (l', datagrams))
    × IsSender l' 1022
    × AreArmed l'.send_table l'.battery.battery
    × (length datagrams ≤ 2)
    × (l'.window ≡ window_at 0 2)
    × (l'.send_table ≡ table)
    × (l'.is_available ≡ true)
    × (datagrams ≡ datagrams)
launcher_sig_handler-IsSender_example =
    launcher_sig_handler-IsSender (sender 0) 1022 sender_0-IsSender sender-AreArmed io io-HasPort
      packet_timed_out

-- A second message waits READY behind the packet on air, within the window.
abbrev waiting : Launcher
waiting =
    with_pads (sender 0)
      (λ i. if i == 0 then on_air else record on_air { launches = 0; status = ready })

waiting-IsNumbered : (i : ℕ) → IsNumbered (waiting.battery.battery (i % queue_len))
waiting-IsNumbered i h = (packet, 5, by_place (i % queue_len == 0), refl)
  where
    by_place :
        (b : Bool)
        → (if b then on_air else record on_air { launches = 0; status = ready }).packet
          ≡ some packet
    by_place true = refl
    by_place false = refl

send_all_ready_packets_stalled_example :
    send_all_ready_packets_in_window waiting io
    ≡ some (record {
      pads = waiting.battery.battery;
      msg_id_to_send = negsuc 0;
      launches = 0;
      datagrams = [];
    })
send_all_ready_packets_stalled_example =
    send_all_ready_packets_stalled waiting io waiting-IsNumbered (λ h. cc)

-- the bounds of Linux
dispatch_second :
    (dispatch 34 64 (get_signal_from_launcher_event 34 64 packet_timed_out) ≡ some packet_timed_out)
    × (dispatch 34 64 (pos 38) ≡ none)
dispatch_second = dispatch-get_signal 34 64 packet_timed_out 38 (omega arith) (inr (omega arith))

-- The second start of a launcher that was shut down.
get_launcher_id_once_example :
    let works = λ (e : LauncherEvent). true in
    let s =
      after_calls new_startup ([] ++ gets_id works true ∷ shuts_down ∷ gets_id works true ∷ []) in
    ((after_calls new_startup []).threads ≤ 1)
    × (s.threads ≤ 1)
    × (get_launcher_id works true s ≡ (false, s))
get_launcher_id_once_example =
    get_launcher_id_once [] (gets_id (λ _. true) true ∷ []) (λ _. true) (λ _. true) true true

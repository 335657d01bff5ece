-- ===== src/Gbn/Tests.antt =====
-- A short message from end to end.
use iiw_udp_gbn.Base.{
  ℕ, ◌≡◌, ◌≤◌, refl, Bool, true, List, [], ◌∷◌, none, some, arith, length, All, if◌then◌else◌, ltb,
  false,
}
use iiw_udp_gbn.Base.Int.{pos, negsuc}
use iiw_udp_gbn.Catcher.{Arrival, failed, datagram, Catcher, Ack, returned, start_catcher}
use iiw_udp_gbn.Catcher.Complete.{none_left, other, next}
use iiw_udp_gbn.Catcher.Prefix.{IsPacketAt}
use iiw_udp_gbn.Gbn.{send_message_gbn, recv_message_gbn}
use iiw_udp_gbn.Gbn.Delivery.{
  airborne, on_air, recv_message_gbn-delivers, fire_launch_pad-IsPacketAt,
}
use iiw_udp_gbn.Gbn.Sending.{send_message_gbn-accepts, send_message_gbn-refuses}
use iiw_udp_gbn.LaunchBattery.{
  LaunchPad, ready, sent, new_launch_battery, new_launch_pad, is_launch_pad_available,
}
use iiw_udp_gbn.LaunchBattery.Adding.{AreLoaded}
use iiw_udp_gbn.LaunchBattery.Ring.{new_launch_battery-IsBattery}
use iiw_udp_gbn.Launcher.{Launcher, new_packets_in_send_window, Attempt, Sent, fire_launch_pad}
use iiw_udp_gbn.Launcher.AckRounds.{AreAcked}
use iiw_udp_gbn.Launcher.Acks.{IsSender}
use iiw_udp_gbn.Launcher.Events.{listen_for_ack}
use iiw_udp_gbn.Catcher.Acks.{IsAckOf}
use iiw_udp_gbn.Gbn.Feedback.{listen_for_ack-IsAckOf}
use iiw_udp_gbn.NetworkSampler.{Timespec, new_network_params, zero_time}
use iiw_udp_gbn.Packet.{
  Packet, new_packet, make_packet, packetize, packetize_loop, generate_msg_id, serialize_packet,
}
use iiw_udp_gbn.Packet.Packetize.{IsPart}
use iiw_udp_gbn.Packet.RoundTrip.{IsWellFormed, deserialize-serialize}
use iiw_udp_gbn.SendWindow.Range.{distance, window_at}
use iiw_udp_gbn.SortingTable.{
  SortingEntry, SortingTable, new_sorting_table, add_to_sorting_table, get_from_sorting_table,
}
use iiw_udp_gbn.SortingTable.Laws.{
  IsSortingTable, get-add_to_sorting_table, new_sorting_table-IsSortingTable,
}
use iiw_udp_gbn.Timer.{new_timer}

abbrev pub entry : SortingEntry
entry = record {
  sd = pos 3;
  addr = record { host = 1; port = 2 };
  addrlen = 16;
  error_handler = none;
}

abbrev pub idle : Launcher
idle = record {
  battery = new_launch_battery;
  window = window_at 0 2;
  winsize = 2;
  send_table = new_sorting_table;
  timer = new_timer;
  params = new_network_params;
  pending = [];
  signals_blocked = false;
  is_available = true;
  ack_buf = [];
}

pub idle-IsSender : IsSender idle 1024
idle-IsSender = record {
  valid = new_launch_battery-IsBattery;
  opened = refl;
  some_room = omega arith;
  less_than_all = omega arith;
}

abbrev pub greeting : List ℕ
greeting = 104 ∷ 105 ∷ []

-- The one packet of the greeting, with id 5.
abbrev packet : Packet
packet = make_packet 5 0 greeting 0 2

greeting_packets : (packetize 5 greeting).0 ≡ packet ∷ []
unfolding packetize packetize_loop generate_msg_id
greeting_packets = refl

send_message_gbn-accepts_example :
    (l' : Launcher) × (send_message_gbn idle 5 entry greeting ≡ some (l', 6, pos 0))
    × IsSender l' 1023
    × AreLoaded 0 1 0 (packet ∷ []) l'.battery.battery
    × IsSortingTable l'.send_table
    × (get_from_sorting_table l'.send_table (pos 5) ≡ some entry)
    × (l'.window ≡ window_at 0 2)
    × (l'.pending ≡ new_packets_in_send_window ∷ [])
unfolding packetize packetize_loop generate_msg_id
send_message_gbn-accepts_example =
    send_message_gbn-accepts idle 1024 5 entry greeting (pos 5) idle-IsSender
      new_sorting_table-IsSortingTable (omega arith) (omega arith) (omega arith) (omega arith)

-- All pads hold packets.
abbrev full : Launcher
full = record idle {
  battery = record new_launch_battery {
    battery = λ _. record new_launch_pad { packet = some packet; status = ready };
    contiguous_pads_available = pos 0;
  };
}

full-IsSender : IsSender full 0
unfolding is_launch_pad_available
full-IsSender = record {
  valid = record {
    ring = record { next_in = omega arith; fits = omega arith; frees = λ i. ground arith };
    counted = refl;
  };
  opened = refl;
  some_room = omega arith;
  less_than_all = omega arith;
}

send_message_gbn-refuses_example : send_message_gbn full 5 entry greeting ≡ some (full, 6, negsuc 0)
unfolding packetize packetize_loop generate_msg_id
send_message_gbn-refuses_example =
    send_message_gbn-refuses full 0 5 entry greeting full-IsSender (omega arith)

abbrev stamped : Packet
stamped = airborne 0 1 4000 0 packet

stamped-IsWellFormed : IsWellFormed stamped
stamped-IsWellFormed = record {
  index = omega arith;
  end_index = omega arith;
  msg_id = omega arith;
  queue_len = omega arith;
  data_len = omega arith;
  ack_port = omega arith;
  carried = refl;
}

wire : (bytes : List ℕ) × (serialize_packet stamped ≡ some bytes)
wire =
    let (bytes, written, _, _) = deserialize-serialize stamped [] stamped-IsWellFormed in
    (bytes, written)

abbrev arrival : Arrival
arrival = datagram wire.0 (record { host = 9; port = 9000 })

-- recvfrom fails once, and then hands over the packet
recv_message_gbn-delivers_example :
    (c : Catcher) × (acks : List Ack) × (recv_message_gbn true (failed ∷ arrival ∷ [])
      ≡ some (returned (pos 0) c, acks))
    × (c.msg_buf ≡ greeting)
unfolding packetize packetize_loop generate_msg_id
recv_message_gbn-delivers_example =
    recv_message_gbn-delivers 0 4000 5 greeting (failed ∷ arrival ∷ []) (omega arith) (omega arith)
      (omega arith) (omega arith)
      (other tt (next (stamped, refl, wire.1) (none_left (omega arith))))

abbrev table : SortingTable
table = (add_to_sorting_table new_sorting_table (pos 5) entry).0

table_found : get_from_sorting_table table (pos 5) ≡ some entry
table_found =
    (get-add_to_sorting_table new_sorting_table (pos 5) (pos 5) entry
      new_sorting_table-IsSortingTable (omega arith) (omega arith)).1

abbrev pad : LaunchPad
pad = record {
  packet = some (airborne 0 1 0 0 packet);
  launches = 0;
  status = ready;
  launch_time = zero_time;
}

abbrev attempt : Attempt
attempt = record { sockname = some 4000; rand = 77; sendto_works = true; now = zero_time }

packet-IsPart : IsPart 5 0 2 0 packet
packet-IsPart = record {
  msg_id = refl;
  is_first = refl;
  is_ack = refl;
  carried = refl;
  nonempty = omega arith;
  short = omega arith;
  ack_port = refl;
  sized = refl;
}

fire_launch_pad-IsPacketAt_example :
    (pad' : LaunchPad) × (datagrams : List Sent) × (works : Bool) × (fire_launch_pad table attempt
        pad
      ≡ some (pad', datagrams, works))
    × (pad'.packet ≡ some (airborne 0 1 4000 0 packet))
    × All
        (λ d.
          (d.entry ≡ entry)
          × IsPacketAt
              (on_air 0 1 4000 0 (packet ∷ []))
              0
              (datagram d.bytes (record { host = 9; port = 9000 })))
        datagrams
    × (length datagrams ≤ 1)
    × (works ≡ true)
    × (pad'.status ≡ (if works then sent else ready))
fire_launch_pad-IsPacketAt_example =
    fire_launch_pad-IsPacketAt 0 4000 0 5 0 2 0 (packet ∷ []) packet table attempt pad entry
      (record { host = 9; port = 9000 }) (omega arith) (omega arith) packet-IsPart refl refl refl
      table_found

-- Both packets of a message are on air from pad 0 on.
abbrev sending : Launcher
sending = record idle {
  battery = record {
    battery = λ i. if ltb (distance 0 i) 2 then record pad { status = sent } else new_launch_pad;
    contiguous_pads_available = pos 1022;
    next_available_index = 2;
  };
}

sending-IsSender : IsSender sending 1022
unfolding is_launch_pad_available
sending-IsSender = record {
  valid = record {
    ring = record { next_in = omega arith; fits = omega arith; frees = λ i. ground arith };
    counted = refl;
  };
  opened = refl;
  some_room = omega arith;
  less_than_all = omega arith;
}

-- The receiver has both.
abbrev both : Ack
both = record {
  packet = record new_packet {
    header = record new_packet.header {
      is_ack = true;
      index = pos 2;
      end_index = pos 1;
      msg_id = pos 5;
    };
  };
  dest = record { host = 0; port = 0 };
}

both-IsAckOf : IsAckOf 0 2 2 packet start_catcher both
both-IsAckOf = record {
  is_ack = refl;
  index = refl;
  end_index = refl;
  msg_id = refl;
  dest = refl;
  formed = record {
    index = omega arith;
    end_index = omega arith;
    msg_id = omega arith;
    queue_len = omega arith;
    data_len = omega arith;
    ack_port = omega arith;
    carried = refl;
  };
  bare = refl;
}

ack_wire : (bytes : List ℕ) × (serialize_packet both.packet ≡ some bytes)
ack_wire =
    let (bytes, written, _, _) = deserialize-serialize both.packet [] both-IsAckOf.formed in
    (bytes, written)

abbrev clock : ℕ → Timespec
clock _ = record { tv_sec = pos 1; tv_nsec = pos 500 }

listen_for_ack-IsAckOf_example :
    (l' : Launcher) × (listen_for_ack sending ack_wire.0 clock ≡ some l')
    × IsSender l' 1024
    × (l'.window.base ≡ 2)
    × AreAcked 2 0 l'.battery.battery
    × (l'.signals_blocked ≡ false)
listen_for_ack-IsAckOf_example =
    listen_for_ack-IsAckOf sending 1022 0 2 0 2 packet start_catcher both ack_wire.0 clock
      sending-IsSender both-IsAckOf ack_wire.1 refl (omega arith) (omega arith) (omega arith)
      (omega arith)

-- ===== src/Gbn/History/Tests.antt =====
-- A message and a ring of the timer.
use iiw_udp_gbn.Base.{ℕ, ◌<◌, ◌≡◌, some, arith}
use iiw_udp_gbn.Base.Int.{pos}
use iiw_udp_gbn.Gbn.{send_message_gbn}
use iiw_udp_gbn.Gbn.History.{Sender, here, on, sends, rings, reachable_sender}
use iiw_udp_gbn.Gbn.Sending.{send_message_gbn-accepts}
use iiw_udp_gbn.Gbn.Tests.{idle, idle-IsSender, entry, greeting}
use iiw_udp_gbn.Launcher.{Launcher, ring}
use iiw_udp_gbn.Launcher.Acks.{IsSender}
use iiw_udp_gbn.Packet.{packetize, packetize_loop, generate_msg_id, int_max}
use iiw_udp_gbn.SortingTable.Laws.{IsSortingTable, new_sorting_table-IsSortingTable}

accepted : (l' : Launcher) × (send_message_gbn idle 5 entry greeting ≡ some (l', 6, pos 0))
unfolding packetize packetize_loop generate_msg_id
accepted =
    let (l', taken, _, _, _, _, _, _) =
      send_message_gbn-accepts idle 1024 5 entry greeting (pos 5) idle-IsSender
        new_sorting_table-IsSortingTable (omega arith) (omega arith) (omega arith) (omega arith) in
    (l', taken)

-- The timer rings behind a message.
abbrev rung : Sender
rung = record { launcher = ring accepted.0; last_msg_id = 6 }

reachable_sender_example :
    (free : ℕ) × IsSender rung.launcher free
    × IsSortingTable rung.launcher.send_table
    × (rung.last_msg_id < int_max)
reachable_sender_example =
    reachable_sender (record { launcher = idle; last_msg_id = 5 }) rung 1024 idle-IsSender
      new_sorting_table-IsSortingTable (omega arith)
      (on (on here (sends entry greeting accepted.0 6 (pos 0) (omega arith) accepted.1)) rings)

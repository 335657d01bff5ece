-- ===== src/Link/Tests.antt =====
-- A greeting of one packet, from the call of sendMessageGbn to its end.
use iiw_udp_gbn.Base.{
  ℕ, ◌+◌, ◌-◌, ◌%◌, ◌≤◌, ◌≡◌, refl, false, some, arith, length, take, ltb, if◌then◌else◌,
}
use iiw_udp_gbn.Base.Int.{pos}
use iiw_udp_gbn.Gbn.{send_message_gbn}
use iiw_udp_gbn.Gbn.Sending.{send_message_gbn-accepts}
use iiw_udp_gbn.Gbn.Tests.{idle, idle-IsSender, entry, greeting}
use iiw_udp_gbn.Launcher.{Launcher}
use iiw_udp_gbn.Launcher.Acks.{IsSender}
use iiw_udp_gbn.Link.{System, loaded_system, Reaches, here}
use iiw_udp_gbn.Link.Covers.{Runs-Reaches}
use iiw_udp_gbn.Link.Launches.{IsWaiting}
use iiw_udp_gbn.Link.Live.{Runs, IsLive}
use iiw_udp_gbn.Link.Safety.{all_lost, reachable_link, completable_link}
use iiw_udp_gbn.Link.Starts.{loaded-IsLive}
use iiw_udp_gbn.Packet.{packetize, packetize_loop, generate_msg_id}
use iiw_udp_gbn.Packet.Packetize.{payload}
use iiw_udp_gbn.SendWindow.{queue_len}
use iiw_udp_gbn.SortingTable.Laws.{new_sorting_table-IsSortingTable}

loaded : (l' : Launcher) × (send_message_gbn idle 5 entry greeting ≡ some (l', 6, pos 0))
unfolding packetize packetize_loop generate_msg_id
loaded =
    let (l', taken, _, _, _, _, _, _) =
      send_message_gbn-accepts idle 1024 5 entry greeting (pos 5) idle-IsSender
        new_sorting_table-IsSortingTable (omega arith) (omega arith) (omega arith) (omega arith) in
    (l', taken)

loaded_0-IsLive : IsLive loaded.0
unfolding packetize packetize_loop generate_msg_id
loaded_0-IsLive =
    loaded-IsLive idle loaded.0 5 6 entry greeting idle-IsSender new_sorting_table-IsSortingTable
      (omega arith) (omega arith) (omega arith) refl refl refl loaded.1

completable_link_example :
    (s' : System) × (free : ℕ) × Runs 4000 (all_lost (loaded_system loaded.0)) s'
    × (s'.receiver.more ≡ false)
    × (s'.receiver.msg_buf ≡ greeting)
    × IsSender s'.sender free
    × IsWaiting s'.sender
unfolding packetize packetize_loop generate_msg_id
completable_link_example =
    completable_link idle loaded.0 5 6 4000 entry greeting (loaded_system loaded.0) idle-IsSender
      new_sorting_table-IsSortingTable (omega arith) (omega arith) (omega arith) (omega arith)
      (omega arith) loaded.1 here refl loaded_0-IsLive

completed : (s' : System) × Reaches 4000 (loaded_system loaded.0) s' × (s'.receiver.more ≡ false)
unfolding packetize packetize_loop generate_msg_id
completed =
    let (s', _, runs, done, _, _, _) =
      completable_link idle loaded.0 5 6 4000 entry greeting (loaded_system loaded.0) idle-IsSender
        new_sorting_table-IsSortingTable (omega arith) (omega arith) (omega arith) (omega arith)
        (omega arith) loaded.1 here refl loaded_0-IsLive in
    let s = loaded_system loaded.0 in (s', Runs-Reaches 4000 s s s' here runs, done)

-- at the end of a message
reachable_link_example :
    let s = completed.0 in
    let ps = (packetize 5 greeting).0 in
    let n = length ps in
    (j : ℕ) × (k : ℕ) × IsSender s.sender (queue_len - n + j)
    × (s.sender.window.base ≡ (idle.battery.next_available_index + j) % queue_len)
    × (j ≤ k)
    × (k ≤ j + s.sender.winsize)
    × (s.receiver.msg_buf ≡ payload (take k ps))
    × (s.receiver.more ≡ ltb k n)
    × (s.receiver.msg_buf ≡ (if s.receiver.more then s.receiver.msg_buf else greeting))
unfolding packetize packetize_loop generate_msg_id
reachable_link_example =
    reachable_link idle loaded.0 5 6 4000 entry greeting completed.0 idle-IsSender
      new_sorting_table-IsSortingTable (omega arith) (omega arith) (omega arith) (omega arith)
      loaded.1 completed.1

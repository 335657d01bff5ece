-- ===== src/Gbn.antt =====
-- logic/gbn/gbn.c: the two calls that the messages above use. sendMessageGbn divides a message, hands
-- the packets to the battery and notifies the launcher; recvMessageGbn is listenForData.
pub mod Sending
pub mod History
pub mod Delivery
pub mod Feedback
pub mod Tests
use iiw_udp_gbn.Base.{ℕ, Bool, not, List, [], ◌∷◌, Option, none, some, ◌>>=◌, if◌then◌else◌}
use iiw_udp_gbn.Base.Int.{ℤ, pos, negsuc, eqb_ℤ}
use iiw_udp_gbn.Catcher.{Arrival, Ack, Outcome, listen_for_data}
use iiw_udp_gbn.LaunchBattery.{LaunchBattery, add_to_launch_battery}
use iiw_udp_gbn.Launcher.{Launcher, new_packets_in_send_window, notify_launcher}
use iiw_udp_gbn.Packet.{Packet, packetize}
use iiw_udp_gbn.SortingTable.{SortingEntry, add_to_sorting_table}

-- Behind the call of addToLaunchBattery: with the battery that it leaves, the message is registered under
-- the id of its first packet. What the table frees is not kept here.
unfoldable pub register : Launcher → LaunchBattery → List Packet → SortingEntry → Option Launcher
register l battery [] entry = none
register l battery (p ∷ ps) entry =
    let table = (add_to_sorting_table l.send_table p.header.msg_id entry).0 in
    some
      (notify_launcher (record l { battery = battery; send_table = table })
        new_packets_in_send_window).0

-- The launcher, the static LAST_MSG_ID and the return value; the entry is what the call makes of the
-- socket, the address and the handler.
unfoldable pub send_message_gbn : Launcher → ℕ → SortingEntry → List ℕ → Option (Launcher × ℕ × ℤ)
send_message_gbn l last_msg_id entry msg =
    let (packets, next_msg_id) = packetize last_msg_id msg in
    add_to_launch_battery l.battery packets >>= λ (battery, result).
    if not (eqb_ℤ result (pos 0))
    then some (record l { battery = battery }, next_msg_id, negsuc 0)
    else (register l battery packets entry >>= λ l'. some (l', next_msg_id, pos 0))

abbrev pub recv_message_gbn : Bool → List Arrival → Option (Outcome × List Ack)
recv_message_gbn has_msg_buf arrivals = listen_for_data has_msg_buf arrivals

-- ===== src/Gbn/Sending.antt =====
-- sendMessageGbn, with room on the battery and without.
use iiw_udp_gbn.Base.{
  ℕ, suc, ◌+◌, ◌-◌, ◌%◌, ◌<◌, ◌≤◌, ◌≡◌, refl, ap, ◌∙◌, not, List, [], ◌∷◌, ◌++◌, some, arith,
  length, if◌then◌else◌,
}
use iiw_udp_gbn.Base.Int.{ℤ, pos, negsuc, IsInt, eqb_ℤ}
use iiw_udp_gbn.Gbn.{register, send_message_gbn}
use iiw_udp_gbn.LaunchBattery.Adding.{
  AreLoaded, add_to_launch_battery-fits, add_to_launch_battery-full,
}
use iiw_udp_gbn.Launcher.{Launcher, new_packets_in_send_window}
use iiw_udp_gbn.Launcher.Acks.{IsSender, notify_launcher-pending}
use iiw_udp_gbn.Packet.{Packet, packetize, int_max}
use iiw_udp_gbn.Packet.Packetize.{AreParts, packetize-AreParts}
use iiw_udp_gbn.SendWindow.Range.{window_at}
use iiw_udp_gbn.SortingTable.{SortingEntry, add_to_sorting_table, get_from_sorting_table}
use iiw_udp_gbn.SortingTable.Laws.{IsSortingTable, get-add_to_sorting_table}

packetize_id :
    (last_msg_id : ℕ) (msg : List ℕ) → (packetize last_msg_id msg).1 ≡ (last_msg_id + 1) % int_max
unfolding packetize
packetize_id last_msg_id msg = refl

first_part :
    (id full remain : ℕ) (ps : List Packet)
    → AreParts id full remain 0 ps
    → 0 < length ps
    → (p : Packet) × (rest : List Packet) × (ps ≡ p ∷ rest) × (p.header.msg_id ≡ pos id)
first_part id full remain [] parts h = absurd (omega arith)
first_part id full remain (p ∷ rest) parts h = (p, rest, refl, parts.0.msg_id)

-- The first packet of a message that is not empty.
pub packetize-first :
    (last_msg_id : ℕ) (msg : List ℕ)
    → 0 < length msg
    → (p : Packet) × (rest : List Packet) × ((packetize last_msg_id msg).0 ≡ p ∷ rest)
      × (p.header.msg_id ≡ pos last_msg_id)
packetize-first last_msg_id msg some_bytes =
    let (parts, count) = packetize-AreParts last_msg_id msg in
    first_part last_msg_id _ _ _ parts (ground (arith, count))

-- Where the sender's invariant holds, the battery has room for all packets of a message that is not
-- empty, the next id is below INT_MAX and the table is well formed, sendMessageGbn returns 0. The
-- invariant of the sender holds again with that many fewer free pads, the packets stand READY on
-- consecutive pads, the table finds the entry under the message's id and keeps every other entry, the
-- window is as before, and the launcher, if it runs, has one more signal to take.
pub send_message_gbn-accepts :
    (l : Launcher) (free last_msg_id : ℕ) (entry : SortingEntry) (msg : List ℕ) (q : ℤ)
    → IsSender l free
    → IsSortingTable l.send_table
    → last_msg_id < int_max
    → IsInt q
    → 0 < length msg
    → length (packetize last_msg_id msg).0 ≤ free
    → let packets = (packetize last_msg_id msg).0 in
      let n = length packets in
      (l' : Launcher) × (send_message_gbn l last_msg_id entry msg
        ≡ some (l', (last_msg_id + 1) % int_max, pos 0))
      × IsSender l' (free - n)
      × AreLoaded l.battery.next_available_index n 0 packets l'.battery.battery
      × IsSortingTable l'.send_table
      × (get_from_sorting_table l'.send_table q ≡ (
          if eqb_ℤ (pos last_msg_id) q then some entry else get_from_sorting_table l.send_table q))
      × (l'.window ≡ l.window)
      × (l'.pending
          ≡ (if l.is_available then l.pending ++ new_packets_in_send_window ∷ [] else l.pending))
unfolding send_message_gbn register not
send_message_gbn-accepts l free last_msg_id entry msg q v table id_in q_in some_bytes fit =
    let (p, rest, e, id) = packetize-first last_msg_id msg some_bytes in
    let enough : suc (length rest) ≤ free = rw e at fit in
    let (b, added, valid, moved, loaded, others) =
      add_to_launch_battery-fits l.battery p rest free 0 v.valid enough in
    let (kept, found) =
      get-add_to_sorting_table l.send_table (pos last_msg_id) q entry table (omega arith) q_in in
    let stored = (add_to_sorting_table l.send_table p.header.msg_id entry).0 in
    let l₁ : Launcher = record l { battery = b; send_table = stored } in
    let notified = notify_launcher-pending l₁ new_packets_in_send_window in
    rw e (
      record l₁ {
        pending =
            if l.is_available then l.pending ++ new_packets_in_send_window ∷ [] else l.pending;
      },
      simp (packetize_id, added, notified) refl,
      record {
        valid = valid;
        opened = v.opened ∙ ap (λ k. window_at k l.winsize) (omega (arith, moved, enough));
        some_room = v.some_room;
        less_than_all = v.less_than_all;
      },
      loaded,
      rw id kept,
      rw id found,
      refl,
      refl,
    )

-- Where the sender's invariant holds and the packets of the message are more than the free pads,
-- sendMessageGbn returns -1, and only the id is used up.
pub send_message_gbn-refuses :
    (l : Launcher) (free last_msg_id : ℕ) (entry : SortingEntry) (msg : List ℕ)
    → IsSender l free
    → free < length (packetize last_msg_id msg).0
    → send_message_gbn l last_msg_id entry msg ≡ some (l, (last_msg_id + 1) % int_max, negsuc 0)
unfolding send_message_gbn not
send_message_gbn-refuses l free last_msg_id entry msg v full =
    rw (packetize_id last_msg_id msg, add_to_launch_battery-full l.battery _ free v.valid full) refl

-- ===== src/Launcher.antt =====
-- logic/gbn/launcher.c and launcher.h, with jammer.c and rtSignalChecker.c: the thread that sends the
-- packets of the window and takes their acknowledgments. Its statics and singletons are one record; a
-- handler takes what the system calls answer and returns the new record. `none` is a fault: a null
-- pointer that is read, or a packet whose bytes cannot be written.
pub mod Events
pub mod Signals
pub mod Firing
pub mod Rounds
pub mod Sweep
pub mod Stalled
pub mod AckRounds
pub mod Acks
pub mod Start
pub mod Once
pub mod Passes
pub mod Reachable
mod Tests
use iiw_udp_gbn.Base.{
  ℕ, zero, suc, ◌+◌, ◌-◌, ◌%◌, Bool, true, false, not, ◌&&◌, List, [], ◌∷◌, ◌++◌, Option, none,
  some, ◌>>=◌, if◌then◌else◌, ltb, ◌==◌, update, take, drop, length,
}
use iiw_udp_gbn.Base.Int.{ℤ, pos, negsuc, ◌+ℤ◌, ◌-ℤ◌, ltb_ℤ, eqb_ℤ, rem_ℤ, pos_part}
use iiw_udp_gbn.LaunchBattery.{
  LaunchPadStatus, empty, ready, sent, acked, lost, LaunchPad, LaunchBattery,
  update_contiguous_pads,
}
use iiw_udp_gbn.NetworkSampler.{Timespec, NetworkParams, update_estimated_rtt}
use iiw_udp_gbn.Packet.{Packet, serialize_packet, deserialize_packet, calc_ack_size}
use iiw_udp_gbn.SendWindow.{SendWindow, queue_len, is_in_window}
use iiw_udp_gbn.SortingTable.{
  SortingTable, SortingEntry, get_from_sorting_table, remove_from_sorting_table,
}
use iiw_udp_gbn.Timer.{
  Timer, ring_then_restart, restart, shutdown, start_timer, timeout, timer_step,
}

pub data LauncherEvent : Type 0 where
  new_packets_in_send_window packet_timed_out launcher_shutdown : LauncherEvent

pub record Launcher : Type 0 where
  pub battery : LaunchBattery
  pub window : SendWindow
  pub winsize : ℕ
  pub send_table : SortingTable
  pub timer : Timer
  pub params : NetworkParams
  -- the real-time signals that are queued for the thread, and whether it blocks them
  pub pending : List LauncherEvent
  pub signals_blocked : Bool
  pub is_available : Bool
  pub ack_buf : List ℕ

-- JAM_RATE of jammer.h, in percent
abbrev pub jam_rate : ℕ
jam_rate = 50

-- `rand` is what the C library's generator returns.
abbrev pub is_jammed : ℕ → Bool
is_jammed rand = ltb (rand % 100) jam_rate

-- What the system calls of one launch answer: getsockname (the port where acknowledgments are
-- listened for, if it works), rand, whether sendto works, and clock_gettime.
pub record Attempt : Type 0 where
  pub sockname : Option ℕ
  pub rand : ℕ
  pub sendto_works : Bool
  pub now : Timespec

-- A datagram that was handed to sendto, with the entry that says where to.
pub record Sent : Type 0 where
  pub bytes : List ℕ
  pub entry : SortingEntry

abbrev pub launched : LaunchPad → Timespec → LaunchPad
launched pad now = record pad { status = sent; launches = pad.launches + 1; launch_time = now }

abbrev pub set_ack_port : Packet → ℕ → Packet
set_ack_port p port = record p { header = record p.header { ack_port = port } }

-- `sendto` for the entry of the packet's message, unless the packet is jammed; a missing entry is read
-- through a null pointer. The answer `none` is the error return.
abbrev pub send_bytes : Attempt → Option SortingEntry → List ℕ → Option (Option (List Sent))
send_bytes io entry bytes =
    if is_jammed io.rand
    then some (some [])
    else (entry >>= λ e.
        if io.sendto_works
        then some (some (record { bytes = bytes; entry = e } ∷ []))
        else some none)

-- The pad, what was sent, and whether the return value is 0 (else it is -1).
unfoldable pub fire_launch_pad :
    SortingTable → Attempt → LaunchPad → Option (LaunchPad × List Sent × Bool)
fire_launch_pad table io pad = elim io.sockname [
  | none ↦ some (pad, [], false)
  | some port ↦ do
    p ← pad.packet
    let ported = record pad { packet = some (set_ack_port p port) }
    bytes ← serialize_packet (set_ack_port p port)
    outcome ← send_bytes io (get_from_sorting_table table p.header.msg_id) bytes
    elim outcome [
      | none ↦ some (ported, [], false)
      | some datagrams ↦ some (launched ported io.now, datagrams, true)
    ]
]

abbrev pub status_code : LaunchPadStatus → ℕ
status_code empty = 0
status_code ready = 1
status_code sent = 2
status_code acked = 3
status_code lost = 4

-- The inner loop: the place of the first of the statuses that the pad has.
unfoldable pub find_status : LaunchPadStatus → ℕ → List LaunchPadStatus → Option ℕ
find_status status j [] = none
find_status status j (s ∷ statuses) =
    if status_code status == status_code s then some j else find_status status (j + 1) statuses

-- The variables of the outer loop.
pub record Pass : Type 0 where
  pub pads : ℕ → LaunchPad
  pub msg_id_to_send : ℤ
  pub launches : ℕ
  pub datagrams : List Sent

module _ (table : SortingTable) (io : ℕ → Attempt) (statuses : List LaunchPadStatus)
    (base : ℕ) where
  -- One round for a pad whose status is the j-th of the wanted ones.
  unfoldable pub send_pad : ℕ → ℕ → Pass → Option Pass
  send_pad i j s = do
    p ← (s.pads (i % queue_len)).packet
    let id = if (i == base) && (j == 0) then p.header.msg_id else s.msg_id_to_send
    if eqb_ℤ p.header.msg_id id
        then (fire_launch_pad table (io i) (s.pads (i % queue_len)) >>= λ (pad, datagrams, works).
            some (record {
              pads = update s.pads (i % queue_len) pad;
              msg_id_to_send = id;
              launches = if works then s.launches + 1 else s.launches;
              datagrams = s.datagrams ++ datagrams;
            }))
        else some (record s { msg_id_to_send = id })

  unfoldable pub send_round : ℕ → Pass → Option Pass
  send_round i s = elim (find_status (s.pads (i % queue_len)).status 0 statuses) [
    | none ↦ some s
    | some j ↦ send_pad i j s
  ]

  -- The rounds from `i` on, by their number.
  unfoldable pub send_rounds : ℕ → ℕ → Pass → Option Pass
  send_rounds zero i s = some s
  send_rounds (suc n) i s = send_round i s >>= send_rounds n (i + 1)

unfoldable pub send_all_packets_in_window_core :
    Launcher → (ℕ → Attempt) → List LaunchPadStatus → Option Pass
send_all_packets_in_window_core l io statuses =
    let base = l.window.base in
    let next =
      if ltb l.window.next_seq_num base
      then l.window.next_seq_num + queue_len
      else l.window.next_seq_num in
    send_rounds l.send_table io statuses base (next - base) base
      (record { pads = l.battery.battery; msg_id_to_send = negsuc 0; launches = 0; datagrams = [] })

abbrev pub send_all_packets_in_window : Launcher → (ℕ → Attempt) → Option Pass
send_all_packets_in_window l io = send_all_packets_in_window_core l io (ready ∷ sent ∷ [])

abbrev pub send_all_ready_packets_in_window : Launcher → (ℕ → Attempt) → Option Pass
send_all_ready_packets_in_window l io = send_all_packets_in_window_core l io (ready ∷ [])

abbrev pub send_all_sent_packets_in_window : Launcher → (ℕ → Attempt) → Option Pass
send_all_sent_packets_in_window l io = send_all_packets_in_window_core l io (sent ∷ [])

abbrev pub with_pads : Launcher → (ℕ → LaunchPad) → Launcher
with_pads l pads = record l { battery = record l.battery { battery = pads } }

-- A signal to a thread that runs; where it does not run the source returns -1.
unfoldable pub notify_launcher : Launcher → LauncherEvent → Launcher × ℤ
notify_launcher l event =
    if l.is_available
    then (record l { pending = l.pending ++ event ∷ [] }, pos 0)
    else (l, negsuc 0)

-- The function that the timer calls.
abbrev pub ring : Launcher → Launcher
ring l = (notify_launcher l packet_timed_out).0

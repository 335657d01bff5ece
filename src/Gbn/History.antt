-- ===== src/Gbn/History.antt =====
-- The sender through any history of calls of sendMessageGbn, signals, timer wakes and datagrams.
mod Tests
use iiw_udp_gbn.Base.{
  ℕ, ◌+◌, ◌-◌, ◌<◌, ◌≤◌, ◌≡◌, refl, sym, ap, ◌∙◌, Bool, true, false, Bool-cases, inl, inr, List,
  ◌++◌, some, some_eq, arith, length, take, drop, ltb, if_yes, if_no,
}
use iiw_udp_gbn.Base.Int.{ℤ, pos}
use iiw_udp_gbn.Gbn.{send_message_gbn}
use iiw_udp_gbn.Gbn.Sending.{send_message_gbn-accepts, send_message_gbn-refuses}
use iiw_udp_gbn.Launcher.{Launcher, LauncherEvent, Attempt, Sent, ring, packet_timed_out}
use iiw_udp_gbn.Launcher.Acks.{IsSender, notify_launcher-pending}
use iiw_udp_gbn.Launcher.Events.{launcher_sig_handler, listen_for_ack, handle_ack}
use iiw_udp_gbn.Launcher.Passes.{bind_some}
use iiw_udp_gbn.Launcher.Reachable.{
  returned-IsSender, handle_ack-IsSender, handle_ack-IsSortingTable,
}
use iiw_udp_gbn.NetworkSampler.{Timespec}
use iiw_udp_gbn.Packet.{Packet, packetize, int_max, calc_ack_size, deserialize_packet}
use iiw_udp_gbn.SendWindow.{queue_len}
use iiw_udp_gbn.SendWindow.Range.{distance}
use iiw_udp_gbn.SortingTable.{SortingEntry}
use iiw_udp_gbn.SortingTable.Laws.{IsSortingTable}
use iiw_udp_gbn.Timer.{Timer, timer_step}

-- The launcher with the static LAST_MSG_ID.
pub record Sender : Type 0 where
  pub launcher : Launcher
  pub last_msg_id : ℕ

-- The buffer of the acknowledgments, with a datagram in it.
abbrev pub ack_buffer : Launcher → List ℕ → List ℕ
ack_buffer l bytes = take calc_ack_size bytes ++ drop (length (take calc_ack_size bytes)) l.ack_buf

-- A datagram that is an acknowledgment names a pad of the array: one no farther from the base of the window
-- than the packets on the battery reach, or a late one, which is beyond the window.
pub data IsSound (l : Launcher) (p : Packet) : Type 0 where
  acknowledges :
      (i n : ℕ)
      → p.header.index ≡ pos i
      → i < queue_len
      → l.battery.contiguous_pads_available ≡ pos n
      → distance l.window.base i + n ≤ queue_len
      → IsSound l p
  is_late :
      (i : ℕ)
      → p.header.index ≡ pos i
      → i < queue_len
      → l.winsize < distance l.window.base i
      → IsSound l p
  is_other : p.header.is_ack ≡ false → IsSound l p

pub data Step : Sender → Sender → Type 0 where
  sends :
      {s : Sender} (entry : SortingEntry) (msg : List ℕ) (l : Launcher) (next_msg_id : ℕ)
      (result : ℤ)
      → 0 < length msg
      → send_message_gbn s.launcher s.last_msg_id entry msg ≡ some (l, next_msg_id, result)
      → Step s (record { launcher = l; last_msg_id = next_msg_id })
  handles :
      {s : Sender} (event : LauncherEvent) (io : ℕ → Attempt) (l : Launcher) (datagrams : List Sent)
      → launcher_sig_handler s.launcher event io ≡ some (l, datagrams)
      → Step s (record s { launcher = l })
  hears :
      {s : Sender} (bytes : List ℕ) (p : Packet) (now : ℕ → Timespec) (l : Launcher)
      → deserialize_packet (ack_buffer s.launcher bytes) ≡ some p
      → IsSound s.launcher p
      → listen_for_ack s.launcher bytes now ≡ some l
      → Step s (record s { launcher = l })
  rings : {s : Sender} → Step s (record s { launcher = ring s.launcher })
  wakes :
      {s : Sender}
      → Step s
          (record s { launcher = record s.launcher { timer = (timer_step s.launcher.timer).0 } })

pub data Reaches (s : Sender) : Sender → Type 0 where
  here : Reaches s s
  on : {t u : Sender} → Reaches s t → Step t u → Reaches s u

-- What holds through all steps.
abbrev pub IsHealthy : Sender → Type 0
IsHealthy s =
    (free : ℕ) × IsSender s.launcher free
    × IsSortingTable s.launcher.send_table
    × (s.last_msg_id < int_max)

-- A launcher whose other members changed.
pub same_members-IsSender :
    (l l' : Launcher) (free : ℕ)
    → l'.battery ≡ l.battery
    → l'.window ≡ l.window
    → l'.winsize ≡ l.winsize
    → IsSender l free
    → IsSender l' free
same_members-IsSender l l' free same_battery same_window same_winsize v = record {
  valid = rw same_battery v.valid;
  opened = rw (same_battery, same_window, same_winsize) v.opened;
  some_room = rw same_winsize v.some_room;
  less_than_all = rw same_winsize v.less_than_all;
}

sends-IsHealthy :
    (s : Sender) (entry : SortingEntry) (msg : List ℕ) (l : Launcher) (next_msg_id : ℕ) (result : ℤ)
    → IsHealthy s
    → 0 < length msg
    → send_message_gbn s.launcher s.last_msg_id entry msg ≡ some (l, next_msg_id, result)
    → IsHealthy (record { launcher = l; last_msg_id = next_msg_id })
sends-IsHealthy s entry msg l next_msg_id result (free, v, t, id_in) some_bytes h =
    let n = length (packetize s.last_msg_id msg).0 in
    elim (Bool-cases (ltb free n)) [
      | inl full ↦
          (let e = some_eq (
              sym (
                send_message_gbn-refuses s.launcher free s.last_msg_id entry msg v
                  (ground (arith, full)))
              ∙ h) in
            rw
              (
                sym (ap (λ (r : Launcher × ℕ × ℤ). r.0) e),
                sym (ap (λ (r : Launcher × ℕ × ℤ). r.1) e),
              )
              (free, v, t, omega arith))
      | inr fits ↦
          (let (l', sent, v', _, t', _, _, _) =
              send_message_gbn-accepts s.launcher free s.last_msg_id entry msg (pos 0) v t id_in
                (omega arith) some_bytes (ground (arith, fits)) in
            let e = some_eq (sym sent ∙ h) in
            rw
              (
                sym (ap (λ (r : Launcher × ℕ × ℤ). r.0) e),
                sym (ap (λ (r : Launcher × ℕ × ℤ). r.1) e),
              )
              (free - n, v', t', omega arith))
    ]

-- The launcher with the datagram in its buffer and its signals blocked.
abbrev got : Launcher → List ℕ → Launcher
got l bytes = record l { ack_buf = ack_buffer l bytes; signals_blocked = true }

heard-IsHealthy :
    (s : Sender) (bytes : List ℕ) (p : Packet) (now : ℕ → Timespec)
    → IsHealthy s
    → IsSound s.launcher p
    → p.header.is_ack ≡ true
    → IsHealthy (record s {
      launcher = record (handle_ack (got s.launcher bytes) p now) { signals_blocked = false };
    })
heard-IsHealthy s bytes p now (free, v, t, id_in) (acknowledges i n e hi counted near) is_ack =
    let l = got s.launcher bytes in
    let v₁ : IsSender l free = same_members-IsSender s.launcher l free refl refl refl v in
    let same : n ≡ free = ground (arith, sym counted ∙ v.valid.counted) in
    let (free', v₂, _) =
      handle_ack-IsSender l free i p now v₁ hi e (inl (omega (arith, near, same))) in
    (
      free',
      same_members-IsSender (handle_ack l p now) _ free' refl refl refl v₂,
      handle_ack-IsSortingTable l p now t,
      id_in,
    )
heard-IsHealthy s bytes p now (free, v, t, id_in) (is_late i e hi far) is_ack =
    let l = got s.launcher bytes in
    let v₁ : IsSender l free = same_members-IsSender s.launcher l free refl refl refl v in
    let (free', v₂, _) = handle_ack-IsSender l free i p now v₁ hi e (inr far) in
    (
      free',
      same_members-IsSender (handle_ack l p now) _ free' refl refl refl v₂,
      handle_ack-IsSortingTable l p now t,
      id_in,
    )
heard-IsHealthy s bytes p now healthy (is_other no_ack) is_ack =
    absurd (ground (arith, no_ack, is_ack))

hears-IsHealthy :
    (s : Sender) (bytes : List ℕ) (p : Packet) (now : ℕ → Timespec) (l : Launcher)
    → IsHealthy s
    → deserialize_packet (ack_buffer s.launcher bytes) ≡ some p
    → IsSound s.launcher p
    → listen_for_ack s.launcher bytes now ≡ some l
    → IsHealthy (record s { launcher = l })
unfolding listen_for_ack
hears-IsHealthy s bytes p now l (free, v, t, id_in) read sound h =
    let l_is = some_eq (rw read at h) in
    elim (Bool-cases p.header.is_ack) [
      | inl a ↦
          rw (sym (sym (if_yes p.header.is_ack _ _ a) ∙ l_is))
            (heard-IsHealthy s bytes p now (free, v, t, id_in) sound a)
      | inr a ↦ rw (sym (sym (if_no p.header.is_ack _ _ a) ∙ l_is)) (
        free,
        same_members-IsSender s.launcher (got s.launcher bytes) free refl refl refl v,
        t,
        id_in,
      )
    ]

Step-IsHealthy : (s s' : Sender) → Step s s' → IsHealthy s → IsHealthy s'
Step-IsHealthy s s' (sends entry msg l next_msg_id result some_bytes h) v =
    sends-IsHealthy s entry msg l next_msg_id result v some_bytes h
Step-IsHealthy s s' (handles event io l datagrams h) (free, v, t, id_in) =
    let (v', t') = returned-IsSender s.launcher l free event io datagrams v t h in
    (free, v', t', id_in)
Step-IsHealthy s s' (hears bytes p now l read sound h) v =
    hears-IsHealthy s bytes p now l v read sound h
Step-IsHealthy s s' rings (free, v, t, id_in) =
    rw (notify_launcher-pending s.launcher packet_timed_out)
      (free, same_members-IsSender s.launcher _ free refl refl refl v, t, id_in)
Step-IsHealthy s s' wakes (free, v, t, id_in) =
    (free, same_members-IsSender s.launcher _ free refl refl refl v, t, id_in)

-- From a launcher with the sender's invariant, a well formed table and an id below INT_MAX, every
-- history keeps them: calls of sendMessageGbn for messages that are not empty, whether they are taken
-- or refused, handlers of any signals that return, whatever the system calls answer, rings and wakes of
-- the timer, and datagrams that are no acknowledgments, or whose acknowledgments name a pad of the
-- array that the packets on the battery reach, or one beyond the window. So the free pads are always
-- one run of the ring that the counter counts, and the window starts at the oldest packet.
pub reachable_sender :
    (s s' : Sender) (free : ℕ)
    → IsSender s.launcher free
    → IsSortingTable s.launcher.send_table
    → s.last_msg_id < int_max
    → Reaches s s'
    → (free' : ℕ) × IsSender s'.launcher free'
      × IsSortingTable s'.launcher.send_table
      × (s'.last_msg_id < int_max)
reachable_sender s s' free v t id_in here = (free, v, t, id_in)
reachable_sender s s' free v t id_in (on {t = u} r step) =
    Step-IsHealthy u s' step (reachable_sender s u free v t id_in r)

-- ===== src/Link/Safety.antt =====
-- What a message and its acknowledgments do in the system, from sendMessageGbn on.
use mathlib.Core.Path.{subst}
use iiw_udp_gbn.Base.{
  ℕ, zero, suc, ◌+◌, ◌-◌, ◌%◌, ◌^◌, ◌<◌, ◌≤◌, ◌≡◌, refl, ap, ◌∙◌, true, false, List, [], ◌∷◌, some,
  arith, length, take, ltb, take_all, Bool-cases, inl, inr, if◌then◌else◌,
}
use iiw_udp_gbn.Base.Int.{pos}
use iiw_udp_gbn.Catcher.{no_address}
use iiw_udp_gbn.Gbn.{send_message_gbn}
use iiw_udp_gbn.Gbn.Delivery.{airborne, on_air, length-on_air, payload-on_air}
use iiw_udp_gbn.Launcher.{Launcher, Attempt, jam_rate}
use iiw_udp_gbn.NetworkSampler.{zero_time}
use iiw_udp_gbn.Launcher.Acks.{IsSender}
use iiw_udp_gbn.Link.{System, loaded_system, Reaches}
use iiw_udp_gbn.Link.Acks.{IsSending-base}
use iiw_udp_gbn.Link.Invariant.{Transfer, IsLinked}
use iiw_udp_gbn.Link.Launches.{IsWaiting}
use iiw_udp_gbn.Link.Live.{Runs, IsLive}
use iiw_udp_gbn.Link.Loaded.{transfer, loaded-IsLinked}
use iiw_udp_gbn.Link.Fires.{IsKind}
use iiw_udp_gbn.Link.Progress.{completes}
use iiw_udp_gbn.Link.Steps.{Reaches-IsLinked}
use iiw_udp_gbn.Packet.{Packet, packetize, int_max}
use iiw_udp_gbn.Packet.Packetize.{payload, payload-packetize}
use iiw_udp_gbn.SendWindow.{queue_len}
use iiw_udp_gbn.SortingTable.{SortingEntry}
use iiw_udp_gbn.SortingTable.Laws.{IsSortingTable}

take-on_air :
    (start n port i k : ℕ) (ps : List Packet)
    → take k (on_air start n port i ps) ≡ on_air start n port i (take k ps)
take-on_air start n port i zero ps = refl
take-on_air start n port i (suc k) [] = refl
take-on_air start n port i (suc k) (p ∷ ps) =
    ap (λ l. airborne start n port i p ∷ l) (take-on_air start n port (i + 1) k ps)

-- Let the sender's invariant hold with every pad free, sendMessageGbn accept a message of at least one
-- byte, whose packets are with the size of the window no more than the pads, with an id below INT_MAX
-- and a well formed table, and the socket for acknowledgments have one port of 16 bits. Let
-- recvMessageGbn be called on the other side, and the signals, the wakes of the timer, the losses,
-- repetitions and reorderings of datagrams and of acknowledgments be whatever they are. In every state
-- that is reached the sender's invariant holds; for some j and k with j at most k, its window starts at
-- the packet j, the receiver has exactly the bytes of the first k packets, and it listens as long as
-- these are not all: no pad is freed before the receiver has its packet, the receiver is never more
-- than a window ahead of the sender, and a receiver that is done has the message.
pub reachable_link :
    (l l' : Launcher) (last_msg_id next_id port : ℕ) (entry : SortingEntry) (msg : List ℕ)
    (s : System)
    → IsSender l queue_len
    → IsSortingTable l.send_table
    → last_msg_id < int_max
    → port < 2 ^ 16
    → 0 < length msg
    → let ps = (packetize last_msg_id msg).0 in
      let n = length ps in
      l.winsize + n ≤ queue_len
      → send_message_gbn l last_msg_id entry msg ≡ some (l', next_id, pos 0)
      → Reaches port (loaded_system l') s
      → (j : ℕ) × (k : ℕ) × IsSender s.sender (queue_len - n + j)
        × (s.sender.window.base ≡ (l.battery.next_available_index + j) % queue_len)
        × (j ≤ k)
        × (k ≤ j + s.sender.winsize)
        × (s.receiver.msg_buf ≡ payload (take k ps))
        × (s.receiver.more ≡ ltb k n)
        × (s.receiver.msg_buf ≡ (if s.receiver.more then s.receiver.msg_buf else msg))
reachable_link l l' last_msg_id next_id port entry msg s v table id_in port_in some_bytes fits run
      reached =
    let start = l.battery.next_available_index in
    let ps = (packetize last_msg_id msg).0 in
    let n = length ps in
    let x = transfer l last_msg_id port entry msg v table id_in port_in some_bytes fits in
    let first =
      loaded-IsLinked l last_msg_id port entry msg v table id_in port_in some_bytes fits l' next_id
        run in
    let count = length-on_air start n port 0 ps in
    let (j, k, w, _, _) = Reaches-IsLinked x 0 0 (loaded_system l') s first reached in
    let got : s.receiver.msg_buf ≡ payload (take k ps) =
      w.receiving.bytes
      ∙ ap payload (take-on_air start n port 0 k ps)
      ∙ payload-on_air start n port 0 (take k ps) in
    let more : s.receiver.more ≡ ltb k n = w.receiving.more ∙ ap (ltb k) count in
    (
      j,
      k,
      subst (IsSender s.sender) (omega (arith, count)) w.sending.valid,
      IsSending-base start _ j s.sender w.sending,
      w.order,
      w.near,
      got,
      more,
      elim (Bool-cases s.receiver.more) [
        | inl listens ↦ rw listens refl
        | inr done ↦ rw done (
            got
            ∙ ap payload (take_all k ps (ground (arith, more, done)))
            ∙ payload-packetize last_msg_id msg)
      ],
    )

-- A call of every system function that works, with nothing jammed.
abbrev kind_attempt : ℕ → Attempt
kind_attempt port = record {
  sockname = some port;
  rand = jam_rate;
  sendto_works = true;
  now = zero_time;
}

-- The transfer of the message, from a state of its invariant to its end.
module _ (l : Launcher) (last_msg_id port : ℕ) (entry : SortingEntry) (msg : List ℕ)
    (v : IsSender l queue_len) (table : IsSortingTable l.send_table) (id_in : last_msg_id < int_max)
    (port_in : port < 2 ^ 16) (some_bytes : 0 < length msg)
    (fits : l.winsize + length (packetize last_msg_id msg).0 ≤ queue_len)
    (no_wrap : l.battery.next_available_index + length (packetize last_msg_id msg).0
      ≤ queue_len) where
  abbrev message : Transfer
  message = transfer l last_msg_id port entry msg v table id_in port_in some_bytes fits

  complete_from :
      (j k : ℕ) (s : System)
      → IsLinked message j k s
      → IsLive s.sender
      → s.receiver.more ≡ true
      → (s' : System) × (j' : ℕ) × Runs port s s'
        × IsLinked message j' (length message.air) s'
        × IsWaiting s'.sender
        × (s'.receiver.more ≡ false)
        × (s'.receiver.msg_buf ≡ msg)
  complete_from j k s w live listens =
      let start = l.battery.next_available_index in
      let ps = (packetize last_msg_id msg).0 in
      let n = length ps in
      let x = message in
      let count = length-on_air start n port 0 ps in
      let left : k < length x.air = ground (arith, listens, w.receiving.more) in
      let kind : (i : ℕ) → IsKind port (kind_attempt port) =
        λ i. record { bound = refl; not_jammed = refl; sendto = refl } in
      let (s', j', r, w', waiting) =
        completes x last_msg_id refl (λ i. kind_attempt port) kind no_address (λ i. zero_time) j k s
          w live left (omega (arith, count, no_wrap)) in
      (
        s',
        j',
        r,
        w',
        waiting,
        w'.receiving.more ∙ ground arith,
        w'.receiving.bytes
            ∙ ap payload (take_all (length x.air) x.air (omega arith))
            ∙ payload-on_air start n port 0 ps
            ∙ payload-packetize last_msg_id msg,
      )

-- Nothing is in the air: whatever was on its way is lost.
abbrev pub all_lost : System → System
all_lost s = record s { data_air = []; acks_air = [] }

all_lost-IsLinked :
    (x : Transfer) (j k : ℕ) (s : System) → IsLinked x j k s → IsLinked x j k (all_lost s)
all_lost-IsLinked x j k s v = record {
  sending = v.sending;
  pads = v.pads;
  table = v.table;
  known = v.known;
  out = tt;
  receiving = v.receiving;
  acks = tt;
  order = v.order;
  below = v.below;
  near = v.near;
}

-- Let the sender's invariant hold with every pad free, sendMessageGbn accept a message of at least one
-- byte, whose packets are with the size of the window no more than the pads and do not go round the end
-- of the array, with an id below INT_MAX and a well formed table, and the socket for acknowledgments
-- have one port of 16 bits. Let a state be reached in which the receiver still listens, and the
-- launcher runs, does not block its signals and has not given up: a timer that is alive will ring, the
-- signal for new packets is queued where the packet at the base of the window is READY, and the timer
-- is alive where it is SENT. Even if everything is lost that is in the air there, the message can be
-- completed by handling signals that are queued, the lowest number first, by wakes of the timer while
-- it is alive, and by arrivals: behind these steps the receiver has stopped to listen and has the bytes
-- of the message, the sender's invariant holds, and the sender waits for the last acknowledgment with a
-- timer that is alive and will ring.
pub completable_link :
    (l l' : Launcher) (last_msg_id next_id port : ℕ) (entry : SortingEntry) (msg : List ℕ)
    (s : System)
    → IsSender l queue_len
    → IsSortingTable l.send_table
    → last_msg_id < int_max
    → port < 2 ^ 16
    → 0 < length msg
    → let n = length (packetize last_msg_id msg).0 in
      l.winsize + n ≤ queue_len
      → l.battery.next_available_index + n ≤ queue_len
      → send_message_gbn l last_msg_id entry msg ≡ some (l', next_id, pos 0)
      → Reaches port (loaded_system l') s
      → s.receiver.more ≡ true
      → IsLive s.sender
      → (s' : System) × (free : ℕ) × Runs port (all_lost s) s'
        × (s'.receiver.more ≡ false)
        × (s'.receiver.msg_buf ≡ msg)
        × IsSender s'.sender free
        × IsWaiting s'.sender
completable_link l l' last_msg_id next_id port entry msg s v table id_in port_in some_bytes fits
      no_wrap run reached listens live =
    let x = transfer l last_msg_id port entry msg v table id_in port_in some_bytes fits in
    let first =
      loaded-IsLinked l last_msg_id port entry msg v table id_in port_in some_bytes fits l' next_id
        run in
    let (j, k, w, _, _) = Reaches-IsLinked x 0 0 (loaded_system l') s first reached in
    let (s', j', r, w', waiting, done, bytes) =
      complete_from l last_msg_id port entry msg v table id_in port_in some_bytes fits no_wrap j k
        (all_lost s) (all_lost-IsLinked x j k s w) live listens in
    (s', _, r, done, bytes, w'.sending.valid, waiting)

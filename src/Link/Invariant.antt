-- ===== src/Link/Invariant.antt =====
-- What every step of the system keeps, for the packets `air` of one message.
use iiw_udp_gbn.Base.{
  ℕ, ◌+◌, ◌%◌, ◌^◌, ◌<◌, ◌≤◌, ◌≡◌, ◌∙◌, List, ◌++◌, some, arith, length, get_elem?, All, All-append,
  All-mono,
}
use iiw_udp_gbn.Base.Int.{ℤ}
use iiw_udp_gbn.Catcher.{Catcher, Ack}
use iiw_udp_gbn.Catcher.Acks.{IsAckOf}
use iiw_udp_gbn.Catcher.Prefix.{IsAt}
use iiw_udp_gbn.Gbn.History.{same_members-IsSender}
use iiw_udp_gbn.LaunchBattery.{LaunchPad}
use iiw_udp_gbn.Launcher.{Launcher, LauncherEvent, Attempt, Sent, set_ack_port}
use iiw_udp_gbn.Launcher.Events.{launcher_sig_handler}
use iiw_udp_gbn.Launcher.Reachable.{returned-IsSender}
use iiw_udp_gbn.Link.{System}
use iiw_udp_gbn.Link.Acked.{OnlyFrees}
use iiw_udp_gbn.Link.Acks.{IsSending, IsSending-base}
use iiw_udp_gbn.Link.Pads.{IsBoundTo, Holds, CarriesIn, returned-Holds}
use iiw_udp_gbn.Packet.{Packet, serialize_packet}
use iiw_udp_gbn.Packet.Series.{AreStamped, IsStamped-at}
use iiw_udp_gbn.SendWindow.{queue_len}
use iiw_udp_gbn.SortingTable.{SortingEntry, get_from_sorting_table}
use iiw_udp_gbn.SortingTable.Laws.{IsSortingTable}

-- A message on its way: the packets `air` as they travel, from the pad `start` on, with the port for their
-- acknowledgments, the id of the message and its entry in the table.
pub record Transfer : Type 0 where
  pub start : ℕ
  pub port : ℕ
  pub port_in : port < 2 ^ 16
  pub air : List Packet
  pub stamped : AreStamped start (length air) 0 air
  pub id : ℤ
  pub numbered : All (λ p. p.header.msg_id ≡ id) air
  pub entry : SortingEntry

module _ (x : Transfer) where
  -- The packet of the message for the pad `m`, up to the port in it.
  abbrev pub IsOurs : ℕ → Packet → Type 0
  IsOurs m p =
      (k : ℕ) × (get_elem? x.air k ≡ some (set_ack_port p x.port))
      × (m ≡ (x.start + k) % queue_len)
      × (p.header.ack_port < 2 ^ 16)

  pub IsOurs_stays : (m : ℕ) (p : Packet) → IsOurs m p → IsOurs m (set_ack_port p x.port)
  IsOurs_stays m p (k, e, place, _) = (k, e, place, x.port_in)

  -- One of the first `b` packets.
  abbrev pub IsSentBelow : ℕ → Sent → Type 0
  IsSentBelow b d =
      (k : ℕ) × (k < b)
      × (q : Packet) × (get_elem? x.air k ≡ some q)
      × (serialize_packet q ≡ some d.bytes)

  -- An acknowledgment of some of the first `k` packets.
  abbrev pub IsAckUpTo : ℕ → Ack → Type 0
  IsAckUpTo k a =
      (k' : ℕ) × (p : Packet) × (c : Catcher) × (0 < k')
      × (k' ≤ k)
      × IsAckOf x.start (length x.air) k' p c a

  -- The sender's window starts at the packet `j`, and the receiver waits for the packet `k`.
  pub record IsLinked (j k : ℕ) (s : System) : Type 0 where
    pub sending : IsSending x.start (length x.air) j s.sender
    pub pads : Holds IsOurs x.port IsOurs_stays s.sender.battery.battery
    pub table : IsSortingTable s.sender.send_table
    pub known : j < length x.air → get_from_sorting_table s.sender.send_table x.id ≡ some x.entry
    pub out : All (IsSentBelow (j + s.sender.winsize)) s.data_air
    pub receiving : IsAt x.start x.air k s.receiver
    pub acks : All (IsAckUpTo k) s.acks_air
    pub order : j ≤ k
    pub below : k ≤ length x.air
    pub near : k ≤ j + s.sender.winsize

  pub Holds-frees :
      (pads pads' : ℕ → LaunchPad)
      → OnlyFrees pads pads'
      → Holds IsOurs x.port IsOurs_stays pads
      → Holds IsOurs x.port IsOurs_stays pads'
  Holds-frees pads pads' frees h i busy =
      let (same, was_busy) = frees (i % queue_len) in
      let (p, is_p, ours) = h i (was_busy busy) in (p, same ∙ is_p, ours)

  -- The sender's side, with other members of the launcher.
  pub with_sender :
      (j k : ℕ) (s : System) (l : Launcher)
      → IsLinked j k s
      → l.battery ≡ s.sender.battery
      → l.window ≡ s.sender.window
      → l.winsize ≡ s.sender.winsize
      → l.send_table ≡ s.sender.send_table
      → IsLinked j k (record s { sender = l })
  with_sender j k s l v same_battery same_window same_winsize same_table = record {
    sending = record {
      valid =
          same_members-IsSender s.sender l _ same_battery same_window same_winsize v.sending.valid;
      next = rw same_battery v.sending.next;
      fits = rw same_winsize v.sending.fits;
      below = v.sending.below;
    };
    pads = rw same_battery v.pads;
    table = rw same_table v.table;
    known = λ h. rw same_table (v.known h);
    out = rw same_winsize v.out;
    receiving = v.receiving;
    acks = v.acks;
    order = v.order;
    below = v.below;
    near = rw same_winsize v.near;
  }

  -- The pads of the window hold no packets beyond it.
  sent-IsSentBelow :
      (j : ℕ) (l : Launcher) (d : Sent)
      → IsSending x.start (length x.air) j l
      → CarriesIn IsOurs x.port IsOurs_stays l.window.base (l.window.base + l.winsize) d
      → IsSentBelow (j + l.winsize) d
  sent-IsSentBelow j l d v (i, from, before, (p, (k, e, place, _), written)) =
      let base = IsSending-base x.start (length x.air) j l v in
      let (_, k_in) = IsStamped-at x.start (length x.air) 0 k x.air _ x.stamped e in
      let fits = v.fits in
      let below = v.below in
      (k, omega (arith, base, place, k_in), set_ack_port p x.port, e, written)

  pub handles-IsLinked :
      (j k : ℕ) (s : System) (event : LauncherEvent) (io : ℕ → Attempt) (l : Launcher)
      (ds : List Sent)
      → IsLinked j k s
      → ((i : ℕ) → IsBoundTo x.port (io i))
      → launcher_sig_handler s.sender event io ≡ some (l, ds)
      → IsLinked j k (record s { sender = l; data_air = s.data_air ++ ds })
  handles-IsLinked j k s event io l ds v bound run =
      let (pads, out, next, size, same_table) =
        returned-Holds IsOurs x.port IsOurs_stays s.sender _ v.sending.valid io bound v.pads event l
          ds run in
      let (valid, table) = returned-IsSender s.sender l _ event io ds v.sending.valid v.table run in
      record {
        sending = record {
          valid = valid;
          next = next ∙ v.sending.next;
          fits = rw size v.sending.fits;
          below = v.sending.below;
        };
        pads = pads;
        table = table;
        known = λ h. rw same_table (v.known h);
        out = rw size (
            All-append (IsSentBelow (j + s.sender.winsize)) s.data_air ds v.out (
              All-mono _ (IsSentBelow (j + s.sender.winsize))
                (λ d. sent-IsSentBelow j s.sender d v.sending) ds out));
        receiving = v.receiving;
        acks = v.acks;
        order = v.order;
        below = v.below;
        near = rw size v.near;
      }

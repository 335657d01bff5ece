-- ===== src/Link.antt =====
-- launcher.c and catcher.c at the two ends of a network that loses, repeats and reorders datagrams, while one
-- message is on its way. What was handed to the network it may hand over at any time, any number of times or
-- never; acknowledgments it may also forget.
pub mod Pads
pub mod Acked
pub mod Acks
pub mod Invariant
pub mod Steps
pub mod Fires
pub mod Handlers
pub mod Live
pub mod Covers
pub mod Drains
pub mod Launches
pub mod Heard
pub mod Progress
pub mod Loaded
pub mod Starts
pub mod Safety
mod Tests
use iiw_udp_gbn.Base.{ℕ, ◌≡◌, true, List, [], ◌++◌, some, get_elem?, take}
use iiw_udp_gbn.Catcher.{datagram, Catcher, Ack, catch, start_catcher}
use iiw_udp_gbn.Launcher.{Launcher, LauncherEvent, Attempt, Sent, ring}
use iiw_udp_gbn.Launcher.Events.{launcher_sig_handler, listen_for_ack}
use iiw_udp_gbn.Link.Pads.{IsBoundTo}
use iiw_udp_gbn.NetworkSampler.{Timespec}
use iiw_udp_gbn.Packet.{serialize_packet}
use iiw_udp_gbn.SortingTable.{Address}
use iiw_udp_gbn.Timer.{timer_step}

pub record System : Type 0 where
  pub sender : Launcher
  pub receiver : Catcher
  pub data_air : List Sent
  pub acks_air : List Ack

-- The message is on the sender's pads, and recvMessageGbn was called.
abbrev pub loaded_system : Launcher → System
loaded_system l = record { sender = l; receiver = start_catcher; data_air = []; acks_air = [] }

-- The socket for acknowledgments is bound to `port`. A handler that faults makes no step.
pub data Step (port : ℕ) : System → System → Type 0 where
  -- a signal, with whatever the system calls of the launches answer
  handles :
      {s : System} (event : LauncherEvent) (io : ℕ → Attempt) (l : Launcher) (ds : List Sent)
      → ((i : ℕ) → IsBoundTo port (io i))
      → launcher_sig_handler s.sender event io ≡ some (l, ds)
      → Step port s (record s { sender = l; data_air = s.data_air ++ ds })
  -- a datagram, at a receiver that still listens
  delivers :
      {s : System} (m : ℕ) (d : Sent) (from : Address) (c : Catcher) (acks : List Ack)
      → get_elem? s.data_air m ≡ some d
      → s.receiver.more ≡ true
      → catch s.receiver (datagram d.bytes from) ≡ some (c, acks)
      → Step port s (record s { receiver = c; acks_air = s.acks_air ++ acks })
  -- an acknowledgment
  hears :
      {s : System} (m : ℕ) (a : Ack) (bytes : List ℕ) (now : ℕ → Timespec) (l : Launcher)
      → get_elem? s.acks_air m ≡ some a
      → serialize_packet a.packet ≡ some bytes
      → listen_for_ack s.sender bytes now ≡ some l
      → Step port s (record s { sender = l })
  -- the acknowledgments that were sent last are lost
  forgets : {s : System} (m : ℕ) → Step port s (record s { acks_air = take m s.acks_air })
  -- signals leave the queue, or are lost
  drops :
      {s : System} (rest : List LauncherEvent)
      → Step port s (record s { sender = record s.sender { pending = rest } })
  -- the timer
  rings : {s : System} → Step port s (record s { sender = ring s.sender })
  wakes :
      {s : System}
      → Step port s
          (record s { sender = record s.sender { timer = (timer_step s.sender.timer).0 } })

pub data Reaches (port : ℕ) (s : System) : System → Type 0 where
  here : Reaches port s s
  on : {t u : System} → Reaches port s t → Step port t u → Reaches port s u

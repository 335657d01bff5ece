-- ===== src/LaunchBattery.antt =====
-- logic/gbn/launchBattery.c and launchBattery.h: the ring of pads that holds the packets to send.
-- The array of pads is a function of the index, which every access takes modulo QUEUE_LEN.
pub mod Ring
pub mod Adding
mod Tests
use iiw_udp_gbn.Base.{
  ℕ, ◌+◌, ◌-◌, ◌%◌, Bool, true, false, ◌||◌, not, List, [], ◌∷◌, Option, none, some, if◌then◌else◌,
  length, update,
}
use iiw_udp_gbn.Base.Int.{ℤ, pos, negsuc, ◌+ℤ◌, ltb_ℤ}
use iiw_udp_gbn.NetworkSampler.{Timespec, zero_time}
use iiw_udp_gbn.Packet.{Packet}
use iiw_udp_gbn.SendWindow.{queue_len}

pub data LaunchPadStatus : Type 0 where
  empty ready sent acked lost : LaunchPadStatus

pub record LaunchPad : Type 0 where
  pub packet : Option Packet
  pub launches : ℕ
  pub status : LaunchPadStatus
  pub launch_time : Timespec

pub record LaunchBattery : Type 0 where
  pub battery : ℕ → LaunchPad
  pub contiguous_pads_available : ℤ
  pub next_available_index : ℕ

abbrev pub new_launch_pad : LaunchPad
new_launch_pad = record { packet = none; launches = 0; status = empty; launch_time = zero_time }

abbrev pub new_launch_battery : LaunchBattery
new_launch_battery = record {
  battery = λ _. new_launch_pad;
  contiguous_pads_available = pos queue_len;
  next_available_index = 0;
}

unfoldable pub is_launch_pad_available : LaunchPadStatus → Bool
is_launch_pad_available empty = true
is_launch_pad_available acked = true
is_launch_pad_available lost = true
is_launch_pad_available _ = false

-- The packet is destroyed and the pad cleared.
abbrev pub reset_launch_pad : LaunchPad → LaunchPad
reset_launch_pad self = new_launch_pad

abbrev pub needs_reset : LaunchPadStatus → Bool
needs_reset acked = true
needs_reset lost = true
needs_reset _ = false

abbrev pub will_they_fit : LaunchBattery → ℕ → Bool
will_they_fit self n = not (ltb_ℤ self.contiguous_pads_available (pos n))

abbrev pub update_contiguous_pads : LaunchBattery → ℤ → LaunchBattery
update_contiguous_pads self change = record self {
  contiguous_pads_available = self.contiguous_pads_available +ℤ change;
}

-- The packet as the battery stamps it.
abbrev pub stamp : ℕ → ℕ → Packet → Packet
stamp at_index at_end_index p = record p {
  header = record p.header {
    index = pos at_index;
    end_index = pos at_end_index;
    queue_len = pos queue_len;
  };
}

abbrev pub load_into : LaunchPad → ℕ → ℕ → Packet → LaunchPad
load_into current at_index at_end_index p =
    let cleared = if needs_reset current.status then reset_launch_pad current else current in
    record cleared { packet = some (stamp at_index at_end_index p); status = ready }

-- One round of the loop: a pad that is not available is passed over.
unfoldable pub load_pad : LaunchBattery → ℕ → ℕ → Packet → LaunchBattery
load_pad self at_index at_end_index p =
    let current = self.battery at_index in
    let loaded = load_into current at_index at_end_index p in
    if is_launch_pad_available current.status
    then update_contiguous_pads (record self { battery = update self.battery at_index loaded })
        (negsuc 0)
    else self

-- The rounds from `i` on, for the packets from the i-th on.
unfoldable pub load_pads : ℕ → ℕ → ℕ → List Packet → LaunchBattery → LaunchBattery
load_pads start n i [] self = self
load_pads start n i (p ∷ ps) self =
    load_pads start n (i + 1) ps
      (load_pad self ((start + i) % queue_len) ((start + n - 1) % queue_len) p)

-- The battery and the return value; `negsuc 0` is -1. With no packets the source stores an
-- uninitialised int as the next index, which is a fault here.
unfoldable pub add_to_launch_battery : LaunchBattery → List Packet → Option (LaunchBattery × ℤ)
add_to_launch_battery self packets =
    let n = length packets in
    let start = self.next_available_index in
    let added = record (load_pads start n 0 packets self) {
      next_available_index = (start + n) % queue_len;
    } in
    if will_they_fit self n
    then elim packets [ [] ↦ none | p ∷ ps ↦ some (added, pos 0) ]
    else some (self, negsuc 0)

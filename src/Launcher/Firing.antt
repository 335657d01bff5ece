-- ===== src/Launcher/Firing.antt =====
-- fireLaunchPad on a pad that holds a packet of a known message.
use iiw_udp_gbn.Base.{
  ℕ, ◌+◌, ◌%◌, ◌^◌, ◌<◌, ◌≤◌, ◌≡◌, refl, Bool, true, false, not, ◌||◌, List, [], ◌∷◌, Option, some,
  ◌>>=◌, arith, length, if◌then◌else◌, ◌==◌, All, Bool-cases, inl, inr,
}
use iiw_udp_gbn.LaunchBattery.{
  LaunchPadStatus, empty, ready, sent, acked, lost, LaunchPad, is_launch_pad_available,
}
use iiw_udp_gbn.LaunchBattery.Ring.{is_free}
use iiw_udp_gbn.Launcher.{
  Attempt, Sent, fire_launch_pad, launched, set_ack_port, is_jammed, status_code, find_status,
}
use iiw_udp_gbn.Packet.{Packet}
use iiw_udp_gbn.Packet.RoundTrip.{IsWellFormed, deserialize-serialize}
use iiw_udp_gbn.SendWindow.{queue_len}
use iiw_udp_gbn.SortingTable.{SortingTable, SortingEntry, get_from_sorting_table}

-- The pad holds a packet that can be written, whose message has an entry in the table.
pub record IsArmed (table : SortingTable) (pad : LaunchPad) : Type 0 where
  pub packet : Packet
  pub entry : SortingEntry
  pub held : pad.packet ≡ some packet
  pub formed : IsWellFormed packet
  pub found : get_from_sorting_table table packet.header.msg_id ≡ some entry

-- Every pad that is not free is armed.
abbrev pub AreArmed : SortingTable → (ℕ → LaunchPad) → Type 0
AreArmed table pads =
    (i : ℕ) → is_free pads (i % queue_len) ≡ false → IsArmed table (pads (i % queue_len))

-- getsockname works and answers a port.
abbrev pub HasPort : Attempt → Type 0
HasPort io = (port : ℕ) × (io.sockname ≡ some port) × (port < 2 ^ 16)

-- The packet of a pad, up to the port that a launch writes into it.
abbrev pub portless : LaunchPad → Option Packet
portless pad = pad.packet >>= λ q. some (set_ack_port q 0)

ported-IsWellFormed :
    (q : Packet) (port : ℕ) → IsWellFormed q → port < 2 ^ 16 → IsWellFormed (set_ack_port q port)
ported-IsWellFormed q port w h = record {
  index = w.index;
  end_index = w.end_index;
  msg_id = w.msg_id;
  queue_len = w.queue_len;
  data_len = w.data_len;
  ack_port = h;
  carried = w.carried;
}

-- A launch of an armed pad.
pub record Fires (table : SortingTable) (io : Attempt) (pad pad' : LaunchPad) (ds : List Sent)
    (works : Bool) : Type 0 where
  pub runs : fire_launch_pad table io pad ≡ some (pad', ds, works)
  pub armed : IsArmed table pad'
  pub same : portless pad' ≡ portless pad
  pub status : pad'.status ≡ (if works then sent else pad.status)
  pub few : length ds ≤ (if works then 1 else 0)

pub fire_launch_pad-Fires :
    (table : SortingTable) (io : Attempt) (pad : LaunchPad)
    → IsArmed table pad
    → HasPort io
    → (pad' : LaunchPad) × (ds : List Sent) × (works : Bool) × Fires table io pad pad' ds works
unfolding fire_launch_pad
fire_launch_pad-Fires table io pad a (port, answers, port_in) =
    let q = set_ack_port a.packet port in
    let formed = ported-IsWellFormed a.packet port a.formed port_in in
    let (bytes, written, _, _) = deserialize-serialize q [] formed in
    let ported : LaunchPad = record pad { packet = some q } in
    let rearmed : IsArmed table ported = record {
      packet = q;
      entry = a.entry;
      held = refl;
      formed = formed;
      found = a.found;
    } in
    let again : IsArmed table (launched ported io.now) = record {
      packet = q;
      entry = a.entry;
      held = refl;
      formed = formed;
      found = a.found;
    } in
    let same : portless ported ≡ portless pad = rw a.held refl in
    elim (Bool-cases (is_jammed io.rand)) [
      | inl jam ↦ (
        launched ported io.now,
        [],
        true,
        record {
          runs = rw answers (simp (a.held, written, a.found, jam) refl);
          armed = again;
          same = same;
          status = refl;
          few = omega arith;
        },
      )
      | inr air ↦ elim (Bool-cases io.sendto_works) [
        | inl good ↦ (
          launched ported io.now,
          record { bytes = bytes; entry = a.entry } ∷ [],
          true,
          record {
            runs = rw answers (simp (a.held, written, a.found, air, good) refl);
            armed = again;
            same = same;
            status = refl;
            few = omega arith;
          },
        )
        | inr bad ↦ (
          ported,
          [],
          false,
          record {
            runs = rw answers (simp (a.held, written, a.found, air, bad) refl);
            armed = rearmed;
            same = same;
            status = refl;
            few = omega arith;
          },
        )
      ]
    ]

available_code :
    (s : LaunchPadStatus)
    → is_launch_pad_available s ≡ not ((status_code s == 1) || (status_code s == 2))
unfolding is_launch_pad_available
available_code empty = refl
available_code ready = refl
available_code sent = refl
available_code acked = refl
available_code lost = refl

-- The wanted statuses are READY or SENT.
abbrev pub AreBusy : List LaunchPadStatus → Type 0
AreBusy statuses = All (λ s. is_launch_pad_available s ≡ false) statuses

pub find_status-busy :
    (status : LaunchPadStatus) (j k : ℕ) (statuses : List LaunchPadStatus)
    → AreBusy statuses
    → find_status status j statuses ≡ some k
    → is_launch_pad_available status ≡ false
unfolding find_status
find_status-busy status j k [] busy e = cc
find_status-busy status j k (s ∷ statuses) busy e =
    elim (Bool-cases (status_code status == status_code s)) [
      | inl same ↦ ground (arith, available_code status, available_code s, busy.0)
      | inr other ↦ find_status-busy status (j + 1) k statuses busy.1 (rw other at e)
    ]

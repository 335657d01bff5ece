-- ===== src/Link/Acked.antt =====
-- What the loop over the acknowledged pads leaves as it is.
use iiw_udp_gbn.Base.{
  ℕ, zero, suc, ◌+◌, ◌-◌, ◌%◌, ◌<◌, ◌≡◌, ◌≢◌, refl, ap, ◌∙◌, Bool, false, not, arith, ◌==◌, ◌&&◌,
  ltb, Bool-cases, inl, inr, ==_iff,
}
use iiw_udp_gbn.Base.Int.{ℤ, pos, ◌+ℤ◌, ◌-ℤ◌, pos_part, eqb_ℤ, rem_ℤ}
use iiw_udp_gbn.LaunchBattery.{acked, LaunchPad, is_launch_pad_available}
use iiw_udp_gbn.LaunchBattery.Ring.{is_free}
use iiw_udp_gbn.Launcher.{Launcher, status_code, new_packets_in_send_window}
use iiw_udp_gbn.Launcher.Acks.{notify_launcher-pending}
use iiw_udp_gbn.Launcher.Events.{
  AckPass, ack_pad, ack_round, ack_rounds, advance_window, handle_ack, unwrap,
}
use iiw_udp_gbn.NetworkSampler.{Timespec}
use iiw_udp_gbn.Packet.{Packet}
use iiw_udp_gbn.SendWindow.{queue_len, is_in_window}

-- The same packets, and every free pad is free still.
abbrev pub OnlyFrees : (ℕ → LaunchPad) → (ℕ → LaunchPad) → Type 0
OnlyFrees pads pads' =
    (i : ℕ)
    → ((pads' i).packet ≡ (pads i).packet) × (is_free pads' i ≡ false → is_free pads i ≡ false)

-- The packets stay, and the place for the next one.
abbrev Keeps : AckPass → AckPass → Type 0
Keeps s s' =
    OnlyFrees s.battery.battery s'.battery.battery
    × (s'.battery.next_available_index ≡ s.battery.next_available_index)

ack_pad-OnlyFrees :
    (s : AckPass) (j : ℕ) (now : Timespec)
    → OnlyFrees s.battery.battery (ack_pad s j now).battery.battery
unfolding is_launch_pad_available
ack_pad-OnlyFrees s j now i = elim (Bool-cases (j == i)) [
  | inl e ↦ rw e (
    ap (λ m. (s.battery.battery m).packet) ((==_iff j i).0 e),
    λ busy. absurd (ground (arith, busy)),
  )
  | inr e ↦ rw e (refl, λ busy. busy)
]

ack_round-Keeps :
    (in_window : Bool) (i : ℕ) (now : Timespec) (s : AckPass)
    → Keeps s (ack_round in_window i now s)
unfolding ack_round
ack_round-Keeps in_window i now s =
    let j = i % queue_len in
    let fresh = not (status_code (s.battery.battery j).status == status_code acked) in
    elim (Bool-cases (in_window && fresh)) [
      | inl e ↦ rw e (ack_pad-OnlyFrees s j now, refl)
      | inr e ↦ rw e (λ k. (refl, λ busy. busy), refl)
    ]

ack_rounds-Keeps :
    (in_window : Bool) (now : ℕ → Timespec) (n i : ℕ) (s : AckPass)
    → Keeps s (ack_rounds in_window now n i s)
unfolding ack_rounds
ack_rounds-Keeps in_window now zero i s = (λ j. (refl, λ busy. busy), refl)
ack_rounds-Keeps in_window now (suc n) i s =
    let s₁ = ack_round in_window i (now i) s in
    let (one, next₁) = ack_round-Keeps in_window i (now i) s in
    let (more, next₂) = ack_rounds-Keeps in_window now n (i + 1) s₁ in
    (λ j. ((more j).0 ∙ (one j).0, λ busy. (one j).1 ((more j).1 busy)), next₂ ∙ next₁)

advance_window-battery :
    (l : Launcher) (ack : Packet) (k : ℤ)
    → ((advance_window l ack k).battery ≡ l.battery)
      × ((advance_window l ack k).winsize ≡ l.winsize)
unfolding advance_window
advance_window-battery l ack k =
    rw (notify_launcher-pending _ new_packets_in_send_window) (refl, refl)

-- An acknowledgment, whatever it says, changes no packet, makes no free pad busy, and leaves the next available
-- index and the size of the window.
pub handle_ack-OnlyFrees :
    (l : Launcher) (ack : Packet) (now : ℕ → Timespec)
    → let l' = handle_ack l ack now in
      OnlyFrees l.battery.battery l'.battery.battery
      × (l'.battery.next_available_index ≡ l.battery.next_available_index)
      × (l'.winsize ≡ l.winsize)
unfolding handle_ack
handle_ack-OnlyFrees l ack now =
    let base = l.window.base in
    let k = unwrap base ack.header.index in
    let in_window = is_in_window l.window (k -ℤ pos 1) in
    let start : AckPass = record { battery = l.battery; params = l.params; acked_packs = 0 } in
    let n = pos_part k - base in
    let pass = ack_rounds in_window now n base start in
    let (frees, next) = ack_rounds-Keeps in_window now n base start in
    let l₁ : Launcher = record l { battery = pass.battery; params = pass.params } in
    elim (Bool-cases (ltb 0 pass.acked_packs)) [
      | inl e ↦
          (let (same, size) = advance_window-battery l₁ ack k in
            rw (e, same, size) (frees, next, refl))
      | inr e ↦ rw e (frees, next, refl)
    ]

advance_window-table :
    (l : Launcher) (ack : Packet) (k : ℤ)
    → eqb_ℤ k (rem_ℤ (ack.header.end_index +ℤ pos 1) queue_len) ≡ false
    → (advance_window l ack k).send_table ≡ l.send_table
unfolding advance_window
advance_window-table l ack k e =
    rw (notify_launcher-pending _ new_packets_in_send_window) (simp e refl)

-- An acknowledgment of pads of the array that does not name the pad behind the last one of the message
-- leaves the table as it is.
pub handle_ack-table :
    (l : Launcher) (ack : Packet) (now : ℕ → Timespec) (i last : ℕ)
    → ack.header.index ≡ pos i
    → ack.header.end_index ≡ pos last
    → i ≢ (last + 1) % queue_len
    → i < queue_len
    → (handle_ack l ack now).send_table ≡ l.send_table
unfolding handle_ack ◌+ℤ◌
handle_ack-table l ack now i last at_i at_last differs i_in =
    let base = l.window.base in
    let k = unwrap base ack.header.index in
    let in_window = is_in_window l.window (k -ℤ pos 1) in
    let start : AckPass = record { battery = l.battery; params = l.params; acked_packs = 0 } in
    let pass = ack_rounds in_window now (pos_part k - base) base start in
    let l₁ : Launcher = record l { battery = pass.battery; params = pass.params } in
    let other : eqb_ℤ k (rem_ℤ (ack.header.end_index +ℤ pos 1) queue_len) ≡ false =
      rw (at_i, at_last) (ground (arith, differs, i_in)) in
    elim (Bool-cases (ltb 0 pass.acked_packs)) [
      | inl e ↦ rw e (advance_window-table l₁ ack k other)
      | inr e ↦ rw e refl
    ]

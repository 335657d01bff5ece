-- ===== src/Launcher/Stalled.antt =====
-- The pass over the READY pads, where the base of the window is not one of them.
use iiw_udp_gbn.Base.{
  ℕ, zero, suc, ◌+◌, ◌%◌, ◌<◌, ◌≡◌, refl, true, false, [], ◌∷◌, some, arith, ◌==◌, ◌≢◌, ==_iff,
  Bool-cases, inl, inr,
}
use iiw_udp_gbn.Base.Int.{pos, negsuc, eqb_ℤ}
use iiw_udp_gbn.LaunchBattery.{LaunchPadStatus, empty, ready, sent, acked, lost, LaunchPad}
use iiw_udp_gbn.Launcher.{
  Launcher, Attempt, Pass, status_code, find_status, send_pad, send_round, send_rounds,
  send_all_packets_in_window_core, send_all_ready_packets_in_window,
}
use iiw_udp_gbn.Packet.{Packet}
use iiw_udp_gbn.SendWindow.{queue_len}
use iiw_udp_gbn.SortingTable.{SortingTable}

-- A READY pad has a packet, whose id is not negative, as generateMsgId makes them.
abbrev pub IsNumbered : LaunchPad → Type 0
IsNumbered pad =
    pad.status ≡ ready
    → (q : Packet) × (id : ℕ) × (pad.packet ≡ some q) × (q.header.msg_id ≡ pos id)

module _ (table : SortingTable) (io : ℕ → Attempt) (pads : ℕ → LaunchPad) (base : ℕ)
    (numbered : (i : ℕ) → IsNumbered (pads (i % queue_len))) where
  abbrev untouched : Pass
  untouched = record { pads = pads; msg_id_to_send = negsuc 0; launches = 0; datagrams = [] }

  status_is_ready : (s : LaunchPadStatus) → (status_code s == status_code ready) ≡ true → s ≡ ready
  status_is_ready empty e = cc
  status_is_ready ready e = refl
  status_is_ready sent e = cc
  status_is_ready acked e = cc
  status_is_ready lost e = cc

  send_round_skips :
      (i : ℕ)
      → (i ≡ base → (status_code (pads (i % queue_len)).status == status_code ready) ≡ false)
      → send_round table io (ready ∷ []) base i untouched ≡ some untouched
  unfolding send_round send_pad find_status
  send_round_skips i not_base =
      elim (Bool-cases (status_code (pads (i % queue_len)).status == status_code ready)) [
        | inr other ↦ rw (other, send_round) refl
        | inl is_ready ↦
            let (q, id, held, numbered_id) = numbered i (status_is_ready _ is_ready) in
            let later : (i == base) ≡ false = elim (Bool-cases (i == base)) [
              | inr e ↦ e
              | inl e ↦ absurd (ground (arith, is_ready, not_base ((==_iff i base).0 e)))
            ] in
            let differs : eqb_ℤ q.header.msg_id (negsuc 0) ≡ false =
              rw numbered_id (ground arith) in
            rw (is_ready, send_round) (simp (held, later, differs) refl)
      ]

  send_rounds_skip :
      (n i : ℕ) → base < i → send_rounds table io (ready ∷ []) base n i untouched ≡ some untouched
  unfolding send_rounds
  send_rounds_skip zero i h = refl
  send_rounds_skip (suc n) i h =
      rw (send_round_skips i (λ e. absurd (omega arith))) (send_rounds_skip n (i + 1) (omega arith))

  send_rounds_stalled :
      (n : ℕ)
      → (status_code (pads (base % queue_len)).status == status_code ready) ≡ false
      → send_rounds table io (ready ∷ []) base n base untouched ≡ some untouched
  unfolding send_rounds
  send_rounds_stalled zero h = refl
  send_rounds_stalled (suc n) h =
      rw (send_round_skips base (λ e. h)) (send_rounds_skip n (base + 1) (omega arith))

-- A pass for READY pads launches nothing and changes no pad while the pad at the base of the window is not
-- READY, for instance because it is on air: READY packets behind it, which lie in the window, wait until it
-- is acknowledged.
pub send_all_ready_packets_stalled :
    (l : Launcher) (io : ℕ → Attempt)
    → ((i : ℕ) → IsNumbered (l.battery.battery (i % queue_len)))
    → (l.battery.battery (l.window.base % queue_len)).status ≢ ready
    → send_all_ready_packets_in_window l io
      ≡ some (record {
        pads = l.battery.battery;
        msg_id_to_send = negsuc 0;
        launches = 0;
        datagrams = [];
      })
unfolding send_all_packets_in_window_core
send_all_ready_packets_stalled l io numbered on_air =
    let pads = l.battery.battery in
    let base = l.window.base in
    send_rounds_stalled l.send_table io pads base numbered _
      (elim (Bool-cases (status_code (pads (base % queue_len)).status == status_code ready)) [
        | inr e ↦ e
        | inl e ↦ absurd (on_air (status_is_ready l.send_table io pads base numbered _ e))
      ])

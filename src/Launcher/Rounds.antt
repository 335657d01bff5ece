-- ===== src/Launcher/Rounds.antt =====
-- The rounds of a pass that sends packets, and what they keep.
use mathlib.Core.Path.{subst}
use iiw_udp_gbn.Base.{
  ℕ, zero, suc, ◌+◌, ◌%◌, ◌≤◌, ◌≡◌, refl, sym, ◌∙◌, Bool, false, ◌&&◌, List, ◌++◌, some, arith,
  length, length-append, if◌then◌else◌, ◌==◌, update, ==_iff, Bool-cases, Option-cases, inl, inr,
}
use iiw_udp_gbn.Base.Int.{ℤ, eqb_ℤ}
use iiw_udp_gbn.LaunchBattery.{LaunchPadStatus, LaunchPad, is_launch_pad_available}
use iiw_udp_gbn.LaunchBattery.Ring.{is_free}
use iiw_udp_gbn.Launcher.{Attempt, Sent, Pass, find_status, send_pad, send_round, send_rounds}
use iiw_udp_gbn.Launcher.Firing.{
  IsArmed, AreArmed, HasPort, portless, Fires, fire_launch_pad-Fires, AreBusy, find_status-busy,
}
use iiw_udp_gbn.SendWindow.{queue_len}
use iiw_udp_gbn.SortingTable.{SortingTable}

-- What some rounds of a pass keep, `n` of them.
pub record Keeps (table : SortingTable) (n : ℕ) (s s' : Pass) : Type 0 where
  pub frees : (i : ℕ) → is_free s'.pads (i % queue_len) ≡ is_free s.pads (i % queue_len)
  pub armed : AreArmed table s'.pads
  pub same : (i : ℕ) → portless (s'.pads (i % queue_len)) ≡ portless (s.pads (i % queue_len))
  pub few : s'.launches ≤ s.launches + n
  pub counted : length s.datagrams ≤ s.launches → length s'.datagrams ≤ s'.launches

Keeps-refl : (table : SortingTable) (s : Pass) → AreArmed table s.pads → Keeps table 0 s s
Keeps-refl table s armed = record {
  frees = λ i. refl;
  armed = armed;
  same = λ i. refl;
  few = omega arith;
  counted = λ h. h;
}

Keeps-trans :
    (table : SortingTable) (n m : ℕ) (s t u : Pass)
    → Keeps table n s t
    → Keeps table m t u
    → Keeps table (n + m) s u
Keeps-trans table n m s t u a b = record {
  frees = λ i. b.frees i ∙ a.frees i;
  armed = b.armed;
  same = λ i. b.same i ∙ a.same i;
  few = omega (arith, a.few, b.few);
  counted = λ h. b.counted (a.counted h);
}

update_cases :
    (P : LaunchPad → Type 0) (pads : ℕ → LaunchPad) (j k : ℕ) (pad : LaunchPad)
    → (j ≡ k → P pad)
    → P (pads k)
    → P (update pads j pad k)
update_cases P pads j k pad new old = elim (Bool-cases (j == k)) [
  | inl e ↦ rw e (new ((==_iff j k).0 e))
  | inr e ↦ rw e old
]

-- A pad that was launched takes the place of the old one.
Keeps-fired :
    (table : SortingTable) (io : Attempt) (i : ℕ) (id : ℤ) (s : Pass) (pad : LaunchPad)
    (ds : List Sent) (works : Bool)
    → AreArmed table s.pads
    → is_free s.pads (i % queue_len) ≡ false
    → Fires table io (s.pads (i % queue_len)) pad ds works
    → Keeps table 1 s (record {
      pads = update s.pads (i % queue_len) pad;
      msg_id_to_send = id;
      launches = if works then s.launches + 1 else s.launches;
      datagrams = s.datagrams ++ ds;
    })
unfolding is_launch_pad_available
Keeps-fired table io i id s pad ds works armed busy f =
    let still : is_launch_pad_available pad.status ≡ false = elim (Bool-cases works) [
      | inl e ↦ rw (f.status, e) refl
      | inr e ↦ rw (f.status, e) busy
    ] in
    let k = i % queue_len in
    record {
      frees = λ j.
          update_cases (λ q. is_launch_pad_available q.status ≡ is_free s.pads (j % queue_len))
            s.pads k (j % queue_len) pad
            (λ e. still ∙ sym (subst (λ m. is_free s.pads m ≡ false) e busy)) refl;
      armed = λ j.
          update_cases (λ q. is_launch_pad_available q.status ≡ false → IsArmed table q) s.pads k
            (j % queue_len) pad (λ e h. f.armed) (armed j);
      same = λ j.
          update_cases (λ q. portless q ≡ portless (s.pads (j % queue_len))) s.pads k
            (j % queue_len) pad (λ e. subst (λ m. portless pad ≡ portless (s.pads m)) e f.same)
            refl;
      few = ground arith;
      counted = λ h. ground (arith, length-append s.datagrams ds, f.few);
    }

module _ (table : SortingTable) (io : ℕ → Attempt) (ports : (i : ℕ) → HasPort (io i))
    (statuses : List LaunchPadStatus) (wanted : AreBusy statuses) (base : ℕ) where
  send_pad-Keeps :
      (i j : ℕ) (s : Pass)
      → AreArmed table s.pads
      → is_free s.pads (i % queue_len) ≡ false
      → (s' : Pass) × (send_pad table io statuses base i j s ≡ some s') × Keeps table 1 s s'
  unfolding send_pad
  send_pad-Keeps i j s armed busy =
      let a = armed i busy in
      let id = if (i == base) && (j == 0) then a.packet.header.msg_id else s.msg_id_to_send in
      let (pad, ds, works, f) =
        fire_launch_pad-Fires table (io i) (s.pads (i % queue_len)) a (ports i) in
      elim (Bool-cases (eqb_ℤ a.packet.header.msg_id id)) [
        | inl fits ↦ (
          _,
          simp (a.held, fits, f.runs) refl,
          Keeps-fired table (io i) i id s pad ds works armed busy f,
        )
        | inr skipped ↦ (
          record s { msg_id_to_send = id },
          simp (a.held, skipped) refl,
          record {
            frees = λ k. refl;
            armed = armed;
            same = λ k. refl;
            few = omega arith;
            counted = λ h. h;
          },
        )
      ]

  send_round-Keeps :
      (i : ℕ) (s : Pass)
      → AreArmed table s.pads
      → (s' : Pass) × (send_round table io statuses base i s ≡ some s') × Keeps table 1 s s'
  unfolding send_round
  send_round-Keeps i s armed =
      let status = (s.pads (i % queue_len)).status in
      elim (Option-cases (find_status status 0 statuses)) [
        | inl e ↦ (
          s,
          rw (e, send_round) refl,
          record {
            frees = λ k. refl;
            armed = armed;
            same = λ k. refl;
            few = omega arith;
            counted = λ h. h;
          },
        )
        | inr (j, e) ↦
            let (s', run, keeps) =
              send_pad-Keeps i j s armed (find_status-busy status 0 j statuses wanted e) in
            (s', rw (e, send_round) run, keeps)
      ]

  pub send_rounds-Keeps :
      (n i : ℕ) (s : Pass)
      → AreArmed table s.pads
      → (s' : Pass) × (send_rounds table io statuses base n i s ≡ some s') × Keeps table n s s'
  unfolding send_rounds
  send_rounds-Keeps zero i s armed = (s, refl, Keeps-refl table s armed)
  send_rounds-Keeps (suc n) i s armed =
      let (s₁, run₁, keeps₁) = send_round-Keeps i s armed in
      let (s₂, run₂, keeps₂) = send_rounds-Keeps n (i + 1) s₁ keeps₁.armed in
      (
        s₂,
        simp (run₁, run₂) refl,
        subst (λ m. Keeps table m s s₂) (omega arith) (Keeps-trans table 1 n s s₁ s₂ keeps₁ keeps₂),
      )

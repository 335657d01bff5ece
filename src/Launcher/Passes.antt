-- ===== src/Launcher/Passes.antt =====
-- A pass that has returned, whatever the table and the packets are: it leaves the same pads free.
use iiw_udp_gbn.Base.{
  ℕ, zero, suc, ◌+◌, ◌%◌, ◌≡◌, refl, sym, ap, ◌∙◌, Bool, false, List, Option, none, some, ◌>>=◌,
  arith, if◌then◌else◌, ◌==◌, ◌&&◌, update, Bool-cases, Option-cases, some_eq, inl, inr, ==_iff,
}
use iiw_udp_gbn.Base.Int.{eqb_ℤ}
use iiw_udp_gbn.LaunchBattery.{LaunchPadStatus, LaunchPad, is_launch_pad_available}
use iiw_udp_gbn.LaunchBattery.Ring.{is_free}
use iiw_udp_gbn.Launcher.{
  Attempt, Sent, Pass, fire_launch_pad, send_bytes, set_ack_port, find_status, send_pad, send_round,
  send_rounds,
}
use iiw_udp_gbn.Launcher.Firing.{AreBusy, find_status-busy}
use iiw_udp_gbn.Packet.{serialize_packet}
use iiw_udp_gbn.SendWindow.{queue_len}
use iiw_udp_gbn.SortingTable.{SortingTable, get_from_sorting_table}

-- A step of a do block that has given a result.
pub bind_some {ℓ κ} :
    {A : Type ℓ} {B : Type κ} (o : Option A) (f : A → Option B) (b : B)
    → (o >>= f) ≡ some b
    → (a : A) × (o ≡ some a) × (f a ≡ some b)
bind_some none f b h = absurd (ground (arith, h))
bind_some (some a) f b h = (a, refl, h)

fire_launch_pad-busy :
    (table : SortingTable) (io : Attempt) (pad pad' : LaunchPad) (ds : List Sent) (works : Bool)
    → is_launch_pad_available pad.status ≡ false
    → fire_launch_pad table io pad ≡ some (pad', ds, works)
    → is_launch_pad_available pad'.status ≡ false
unfolding fire_launch_pad is_launch_pad_available
fire_launch_pad-busy table io pad pad' ds works busy h = elim (Option-cases io.sockname) [
  | inl e ↦ rw (sym (ap (λ (r : LaunchPad × List Sent × Bool). r.0) (some_eq (rw e at h)))) busy
  | inr (port, e) ↦
      (let (p, _, h₁) = bind_some pad.packet _ (pad', ds, works) (rw e at h) in
        let (bytes, _, h₂) =
          bind_some (serialize_packet (set_ack_port p port)) _ (pad', ds, works) h₁ in
        let (outcome, _, h₃) =
          bind_some (send_bytes io (get_from_sorting_table table p.header.msg_id) bytes) _
            (pad', ds, works) h₂ in
        elim (Option-cases outcome) [
          | inl f ↦
              rw (sym (ap (λ (r : LaunchPad × List Sent × Bool). r.0) (some_eq (rw f at h₃)))) busy
          | inr (datagrams, f) ↦
              rw (sym (ap (λ (r : LaunchPad × List Sent × Bool). r.0) (some_eq (rw f at h₃)))) refl
        ])
]

-- The free pads of both are the same.
abbrev pub SameFree : (ℕ → LaunchPad) → (ℕ → LaunchPad) → Type 0
SameFree pads pads' = (i : ℕ) → is_free pads' (i % queue_len) ≡ is_free pads (i % queue_len)

update-SameFree :
    (pads : ℕ → LaunchPad) (k : ℕ) (pad : LaunchPad)
    → is_free pads k ≡ false
    → is_launch_pad_available pad.status ≡ false
    → SameFree pads (update pads k pad)
update-SameFree pads k pad busy still i = elim (Bool-cases (k == i % queue_len)) [
  | inl e ↦
      rw e (still ∙ sym (ap (λ m. is_free pads m) (sym ((==_iff k (i % queue_len)).0 e)) ∙ busy))
  | inr e ↦ rw e refl
]

module _ (table : SortingTable) (io : ℕ → Attempt) (statuses : List LaunchPadStatus)
    (wanted : AreBusy statuses) (base : ℕ) where
  pub send_pad-SameFree :
      (i j : ℕ) (s s' : Pass)
      → is_free s.pads (i % queue_len) ≡ false
      → send_pad table io statuses base i j s ≡ some s'
      → SameFree s.pads s'.pads
  unfolding send_pad
  send_pad-SameFree i j s s' busy h =
      let (p, _, h₁) = bind_some (s.pads (i % queue_len)).packet _ s' h in
      let id = if (i == base) && (j == 0) then p.header.msg_id else s.msg_id_to_send in
      elim (Bool-cases (eqb_ℤ p.header.msg_id id)) [
        | inl e ↦
            (let ((pad, ds, works), fired, h₂) =
                bind_some (fire_launch_pad table (io i) (s.pads (i % queue_len))) _ s'
                  (rw e at h₁) in
              rw (sym (some_eq h₂)) (
                update-SameFree s.pads (i % queue_len) pad busy (
                  fire_launch_pad-busy table (io i) (s.pads (i % queue_len)) pad ds works busy
                    fired)))
        | inr e ↦ rw (sym (some_eq (rw e at h₁))) (λ k. refl)
      ]

  pub send_round-SameFree :
      (i : ℕ) (s s' : Pass)
      → send_round table io statuses base i s ≡ some s'
      → SameFree s.pads s'.pads
  unfolding send_round
  send_round-SameFree i s s' h =
      let status = (s.pads (i % queue_len)).status in
      elim (Option-cases (find_status status 0 statuses)) [
        | inl e ↦ rw (sym (some_eq (rw (e, send_round) at h))) (λ k. refl)
        | inr (j, e) ↦
            send_pad-SameFree i j s s' (find_status-busy status 0 j statuses wanted e)
              (rw (e, send_round) at h)
      ]

  pub send_rounds-SameFree :
      (n i : ℕ) (s s' : Pass)
      → send_rounds table io statuses base n i s ≡ some s'
      → SameFree s.pads s'.pads
  unfolding send_rounds
  send_rounds-SameFree zero i s s' h = rw (sym (some_eq h)) (λ k. refl)
  send_rounds-SameFree (suc n) i s s' h =
      let (s₁, first, later) = bind_some (send_round table io statuses base i s) _ s' h in
      λ k. send_rounds-SameFree n (i + 1) s₁ s' later k ∙ send_round-SameFree i s s₁ first k

-- ===== src/Launcher/AckRounds.antt =====
-- The loop over the pads that an acknowledgment covers.
use native.Mathlib.Nat.{mod-eq_of_lt}
use mathlib.Core.Path.{subst}
use iiw_udp_gbn.Base.{
  ℕ, zero, suc, ◌+◌, ◌%◌, ◌≤◌, ◌≡◌, refl, ap, sym, ◌∙◌, true, false, not, arith, ◌==◌, update,
  update_same, update_other,
}
use iiw_udp_gbn.Base.Int.{pos, ◌+ℤ◌}
use iiw_udp_gbn.LaunchBattery.{
  LaunchPadStatus, empty, ready, sent, acked, lost, LaunchPad, is_launch_pad_available,
}
use iiw_udp_gbn.LaunchBattery.Ring.{is_free, IsRing, IsRing_at, drain-IsRing}
use iiw_udp_gbn.Launcher.{status_code}
use iiw_udp_gbn.Launcher.Events.{AckPass, ack_pad, ack_round, ack_rounds}
use iiw_udp_gbn.NetworkSampler.{Timespec}
use iiw_udp_gbn.SendWindow.{queue_len}
use iiw_udp_gbn.SendWindow.Range.{distance}

pub ack_rounds_outside :
    (now : ℕ → Timespec) (n i : ℕ) (s : AckPass) → ack_rounds false now n i s ≡ s
unfolding ack_rounds ack_round
ack_rounds_outside now zero i s = refl
ack_rounds_outside now (suc n) i s = ack_rounds_outside now n (i + 1) s

busy_not_acked :
    (status : LaunchPadStatus)
    → is_launch_pad_available status ≡ false
    → (status_code status == status_code acked) ≡ false
unfolding is_launch_pad_available
busy_not_acked empty h = cc
busy_not_acked ready h = refl
busy_not_acked sent h = refl
busy_not_acked acked h = cc
busy_not_acked lost h = cc

ack_round_busy :
    (i : ℕ) (now : Timespec) (s : AckPass)
    → is_free s.battery.battery (i % queue_len) ≡ false
    → ack_round true i now s ≡ ack_pad s (i % queue_len) now
unfolding ack_round not
ack_round_busy i now s h = simp (busy_not_acked _ h)

-- The pads `i` to `i + n - 1` of the ring are acknowledged.
abbrev pub AreAcked : ℕ → ℕ → (ℕ → LaunchPad) → Type 0
AreAcked zero i pads = Unit
AreAcked (suc n) i pads = ((pads (i % queue_len)).status ≡ acked) × AreAcked n (i + 1) pads

-- What the rounds leave behind, `n` of them from round `i` on.
pub record Acks (n i next free : ℕ) (s s' : AckPass) : Type 0 where
  pub ring : IsRing s'.battery.battery next (free + n)
  pub counted : s'.battery.contiguous_pads_available ≡ pos (free + n)
  pub same_next : s'.battery.next_available_index ≡ s.battery.next_available_index
  pub acks : s'.acked_packs ≡ s.acked_packs + n
  pub done : AreAcked n i s'.battery.battery
  pub others :
      (j : ℕ)
      → n ≤ distance (i % queue_len) (j % queue_len)
      → s'.battery.battery (j % queue_len) ≡ s.battery.battery (j % queue_len)

pub ack_rounds-Acks :
    (now : ℕ → Timespec) (n i next free : ℕ) (s : AckPass)
    → IsRing s.battery.battery next free
    → s.battery.contiguous_pads_available ≡ pos free
    → i % queue_len ≡ (next + free) % queue_len
    → free + n ≤ queue_len
    → Acks n i next free s (ack_rounds true now n i s)
unfolding ack_rounds ◌+ℤ◌ is_launch_pad_available
ack_rounds-Acks now zero i next free s r c e fit = record {
  ring = IsRing_at _ refl (omega arith) r;
  counted = c ∙ ap pos (omega arith);
  same_next = refl;
  acks = omega arith;
  done = tt;
  others = λ j h. refl;
}
ack_rounds-Acks now (suc n) i next free s r c e fit =
    let j = i % queue_len in
    let pads = s.battery.battery in
    let pad : LaunchPad = record (pads j) { status = acked } in
    let s₁ = ack_pad s j (now i) in
    let busy : is_free pads j ≡ false = r.frees i ∙ ground (arith, r.next_in) in
    let ring₁ : IsRing s₁.battery.battery next (free + 1) =
      subst (λ k. IsRing (update pads k pad) next (free + 1)) (sym e)
        (drain-IsRing pads next free pad r (omega arith) refl) in
    let a =
      ack_rounds-Acks now n (i + 1) next (free + 1) s₁ ring₁ (ground arith) (omega arith)
        (omega arith) in
    let kept : (ack_rounds true now n (i + 1) s₁).battery.battery j ≡ pad =
      rw (mod-eq_of_lt {n = j} {m = queue_len} (omega arith)) at (a.others j (ground arith))
      ∙ update_same pads j pad in
    rw (ack_round_busy i (now i) s busy) (record {
      ring = IsRing_at _ refl (omega arith) a.ring;
      counted = a.counted ∙ ap pos (omega arith);
      same_next = a.same_next;
      acks = omega (arith, a.acks);
      done = (ap (λ (q : LaunchPad). q.status) kept, a.done);
      others = λ k h.
          a.others k (omega arith) ∙ update_other pads j (k % queue_len) pad (λ same. omega arith);
    })

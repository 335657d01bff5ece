-- ===== src/LaunchBattery/Adding.antt =====
-- addToLaunchBattery, with room and without.
use native.Mathlib.Nat.{mod-eq_of_lt}
use iiw_udp_gbn.Base.{
  ℕ, suc, ◌+◌, ◌-◌, ◌%◌, ◌<◌, ◌≤◌, ◌≡◌, refl, ap, ◌∙◌, true, not, List, [], ◌∷◌, some, arith, ltb,
  le→ltb, lt→ltb, if◌then◌else◌, update, update_same, update_other, length, Bool-cases, inl, inr,
}
use iiw_udp_gbn.Base.Int.{pos, ◌+ℤ◌, negsuc}
use iiw_udp_gbn.LaunchBattery.{
  ready, LaunchPad, LaunchBattery, is_launch_pad_available, load_pad, load_pads,
  add_to_launch_battery, stamp, will_they_fit, load_into, update_contiguous_pads,
}
use iiw_udp_gbn.LaunchBattery.Ring.{
  is_free, IsRing, IsBattery, IsRing_at, is_free_next, fill-IsRing,
}
use iiw_udp_gbn.Packet.{Packet}
use iiw_udp_gbn.SendWindow.{queue_len}
use iiw_udp_gbn.SendWindow.Range.{distance}

-- The packets, from the i-th on, stand stamped and READY on the pads from `start + i` on.
abbrev pub AreLoaded : ℕ → ℕ → ℕ → List Packet → (ℕ → LaunchPad) → Type 0
AreLoaded start n i [] pads = Unit
AreLoaded start n i (p ∷ ps) pads =
    let j = (start + i) % queue_len in
    ((pads j).packet ≡ some (stamp j ((start + n - 1) % queue_len) p))
    × ((pads j).status ≡ ready)
    × AreLoaded start n (i + 1) ps pads

-- What the rounds from `i` on leave behind.
record Loads (start n i : ℕ) (ps : List Packet) (b b' : LaunchBattery) (free : ℕ) : Type 0 where
  ring : IsRing b'.battery ((start + i + length ps) % queue_len) (free - length ps)
  counted : b'.contiguous_pads_available ≡ pos (free - length ps)
  loaded : AreLoaded start n i ps b'.battery
  others :
      (j : ℕ)
      → length ps ≤ distance ((start + i) % queue_len) (j % queue_len)
      → b'.battery (j % queue_len) ≡ b.battery (j % queue_len)

load_pad_free :
    (b : LaunchBattery) (j e : ℕ) (p : Packet)
    → is_free b.battery j ≡ true
    → load_pad b j e p
      ≡ update_contiguous_pads
          (record b { battery = update b.battery j (load_into (b.battery j) j e p) })
          (negsuc 0)
unfolding load_pad
load_pad_free b j e p h = rw h

load_pads-Loads :
    (start n i : ℕ) (ps : List Packet) (b : LaunchBattery) (free : ℕ)
    → IsRing b.battery ((start + i) % queue_len) free
    → b.contiguous_pads_available ≡ pos free
    → length ps ≤ free
    → Loads start n i ps b (load_pads start n i ps b) free
unfolding load_pads ◌+ℤ◌ is_launch_pad_available
load_pads-Loads start n i [] b free r c fit = record {
  ring = IsRing_at b.battery (omega arith) (omega arith) r;
  counted = ground arith;
  loaded = tt;
  others = λ j h. refl;
}
load_pads-Loads start n i (p ∷ ps) b free r c fit =
    let j = (start + i) % queue_len in
    let e = (start + n - 1) % queue_len in
    let pad = load_into (b.battery j) j e p in
    let b₁ = update_contiguous_pads (record b { battery = update b.battery j pad }) (negsuc 0) in
    let next : (j + 1) % queue_len ≡ (start + (i + 1)) % queue_len = omega arith in
    let ring₁ = fill-IsRing b.battery j free pad r (omega arith) refl in
    let step : load_pad b j e p ≡ b₁ =
      load_pad_free b j e p (is_free_next b.battery j free pad r (omega arith)) in
    let l =
      load_pads-Loads start n (i + 1) ps b₁ (free - 1) (IsRing_at b₁.battery next refl ring₁)
        (ground arith) (omega arith) in
    let kept : (load_pads start n (i + 1) ps b₁).battery j ≡ pad =
      rw (mod-eq_of_lt {n = j} {m = queue_len} (omega arith)) at (l.others j (ground (arith, next)))
      ∙ update_same b.battery j pad in
    rw step (record {
      ring = IsRing_at _ (omega arith) (omega arith) l.ring;
      counted = l.counted ∙ ap pos (omega arith);
      loaded =
          (ap (λ (q : LaunchPad). q.packet) kept, ap (λ (q : LaunchPad). q.status) kept, l.loaded);
      others = λ k h.
          l.others k (omega (arith, next))
          ∙ update_other b.battery j (k % queue_len) pad (λ same. omega arith);
    })

will_they_fit-IsBattery :
    (b : LaunchBattery) (n free : ℕ) → IsBattery b free → will_they_fit b n ≡ not (ltb free n)
unfolding not
will_they_fit-IsBattery b n free valid = rw valid.counted (ground arith)

-- While the battery is well formed and has room for one packet or more, addToLaunchBattery returns 0,
-- puts every packet READY and stamped on its pad, in order from the next available index on, leaves
-- every other pad as it was, and keeps the invariant: no packet is passed over.
pub add_to_launch_battery-fits :
    (b : LaunchBattery) (p : Packet) (ps : List Packet) (free j : ℕ)
    → IsBattery b free
    → suc (length ps) ≤ free
    → let n = suc (length ps) in
      let k = j % queue_len in
      (b' : LaunchBattery) × (add_to_launch_battery b (p ∷ ps) ≡ some (b', pos 0))
      × IsBattery b' (free - n)
      × (b'.next_available_index ≡ (b.next_available_index + n) % queue_len)
      × AreLoaded b.next_available_index n 0 (p ∷ ps) b'.battery
      × (b'.battery k
          ≡ (if ltb (distance b.next_available_index k) n then b'.battery k else b.battery k))
unfolding add_to_launch_battery not
add_to_launch_battery-fits b p ps free j valid fit =
    let s = b.next_available_index in
    let n = suc (length ps) in
    let start : s ≡ (s + 0) % queue_len = omega (arith, valid.ring.next_in) in
    let ring = IsRing_at b.battery start refl valid.ring in
    let l = load_pads-Loads s n 0 (p ∷ ps) b free ring valid.counted fit in
    (
      record (load_pads s n 0 (p ∷ ps) b) { next_available_index = (s + n) % queue_len },
      rw (will_they_fit-IsBattery b n free valid, le→ltb free n fit),
      record { ring = IsRing_at _ (omega arith) refl l.ring; counted = l.counted },
      refl,
      l.loaded,
      elim (Bool-cases (ltb (distance s (j % queue_len)) n)) [
        | inl e ↦ rw e
        | inr e ↦ rw e (l.others j (ground (arith, start)))
      ],
    )

-- Where the packets are more than the free pads, addToLaunchBattery returns -1 and the battery is
-- unchanged.
pub add_to_launch_battery-full :
    (b : LaunchBattery) (packets : List Packet) (free : ℕ)
    → IsBattery b free
    → free < length packets
    → add_to_launch_battery b packets ≡ some (b, negsuc 0)
unfolding add_to_launch_battery not
add_to_launch_battery-full b packets free valid small =
    rw (will_they_fit-IsBattery b (length packets) free valid, lt→ltb free (length packets) small)

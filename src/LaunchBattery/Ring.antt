-- ===== src/LaunchBattery/Ring.antt =====
-- The invariant of the battery: the pads that are free are one run of the ring, which starts at the next
-- available index and is as long as the counter says; the others hold packets.
use native.Mathlib.Nat.{mod-eq_of_lt}
use mathlib.Core.Path.{subst₂}
use iiw_udp_gbn.Base.{
  ℕ, ◌+◌, ◌-◌, ◌%◌, ◌<◌, ◌≤◌, ◌≡◌, refl, Bool, true, false, arith, ltb, ◌==◌, Bool-cases, inl, inr,
  ap, if◌then◌else◌, update,
}
use iiw_udp_gbn.Base.Int.{pos}
use iiw_udp_gbn.LaunchBattery.{
  LaunchPad, LaunchBattery, new_launch_battery, is_launch_pad_available,
}
use iiw_udp_gbn.SendWindow.{queue_len}
use iiw_udp_gbn.SendWindow.Range.{distance}

abbrev pub is_free : (ℕ → LaunchPad) → ℕ → Bool
is_free pads i = is_launch_pad_available (pads i).status

-- The free pads of the array are the `free` pads from `next` on.
pub record IsRing (pads : ℕ → LaunchPad) (next free : ℕ) : Type 0 where
  pub next_in : next < queue_len
  pub fits : free ≤ queue_len
  pub frees : (i : ℕ) → is_free pads (i % queue_len) ≡ ltb (distance next (i % queue_len)) free

pub record IsBattery (b : LaunchBattery) (free : ℕ) : Type 0 where
  pub ring : IsRing b.battery b.next_available_index free
  pub counted : b.contiguous_pads_available ≡ pos free

pub new_launch_battery-IsBattery : IsBattery new_launch_battery queue_len
unfolding is_launch_pad_available
new_launch_battery-IsBattery = record {
  ring = record { next_in = omega arith; fits = omega arith; frees = λ i. ground arith };
  counted = refl;
}

-- Where a pad is changed, what is free changes there alone.
is_free-update :
    (pads : ℕ → LaunchPad) (j : ℕ) (pad : LaunchPad) (i : ℕ)
    → is_free (update pads j pad) i
      ≡ (if j == i then is_launch_pad_available pad.status else is_free pads i)
is_free-update pads j pad i = elim (Bool-cases (j == i)) [ inl e ↦ rw e | inr e ↦ rw e ]

module _ (pads : ℕ → LaunchPad) (next free : ℕ) (pad : LaunchPad) (r : IsRing pads next free) where
  pub is_free_next : 0 < free → is_free pads next ≡ true
  is_free_next h =
      let at_next = rw (mod-eq_of_lt r.next_in) at (r.frees next) in ground (arith, at_next)

  -- A packet in the first free pad shortens the run from its front.
  pub fill-IsRing :
      0 < free
      → is_launch_pad_available pad.status ≡ false
      → IsRing (update pads next pad) ((next + 1) % queue_len) (free - 1)
  fill-IsRing h busy = record {
    next_in = omega arith;
    fits = omega (arith, r.fits);
    frees = λ i.
        ground (arith, is_free-update pads next pad (i % queue_len), r.frees i, r.fits, r.next_in);
  }

  -- The oldest pad with a packet, behind the run, lengthens it when it is done.
  pub drain-IsRing :
      free < queue_len
      → is_launch_pad_available pad.status ≡ true
      → IsRing (update pads ((next + free) % queue_len) pad) next (free + 1)
  drain-IsRing h done = record {
    next_in = r.next_in;
    fits = omega arith;
    frees = λ i. ground (
      arith,
      is_free-update pads ((next + free) % queue_len) pad (i % queue_len),
      r.frees i,
      r.next_in,
    );
  }

  -- The pad at `j` may change to another as free as it was.
  pub keep-IsRing :
      (j : ℕ)
      → is_launch_pad_available pad.status ≡ is_free pads j
      → IsRing (update pads j pad) next free
  keep-IsRing j same = record {
    next_in = r.next_in;
    fits = r.fits;
    frees = λ i. ground (
      arith,
      is_free-update pads j pad (i % queue_len),
      r.frees i,
      ap (is_free pads) {x = j} {y = i % queue_len},
    );
  }

pub IsRing_at :
    (pads : ℕ → LaunchPad) {next next' free free' : ℕ}
    → next ≡ next'
    → free ≡ free'
    → IsRing pads next free
    → IsRing pads next' free'
IsRing_at pads e f r = subst₂ (IsRing pads) e f r

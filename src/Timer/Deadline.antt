-- ===== src/Timer/Deadline.antt =====
-- timer.c on networkSampler.c: the time that a wait ends at, behind any samples of the round trip time.
use iiw_udp_gbn.Base.{
  ℕ, ◌+◌, ◌*◌, ◌^◌, ◌<◌, ◌≡◌, refl, ◌&&◌, if◌then◌else◌, List, [], ◌∷◌, some, All, arith,
}
use iiw_udp_gbn.Base.Int.{ℤ, pos, negsuc, ◌+ℤ◌, ◌≤ℤ◌, sub_ℕ, eqb_ℤ, +ℤ_parts}
use iiw_udp_gbn.NetworkSampler.{
  Timespec, NetworkParams, new_network_params, zero_time, update_estimated_rtt,
}
use iiw_udp_gbn.NetworkSampler.Bounds.{IsBetween, IsRange, time_of, update_estimated_rtt_bounds}
use iiw_udp_gbn.Timer.{int_of_double, calc_adaptive_timeout_param, add_to_wait, calc_timeout}

-- The estimates behind the samples of acknowledged pads, in order.
abbrev pub sampled : NetworkParams → List Timespec → NetworkParams
sampled params [] = params
sampled params (s ∷ ss) = sampled (update_estimated_rtt params s) ss

abbrev pub before_zero : ℕ → ℕ → Timespec
before_zero secs nsecs = record { tv_sec = sub_ℕ 0 secs; tv_nsec = sub_ℕ 0 nsecs }

-- Each member is no further from zero than that of the bound.
abbrev pub IsWithin : ℕ → ℕ → Timespec → Type 0
IsWithin secs nsecs t = IsBetween (before_zero secs nsecs) (time_of secs nsecs) t

module _ (secs nsecs : ℕ) (secs_in : 9 * secs < 2 ^ 31) (nsecs_in : 9 * nsecs < 2 ^ 31) where
  around_zero : IsRange (before_zero secs nsecs) (time_of secs nsecs) (2 * secs) (2 * nsecs)
  unfolding ◌+ℤ◌
  around_zero = record {
    lo_sec = ground arith;
    hi_sec = omega arith;
    lo_nsec = ground arith;
    hi_nsec = omega arith;
    secs_in = omega arith;
    nsecs_in = omega arith;
    sec_near = ground arith;
    nsec_near = ground arith;
  }

  sampled-IsWithin :
      (params : NetworkParams) (samples : List Timespec)
      → IsWithin secs nsecs params.estimated_rtt
      → IsBetween zero_time (time_of (2 * secs) (2 * nsecs)) params.dev_rtt
      → All (IsWithin secs nsecs) samples
      → IsWithin secs nsecs (sampled params samples).estimated_rtt
        × IsBetween zero_time (time_of (2 * secs) (2 * nsecs)) (sampled params samples).dev_rtt
  sampled-IsWithin params [] e d in_bounds = (e, d)
  sampled-IsWithin params (s ∷ ss) e d (s_in, ss_in) =
      let (e', d') =
        update_estimated_rtt_bounds params s (before_zero secs nsecs) (time_of secs nsecs)
          (2 * secs) (2 * nsecs) around_zero e s_in d in
      sampled-IsWithin (update_estimated_rtt params s) ss e' d' ss_in

-- An estimate and four times its deviance, as an int.
adaptive_bounds :
    (h : ℕ) (est dev : ℤ)
    → 9 * h < 2 ^ 31
    → sub_ℕ 0 h ≤ℤ est
    → est ≤ℤ pos h
    → pos 0 ≤ℤ dev
    → dev ≤ℤ pos (2 * h)
    → (w : ℤ) × (int_of_double (calc_adaptive_timeout_param est dev 2) ≡ some w)
      × (sub_ℕ 0 h ≤ℤ w)
      × (w ≤ℤ pos (9 * h))
unfolding int_of_double calc_adaptive_timeout_param ◌+ℤ◌
adaptive_bounds h est (pos d) h_in a b c e =
    (calc_adaptive_timeout_param est (pos d) 2, ground arith, ground arith, ground arith)
adaptive_bounds h est (negsuc d) h_in a b c e = absurd (omega (arith, c))

-- A clock to which a wait between these bounds is added.
added_bounds :
    (now wait : ℤ) (low high : ℕ)
    → sub_ℕ 0 low ≤ℤ wait
    → wait ≤ℤ pos high
    → (now ≤ℤ (now +ℤ wait) +ℤ pos low) × (now +ℤ wait ≤ℤ now +ℤ pos high)
added_bounds now wait low high a b =
    let sum = +ℤ_parts now wait in
    let back = +ℤ_parts (now +ℤ wait) (pos low) in
    let top = +ℤ_parts now (pos high) in (ground (arith, sum, back, a), omega (arith, sum, top, b))

-- The wait, with the second that stands for a missing estimate.
waits :
    (sec nsec : ℤ) (secs nsecs : ℕ)
    → sub_ℕ 0 secs ≤ℤ sec
    → sec ≤ℤ pos (9 * secs)
    → sub_ℕ 0 nsecs ≤ℤ nsec
    → nsec ≤ℤ pos (9 * nsecs)
    → let unknown = eqb_ℤ sec (pos 0) && eqb_ℤ nsec (pos 0) in
      let wait_sec = if unknown then pos 1 else sec in
      let wait_nsec : ℤ = if unknown then pos 0 else nsec in
      let last = if eqb_ℤ wait_nsec (pos 0) then pos 0 else wait_nsec in
      (sub_ℕ 0 secs ≤ℤ wait_sec)
      × (wait_sec ≤ℤ pos (9 * secs + 1))
      × (sub_ℕ 0 nsecs ≤ℤ last)
      × (last ≤ℤ pos (9 * nsecs))
waits sec nsec secs nsecs a b c d = ground arith

-- Let every sample since the start lie between -secs and secs seconds and between -nsecs and nsecs
-- nanoseconds, where nine times either is below 2 ^ 31. Then the time of the wake is defined, no int
-- overflows on the way to it, and it lies no more than secs seconds and nsecs nanoseconds before the
-- clock, and no more than 9 * secs + 1 seconds and 9 * nsecs nanoseconds behind it.
pub calc_timeout-sampled :
    (secs nsecs : ℕ) (samples : List Timespec) (now : Timespec)
    → 9 * secs < 2 ^ 31
    → 9 * nsecs < 2 ^ 31
    → All (IsWithin secs nsecs) samples
    → (t : Timespec) × (calc_timeout (sampled new_network_params samples) now ≡ some t)
      × (now.tv_sec ≤ℤ t.tv_sec +ℤ pos secs)
      × (t.tv_sec ≤ℤ now.tv_sec +ℤ pos (9 * secs + 1))
      × (now.tv_nsec ≤ℤ t.tv_nsec +ℤ pos nsecs)
      × (t.tv_nsec ≤ℤ now.tv_nsec +ℤ pos (9 * nsecs))
unfolding calc_timeout add_to_wait
calc_timeout-sampled secs nsecs samples now secs_in nsecs_in in_bounds =
    let params = sampled new_network_params samples in
    let start = new_network_params in
    let (e, d) =
      sampled-IsWithin secs nsecs secs_in nsecs_in start samples
        (record {
          sec_low = ground arith;
          sec_high = omega arith;
          nsec_low = ground arith;
          nsec_high = omega arith;
        })
        (record {
          sec_low = omega arith;
          sec_high = omega arith;
          nsec_low = omega arith;
          nsec_high = omega arith;
        })
        in_bounds in
    let (sec, ran_sec, sec_low, sec_high) =
      adaptive_bounds secs params.estimated_rtt.tv_sec params.dev_rtt.tv_sec secs_in e.sec_low
        e.sec_high d.sec_low d.sec_high in
    let (nsec, ran_nsec, nsec_low, nsec_high) =
      adaptive_bounds nsecs params.estimated_rtt.tv_nsec params.dev_rtt.tv_nsec nsecs_in e.nsec_low
        e.nsec_high d.nsec_low d.nsec_high in
    let (a, b, a', b') = waits sec nsec secs nsecs sec_low sec_high nsec_low nsec_high in
    let (low, high) = added_bounds now.tv_sec _ secs (9 * secs + 1) a b in
    let (low', high') = added_bounds now.tv_nsec _ nsecs (9 * nsecs) a' b' in
    rw (ran_sec, ran_nsec) (_, refl, low, high, low', high')

-- ===== src/NetworkSampler/Bounds.antt =====
-- Bounds of the averages.
use iiw_udp_gbn.Base.{ℕ, ◌^◌, ◌<◌, ◌≡◌, arith}
use iiw_udp_gbn.Base.Int.{ℤ, pos, negsuc, ◌+ℤ◌, ◌-ℤ◌, ◌≤ℤ◌, IsInt, +ℤ_parts, -ℤ_parts}
use iiw_udp_gbn.NetworkSampler.{
  Timespec, NetworkParams, zero_time, alpha, beta, round_div, calc_ewma, abs, to_int,
  calc_sample_deviance, update_with_ewma, update_estimated_rtt,
}

module _ (e s : ℤ) where
  alpha_low : (lo : ℤ) → lo ≤ℤ e → lo ≤ℤ s → lo ≤ℤ round_div (calc_ewma e s alpha) alpha
  unfolding round_div calc_ewma ◌+ℤ◌
  alpha_low lo a b = ground arith

  alpha_high : (hi : ℤ) → e ≤ℤ hi → s ≤ℤ hi → round_div (calc_ewma e s alpha) alpha ≤ℤ hi
  unfolding round_div calc_ewma ◌+ℤ◌
  alpha_high hi a b = ground arith

  beta_low : (lo : ℤ) → lo ≤ℤ e → lo ≤ℤ s → lo ≤ℤ round_div (calc_ewma e s beta) beta
  unfolding round_div calc_ewma ◌+ℤ◌
  beta_low lo a b = ground arith

  beta_high : (hi : ℤ) → e ≤ℤ hi → s ≤ℤ hi → round_div (calc_ewma e s beta) beta ≤ℤ hi
  unfolding round_div calc_ewma ◌+ℤ◌
  beta_high hi a b = ground arith

to_int_id : (n : ℤ) → IsInt n → to_int n ≡ n
unfolding to_int
to_int_id (pos n) h = ground arith
to_int_id (negsuc n) h = ground arith

IsInt_between : (lo hi n : ℤ) → IsInt lo → IsInt hi → lo ≤ℤ n → n ≤ℤ hi → IsInt n
IsInt_between lo hi n a b c d = ground arith

difference-IsInt : (w : ℕ) (d : ℤ) → w < 2 ^ 31 → pos 0 ≤ℤ d +ℤ pos w → d ≤ℤ pos w → IsInt d
unfolding ◌+ℤ◌
difference-IsInt w d a b c = ground arith

abs_bounds :
    (w : ℕ) (d : ℤ)
    → w < 2 ^ 31
    → pos 0 ≤ℤ d +ℤ pos w
    → d ≤ℤ pos w
    → (pos 0 ≤ℤ abs d) × (abs d ≤ℤ pos w)
unfolding ◌+ℤ◌ to_int
abs_bounds w d a b c = ground arith

-- Ints between two bounds that are not too far from each other have no more than that as their deviance.
deviance_bounds :
    (lo hi e s : ℤ) (w : ℕ)
    → IsInt lo
    → IsInt hi
    → w < 2 ^ 31
    → hi ≤ℤ lo +ℤ pos w
    → lo ≤ℤ e
    → e ≤ℤ hi
    → lo ≤ℤ s
    → s ≤ℤ hi
    → (pos 0 ≤ℤ calc_sample_deviance e s) × (calc_sample_deviance e s ≤ℤ pos w)
unfolding calc_sample_deviance
deviance_bounds lo hi e s w lo_in hi_in w_in near e_low e_high s_low s_high =
    let d = s -ℤ e in
    let parts = -ℤ_parts s e in
    let sum = +ℤ_parts lo (pos w) in
    let down : pos 0 ≤ℤ d +ℤ pos w =
      omega (arith, parts, sum, +ℤ_parts d (pos w), near, e_high, s_low) in
    let up : d ≤ℤ pos w = omega (arith, parts, sum, near, e_low, s_high) in
    rw
      (
        to_int_id s (IsInt_between lo hi s lo_in hi_in s_low s_high),
        to_int_id e (IsInt_between lo hi e lo_in hi_in e_low e_high),
        to_int_id d (difference-IsInt w d w_in down up),
      )
      (abs_bounds w d w_in down up)

-- Both members lie between those of the two bounds.
pub record IsBetween (lo hi t : Timespec) : Type 0 where
  pub sec_low : lo.tv_sec ≤ℤ t.tv_sec
  pub sec_high : t.tv_sec ≤ℤ hi.tv_sec
  pub nsec_low : lo.tv_nsec ≤ℤ t.tv_nsec
  pub nsec_high : t.tv_nsec ≤ℤ hi.tv_nsec

-- Two bounds that are ints, and no further from each other than an int can say.
pub record IsRange (lo hi : Timespec) (secs nsecs : ℕ) : Type 0 where
  pub lo_sec : IsInt lo.tv_sec
  pub hi_sec : IsInt hi.tv_sec
  pub lo_nsec : IsInt lo.tv_nsec
  pub hi_nsec : IsInt hi.tv_nsec
  pub secs_in : secs < 2 ^ 31
  pub nsecs_in : nsecs < 2 ^ 31
  pub sec_near : hi.tv_sec ≤ℤ lo.tv_sec +ℤ pos secs
  pub nsec_near : hi.tv_nsec ≤ℤ lo.tv_nsec +ℤ pos nsecs

abbrev pub time_of : ℕ → ℕ → Timespec
time_of secs nsecs = record { tv_sec = pos secs; tv_nsec = pos nsecs }

-- Let the old estimate and the sample lie between two bounds that are ints with a distance below 2 ^ 31,
-- and the old deviance between zero and that distance. Then the new estimate lies between the bounds,
-- and the new deviance between zero and the distance: no int overflows, and no deviance is negative.
pub update_estimated_rtt_bounds :
    (params : NetworkParams) (sample lo hi : Timespec) (secs nsecs : ℕ)
    → IsRange lo hi secs nsecs
    → IsBetween lo hi params.estimated_rtt
    → IsBetween lo hi sample
    → IsBetween zero_time (time_of secs nsecs) params.dev_rtt
    → IsBetween lo hi (update_estimated_rtt params sample).estimated_rtt
      × IsBetween zero_time (time_of secs nsecs) (update_estimated_rtt params sample).dev_rtt
unfolding update_estimated_rtt update_with_ewma
update_estimated_rtt_bounds params sample lo hi secs nsecs r e s d =
    let est = params.estimated_rtt in
    let dev = params.dev_rtt in
    let sec = round_div (calc_ewma est.tv_sec sample.tv_sec alpha) alpha in
    let nsec = round_div (calc_ewma est.tv_nsec sample.tv_nsec alpha) alpha in
    let sec_low = alpha_low est.tv_sec sample.tv_sec lo.tv_sec e.sec_low s.sec_low in
    let sec_high = alpha_high est.tv_sec sample.tv_sec hi.tv_sec e.sec_high s.sec_high in
    let nsec_low = alpha_low est.tv_nsec sample.tv_nsec lo.tv_nsec e.nsec_low s.nsec_low in
    let nsec_high = alpha_high est.tv_nsec sample.tv_nsec hi.tv_nsec e.nsec_high s.nsec_high in
    let dev_sec =
      deviance_bounds lo.tv_sec hi.tv_sec sample.tv_sec sec secs r.lo_sec r.hi_sec r.secs_in
        r.sec_near s.sec_low s.sec_high sec_low sec_high in
    let dev_nsec =
      deviance_bounds lo.tv_nsec hi.tv_nsec sample.tv_nsec nsec nsecs r.lo_nsec r.hi_nsec r.nsecs_in
        r.nsec_near s.nsec_low s.nsec_high nsec_low nsec_high in
    (
      record { sec_low = sec_low; sec_high = sec_high; nsec_low = nsec_low; nsec_high = nsec_high },
      record {
        sec_low = beta_low dev.tv_sec _ (pos 0) d.sec_low dev_sec.0;
        sec_high = beta_high dev.tv_sec _ (pos secs) d.sec_high dev_sec.1;
        nsec_low = beta_low dev.tv_nsec _ (pos 0) d.nsec_low dev_nsec.0;
        nsec_high = beta_high dev.tv_nsec _ (pos nsecs) d.nsec_high dev_nsec.1;
      },
    )

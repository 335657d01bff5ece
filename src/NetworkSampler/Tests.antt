-- ===== src/NetworkSampler/Tests.antt =====
-- The first samples of a round trip.
use iiw_udp_gbn.Base.{◌≡◌, refl, arith}
use iiw_udp_gbn.Base.Int.{pos, negsuc, ◌+ℤ◌, ◌-ℤ◌}
use iiw_udp_gbn.NetworkSampler.{
  Timespec, new_network_params, zero_time, update_estimated_rtt, update_with_ewma, calc_ewma,
  round_div, calc_sample_deviance, to_int,
}
use iiw_udp_gbn.NetworkSampler.Bounds.{IsBetween, time_of, update_estimated_rtt_bounds}

abbrev sample : Timespec
sample = record { tv_sec = pos 0; tv_nsec = pos 800 }

zero-IsBetween : IsBetween zero_time sample zero_time
zero-IsBetween = record {
  sec_low = omega arith;
  sec_high = omega arith;
  nsec_low = omega arith;
  nsec_high = omega arith;
}

-- a round trip of 800 nanoseconds behind a new start
update_estimated_rtt_bounds_example :
    IsBetween zero_time sample (update_estimated_rtt new_network_params sample).estimated_rtt
    × IsBetween zero_time (time_of 0 800) (update_estimated_rtt new_network_params sample).dev_rtt
unfolding ◌+ℤ◌
update_estimated_rtt_bounds_example =
    update_estimated_rtt_bounds new_network_params sample zero_time sample 0 800
      (record {
        lo_sec = omega arith;
        hi_sec = omega arith;
        lo_nsec = omega arith;
        hi_nsec = omega arith;
        secs_in = omega arith;
        nsecs_in = omega arith;
        sec_near = omega arith;
        nsec_near = omega arith;
      })
      zero-IsBetween
      (record {
        sec_low = omega arith;
        sec_high = omega arith;
        nsec_low = omega arith;
        nsec_high = omega arith;
      })
      zero-IsBetween

-- an eighth of the sample
first_estimate : (update_estimated_rtt new_network_params sample).estimated_rtt.tv_nsec ≡ pos 100
unfolding update_estimated_rtt update_with_ewma calc_ewma round_div ◌+ℤ◌
first_estimate = refl

-- The least int stays negative: the deviance of seconds is -2 ^ 31 for a sample of 2454267026 seconds.
least_deviance :
    (update_estimated_rtt new_network_params
      (record { tv_sec = pos 2454267026; tv_nsec = pos 0 })).dev_rtt.tv_sec
    ≡ negsuc 536870911
unfolding update_estimated_rtt update_with_ewma calc_ewma round_div ◌+ℤ◌ ◌-ℤ◌ calc_sample_deviance
    to_int
least_deviance = refl

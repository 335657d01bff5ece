-- ===== src/Timer/Tests.antt =====
-- A running timer, and its next wake.
use iiw_udp_gbn.Base.{◌+◌, ◌*◌, ◌≡◌, refl, true, false, List, [], ◌∷◌, ◌++◌, none, some, arith}
use iiw_udp_gbn.Base.Int.{pos, negsuc, ◌≤ℤ◌, ◌+ℤ◌, ◌-ℤ◌}
use iiw_udp_gbn.NetworkSampler.{
  Timespec, NetworkParams, new_network_params, update_estimated_rtt, update_with_ewma, calc_ewma,
  round_div, calc_sample_deviance, to_int,
}
use iiw_udp_gbn.Timer.{
  ring_then_restart, shutdown, Timer, timer_loop, calc_timeout, add_to_wait,
  calc_adaptive_timeout_param, int_of_double,
}
use iiw_udp_gbn.Timer.Deadline.{sampled, calc_timeout-sampled}
use iiw_udp_gbn.Timer.Laws.{IsTicking, pulses, timer_loop-shutdown}

abbrev running : Timer
running = record { ring = true; is_alive = true; at_timeout = ring_then_restart; wakes = 0 }

running-IsTicking : IsTicking running
running-IsTicking = record { alive = refl; has_ring = refl; action = refl }

timer_loop-shutdown_example :
    let (t', rang) =
      timer_loop running (pulses (false ∷ true ∷ false ∷ []) ++ some shutdown ∷ none ∷ []) in
    (rang ≡ true ∷ false ∷ true ∷ false ∷ []) × (t'.is_alive ≡ false)
timer_loop-shutdown_example =
    timer_loop-shutdown running (false ∷ true ∷ false ∷ []) (none ∷ []) running-IsTicking

abbrev late : Timespec
late = record { tv_sec = pos 10; tv_nsec = pos 600000000 }

-- two round trips, of which the second crosses the end of a second
abbrev two_samples : List Timespec
two_samples =
    record { tv_sec = pos 0; tv_nsec = pos 40000000 }
    ∷ record { tv_sec = pos 1; tv_nsec = negsuc 199999999 }
    ∷ []

calc_timeout-sampled_example :
    (t : Timespec) × (calc_timeout (sampled new_network_params two_samples) late ≡ some t)
    × (late.tv_sec ≤ℤ t.tv_sec +ℤ pos 1)
    × (t.tv_sec ≤ℤ late.tv_sec +ℤ pos (9 * 1 + 1))
    × (late.tv_nsec ≤ℤ t.tv_nsec +ℤ pos 200000000)
    × (t.tv_nsec ≤ℤ late.tv_nsec +ℤ pos (9 * 200000000))
calc_timeout-sampled_example =
    calc_timeout-sampled 1 200000000 two_samples late (omega arith) (omega arith) (
      record {
        sec_low = omega arith;
        sec_high = omega arith;
        nsec_low = omega arith;
        nsec_high = omega arith;
      },
      (
        record {
          sec_low = omega arith;
          sec_high = omega arith;
          nsec_low = omega arith;
          nsec_high = omega arith;
        },
        tt,
      ),
    )

-- without an estimate a second is waited
no_estimate :
    calc_timeout new_network_params late
    ≡ some (record { tv_sec = pos 11; tv_nsec = pos 600000000 })
unfolding calc_timeout add_to_wait calc_adaptive_timeout_param int_of_double ◌+ℤ◌
no_estimate = refl

-- no second is carried
abbrev half_second : NetworkParams
half_second = record {
  estimated_rtt = record { tv_sec = pos 0; tv_nsec = pos 500000000 };
  dev_rtt = record { tv_sec = pos 0; tv_nsec = pos 1000 };
}

no_carry :
    calc_timeout half_second late ≡ some (record { tv_sec = pos 10; tv_nsec = pos 1100004000 })
unfolding calc_timeout add_to_wait calc_adaptive_timeout_param int_of_double ◌+ℤ◌
no_carry = refl

-- Three round trips that cross the end of a second in turn: the wait is beyond an int.
abbrev crossing : List Timespec
crossing =
    record { tv_sec = pos 0; tv_nsec = pos 999999999 }
    ∷ record { tv_sec = pos 1; tv_nsec = negsuc 999999998 }
    ∷ record { tv_sec = pos 0; tv_nsec = pos 999999999 }
    ∷ []

overflow : calc_timeout (sampled new_network_params crossing) late ≡ none
unfolding calc_timeout add_to_wait calc_adaptive_timeout_param int_of_double ◌+ℤ◌ ◌-ℤ◌
    update_estimated_rtt update_with_ewma calc_ewma round_div calc_sample_deviance to_int
overflow = refl

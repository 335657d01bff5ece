-- ===== src/NetworkSampler.antt =====
-- logic/gbn/networkSampler.c and networkSampler.h: estimates of the round trip time.
-- The doubles are exact here: every product is an integer divided by 8 or by 4 and stays below 2 ^ 53,
-- so an average is computed in eighths or quarters and rounded once, as `round` does. The deviance of a
-- sample is computed in ints; what overflows wraps around, as it does on the host.
pub mod Bounds
mod Tests
use iiw_udp_gbn.Base.{ℕ, suc, ◌+◌, ◌-◌, ◌*◌, ◌/◌, ◌%◌, ◌^◌, if◌then◌else◌, ltb}
use iiw_udp_gbn.Base.Int.{ℤ, pos, negsuc, ◌+ℤ◌, ◌-ℤ◌, sub_ℕ, pos_part, neg_part}

-- struct timespec
pub record Timespec : Type 0 where
  pub tv_sec : ℤ
  pub tv_nsec : ℤ

abbrev pub zero_time : Timespec
zero_time = record { tv_sec = pos 0; tv_nsec = pos 0 }

-- estimatedUploadTime is never used.
pub record NetworkParams : Type 0 where
  pub estimated_rtt : Timespec
  pub dev_rtt : Timespec

abbrev pub new_network_params : NetworkParams
new_network_params = record { estimated_rtt = zero_time; dev_rtt = zero_time }

-- The weights are 1 / alpha and 1 / beta.
abbrev pub alpha : ℕ
alpha = 8

abbrev pub beta : ℕ
beta = 4

-- a * k
abbrev pub scale : ℤ → ℕ → ℤ
scale a k = sub_ℕ (pos_part a * k) (neg_part a * k)

-- `round(a / d)`: to the nearest integer, and halfway away from zero
unfoldable pub round_div : ℤ → ℕ → ℤ
round_div (pos n) d = pos ((2 * n + d) / (2 * d))
round_div (negsuc n) d = sub_ℕ 0 ((2 * suc n + d) / (2 * d))

-- d times the average: (1 - 1/d) * estimated + 1/d * sample
unfoldable pub calc_ewma : ℤ → ℤ → ℕ → ℤ
calc_ewma estimated sample d = scale estimated (d - 1) +ℤ sample

-- A long as its 32 low bits, and these as an int.
abbrev pub low_bits : ℤ → ℕ
low_bits (pos n) = n % 2 ^ 32
low_bits (negsuc n) = 2 ^ 32 - 1 - n % 2 ^ 32

abbrev pub int_of_bits : ℕ → ℤ
int_of_bits n = if ltb n (2 ^ 31) then pos n else negsuc (2 ^ 32 - 1 - n)

-- What a long, or the result of an operation on ints, becomes in an int.
unfoldable pub to_int : ℤ → ℤ
to_int n = int_of_bits (low_bits n)

-- The library's `abs`, which leaves INT_MIN as it is.
abbrev pub abs : ℤ → ℤ
abs (pos n) = pos n
abs (negsuc n) = to_int (pos (suc n))

-- The caller's longs are converted to the parameters' type.
unfoldable pub calc_sample_deviance : ℤ → ℤ → ℤ
calc_sample_deviance estimated sample = abs (to_int (to_int sample -ℤ to_int estimated))

unfoldable pub update_with_ewma : Timespec → Timespec → ℕ → Timespec
update_with_ewma to_update sample d = record {
  tv_sec = round_div (calc_ewma to_update.tv_sec sample.tv_sec d) d;
  tv_nsec = round_div (calc_ewma to_update.tv_nsec sample.tv_nsec d) d;
}

unfoldable pub update_estimated_rtt : NetworkParams → Timespec → NetworkParams
update_estimated_rtt params sample_rtt =
    let estimated_rtt = update_with_ewma params.estimated_rtt sample_rtt alpha in
    let dev_rtt_sample : Timespec = record {
      tv_sec = calc_sample_deviance sample_rtt.tv_sec estimated_rtt.tv_sec;
      tv_nsec = calc_sample_deviance sample_rtt.tv_nsec estimated_rtt.tv_nsec;
    } in
    record {
      estimated_rtt = estimated_rtt;
      dev_rtt = update_with_ewma params.dev_rtt dev_rtt_sample beta;
    }

abbrev pub get_estimated_rtt : NetworkParams → Timespec
get_estimated_rtt params = params.estimated_rtt

abbrev pub get_dev_rtt : NetworkParams → Timespec
get_dev_rtt params = params.dev_rtt

-- ===== src/Timer.antt =====
-- logic/gbn/timer.c and timer.h: the timer of the oldest packet on air. The thread is a step function,
-- one call for each return of its pthread_cond_timedwait; the callers' functions change the members
-- that it shares with them. Built with -DTIMEOUT_ADAPTIVE, as the Makefile does.
pub mod Laws
pub mod Deadline
mod Tests
use iiw_udp_gbn.Base.{
  ℕ, ◌+◌, ◌*◌, ◌^◌, Bool, true, false, ◌&&◌, if◌then◌else◌, ltb, Option, some, none, ◌>>=◌, List,
  [], ◌∷◌,
}
use iiw_udp_gbn.Base.Int.{ℤ, pos, negsuc, ◌+ℤ◌, eqb_ℤ}
use iiw_udp_gbn.NetworkSampler.{Timespec, NetworkParams, scale, get_estimated_rtt, get_dev_rtt}

pub data AtTimeout : Type 0 where
  ring_then_restart ring_then_shutdown restart shutdown : AtTimeout

-- `ring` tells whether the function pointer is set; `wakes` counts the signals sent to atTimeoutCond.
pub record Timer : Type 0 where
  pub ring : Bool
  pub is_alive : Bool
  pub at_timeout : AtTimeout
  pub wakes : ℕ

abbrev pub new_timer : Timer
new_timer = record { ring = false; is_alive = false; at_timeout = ring_then_restart; wakes = 0 }

abbrev pub to_wait_const_seconds : ℤ
to_wait_const_seconds = pos 1

abbrev pub to_wait_const_nanoseconds : ℤ
to_wait_const_nanoseconds = pos 0

abbrev pub normal_distribution : ℕ
normal_distribution = 2

-- The doubles are integers here, so `round` changes nothing.
unfoldable pub calc_adaptive_timeout_param : ℤ → ℤ → ℕ → ℤ
calc_adaptive_timeout_param estimated_rtt dev_rtt c = estimated_rtt +ℤ scale dev_rtt (2 * c)

-- What `round` returns, in an int: the conversion of a double that no int can hold has no defined value.
unfoldable pub int_of_double : ℤ → Option ℤ
int_of_double (pos n) = if ltb n (2 ^ 31) then some (pos n) else none
int_of_double (negsuc n) = if ltb n (2 ^ 31) then some (negsuc n) else none

-- What is added to the timeout, and to the caller's time, which has longs.
unfoldable pub add_to_wait : NetworkParams → Timespec → Option Timespec
add_to_wait params timeout = do
  sec ← int_of_double (
      calc_adaptive_timeout_param (get_estimated_rtt params).tv_sec (get_dev_rtt params).tv_sec
        normal_distribution)
  nsec ← int_of_double (
      calc_adaptive_timeout_param (get_estimated_rtt params).tv_nsec (get_dev_rtt params).tv_nsec
        normal_distribution)
  let unknown = eqb_ℤ sec (pos 0) && eqb_ℤ nsec (pos 0)
  let to_wait_sec = if unknown then to_wait_const_seconds else sec
  let to_wait_nsec = if unknown then to_wait_const_nanoseconds else nsec
  some (record {
    tv_sec = timeout.tv_sec +ℤ to_wait_sec;
    tv_nsec =
        timeout.tv_nsec
        +ℤ (if eqb_ℤ to_wait_nsec (pos 0) then to_wait_const_nanoseconds else to_wait_nsec);
  })

-- `now` is what clock_gettime reads.
unfoldable pub calc_timeout : NetworkParams → Timespec → Option Timespec
calc_timeout params now = add_to_wait params now

-- The switch behind the wait: the timer, and whether it rings. A case with no `break` runs on into the
-- next one.
unfoldable pub timer_step : Timer → Timer × Bool
timer_step self = elim self.at_timeout [
  | ring_then_shutdown ↦ (record self { is_alive = false }, self.ring)
  | shutdown ↦ (record self { is_alive = false }, false)
  | ring_then_restart ↦ (record self { at_timeout = ring_then_restart }, self.ring)
  | restart ↦ (record self { at_timeout = ring_then_restart }, false)
]

-- The return value with the new timer: `negsuc 0` is -1. The new thread has set `is_alive` when the
-- call returns.
unfoldable pub start_timer : Timer → AtTimeout → Bool → Timer × ℤ
start_timer self at_timeout ring =
    if self.is_alive
    then (self, negsuc 0)
    else (record self { ring = ring; at_timeout = at_timeout; is_alive = true }, pos 0)

unfoldable pub timeout : Timer → AtTimeout → Timer
timeout self at_timeout = record self { at_timeout = at_timeout; wakes = self.wakes + 1 }

-- Before a wake another thread may have called `timeout`.
abbrev pub request : Timer → Option AtTimeout → Timer
request self none = self
request self (some a) = timeout self a

-- The thread's loop over its wakes; the Booleans tell at which of them it rang.
unfoldable pub timer_loop : Timer → List (Option AtTimeout) → Timer × List Bool
unfolding timer_step timeout
timer_loop self [] = (self, [])
timer_loop self (r ∷ rs) =
    let rest = timer_loop (timer_step (request self r)).0 rs in
    if self.is_alive then (rest.0, (timer_step (request self r)).1 ∷ rest.1) else (self, [])

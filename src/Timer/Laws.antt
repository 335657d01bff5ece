-- ===== src/Timer/Laws.antt =====
-- How requests to the timer and its own steps meet.
use iiw_udp_gbn.Base.{
  ap, ap₂, map, ◌++◌, not, Option, none, some, ◌≡◌, refl, Bool, true, false, List, [], ◌∷◌,
  if◌then◌else◌,
}
use iiw_udp_gbn.Timer.{
  AtTimeout, ring_then_restart, restart, shutdown, Timer, timer_step, timeout, timer_loop, request,
}

-- A timer that is told to restart does not ring at that wake, stays alive and rings at the one after,
-- if it has a function to call; one that is told to shut down does not ring and is dead.
pub timeout-timer_step :
    (t : Timer)
    → ((timer_step (timeout t restart)).1 ≡ false)
      × ((timer_step (timeout t restart)).0.is_alive ≡ t.is_alive)
      × ((timer_step (timer_step (timeout t restart)).0).1 ≡ t.ring)
      × ((timer_step (timeout t shutdown)).1 ≡ false)
      × ((timer_step (timeout t shutdown)).0.is_alive ≡ false)
unfolding timer_step timeout
timeout-timer_step t = (refl, refl, refl, refl, refl)

-- The wakes before which nobody, or only a restart, was asked for.
abbrev pub pulses : List Bool → List (Option AtTimeout)
pulses [] = []
pulses (asked ∷ rs) = (if asked then some restart else none) ∷ pulses rs

-- A running timer with a function to call.
pub record IsTicking (t : Timer) : Type 0 where
  pub alive : t.is_alive ≡ true
  pub has_ring : t.ring ≡ true
  pub action : t.at_timeout ≡ ring_then_restart

step-IsTicking :
    (t : Timer) (asked : Bool)
    → IsTicking t
    → let (t', rang) = timer_step (request t (if asked then some restart else none)) in
      IsTicking t' × (rang ≡ not asked)
unfolding timer_step timeout not
step-IsTicking t true k = (record { alive = k.alive; has_ring = k.has_ring; action = refl }, refl)
step-IsTicking t false k =
    rw (k.action, timer_step)
      (record { alive = k.alive; has_ring = k.has_ring; action = refl }, k.has_ring)

timer_loop_dead :
    (t : Timer) (rs : List (Option AtTimeout)) → t.is_alive ≡ false → timer_loop t rs ≡ (t, [])
unfolding timer_loop
timer_loop_dead t [] h = refl
timer_loop_dead t (r ∷ rs) h = rw h

-- A running timer rings at every wake that no request came before, is silent at the wake of a restart,
-- and after a shutdown is silent and dead, whatever else is asked of it.
pub timer_loop-shutdown :
    (t : Timer) (asked : List Bool) (rest : List (Option AtTimeout))
    → IsTicking t
    → let (t', rang) = timer_loop t (pulses asked ++ some shutdown ∷ rest) in
      (rang ≡ map not asked ++ false ∷ []) × (t'.is_alive ≡ false)
unfolding timer_loop
timer_loop-shutdown t [] rest k =
    rw (k.alive, timer_loop_dead (timer_step (timeout t shutdown)).0 rest (timeout-timer_step t).4)
      (ap (λ b. b ∷ []) (timeout-timer_step t).3, (timeout-timer_step t).4)
timer_loop-shutdown t (a ∷ asked) rest k =
    let (k', rang) = step-IsTicking t a k in
    let (r, dead) =
      timer_loop-shutdown (timer_step (request t (if a then some restart else none))).0 asked rest
        k' in
    simp k.alive (ap₂ ◌∷◌ rang r, dead)

-- ===== src/Link/Drains.antt =====
-- The wakes of the timer, and the signals that are handled while the packet at the base of the window is on air.
use mathlib.Core.List.{append-nil, append_assoc}
use mathlib.Core.Path.{subst}
use iiw_udp_gbn.Base.{
  ℕ, ◌%◌, ◌≤◌, ◌≡◌, refl, Bool, if◌then◌else◌, ap, ◌∙◌, true, false, List, [], ◌∷◌, ◌++◌, some,
  arith, All, All-append, inl, inr,
}
use iiw_udp_gbn.LaunchBattery.{sent}
use iiw_udp_gbn.Launcher.{
  Launcher, LauncherEvent, new_packets_in_send_window, packet_timed_out, launcher_shutdown, Attempt,
  ring,
}
use iiw_udp_gbn.Launcher.Acks.{notify_launcher-pending}
use iiw_udp_gbn.Launcher.Events.{event_code, launcher_sig_handler}
use iiw_udp_gbn.Launcher.Stalled.{IsNumbered, send_all_ready_packets_stalled}
use iiw_udp_gbn.Link.{System}
use iiw_udp_gbn.Link.Live.{
  LiveStep, handles_signal, wakes_timer, Runs, stays, runs_on, Runs-trans, with_pending, woken,
  CanRing,
}
use iiw_udp_gbn.Link.Pads.{IsBoundTo}
use iiw_udp_gbn.SendWindow.{queue_len}
use iiw_udp_gbn.Timer.{Timer, ring_then_restart, restart, timer_step}

-- A signal for new packets does nothing while the packet at the base of the window is on air.
new_packets_stalled :
    (l : Launcher) (io : ℕ → Attempt)
    → ((i : ℕ) → IsNumbered (l.battery.battery (i % queue_len)))
    → (l.battery.battery (l.window.base % queue_len)).status ≡ sent
    → launcher_sig_handler l new_packets_in_send_window io ≡ some (l, [])
unfolding launcher_sig_handler
new_packets_stalled l io numbered on_air =
    rw (send_all_ready_packets_stalled l io numbered (λ e. cc)) refl

pub above_new :
    (ps : List LauncherEvent) → All (λ e. event_code new_packets_in_send_window ≤ event_code e) ps
above_new [] = tt
above_new (p ∷ ps) = (omega arith, above_new ps)

-- The signals for new packets are handled first.
module _ (port : ℕ) (io : ℕ → Attempt) (bound : (i : ℕ) → IsBoundTo port (io i)) (s : System)
    (available : s.sender.is_available ≡ true) (unblocked : s.sender.signals_blocked ≡ false)
    (numbered : (i : ℕ) → IsNumbered (s.sender.battery.battery (i % queue_len)))
    (on_air : (s.sender.battery.battery (s.sender.window.base % queue_len)).status ≡ sent) where
  abbrev IsLater : LauncherEvent → Type 0
  IsLater e = event_code packet_timed_out ≤ event_code e

  handles_new :
      (before after : List LauncherEvent)
      → LiveStep port
          (with_pending s (before ++ new_packets_in_send_window ∷ after))
          (with_pending s (before ++ after))
  handles_new before after =
      subst
        (λ ds.
          LiveStep port (with_pending s (before ++ new_packets_in_send_window ∷ after))
            (record (with_pending s (before ++ after)) { data_air = ds }))
        (append-nil s.data_air)
        (handles_signal before after new_packets_in_send_window io
          (record s.sender { pending = before ++ after }) [] available unblocked refl
          (above_new (before ++ after)) bound
          (new_packets_stalled (record s.sender { pending = before ++ after }) io numbered on_air))

  pub drain :
      (ps passed tail : List LauncherEvent)
      → All IsLater passed
      → (left : List LauncherEvent) × All IsLater left
        × Runs port (with_pending s (passed ++ (ps ++ tail))) (with_pending s (left ++ tail))
  drain [] passed tail h = (passed, h, stays)
  drain (new_packets_in_send_window ∷ ps) passed tail h =
      let (left, ok, r) = drain ps passed tail h in
      (left, ok, Runs-trans port _ _ _ (runs_on stays (handles_new passed (ps ++ tail))) r)
  drain (packet_timed_out ∷ ps) passed tail h =
      let (left, ok, r) =
        drain ps (passed ++ packet_timed_out ∷ []) tail
          (All-append IsLater passed (packet_timed_out ∷ []) h (omega arith, tt)) in
      (
        left,
        ok,
        subst (λ q. Runs port (with_pending s q) (with_pending s (left ++ tail)))
            (append_assoc passed (packet_timed_out ∷ []) (ps ++ tail)) r,
      )
  drain (launcher_shutdown ∷ ps) passed tail h =
      let (left, ok, r) =
        drain ps (passed ++ launcher_shutdown ∷ []) tail
          (All-append IsLater passed (launcher_shutdown ∷ []) h (omega arith, tt)) in
      (
        left,
        ok,
        subst (λ q. Runs port (with_pending s q) (with_pending s (left ++ tail)))
            (append_assoc passed (launcher_shutdown ∷ []) (ps ++ tail)) r,
      )

-- The launcher behind the wake at which its timer rings.
abbrev pub rung_launcher : Launcher → Launcher
rung_launcher l = record l {
  timer = record l.timer { at_timeout = ring_then_restart };
  pending = l.pending ++ packet_timed_out ∷ [];
}

restarted :
    (t : Timer)
    → t.at_timeout ≡ ring_then_restart
    → timer_step t ≡ (record t { at_timeout = ring_then_restart }, t.ring)
unfolding timer_step
restarted t at = ap (λ a. timer_step (record t { at_timeout = a })) at

silent :
    (t : Timer)
    → t.at_timeout ≡ restart
    → timer_step t ≡ (record t { at_timeout = ring_then_restart }, false)
unfolding timer_step
silent t at = ap (λ a. timer_step (record t { at_timeout = a })) at

abbrev stepped : Launcher → Timer × Bool → Launcher
stepped l r = if r.1 then ring (record l { timer = r.0 }) else record l { timer = r.0 }

rings_eq :
    (l : Launcher) (t : Timer) (rang : Bool)
    → rang ≡ true
    → l.is_available ≡ true
    → stepped l (t, rang) ≡ record l { timer = t; pending = l.pending ++ packet_timed_out ∷ [] }
rings_eq l t rang e available =
    ap (λ b. stepped l (t, b)) e
    ∙ notify_launcher-pending (record l { timer = t }) packet_timed_out
    ∙ ap
        (λ (b : Bool). record l {
          timer = t;
          pending = if b then l.pending ++ packet_timed_out ∷ [] else l.pending;
        })
        available

woken_eq :
    (l : Launcher)
    → l.is_available ≡ true
    → l.timer.ring ≡ true
    → l.timer.at_timeout ≡ ring_then_restart
    → woken l ≡ rung_launcher l
woken_eq l available has_ring at =
    ap (stepped l) (restarted l.timer at) ∙ rings_eq l _ l.timer.ring has_ring available

-- A timer that is alive rings, at this wake or at the next.
pub wakes_to_ring :
    (port : ℕ) (s : System)
    → s.sender.is_available ≡ true
    → s.sender.timer.is_alive ≡ true
    → CanRing s.sender.timer
    → Runs port s (record s { sender = rung_launcher s.sender })
wakes_to_ring port s available alive can = elim can.recurs [
  | inl at ↦
      subst (λ l. Runs port s (record s { sender = l }))
        (woken_eq s.sender available can.has_ring at) (runs_on stays (wakes_timer alive))
  | inr at ↦
      let l₁ : Launcher = record s.sender {
        timer = record s.sender.timer { at_timeout = ring_then_restart };
      } in
      let first : Runs port s (record s { sender = l₁ }) =
        subst (λ l. Runs port s (record s { sender = l })) (ap (stepped s.sender) (silent _ at))
          (runs_on stays (wakes_timer alive)) in
      subst (λ l. Runs port s (record s { sender = l })) (woken_eq l₁ available can.has_ring refl)
        (runs_on first (wakes_timer alive))
]

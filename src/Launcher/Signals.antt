-- ===== src/Launcher/Signals.antt =====
-- The real-time signals of the launcher's events.
use iiw_udp_gbn.Base.{ℕ, ◌+◌, ◌<◌, ◌≤◌, ◌≡◌, ◌⊎◌, none, some, arith, if◌then◌else◌, ◌==◌}
use iiw_udp_gbn.Base.Int.{pos}
use iiw_udp_gbn.Launcher.{
  LauncherEvent, new_packets_in_send_window, packet_timed_out, launcher_shutdown,
}
use iiw_udp_gbn.Launcher.Events.{
  check_rt_signal, event_code, get_signal_from_launcher_event, dispatch,
}

signal_in_range :
    (rt_min rt_max : ℕ) (e : LauncherEvent)
    → rt_min + 3 ≤ rt_max
    → get_signal_from_launcher_event rt_min rt_max e ≡ pos (rt_min + event_code e + 1)
unfolding get_signal_from_launcher_event check_rt_signal
signal_in_range rt_min rt_max new_packets_in_send_window h = ground arith
signal_in_range rt_min rt_max packet_timed_out h = ground arith
signal_in_range rt_min rt_max launcher_shutdown h = ground arith

dispatch_pos :
    (rt_min rt_max s : ℕ)
    → rt_min + 3 ≤ rt_max
    → dispatch rt_min rt_max (pos s) ≡ (
        if s == rt_min + 1
        then some new_packets_in_send_window
        else (if s == rt_min + 2
            then some packet_timed_out
            else (if s == rt_min + 3 then some launcher_shutdown else none)))
unfolding dispatch
dispatch_pos rt_min rt_max s h =
    rw
      (
        signal_in_range rt_min rt_max new_packets_in_send_window h,
        signal_in_range rt_min rt_max packet_timed_out h,
        signal_in_range rt_min rt_max launcher_shutdown h,
      )
      (ground arith)

dispatch_event :
    (rt_min rt_max : ℕ) (e : LauncherEvent)
    → rt_min + 3 ≤ rt_max
    → dispatch rt_min rt_max (pos (rt_min + event_code e + 1)) ≡ some e
dispatch_event rt_min rt_max new_packets_in_send_window h =
    rw (dispatch_pos rt_min rt_max _ h) (ground arith)
dispatch_event rt_min rt_max packet_timed_out h = rw (dispatch_pos rt_min rt_max _ h) (ground arith)
dispatch_event rt_min rt_max launcher_shutdown h =
    rw (dispatch_pos rt_min rt_max _ h) (ground arith)

-- On a host with at least three real-time signals behind SIGRTMIN, every event has a signal of its own:
-- the handler takes the signal of an event for that event, and any signal above those three, and any up to
-- SIGRTMIN, for none.
pub dispatch-get_signal :
    (rt_min rt_max : ℕ) (e : LauncherEvent) (other : ℕ)
    → rt_min + 3 ≤ rt_max
    → (other ≤ rt_min) ⊎ (rt_min + 3 < other)
    → (dispatch rt_min rt_max (get_signal_from_launcher_event rt_min rt_max e) ≡ some e)
      × (dispatch rt_min rt_max (pos other) ≡ none)
dispatch-get_signal rt_min rt_max e other h out = (
  rw (signal_in_range rt_min rt_max e h) (dispatch_event rt_min rt_max e h),
  rw (dispatch_pos rt_min rt_max other h) (ground arith),
)

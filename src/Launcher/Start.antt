-- ===== src/Launcher/Start.antt =====
-- initLauncher, getLauncherId, the first part of launcher, and launcherCleanup: the one start of the
-- launcher thread, and its end.
use iiw_udp_gbn.Base.{
  ℕ, ◌+◌, Bool, true, false, List, [], ◌∷◌, Option, none, some, if◌then◌else◌, ◌==◌,
}
use iiw_udp_gbn.Launcher.{
  LauncherEvent, new_packets_in_send_window, packet_timed_out, launcher_shutdown,
}
use iiw_udp_gbn.Launcher.Events.{event_code, stop_timer}
use iiw_udp_gbn.Timer.{Timer}

-- The handler of a signal: launcherSigHandler, or the one that was there before.
pub data Disposition : Type 0 where
  of_launcher original : Disposition

-- The statics, with the dispositions of the process, the number of threads that were started, and
-- whether launcherInitializerLock was left locked.
pub record Startup : Type 0 where
  pub is_launcher_available : Bool
  pub is_launcher_initialized : Bool
  pub is_old_act_set : Bool
  pub dispositions : LauncherEvent → Disposition
  pub threads : ℕ
  pub lock_is_left : Bool

abbrev pub new_startup : Startup
new_startup = record {
  is_launcher_available = false;
  is_launcher_initialized = false;
  is_old_act_set = false;
  dispositions = λ _. original;
  threads = 0;
  lock_is_left = false;
}

abbrev pub launcher_events : List LauncherEvent
launcher_events = new_packets_in_send_window ∷ packet_timed_out ∷ launcher_shutdown ∷ []

abbrev pub set_disposition :
    (LauncherEvent → Disposition) → LauncherEvent → Disposition → LauncherEvent → Disposition
set_disposition ds e d e' = if event_code e == event_code e' then d else ds e'

abbrev pub with_event : Startup → LauncherEvent → Startup
with_event s e = record s {
  dispositions = set_disposition s.dispositions e of_launcher;
  is_old_act_set = true;
}

-- The loop over the events, up to the first call of sigaction that fails; the Boolean is false then.
unfoldable pub set_handlers : (LauncherEvent → Bool) → Startup → List LauncherEvent → Startup × Bool
set_handlers sigaction_works s [] = (s, true)
set_handlers sigaction_works s (e ∷ es) =
    let rest = set_handlers sigaction_works (with_event s e) es in
    if sigaction_works e then rest else (s, false)

-- The creator waits until the thread has set isLauncherAvailable; a failed pthread_create returns with
-- the lock.
abbrev pub create_launcher : Bool → Startup × Bool → Startup
create_launcher creates (s, false) = s
create_launcher true (s, true) = record s { is_launcher_available = true; threads = s.threads + 1 }
create_launcher false (s, true) = record s { lock_is_left = true }

unfoldable pub init_launcher : (LauncherEvent → Bool) → Bool → Startup → Startup
init_launcher sigaction_works creates s =
    create_launcher creates (set_handlers sigaction_works s launcher_events)

-- pthread_once runs initLauncher in the first call that needs it. The Boolean is the return value 0.
unfoldable pub get_launcher_id : (LauncherEvent → Bool) → Bool → Startup → Bool × Startup
get_launcher_id sigaction_works creates s =
    let once =
      if s.is_launcher_initialized
      then s
      else init_launcher sigaction_works creates (record s { is_launcher_initialized = true }) in
    let s' = if s.is_launcher_available then s else once in (s'.is_launcher_available, s')

-- The handlers are put back only where isOldActSet, and then the argument of sigaction is null, which changes
-- none. The timer is stopped if it runs.
unfoldable pub launcher_cleanup : Startup → Timer → (LauncherEvent → Disposition) × Timer
launcher_cleanup s t =
    let act : Option Disposition = if s.is_old_act_set then none else some original in
    let restored : LauncherEvent → Disposition = elim act [
      | none ↦ s.dispositions
      | some d ↦ λ _. d
    ] in
    (if s.is_old_act_set then restored else s.dispositions, if t.is_alive then stop_timer t else t)

-- A call of getLauncherId, or the signal LAUNCHER_EVENT_SHUTDOWN as the launcher handles it.
pub data LauncherCall : Type 0 where
  gets_id : (LauncherEvent → Bool) → Bool → LauncherCall
  shuts_down : LauncherCall

abbrev pub after_call : Startup → LauncherCall → Startup
after_call s (gets_id sigaction_works creates) = (get_launcher_id sigaction_works creates s).1
after_call s shuts_down = record s { is_launcher_available = false }

unfoldable pub after_calls : Startup → List LauncherCall → Startup
after_calls s [] = s
after_calls s (c ∷ cs) = after_calls (after_call s c) cs

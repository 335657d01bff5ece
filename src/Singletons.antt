-- ===== src/Singletons.antt =====
-- The objects of which there is one in a process: the send window, the send table and the battery of
-- gbn/launchBattery.c, the estimates of gbn/networkSampler.c and the timer of gbn/launcher.c. An object is the
-- address of its block; a new block has the next address.
pub mod Same
mod Tests
use iiw_udp_gbn.Base.{
  ℕ, ◌+◌, Bool, true, false, List, [], ◌∷◌, Option, none, some, if◌then◌else◌, update,
}
use iiw_udp_gbn.Launcher.{LauncherEvent}
use iiw_udp_gbn.Launcher.Start.{Startup, new_startup, get_launcher_id}

pub data Singleton : Type 0 where
  send_window send_table network_params launch_battery timer : Singleton

abbrev pub place : Singleton → ℕ
place send_window = 0
place send_table = 1
place network_params = 2
place launch_battery = 3
place timer = 4

-- The static pointers and the controls of pthread_once by their places, and what initLauncher keeps.
pub record Statics : Type 0 where
  pub objects : ℕ → Option ℕ
  pub is_initialized : ℕ → Bool
  pub startup : Startup
  pub next_block : ℕ

abbrev pub new_statics : Statics
new_statics = record {
  objects = λ _. none;
  is_initialized = λ _. false;
  startup = new_startup;
  next_block = 0;
}

-- A constructor's block goes to the static pointer.
abbrev pub assign : ℕ → Statics → Statics
assign i s = record s {
  objects = update s.objects i (some s.next_block);
  is_initialized = update s.is_initialized i true;
  next_block = s.next_block + 1;
}

-- A null pointer is looked at first, and then pthread_once runs `init` if it has not run.
unfoldable pub get_once : (Statics → Statics) → ℕ → Statics → Option ℕ × Statics
get_once init i s =
    let s' = if s.is_initialized i then s else init s in
    elim (s.objects i) [ some a ↦ (some a, s) | none ↦ (s'.objects i, s') ]

unfoldable pub get_send_window_reference : Statics → Option ℕ × Statics
unfolding get_once
get_send_window_reference s = get_once (assign 0) 0 s

unfoldable pub get_send_table_reference : Statics → Option ℕ × Statics
unfolding get_once
get_send_table_reference s = get_once (assign 1) 1 s

unfoldable pub get_network_params_reference : Statics → Option ℕ × Statics
unfolding get_once
get_network_params_reference s = get_once (assign 2) 2 s

-- The other objects that the battery needs are made with it, and the launcher is started.
unfoldable pub init_launch_battery : (LauncherEvent → Bool) → Bool → Statics → Statics
unfolding get_send_table_reference get_send_window_reference
init_launch_battery sigaction_works creates s =
    let with_table = (get_send_table_reference (assign 3 s)).1 in
    let with_window = (get_send_window_reference with_table).1 in
    record with_window { startup = (get_launcher_id sigaction_works creates with_window.startup).1 }

unfoldable pub get_launch_battery_reference :
    (LauncherEvent → Bool) → Bool → Statics → Option ℕ × Statics
unfolding get_once init_launch_battery
get_launch_battery_reference sigaction_works creates s =
    get_once (init_launch_battery sigaction_works creates) 3 s

-- The timer has no pthread_once.
unfoldable pub get_timer_reference : Statics → Option ℕ × Statics
get_timer_reference s = elim (s.objects 4) [
  | some a ↦ (some a, s)
  | none ↦ (some s.next_block, assign 4 s)
]

-- The getter of an object.
unfoldable pub get_reference :
    (LauncherEvent → Bool) → Bool → Singleton → Statics → Option ℕ × Statics
unfolding get_send_window_reference get_send_table_reference get_network_params_reference
    get_launch_battery_reference get_timer_reference
get_reference works creates send_window s = get_send_window_reference s
get_reference works creates send_table s = get_send_table_reference s
get_reference works creates network_params s = get_network_params_reference s
get_reference works creates launch_battery s = get_launch_battery_reference works creates s
get_reference works creates timer s = get_timer_reference s

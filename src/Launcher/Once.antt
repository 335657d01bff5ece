-- ===== src/Launcher/Once.antt =====
-- The launcher thread through any calls and shutdowns.
use iiw_udp_gbn.Base.{
  ◌≤◌, ◌≡◌, ◌⊎◌, inl, inr, refl, ap, ◌∙◌, Bool, true, false, Bool-cases, List, [], ◌∷◌, ◌++◌, arith,
  if_yes, if_no,
}
use iiw_udp_gbn.Launcher.{LauncherEvent}
use iiw_udp_gbn.Launcher.Start.{
  Startup, new_startup, launcher_events, with_event, set_handlers, create_launcher, init_launcher,
  get_launcher_id, launcher_cleanup, LauncherCall, gets_id, shuts_down, after_call, after_calls,
}
use iiw_udp_gbn.Timer.{Timer}

-- One start at most, and none but by initLauncher.
record IsStartup (s : Startup) : Type 0 where
  once : (s.is_launcher_initialized ≡ true) ⊎ ((s.threads ≡ 0) × (s.is_launcher_available ≡ false))
  at_most_one : s.threads ≤ 1

set_handlers-kept :
    (works : LauncherEvent → Bool) (s : Startup) (es : List LauncherEvent)
    → let s' = (set_handlers works s es).0 in
      (s'.is_launcher_available ≡ s.is_launcher_available)
      × (s'.is_launcher_initialized ≡ s.is_launcher_initialized)
      × (s'.threads ≡ s.threads)
unfolding set_handlers
set_handlers-kept works s [] = (refl, refl, refl)
set_handlers-kept works s (e ∷ es) = elim (Bool-cases (works e)) [
  | inl ok ↦ rw ok (set_handlers-kept works (with_event s e) es)
  | inr fails ↦ rw fails (refl, refl, refl)
]

create_launcher-IsStartup :
    (creates : Bool) (r : Startup × Bool)
    → r.0.threads ≡ 0
    → r.0.is_launcher_initialized ≡ true
    → IsStartup (create_launcher creates r)
      × ((create_launcher creates r).is_launcher_initialized ≡ true)
create_launcher-IsStartup true (s, true) n e =
    (record { once = inl e; at_most_one = omega arith }, e)
create_launcher-IsStartup false (s, true) n e =
    (record { once = inl e; at_most_one = omega arith }, e)
create_launcher-IsStartup true (s, false) n e =
    (record { once = inl e; at_most_one = omega arith }, e)
create_launcher-IsStartup false (s, false) n e =
    (record { once = inl e; at_most_one = omega arith }, e)

get_launcher_id-IsStartup :
    (works : LauncherEvent → Bool) (creates : Bool) (s : Startup)
    → IsStartup s
    → let s' = (get_launcher_id works creates s).1 in
      IsStartup s' × (s'.is_launcher_initialized ≡ true)
unfolding get_launcher_id init_launcher
get_launcher_id-IsStartup works creates s v = elim v.once [
  | inl e ↦ elim (Bool-cases s.is_launcher_available) [
    | inl a ↦ rw (if_yes s.is_launcher_available _ _ a) (v, e)
    | inr a ↦
        rw (if_no s.is_launcher_available _ _ a)
          (rw (if_yes s.is_launcher_initialized _ _ e) (v, e))
  ]
  | inr (n, a) ↦ elim (Bool-cases s.is_launcher_initialized) [
    | inl e ↦
        rw (if_no s.is_launcher_available _ _ a)
          (rw (if_yes s.is_launcher_initialized _ _ e) (v, e))
    | inr e ↦
        (let kept =
            set_handlers-kept works (record s { is_launcher_initialized = true }) launcher_events in
          rw (if_no s.is_launcher_available _ _ a) (
            rw (if_no s.is_launcher_initialized _ _ e) (
              create_launcher-IsStartup creates
                (set_handlers works (record s { is_launcher_initialized = true }) launcher_events)
                (kept.2 ∙ n) kept.1)))
  ]
]

after_call-IsStartup : (s : Startup) (c : LauncherCall) → IsStartup s → IsStartup (after_call s c)
after_call-IsStartup s (gets_id works creates) v = (get_launcher_id-IsStartup works creates s v).0
after_call-IsStartup s shuts_down v = record {
  once = elim v.once [ inl e ↦ inl e | inr (n, a) ↦ inr (n, refl) ];
  at_most_one = v.at_most_one;
}

after_calls-IsStartup :
    (s : Startup) (cs : List LauncherCall) → IsStartup s → IsStartup (after_calls s cs)
unfolding after_calls
after_calls-IsStartup s [] v = v
after_calls-IsStartup s (c ∷ cs) v =
    after_calls-IsStartup (after_call s c) cs (after_call-IsStartup s c v)

after_calls-append :
    (s : Startup) (cs ds : List LauncherCall)
    → after_calls s (cs ++ ds) ≡ after_calls (after_calls s cs) ds
unfolding after_calls
after_calls-append s [] ds = refl
after_calls-append s (c ∷ cs) ds = after_calls-append (after_call s c) cs ds

-- The launcher was started, or its start failed, and it does not run.
IsOver : Startup → Type 0
IsOver s = (s.is_launcher_initialized ≡ true) × (s.is_launcher_available ≡ false)

get_launcher_id-IsOver :
    (works : LauncherEvent → Bool) (creates : Bool) (s : Startup)
    → IsOver s
    → get_launcher_id works creates s ≡ (false, s)
unfolding get_launcher_id IsOver
get_launcher_id-IsOver works creates s (e, a) =
    rw (if_no s.is_launcher_available _ _ a)
      (rw (if_yes s.is_launcher_initialized _ _ e) (ap (λ b. (b, s)) a))

after_calls-IsOver : (s : Startup) (cs : List LauncherCall) → IsOver s → IsOver (after_calls s cs)
unfolding after_calls IsOver
after_calls-IsOver s [] o = o
after_calls-IsOver s (gets_id works creates ∷ cs) o =
    let same = ap (λ (r : Bool × Startup). r.1) (get_launcher_id-IsOver works creates s o) in
    after_calls-IsOver (get_launcher_id works creates s).1 cs (rw same o)
after_calls-IsOver s (shuts_down ∷ cs) (e, a) =
    after_calls-IsOver (record s { is_launcher_available = false }) cs (e, refl)

-- The cleanup puts no handler back.
launcher_cleanup-dispositions :
    (s : Startup) (t : Timer) → (launcher_cleanup s t).0 ≡ s.dispositions
unfolding launcher_cleanup
launcher_cleanup-dispositions s t = elim (Bool-cases s.is_old_act_set) [
  | inl e ↦ rw e refl
  | inr e ↦ rw e refl
]

-- The launcher thread is started at most once in the life of the process, whatever calls and shutdowns
-- there are; and once a call has asked for it and it was shut down, every later call fails and changes
-- nothing, whatever sigaction and pthread_create would answer.
pub get_launcher_id_once :
    (before later : List LauncherCall) (works works' : LauncherEvent → Bool)
    (creates creates' : Bool)
    → let s = after_calls new_startup (before ++ gets_id works creates ∷ shuts_down ∷ later) in
      ((after_calls new_startup before).threads ≤ 1)
      × (s.threads ≤ 1)
      × (get_launcher_id works' creates' s ≡ (false, s))
unfolding after_calls IsOver
get_launcher_id_once before later works works' creates creates' =
    let fresh : IsStartup new_startup = record {
      once = inr (refl, refl);
      at_most_one = omega arith;
    } in
    let b = after_calls new_startup before in
    let vb = after_calls-IsStartup new_startup before fresh in
    let asked = get_launcher_id-IsStartup works creates b vb in
    let all =
      after_calls-IsStartup new_startup (before ++ gets_id works creates ∷ shuts_down ∷ later)
        fresh in
    let over =
      after_calls-IsOver (after_call (after_call b (gets_id works creates)) shuts_down) later
        (asked.1, refl) in
    (
      vb.at_most_one,
      all.at_most_one,
      get_launcher_id-IsOver works' creates' _ (
          rw (after_calls-append new_startup before (gets_id works creates ∷ shuts_down ∷ later))
            over),
    )

-- ===== src/Singletons/Same.antt =====
-- One object of each kind, however often it is asked for.
use iiw_udp_gbn.Base.{
  ℕ, ◌<◌, ◌≡◌, ◌≢◌, ◌⊎◌, refl, sym, ap, ◌∙◌, Bool, false, List, [], ◌∷◌, Option, none, some, arith,
  ◌==◌, ==_iff, Bool-cases, Option-cases, inl, inr, some_eq,
}
use iiw_udp_gbn.Launcher.{LauncherEvent}
use iiw_udp_gbn.Launcher.Start.{get_launcher_id}
use iiw_udp_gbn.Singletons.{
  Singleton, send_window, send_table, network_params, launch_battery, timer, place, Statics,
  new_statics, assign, get_once, get_send_window_reference, get_send_table_reference,
  get_network_params_reference, init_launch_battery, get_launch_battery_reference,
  get_timer_reference, get_reference,
}

-- A pointer is null exactly where its constructor did not run, and addresses are below the next one and differ.
pub record IsStatics (s : Statics) : Type 0 where
  pub null : (i : ℕ) → s.objects i ≡ none → s.is_initialized i ≡ false
  pub made : (i a : ℕ) → s.objects i ≡ some a → a < s.next_block
  pub apart : (i j a : ℕ) → s.objects i ≡ some a → s.objects j ≡ some a → i ≡ j

pub new_statics-IsStatics : IsStatics new_statics
new_statics-IsStatics = record {
  null = λ i e. refl;
  made = λ i a e. absurd (ground (arith, e));
  apart = λ i j a e f. absurd (ground (arith, e));
}

-- The objects of `s` are those of `s'` still.
abbrev pub Extends : Statics → Statics → Type 0
Extends s s' = (i a : ℕ) → s.objects i ≡ some a → s'.objects i ≡ some a

abbrev AssignedCases : (s : Statics) → ℕ → ℕ → ℕ → Type 0
AssignedCases s i j a = ((i ≡ j) × (a ≡ s.next_block)) ⊎ ((i ≢ j) × (s.objects j ≡ some a))

objects-assign : (s : Statics) (i j a : ℕ) → (assign i s).objects j ≡ some a → AssignedCases s i j a
objects-assign s i j a e = elim (Bool-cases (i == j)) [
  | inl same ↦ inl ((==_iff i j).0 same, sym (some_eq (rw same at e)))
  | inr other ↦ inr (ground (arith, other), rw other at e)
]

assign-IsStatics :
    (i : ℕ) (s : Statics)
    → IsStatics s
    → s.objects i ≡ none
    → IsStatics (assign i s) × Extends s (assign i s) × ((assign i s).objects i ≡ some s.next_block)
assign-IsStatics i s v unset = (
  record {
    null = λ j e. elim (Bool-cases (i == j)) [
      | inl same ↦ absurd (ground (arith, rw same at e))
      | inr other ↦ rw other (v.null j (rw other at e))
    ];
    made = λ j a e. elim (objects-assign s i j a e) [
      | inl (_, is_a) ↦ omega (arith, is_a)
      | inr (_, old) ↦ omega (arith, v.made j a old)
    ];
    apart = λ j k a e f. elim (objects-assign s i j a e) [
      | inl (i_is_j, is_a) ↦ elim (objects-assign s i k a f) [
        | inl (i_is_k, _) ↦ sym i_is_j ∙ i_is_k
        | inr (_, old) ↦ absurd (omega (arith, is_a, v.made k a old))
      ]
      | inr (_, old) ↦ elim (objects-assign s i k a f) [
        | inl (_, is_a) ↦ absurd (omega (arith, is_a, v.made j a old))
        | inr (_, old') ↦ v.apart j k a old old'
      ]
    ];
  },
  λ j a e. elim (Bool-cases (i == j)) [
    | inl same ↦ absurd (ground (arith, sym unset ∙ ap s.objects ((==_iff i j).0 same) ∙ e))
    | inr other ↦ rw other e
  ],
  ground arith,
)

-- What a getter of the i-th object hands out, and what it leaves.
abbrev pub Hands : Statics → ℕ → Option ℕ × Statics → Type 0
Hands s i (o, s') = IsStatics s' × Extends s s' × ((a : ℕ) × (o ≡ some a) × (s'.objects i ≡ some a))

with_startup-IsStatics :
    (s : Statics) (works : LauncherEvent → Bool) (creates : Bool)
    → IsStatics s
    → IsStatics (record s { startup = (get_launcher_id works creates s.startup).1 })
with_startup-IsStatics s works creates v = record { null = v.null; made = v.made; apart = v.apart }

-- Where the initialiser makes the object.
get_once-Hands :
    (init : Statics → Statics) (i : ℕ) (s : Statics)
    → IsStatics s
    → (s.objects i ≡ none
        → IsStatics (init s) × Extends s (init s) × ((a : ℕ) × ((init s).objects i ≡ some a)))
    → Hands s i (get_once init i s)
unfolding get_once
get_once-Hands init i s v makes = elim (Option-cases (s.objects i)) [
  | inr (a, e) ↦ rw (e, get_once) (v, (λ j b f. f), (a, refl, e))
  | inl e ↦
      let (w, more, (a, made)) = makes e in
      rw (e, get_once) (rw (v.null i e) (w, more, (a, made, made)))
]

assigned :
    (i : ℕ) (s : Statics)
    → IsStatics s
    → s.objects i ≡ none
    → IsStatics (assign i s)
      × Extends s (assign i s)
      × ((a : ℕ) × ((assign i s).objects i ≡ some a))
assigned i s v unset =
    let (w, more, made) = assign-IsStatics i s v unset in (w, more, (s.next_block, made))

init_launch_battery-makes :
    (works : LauncherEvent → Bool) (creates : Bool) (s : Statics)
    → IsStatics s
    → s.objects 3 ≡ none
    → let s' = init_launch_battery works creates s in
      IsStatics s' × Extends s s' × ((a : ℕ) × (s'.objects 3 ≡ some a))
unfolding init_launch_battery get_send_table_reference get_send_window_reference
init_launch_battery-makes works creates s v unset =
    let (v₁, more₁, (a, made)) = assigned 3 s v unset in
    let s₁ = assign 3 s in
    let (v₂, more₂, _) = get_once-Hands (assign 1) 1 s₁ v₁ (assigned 1 s₁ v₁) in
    let s₂ = (get_once (assign 1) 1 s₁).1 in
    let (v₃, more₃, _) = get_once-Hands (assign 0) 0 s₂ v₂ (assigned 0 s₂ v₂) in
    let s₃ = (get_once (assign 0) 0 s₂).1 in
    (
      with_startup-IsStatics s₃ works creates v₃,
      λ j b f. more₃ j b (more₂ j b (more₁ j b f)),
      (a, more₃ 3 a (more₂ 3 a made)),
    )

get_timer_reference-Hands : (s : Statics) → IsStatics s → Hands s 4 (get_timer_reference s)
unfolding get_timer_reference
get_timer_reference-Hands s v = elim (Option-cases (s.objects 4)) [
  | inr (a, e) ↦ rw (e, get_timer_reference) (v, (λ j b f. f), (a, refl, e))
  | inl e ↦
      let (w, more, made) = assign-IsStatics 4 s v e in
      rw (e, get_timer_reference) (w, more, (s.next_block, refl, made))
]

module _ (works : LauncherEvent → Bool) (creates : Bool) where
  get_reference-Hands :
      (x : Singleton) (s : Statics)
      → IsStatics s
      → Hands s (place x) (get_reference works creates x s)
  unfolding get_reference get_send_window_reference get_send_table_reference
      get_network_params_reference get_launch_battery_reference
  get_reference-Hands send_window s v = get_once-Hands (assign 0) 0 s v (assigned 0 s v)
  get_reference-Hands send_table s v = get_once-Hands (assign 1) 1 s v (assigned 1 s v)
  get_reference-Hands network_params s v = get_once-Hands (assign 2) 2 s v (assigned 2 s v)
  get_reference-Hands launch_battery s v =
      get_once-Hands (init_launch_battery works creates) 3 s v
        (init_launch_battery-makes works creates s v)
  get_reference-Hands timer s v = get_timer_reference-Hands s v

  abbrev pub after : Statics → List Singleton → Statics
  after s [] = s
  after s (x ∷ xs) = after (get_reference works creates x s).1 xs

  after-Extends :
      (xs : List Singleton) (s : Statics)
      → IsStatics s
      → IsStatics (after s xs) × Extends s (after s xs)
  after-Extends [] s v = (v, λ j a e. e)
  after-Extends (x ∷ xs) s v =
      let (v₁, more₁, _) = get_reference-Hands x s v in
      let (v₂, more₂) = after-Extends xs (get_reference works creates x s).1 v₁ in
      (v₂, λ j a e. more₂ j a (more₁ j a e))

  -- From statics that are well formed, as the process starts with, a getter never hands out a null
  -- pointer, and after any further calls of getters it hands out the same object again, and the getter
  -- of another kind a different one: each object is made once.
  pub get_reference-once :
      (x y : Singleton) (xs : List Singleton) (s : Statics)
      → IsStatics s
      → place x ≢ place y
      → let (o, s₁) = get_reference works creates x s in
        let s₂ = after s₁ xs in
        ((a : ℕ) × (o ≡ some a))
        × ((get_reference works creates x s₂).0 ≡ o)
        × ((get_reference works creates y s₂).0 ≢ o)
  get_reference-once x y xs s v differ =
      let (v₁, _, (a, is_a, at_x)) = get_reference-Hands x s v in
      let s₁ = (get_reference works creates x s).1 in
      let (v₂, more₂) = after-Extends xs s₁ v₁ in
      let s₂ = after s₁ xs in
      let (v₃, more₃, (b, is_b, at_b)) = get_reference-Hands x s₂ v₂ in
      let (v₄, more₄, (c, is_c, at_c)) = get_reference-Hands y s₂ v₂ in
      let b_is_a : some b ≡ some a = sym at_b ∙ more₃ (place x) a (more₂ (place x) a at_x) in
      (
        (a, is_a),
        is_b ∙ b_is_a ∙ sym is_a,
        λ same. differ (
            v₄.apart (place x) (place y) c
              (more₄ (place x) a (more₂ (place x) a at_x) ∙ sym is_a ∙ sym same ∙ is_c) at_c),
      )

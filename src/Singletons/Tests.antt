-- ===== src/Singletons/Tests.antt =====
-- The window, and then the battery, which makes a table.
use iiw_udp_gbn.Base.{ℕ, ◌≡◌, ◌≢◌, true, [], ◌∷◌, some, arith}
use iiw_udp_gbn.Singletons.{
  send_window, send_table, launch_battery, timer, new_statics, get_reference,
}
use iiw_udp_gbn.Singletons.Same.{after, new_statics-IsStatics, get_reference-once}

get_reference-once_example :
    let s₁ = (get_reference (λ _. true) true send_window new_statics).1 in
    let s₂ = after (λ _. true) true s₁ (launch_battery ∷ timer ∷ []) in
    let o = (get_reference (λ _. true) true send_window new_statics).0 in
    ((a : ℕ) × (o ≡ some a))
    × ((get_reference (λ _. true) true send_window s₂).0 ≡ o)
    × ((get_reference (λ _. true) true send_table s₂).0 ≢ o)
get_reference-once_example =
    get_reference-once (λ _. true) true send_window send_table (launch_battery ∷ timer ∷ [])
      new_statics new_statics-IsStatics (omega arith)

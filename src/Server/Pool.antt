-- ===== src/Server/Pool.antt =====
-- The semaphores of the handlers through the rounds of the father and the children, with the sessions that
-- are open on each handler.
use iiw_udp_gbn.Base.{
  ℕ, zero, suc, ◌+◌, ◌≤◌, ◌≡◌, ◌≢◌, ◌⊎◌, inl, inr, refl, sym, ap, ◌∙◌, List, some, arith, get_elem?,
  update, update_same, update_other, Bool-cases, Option-cases, some_eq,
}
use iiw_udp_gbn.Server.{
  Semaphore, counting, new_handlers, sem_post, assign_handler, Disk, Reply, perform,
  incorrect_response, hs_response, child_round, father_round,
}
use iiw_udp_gbn.Server.Handlers.{set_at, get_elem?-set_at, assign_loop-LowersAt, assign_loop-none}
use iiw_udp_gbn.Session.{Io, done, send_message, receive_message}
use iiw_udp_gbn.Base.Int.{eqb_ℤ}
use iiw_udp_gbn.Protocol.{hs, command_code}
use iiw_udp_gbn.Session.Steps.{run_then-done}

-- `sessions i` clients were assigned the i-th handler and have not been served yet; `strays i` requests
-- reached it from anyone else.
pub record Pool : Type 0 where
  pub handlers : List Semaphore
  pub sessions : ℕ → ℕ
  pub strays : ℕ → ℕ

abbrev pub new_pool : ℕ → Pool
new_pool n = record { handlers = new_handlers n; sessions = λ _. 0; strays = λ _. 0 }

-- One round of the father, or of a child that serves a request.
pub data Step : Pool → Pool → Type 0 where
  assigns :
      {p : Pool} (i : ℕ) (handlers' : List Semaphore) (io io' : Io)
      → father_round p.handlers io ≡ done handlers' io'
      → assign_handler p.handlers ≡ (some i, handlers')
      → Step p
          (record p { handlers = handlers'; sessions = update p.sessions i (suc (p.sessions i)) })
  answers : {p : Pool} (io io' : Io) → father_round p.handlers io ≡ done p.handlers io' → Step p p
  serves :
      {p : Pool} (i n : ℕ) (s s' : Semaphore) (program_name : List ℕ) (disk : Disk) (reply : Reply)
      (io io' : Io)
      → get_elem? p.handlers i ≡ some s
      → p.sessions i ≡ suc n
      → child_round program_name disk s io ≡ done (reply, s') io'
      → Step p (record p { handlers = set_at p.handlers i s'; sessions = update p.sessions i n })
  serves_stray :
      {p : Pool} (i : ℕ) (s s' : Semaphore) (program_name : List ℕ) (disk : Disk) (reply : Reply)
      (io io' : Io)
      → get_elem? p.handlers i ≡ some s
      → child_round program_name disk s io ≡ done (reply, s') io'
      → Step p (record p {
        handlers = set_at p.handlers i s';
        strays = update p.strays i (suc (p.strays i));
      })

pub data IsReachable (n : ℕ) : Pool → Type 0 where
  starts : IsReachable n (new_pool n)
  steps : {p q : Pool} → IsReachable n p → Step p q → IsReachable n q

child_round-sem_post :
    (program_name : List ℕ) (disk : Disk) (s s' : Semaphore) (reply : Reply) (io io' : Io)
    → child_round program_name disk s io ≡ done (reply, s') io'
    → s' ≡ sem_post s
unfolding child_round
child_round-sem_post program_name disk s s' reply io io' h =
    let ((msg, client), io₁, _, h₁) = run_then-done (receive_message io) _ (reply, s') io' h in
    let (reply', io₂, _, h₂) =
      run_then-done (perform program_name disk msg client io₁) _ (reply, s') io' h₁ in
    grind (arith, h₂)

-- The handlers that a round of the father leaves.
father_round-handlers :
    (handlers handlers' : List Semaphore) (io io' : Io)
    → father_round handlers io ≡ done handlers' io'
    → (handlers' ≡ (assign_handler handlers).1) ⊎ (handlers' ≡ handlers)
unfolding father_round
father_round-handlers handlers handlers' io io' h =
    let ((msg, client), io₁, _, h₁) = run_then-done (receive_message io) _ handlers' io' h in
    elim (Bool-cases (eqb_ℤ msg.message_header.command (command_code hs))) [
      | inl e ↦
          (let (_, io₂, _, h₂) =
              run_then-done (send_message client (hs_response (assign_handler handlers).0) io₁) _
                handlers' io' (rw e at h₁) in
            inl (grind (arith, h₂)))
      | inr e ↦
          (let (_, io₂, _, h₂) =
              run_then-done (send_message client incorrect_response io₁) _ handlers' io'
                (rw e at h₁) in
            inr (grind (arith, h₂)))
    ]

-- Each round of the father that returns is a step.
father_round-Step :
    (p : Pool) (handlers' : List Semaphore) (io io' : Io)
    → father_round p.handlers io ≡ done handlers' io'
    → (q : Pool) × Step p q × (q.handlers ≡ handlers')
unfolding assign_handler
father_round-Step p handlers' io io' h =
    let assigned = (assign_handler p.handlers).1 in
    elim (father_round-handlers p.handlers handlers' io io' h) [
      | inr same ↦ (p, answers io io' (rw same at h), sym same)
      | inl e ↦ elim (Option-cases (assign_handler p.handlers).0) [
        | inr (i, found) ↦ (
          _,
          assigns i handlers' io io' h
              (ap (λ f. (f, assigned)) found ∙ ap (λ r. (some i, r)) (sym e)),
          refl,
        )
        | inl nobody ↦
            (let same =
                e ∙ assign_loop-none 0 p.handlers assigned (ap (λ f. (f, assigned)) nobody) in
              (p, answers io io' (rw same at h), sym same))
      ]
    ]

-- What a semaphore counts, with the sessions it was lowered for, is one more than the strays.
abbrev IsBalanced : Pool → Type 0
IsBalanced p =
    (i : ℕ) (s : Semaphore)
    → get_elem? p.handlers i ≡ some s
    → (v : ℕ) × (s ≡ counting v) × (v + p.sessions i ≡ 1 + p.strays i)

new_pool-IsBalanced : (n : ℕ) → IsBalanced (new_pool n)
new_pool-IsBalanced zero i s h = ground arith
new_pool-IsBalanced (suc n) zero s h = (1, sym (some_eq h), refl)
new_pool-IsBalanced (suc n) (suc i) s h = new_pool-IsBalanced n i s h

-- One handler changes, and keeps its balance.
set_at-IsBalanced :
    (p : Pool) (j v : ℕ) (s : Semaphore) (sessions strays : ℕ → ℕ)
    → IsBalanced p
    → s ≡ counting v
    → v + sessions j ≡ 1 + strays j
    → ((k : ℕ) → j ≢ k → (sessions k ≡ p.sessions k) × (strays k ≡ p.strays k))
    → IsBalanced (record { handlers = set_at p.handlers j s; sessions = sessions; strays = strays })
set_at-IsBalanced p j v s sessions strays b e balance same k t h =
    elim (get_elem?-set_at p.handlers k j s t h) [
      | inl (k_is, t_is) ↦ (v, t_is ∙ e, rw k_is balance)
      | inr (other, got) ↦
          (let (u, t_is, was) = b k t got in
            let (ses, str) = same k other in (u, t_is, omega (arith, ses, str, was)))
    ]

Step-IsBalanced : (p q : Pool) → Step p q → IsBalanced p → IsBalanced q
unfolding assign_handler
Step-IsBalanced p q (assigns i handlers' io io' _ e) b =
    let (j, n, i_is, got, set) = assign_loop-LowersAt 0 i p.handlers handlers' e in
    let (v, v_is, was) = b j (counting (suc n)) got in
    let i_eq : i ≡ j = omega (arith, i_is) in
    rw (set, i_eq)
      (set_at-IsBalanced p j n (counting n) _ _ b refl
        (rw (update_same p.sessions j (suc (p.sessions j))) (ground arith))
        (λ k o. (update_other p.sessions j k _ o, refl)))
Step-IsBalanced p q (answers io io' _) b = b
Step-IsBalanced p q (serves i n s s' program_name disk reply io io' got open_session e) b =
    let (v, s_is, was) = b i s got in
    set_at-IsBalanced p i (suc v) s' _ _ b
      (child_round-sem_post program_name disk s s' reply io io' e ∙ ap sem_post s_is)
      (rw (update_same p.sessions i n) (omega (arith, was, open_session)))
      (λ k o. (update_other p.sessions i k _ o, refl))
Step-IsBalanced p q (serves_stray i s s' program_name disk reply io io' got e) b =
    let (v, s_is, was) = b i s got in
    set_at-IsBalanced p i (suc v) s' _ _ b
      (child_round-sem_post program_name disk s s' reply io io' e ∙ ap sem_post s_is)
      (rw (update_same p.strays i (suc (p.strays i))) (omega (arith, was)))
      (λ k o. (refl, update_other p.strays i k _ o))

IsReachable-IsBalanced : (n : ℕ) (p : Pool) → IsReachable n p → IsBalanced p
IsReachable-IsBalanced n p starts = new_pool-IsBalanced n
IsReachable-IsBalanced n p (steps {p = q} r s) =
    Step-IsBalanced q p s (IsReachable-IsBalanced n q r)

-- Through all rounds of the father and of the children of a server, in any order and for any letters,
-- each semaphore stays usable, and what it counts, together with the clients that were assigned its
-- handler and are not served yet, is one more than the requests that reached the handler without such a
-- client. So, but for those requests, a handler has at most one client.
pub reachable_balance :
    (n : ℕ) (p : Pool) (i : ℕ) (s : Semaphore)
    → IsReachable n p
    → get_elem? p.handlers i ≡ some s
    → (v : ℕ) × (s ≡ counting v)
      × (v + p.sessions i ≡ 1 + p.strays i)
      × (p.sessions i ≤ 1 + p.strays i)
reachable_balance n p i s r got =
    let (v, s_is, balance) = IsReachable-IsBalanced n p r i s got in
    (v, s_is, balance, omega (arith, balance))

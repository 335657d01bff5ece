-- ===== src/Server/Handlers.antt =====
-- assignHandler: which handler a handshake gets.
use iiw_udp_gbn.Base.{
  ℕ, zero, suc, ◌+◌, ◌≡◌, ◌≢◌, ◌⊎◌, get_elem?, refl, sym, ap, ◌∙◌, List, [], ◌∷◌, ◌++◌, none, some,
  arith, length, All,
}
use iiw_udp_gbn.Server.{Semaphore, counting, broken, sem_trywait, assign_loop, assign_handler}

-- No semaphore of the list can be taken.
abbrev pub AllTaken : List Semaphore → Type 0
AllTaken handlers = All (λ s. sem_trywait s ≡ none) handlers

assign_loop-taken :
    (i : ℕ) (handlers : List Semaphore)
    → AllTaken handlers
    → assign_loop i handlers ≡ (none, handlers)
unfolding assign_loop
assign_loop-taken i [] h = refl
assign_loop-taken i (s ∷ rest) (e, h) = rw (e, assign_loop-taken (i + 1) rest h) refl

assign_loop-first :
    (i : ℕ) (taken : List Semaphore) (s s' : Semaphore) (rest : List Semaphore)
    → AllTaken taken
    → sem_trywait s ≡ some s'
    → assign_loop i (taken ++ s ∷ rest) ≡ (some (i + length taken), taken ++ s' ∷ rest)
unfolding assign_loop
assign_loop-first i [] s s' rest h e = rw e (ap (λ k. (some k, s' ∷ rest)) (omega arith))
assign_loop-first i (t ∷ taken) s s' rest (d, h) e =
    rw (d, assign_loop-first (i + 1) taken s s' rest h e)
      (ap (λ k. (some k, t ∷ (taken ++ s' ∷ rest))) (omega arith))

pub assign_handler-taken :
    (handlers : List Semaphore) → AllTaken handlers → assign_handler handlers ≡ (none, handlers)
unfolding assign_handler
assign_handler-taken handlers h = assign_loop-taken 0 handlers h

-- A handshake takes the first handler whose semaphore can be taken, lowers that semaphore by one and
-- leaves all others alone; it fails, changing none, where no semaphore can be taken, be it at zero or
-- not usable.
pub assign_handler-first :
    (taken : List Semaphore) (n : ℕ) (rest : List Semaphore)
    → AllTaken taken
    → (assign_handler (taken ++ counting (suc n) ∷ rest)
        ≡ (some (length taken), taken ++ counting n ∷ rest))
      × (assign_handler taken ≡ (none, taken))
unfolding assign_handler
assign_handler-first taken n rest h = (
  assign_loop-first 0 taken (counting (suc n)) (counting n) rest h refl
      ∙ ap (λ k. (some k, taken ++ counting n ∷ rest)) (omega arith),
  assign_loop-taken 0 taken h,
)

-- The handlers with another semaphore at one index.
abbrev pub set_at : List Semaphore → ℕ → Semaphore → List Semaphore
set_at [] i s = []
set_at (t ∷ rest) zero s = s ∷ rest
set_at (t ∷ rest) (suc i) s = t ∷ set_at rest i s

pub get_elem?-set_at :
    (handlers : List Semaphore) (i j : ℕ) (s t : Semaphore)
    → get_elem? (set_at handlers j s) i ≡ some t
    → ((i ≡ j) × (t ≡ s)) ⊎ ((j ≢ i) × (get_elem? handlers i ≡ some t))
get_elem?-set_at [] i j s t h = ground arith
get_elem?-set_at (u ∷ rest) zero zero s t h = ground arith
get_elem?-set_at (u ∷ rest) (suc i) zero s t h = ground arith
get_elem?-set_at (u ∷ rest) zero (suc j) s t h = ground arith
get_elem?-set_at (u ∷ rest) (suc i) (suc j) s t h = ground (arith, get_elem?-set_at rest i j s t h)

-- The i-th handler, counted from k on, gives up one unit of its semaphore, and no other changes.
abbrev pub LowersAt : ℕ → ℕ → List Semaphore → List Semaphore → Type 0
LowersAt k i handlers handlers' =
    (j : ℕ) × (n : ℕ) × (i ≡ k + j)
    × (get_elem? handlers j ≡ some (counting (suc n)))
    × (handlers' ≡ set_at handlers j (counting n))

LowersAt-behind :
    (k i : ℕ) (s : Semaphore) (rest rest' handlers' : List Semaphore)
    → LowersAt (k + 1) i rest rest'
    → s ∷ rest' ≡ handlers'
    → LowersAt k i (s ∷ rest) handlers'
LowersAt-behind k i s rest rest' handlers' (j, n, e, got, set) h =
    (suc j, n, omega arith, got, sym h ∙ ap (λ r. s ∷ r) set)

pub assign_loop-LowersAt :
    (k i : ℕ) (handlers handlers' : List Semaphore)
    → assign_loop k handlers ≡ (some i, handlers')
    → LowersAt k i handlers handlers'
unfolding assign_loop
assign_loop-LowersAt k i [] handlers' h = absurd (ground arith)
assign_loop-LowersAt k i (counting zero ∷ rest) handlers' h =
    let (found, rest') = assign_loop (k + 1) rest in
    LowersAt-behind k i (counting zero) rest rest' handlers'
      (assign_loop-LowersAt (k + 1) i rest rest' (ap (λ f. (f, rest')) (ap (λ r. r.0) h)))
      (ap (λ r. r.1) h)
assign_loop-LowersAt k i (counting (suc n) ∷ rest) handlers' h =
    (0, n, ground arith, refl, sym (ap (λ r. r.1) h))
assign_loop-LowersAt k i (broken ∷ rest) handlers' h =
    let (found, rest') = assign_loop (k + 1) rest in
    LowersAt-behind k i broken rest rest' handlers'
      (assign_loop-LowersAt (k + 1) i rest rest' (ap (λ f. (f, rest')) (ap (λ r. r.0) h)))
      (ap (λ r. r.1) h)

pub assign_loop-none :
    (k : ℕ) (handlers handlers' : List Semaphore)
    → assign_loop k handlers ≡ (none, handlers')
    → handlers' ≡ handlers
unfolding assign_loop
assign_loop-none k [] handlers' h = sym (ap (λ r. r.1) h)
assign_loop-none k (counting zero ∷ rest) handlers' h =
    let rest' = (assign_loop (k + 1) rest).1 in
    sym (ap (λ r. r.1) h)
    ∙ ap (λ r. counting zero ∷ r)
        (assign_loop-none (k + 1) rest rest' (ap (λ f. (f, rest')) (ap (λ r. r.0) h)))
assign_loop-none k (counting (suc n) ∷ rest) handlers' h = absurd (ground arith)
assign_loop-none k (broken ∷ rest) handlers' h =
    let rest' = (assign_loop (k + 1) rest).1 in
    sym (ap (λ r. r.1) h)
    ∙ ap (λ r. broken ∷ r)
        (assign_loop-none (k + 1) rest rest' (ap (λ f. (f, rest')) (ap (λ r. r.0) h)))

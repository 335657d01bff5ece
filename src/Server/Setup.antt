-- ===== src/Server/Setup.antt =====
-- main and the start of operate: the sockets and the semaphores, and the part of a process after fork.
use iiw_udp_gbn.Base.{
  ℕ, zero, suc, ◌+◌, ◌<◌, ◌≡◌, ap, ◌∙◌, Bool, List, [], ◌∷◌, Option, none, some, ◌>>=◌, arith,
  if◌then◌else◌, ◌==◌, drop, get_elem?, if_no, Option-cases, inl, inr,
}
use iiw_udp_gbn.Protocol.{default_server_port}
use iiw_udp_gbn.Server.{Semaphore, counting, new_handlers, max_client, handler_port}

-- What socket, and bind to the given port, answer in each round.
pub record Network : Type 0 where
  pub socket_works : ℕ → Bool
  pub bind_works : ℕ → Bool

-- The array of processes: the port of each socket, and the semaphores behind the father's entry.
pub record ProcessIndex : Type 0 where
  pub ports : List ℕ
  pub handlers : List Semaphore

-- The rounds from `i` on; `none` is exit(1).
unfoldable pub setup_loop : ℕ → ℕ → Network → Option ProcessIndex
setup_loop zero i net = some (record { ports = []; handlers = [] })
setup_loop (suc rounds) i net =
    let rest = setup_loop rounds (i + 1) net in
    let entered = rest >>= λ later. some (record {
      ports = (default_server_port + i) ∷ later.ports;
      handlers = if i == 0 then later.handlers else counting 1 ∷ later.handlers;
    }) in
    if net.socket_works i
    then (if net.bind_works (default_server_port + i) then entered else none)
    else none

unfoldable pub setup : Network → Option ProcessIndex
unfolding setup_loop
setup net = setup_loop (max_client + 1) 0 net

-- A round that is entered adds its port, and its semaphore but for the father's.
setup_loop-entered :
    (rounds i : ℕ) (net : Network) (all : ProcessIndex)
    → setup_loop (suc rounds) i net ≡ some all
    → (later : ProcessIndex) × (setup_loop rounds (i + 1) net ≡ some later)
      × (all ≡ record {
        ports = (default_server_port + i) ∷ later.ports;
        handlers = if i == 0 then later.handlers else counting 1 ∷ later.handlers;
      })
unfolding setup_loop
setup_loop-entered rounds i net all h = elim (Option-cases (setup_loop rounds (i + 1) net)) [
  | inr (later, e) ↦ (later, e, ground (arith, rw e at h))
  | inl e ↦ absurd (ground (arith, rw e at h))
]

setup_loop-handlers :
    (rounds i : ℕ) (net : Network) (all : ProcessIndex)
    → setup_loop rounds (i + 1) net ≡ some all
    → all.handlers ≡ new_handlers rounds
unfolding setup_loop
setup_loop-handlers zero i net all h = ground (arith, h)
setup_loop-handlers (suc rounds) i net all h =
    let (later, e, all_is) = setup_loop-entered rounds (i + 1) net all h in
    rw all_is (
      rw (if_no (i + 1 == 0) _ _ (ground arith))
        (ap (λ r. counting 1 ∷ r) (setup_loop-handlers rounds (i + 1) net later e)))

setup_loop-ports :
    (rounds i j : ℕ) (net : Network) (all : ProcessIndex)
    → setup_loop rounds i net ≡ some all
    → j < rounds
    → get_elem? all.ports j ≡ some (default_server_port + (i + j))
setup_loop-ports zero i j net all h b = absurd (omega arith)
setup_loop-ports (suc rounds) i zero net all h b =
    let (later, e, all_is) = setup_loop-entered rounds i net all h in
    rw all_is (ap some (omega arith))
setup_loop-ports (suc rounds) i (suc j) net all h b =
    let (later, e, all_is) = setup_loop-entered rounds i net all h in
    rw all_is (setup_loop-ports rounds (i + 1) j net later e (omega arith) ∙ ap some (omega arith))

-- A server that has set up starts with every handler free, and the port that the father names for the
-- i-th handler is the one that the socket of that handler's process is bound to. The handler is one of
-- the five.
pub setup_lem :
    (net : Network) (all : ProcessIndex) (i : ℕ)
    → setup net ≡ some all
    → i < max_client
    → (all.handlers ≡ new_handlers max_client)
      × (get_elem? all.ports (i + 1) ≡ some (handler_port i))
unfolding setup
setup_lem net all i h b =
    let (later, e, all_is) = setup_loop-entered max_client 0 net all h in
    (
      rw all_is (setup_loop-handlers max_client 0 net later e),
      setup_loop-ports (max_client + 1) 0 (i + 1) net all h (omega arith) ∙ ap some (omega arith),
    )

-- `argv[0] + 2`, behind "./"
abbrev pub program_name_of : List ℕ → List ℕ
program_name_of path = drop 2 path

-- What fork returns: 0, a process id, or -1.
pub data ForkAnswer : Type 0 where
  in_child in_parent no_child : ForkAnswer

pub data Role : Type 0 where
  father : Role
  handler : ℕ → Role

-- A process that has left the loop is the father unless its entry holds a 0; a fork that failed leaves -1
-- there, and its handler has no process.
unfoldable pub fork_loop : ℕ → ℕ → (ℕ → ForkAnswer) → Role
fork_loop zero i forks = father
fork_loop (suc rounds) i forks =
    let rest = fork_loop rounds (i + 1) forks in
    elim (forks i) [ in_child ↦ handler i | in_parent ↦ rest | no_child ↦ rest ]

unfoldable pub operate_role : (ℕ → ForkAnswer) → Role
unfolding fork_loop
operate_role forks = fork_loop max_client 1 forks

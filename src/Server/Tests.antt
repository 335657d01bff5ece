-- ===== src/Server/Tests.antt =====
-- The handlers of the server at concrete values.
use iiw_udp_gbn.Base.{
  ℕ, suc, ◌+◌, ◌≤◌, ◌≡◌, refl, true, false, if◌then◌else◌, ◌==◌, List, [], ◌∷◌, ◌++◌, some, none,
  arith, update, get_elem?,
}
use iiw_udp_gbn.Client.{hs_request}
use iiw_udp_gbn.Protocol.{hs}
use iiw_udp_gbn.Server.{
  Semaphore, counting, broken, new_handlers, max_client, handler_port, assign_handler, Disk, fails,
  perform, father_round, hs_response,
}
use iiw_udp_gbn.Server.Handlers.{assign_handler-first}
use iiw_udp_gbn.Server.Pool.{
  Pool, IsReachable, starts, steps, assigns, serves_stray, reachable_balance,
}
use iiw_udp_gbn.Server.Rounds.{father_round-hs, child_round-perform}
use iiw_udp_gbn.Server.Setup.{
  ProcessIndex, setup, setup_lem, in_child, in_parent, handler, operate_role,
}
use iiw_udp_gbn.Session.{Io, done}
use iiw_udp_gbn.Session.Steps.{letter}
use iiw_udp_gbn.Message.RoundTrip.{IsWellFormed}
use iiw_udp_gbn.Protocol.Text.{message-IsWellFormed}
use iiw_udp_gbn.SortingTable.{Address}

-- The first handler is busy, and the second cannot be used.
abbrev two_taken : List Semaphore
two_taken = counting 0 ∷ broken ∷ []

assign_handler-first_example :
    (assign_handler (two_taken ++ counting 1 ∷ counting 1 ∷ [])
      ≡ (some 2, two_taken ++ counting 0 ∷ counting 1 ∷ []))
    × (assign_handler two_taken ≡ (none, two_taken))
assign_handler-first_example = assign_handler-first two_taken 0 (counting 1 ∷ []) (refl, (refl, tt))

abbrev me : Address
me = record { host = 1; port = 1024 }

-- A handshake request, which asks nothing of a handler.
abbrev hs_letter : Io
hs_letter = record { incoming = letter me hs_request ∷ []; outgoing = [] }

abbrev an_empty_disk : Disk
an_empty_disk = record { writable = false; readable = fails []; entries = [] }

hs_request-IsWellFormed : IsWellFormed hs_request
hs_request-IsWellFormed = message-IsWellFormed hs _ _ (omega arith) (omega arith)

-- The father assigns the first handler; a handshake request is sent there by mistake; and the father
-- assigns the same handler again.
abbrev shared : Pool
shared = record {
  handlers = counting 0 ∷ counting 1 ∷ [];
  sessions = update (update (λ _. 0) 0 1) 0 2;
  strays = update (λ _. 0) 0 1;
}

assigned_first :
    (n : ℕ)
    → father_round (counting (suc n) ∷ counting 1 ∷ []) hs_letter
      ≡ done
          (counting n ∷ counting 1 ∷ [])
          (record { incoming = []; outgoing = letter me (hs_response (some 0)) ∷ [] })
unfolding assign_handler
assigned_first n =
    father_round-hs (counting (suc n) ∷ counting 1 ∷ []) me hs_request [] [] hs_request-IsWellFormed
      refl

shared-IsReachable : IsReachable 2 shared
unfolding assign_handler perform
shared-IsReachable =
    steps
      (steps (steps starts (assigns 0 _ hs_letter _ (assigned_first 0) refl)) (
        serves_stray 0 _ _ [] an_empty_disk _ hs_letter _ refl (
          child_round-perform [] an_empty_disk (counting 0) me hs_request [] [] _ _
            hs_request-IsWellFormed refl)))
      (assigns 0 _ hs_letter _ (assigned_first 0) refl)

reachable_balance_example :
    (v : ℕ) × (counting 0 ≡ counting v)
    × (v + shared.sessions 0 ≡ 1 + shared.strays 0)
    × (shared.sessions 0 ≤ 1 + shared.strays 0)
reachable_balance_example = reachable_balance 2 shared 0 (counting 0) shared-IsReachable refl

abbrev all_free : ProcessIndex
all_free = record {
  ports = 8888 ∷ 8889 ∷ 8890 ∷ 8891 ∷ 8892 ∷ 8893 ∷ [];
  handlers = new_handlers 5;
}

setup_with_all_ports :
    (all_free.handlers ≡ new_handlers max_client)
    × (get_elem? all_free.ports 3 ≡ some (handler_port 2))
unfolding setup
setup_with_all_ports =
    setup_lem (record { socket_works = λ _. true; bind_works = λ _. true }) all_free 2 refl
      (omega arith)

-- The process that is a child of the second fork serves the second handler.
second_child : operate_role (λ i. if i == 2 then in_child else in_parent) ≡ handler 2
unfolding operate_role
second_child = refl

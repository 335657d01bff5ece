-- ===== src/Client/Socket.antt =====
-- getGlobalSocket: the search for a free port.
use iiw_udp_gbn.Base.{
  ℕ, zero, suc, ◌+◌, ◌%◌, ◌<◌, ◌≡◌, refl, ap, List, [], ◌∷◌, ◌++◌, Option, none, some, arith,
  replicate, if◌then◌else◌, if_no, ◌∙◌,
}
use iiw_udp_gbn.Base.Int.{ℤ, pos, negsuc, ltb_ℤ}

-- What a call of bind answers; `in_use` is EADDRINUSE or EADDRNOTAVAIL, `refuses` any other error.
pub data BindAnswer : Type 0 where
  binds in_use refuses : BindAnswer

-- After the given answers the loop has bound a port, has returned -1, or is about to try a port.
pub data Search : Type 0 where
  bound_to : ℕ → Search
  gave_up : Search
  trying : ℕ → Search

abbrev pub min_port : ℕ
min_port = 1024

-- The port is an in_port_t of 16 bits, so `clientPort <= MAX_PORT` holds of every value and the loop's own
-- test never ends it.
unfoldable pub bind_loop : ℕ → List BindAnswer → Search
bind_loop port [] = trying port
bind_loop port (binds ∷ _) = bound_to port
bind_loop port (refuses ∷ _) = gave_up
bind_loop port (in_use ∷ answers) = bind_loop ((port + 1) % 65536) answers

-- The static globalSd and the answer of socket go in; the new globalSd and how the search stands come
-- out, or no search where a socket was made before.
unfoldable pub get_global_socket : ℤ → ℤ → List BindAnswer → ℤ × Option Search
get_global_socket global_sd made answers =
    if ltb_ℤ global_sd (pos 0)
    then (if ltb_ℤ made (pos 0)
        then (made, some gave_up)
        else (made, some (bind_loop min_port answers)))
    else (global_sd, none)

-- The return value, where the loop has ended.
abbrev pub socket_result : ℤ × Option Search → Option ℤ
socket_result (sd, none) = some sd
socket_result (sd, some (bound_to port)) = some sd
socket_result (sd, some gave_up) = some (negsuc 0)
socket_result (sd, some (trying port)) = none

bind_loop-in_use :
    (n port : ℕ) (rest : List BindAnswer)
    → port < 65536
    → bind_loop port (replicate n in_use ++ rest) ≡ bind_loop ((port + n) % 65536) rest
unfolding bind_loop
bind_loop-in_use zero port rest h = ap (λ (p : ℕ). bind_loop p rest) (omega arith)
bind_loop-in_use (suc n) port rest h =
    bind_loop-in_use n ((port + 1) % 65536) rest (omega arith)
    ∙ ap (λ (p : ℕ). bind_loop p rest) (omega arith)

-- While n ports from 1024 on are in use, the search goes on to the n-th one behind, counted round from
-- 65535 to 0 and without end: a port that can be bound there is the one it takes, an error that is no
-- busy port ends it with -1, and else it has still not ended.
-- No socket was made before, and socket has made one.
pub get_global_socket_search :
    (n : ℕ) (global_sd made : ℕ) (rest : List BindAnswer)
    → let port = (1024 + n) % 65536 in
      let busy = replicate n in_use in
      (get_global_socket (negsuc global_sd) (pos made) (busy ++ binds ∷ rest)
        ≡ (pos made, some (bound_to port)))
      × (get_global_socket (negsuc global_sd) (pos made) (busy ++ refuses ∷ rest)
          ≡ (pos made, some gave_up))
      × (get_global_socket (negsuc global_sd) (pos made) (busy ++ [])
          ≡ (pos made, some (trying port)))
unfolding get_global_socket bind_loop
get_global_socket_search n global_sd made rest =
    let step = λ (r : List BindAnswer). bind_loop-in_use n 1024 r (omega arith) in
    (
      ground (arith, step (binds ∷ rest)),
      ground (arith, step (refuses ∷ rest)),
      ground (arith, step []),
    )

-- A search that gave up leaves its socket, which is bound to nothing: the next call returns it as if it were
-- bound, whatever bind would answer.
pub get_global_socket_again :
    (n : ℕ) (global_sd made made' : ℕ) (rest answers : List BindAnswer)
    → let first =
        get_global_socket (negsuc global_sd) (pos made) (replicate n in_use ++ refuses ∷ rest) in
      (socket_result first ≡ some (negsuc 0))
      × (socket_result (get_global_socket first.0 (pos made') answers) ≡ some (pos made))
unfolding get_global_socket
get_global_socket_again n global_sd made made' rest answers =
    rw (get_global_socket_search n global_sd made rest).1
      (refl, ap socket_result (if_no (ltb_ℤ (pos made) (pos 0)) _ _ (ground arith)))

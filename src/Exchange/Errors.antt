-- ===== src/Exchange/Errors.antt =====
-- Commands that end otherwise than the user wants: no free handler, no such file, and the texts without a
-- zero at their end.
use iiw_udp_gbn.Base.{ℕ, ◌<◌, ◌^◌, ◌≡◌, refl, Bool, List, [], ◌∷◌, ◌++◌, none, some, arith, length}
use iiw_udp_gbn.Client
use iiw_udp_gbn.Server
use iiw_udp_gbn.Client.{do_put, do_get, do_list, hs_request, get_request, put_request}
use iiw_udp_gbn.Client.Answers.{do_hand_shake-refused, do_get-unterminated, handler_at}
use iiw_udp_gbn.Protocol.{server_address, hs, op_status_e}
use iiw_udp_gbn.Server.Handlers.{AllTaken, assign_handler-taken}
use iiw_udp_gbn.Protocol.Text.{is_text-IsText, IsText, IsName, message-IsWellFormed}
use iiw_udp_gbn.Server.{
  no_free_ports, Semaphore, sem_post, assign_handler, Reply, Disk, opens, fails, put_response,
  get_response, not_found_response, hs_response, handler_port, max_client, child_round,
  father_round,
}
use iiw_udp_gbn.Server.Rounds.{father_round-hs, child_round-get_missing}
use iiw_udp_gbn.Session.{Letter, Io, Run, done, fault}
use iiw_udp_gbn.Session.Steps.{letter}
use iiw_udp_gbn.SortingTable.{Address}

-- The i-th handler, with a client at `me`.
module _ (me : Address) (i : ℕ) (s : Semaphore) (program_name : List ℕ) (disk : Disk)
    (rest out restc outc : List Letter) where
  -- A GET of a file that the server cannot open: the handler sends the text of the error, raises its
  -- semaphore and goes on; but the text has no zero at its end, so the client, which prints it as a
  -- string, reads beyond the payload. The text is not empty, holds no zero byte and fits an int. The
  -- handler is one of the five, and the name holds no zero byte and fits an int with its zero.
  pub get_exchange_missing :
      (name text : List ℕ) (b : ℕ) (creates : Bool)
      → i < max_client
      → IsName name
      → disk.readable ≡ fails (b ∷ text)
      → IsText (b ∷ text)
      → length (b ∷ text) < 2 ^ 31
      → let peer = handler_at (handler_port i) in
        (child_round program_name disk s
            (record { incoming = letter me (get_request name) ∷ restc; outgoing = outc })
          ≡ done
              (Server.failed, sem_post s)
              (record {
                incoming = restc;
                outgoing = outc ++ letter me (not_found_response (b ∷ text)) ∷ [];
              }))
        × (do_get (some name) creates (record {
          incoming =
              letter server_address (hs_response (some i))
              ∷ letter peer (not_found_response (b ∷ text))
              ∷ rest;
          outgoing = out;
        })
            ≡ fault)
  get_exchange_missing name text b creates below n readable is_text fits = (
    child_round-get_missing program_name disk s me name (b ∷ text) restc outc n readable fits,
    do_get-unterminated (handler_port i) b name text _ creates rest out (omega arith) n is_text fits
        (omega arith) refl,
  )

-- A handshake while no handler can be taken: the father changes no semaphore and answers with an error,
-- and each command of the client, with a file name and a file that can be read, ends with -1 at once,
-- having sent nothing but the handshake.
pub busy_exchange :
    (me : Address) (handlers : List Semaphore) (name : List ℕ) (chunks : List (List ℕ))
    (creates : Bool) (rest out restf outf : List Letter)
    → AllTaken handlers
    → let answered : Io = record {
      incoming = letter server_address (hs_response none) ∷ rest;
      outgoing = out;
    } in
      let over : Run Client.Outcome =
        done Client.failed
          (record { incoming = rest; outgoing = out ++ letter server_address hs_request ∷ [] }) in
      (father_round handlers (record { incoming = letter me hs_request ∷ restf; outgoing = outf })
        ≡ done handlers
            (record { incoming = restf; outgoing = outf ++ letter me (hs_response none) ∷ [] }))
      × (do_put (some name) (some chunks) answered ≡ over)
      × (do_get (some name) creates answered ≡ over)
      × (do_list answered ≡ over)
unfolding do_put do_get do_list
busy_exchange me handlers name chunks creates rest out restf outf taken =
    let no_handler =
      do_hand_shake-refused op_status_e no_free_ports rest out (is_text-IsText no_free_ports refl)
        (omega arith) (omega arith) refl in
    (
      rw (assign_handler-taken handlers taken) at (
          father_round-hs handlers me hs_request restf outf
            (message-IsWellFormed hs _ _ (omega arith) (omega arith)) refl),
      rw no_handler refl,
      rw no_handler refl,
      rw no_handler refl,
    )

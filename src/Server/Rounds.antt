-- ===== src/Server/Rounds.antt =====
-- One round of the father or of a child, for the letters that a client sends.
use mathlib.Core.List.{append_assoc}
use iiw_udp_gbn.Base.{
  ℕ, ◌<◌, ◌^◌, ◌≡◌, refl, true, false, List, [], ◌∷◌, ◌++◌, Option, none, some, arith, length, All,
  if_yes, if_no,
}
use iiw_udp_gbn.Base.Int.{eqb_ℤ}
use iiw_udp_gbn.FileTransfer.Chunks.{
  IsReading, chunk_letters, answer_letters, send_file-done, receive_file-done,
}
use iiw_udp_gbn.Message.{Message}
use iiw_udp_gbn.Message.RoundTrip.{IsWellFormed}
use iiw_udp_gbn.Protocol.{put, get, list, hs, command_code, op_status_ok, message, terminated}
use iiw_udp_gbn.Protocol.Text.{
  payload_string-terminated, message-IsWellFormed, IsName, request-IsWellFormed,
}
use iiw_udp_gbn.Server.{
  Semaphore, sem_post, assign_handler, Reply, failed, succeeded, Disk, opens, fails, put_response,
  get_response, not_found_response, list_response, incorrect_response, hs_response, do_put, do_get,
  do_list, perform, child_round, father_round,
}
use iiw_udp_gbn.Server.Listing.Text.{IsStable, regular, text_of, listing-text_of}
use iiw_udp_gbn.Session.{Letter, Io, done}
use iiw_udp_gbn.Session.Steps.{letter, send_message-done, receive_message-done}
use iiw_udp_gbn.SortingTable.{Address}
use iiw_udp_gbn.Wire.{store_port}

hs_response-IsWellFormed : (free : Option ℕ) → IsWellFormed (hs_response free)
unfolding store_port
hs_response-IsWellFormed none = message-IsWellFormed hs _ _ (omega arith) (omega arith)
hs_response-IsWellFormed (some i) = message-IsWellFormed hs _ _ (omega arith) (omega arith)

pub father_round-hs :
    (handlers : List Semaphore) (client : Address) (msg : Message) (rest out : List Letter)
    → IsWellFormed msg
    → eqb_ℤ msg.message_header.command (command_code hs) ≡ true
    → father_round handlers (record { incoming = letter client msg ∷ rest; outgoing = out }) ≡ (
        let (free, handlers') = assign_handler handlers in
        done handlers'
          (record { incoming = rest; outgoing = out ++ letter client (hs_response free) ∷ [] }))
unfolding father_round
father_round-hs handlers client msg rest out w e = rw (receive_message-done client msg rest out w) (
    rw (if_yes _ _ _ e) (
      rw
        (send_message-done client (hs_response (assign_handler handlers).0) _
          (hs_response-IsWellFormed _))
        refl))

pub father_round-other :
    (handlers : List Semaphore) (client : Address) (msg : Message) (rest out : List Letter)
    → IsWellFormed msg
    → eqb_ℤ msg.message_header.command (command_code hs) ≡ false
    → father_round handlers (record { incoming = letter client msg ∷ rest; outgoing = out })
      ≡ done handlers
          (record { incoming = rest; outgoing = out ++ letter client incorrect_response ∷ [] })
unfolding father_round
father_round-other handlers client msg rest out w e =
    rw (receive_message-done client msg rest out w) (
      rw (if_no _ _ _ e) (
        rw
          (send_message-done client incorrect_response _
            (message-IsWellFormed hs _ _ (omega arith) (omega arith)))
          refl))

pub do_put-done :
    (client : Address) (name file : List ℕ) (chunks : List (List ℕ)) (rest out : List Letter)
    → IsName name
    → IsReading file chunks
    → do_put client
        (some name)
        true
        (record { incoming = chunk_letters client chunks ++ rest; outgoing = out })
      ≡ done
          (record succeeded { stored = some file })
          (record {
            incoming = rest;
            outgoing = out ++ letter client (put_response name) ∷ answer_letters client chunks;
          })
unfolding do_put
do_put-done client name file chunks rest out (_, h) reading =
    rw
      (send_message-done client (put_response name) _
        (message-IsWellFormed put _ name (omega arith) (omega arith)))
      (rw (receive_file-done client file [] chunks rest _ reading) (rw (append_assoc out) refl))

pub do_get-done :
    (client : Address) (name file : List ℕ) (chunks : List (List ℕ)) (rest out : List Letter)
    → IsReading file chunks
    → do_get client
        (some name)
        (opens chunks)
        (record { incoming = answer_letters client chunks ++ rest; outgoing = out })
      ≡ done succeeded (record {
        incoming = rest;
        outgoing =
            out
            ++ letter client get_response
              ∷ (chunk_letters client chunks ++ letter client get_response ∷ []);
      })
unfolding do_get
do_get-done client name file chunks rest out reading =
    let w = message-IsWellFormed get op_status_ok [] (omega arith) (omega arith) in
    rw (send_message-done client get_response _ w) (
      rw (send_file-done client file chunks rest _ reading)
        (rw (send_message-done client get_response _ w) (rw (append_assoc, append_assoc) refl)))

-- A child passes its message to the operation of the command.
pub child_round-perform :
    (program_name : List ℕ) (disk : Disk) (s : Semaphore) (client : Address) (msg : Message)
    (rest out : List Letter) (reply : Reply) (io : Io)
    → IsWellFormed msg
    → perform program_name disk msg client (record { incoming = rest; outgoing = out })
      ≡ done reply io
    → child_round program_name disk s
        (record { incoming = letter client msg ∷ rest; outgoing = out })
      ≡ done (reply, sem_post s) io
unfolding child_round
child_round-perform program_name disk s client msg rest out reply io w e =
    rw (receive_message-done client msg rest out w) (rw e refl)

pub child_round-put :
    (program_name : List ℕ) (disk : Disk) (s : Semaphore) (client : Address) (name file : List ℕ)
    (chunks : List (List ℕ)) (rest out : List Letter)
    → IsName name
    → disk.writable ≡ true
    → IsReading file chunks
    → child_round program_name disk s (record {
      incoming =
          letter client (message put op_status_ok (terminated name))
          ∷ (chunk_letters client chunks ++ rest);
      outgoing = out;
    })
      ≡ done
          (record succeeded { stored = some file }, sem_post s)
          (record {
            incoming = rest;
            outgoing = out ++ letter client (put_response name) ∷ answer_letters client chunks;
          })
unfolding perform
child_round-put program_name disk s client name file chunks rest out (text, h) e reading =
    child_round-perform program_name disk s client _ _ out _ _
      (request-IsWellFormed put name (text, h))
      (rw (payload_string-terminated name text)
        (rw e (do_put-done client name file chunks rest out (text, h) reading)))

pub child_round-get :
    (program_name : List ℕ) (disk : Disk) (s : Semaphore) (client : Address) (name file : List ℕ)
    (chunks : List (List ℕ)) (rest out : List Letter)
    → IsName name
    → disk.readable ≡ opens chunks
    → IsReading file chunks
    → child_round program_name disk s (record {
      incoming =
          letter client (message get op_status_ok (terminated name))
          ∷ (answer_letters client chunks ++ rest);
      outgoing = out;
    })
      ≡ done
          (succeeded, sem_post s)
          (record {
            incoming = rest;
            outgoing =
                out
                ++ letter client get_response
                  ∷ (chunk_letters client chunks ++ letter client get_response ∷ []);
          })
unfolding perform
child_round-get program_name disk s client name file chunks rest out (text, h) e reading =
    child_round-perform program_name disk s client _ _ out _ _
      (request-IsWellFormed get name (text, h))
      (rw (payload_string-terminated name text)
        (rw e (do_get-done client name file chunks rest out reading)))

pub child_round-get_missing :
    (program_name : List ℕ) (disk : Disk) (s : Semaphore) (client : Address)
    (name error_message : List ℕ) (rest out : List Letter)
    → IsName name
    → disk.readable ≡ fails error_message
    → length error_message < 2 ^ 31
    → child_round program_name disk s (record {
      incoming = letter client (message get op_status_ok (terminated name)) ∷ rest;
      outgoing = out;
    })
      ≡ done
          (failed, sem_post s)
          (record {
            incoming = rest;
            outgoing = out ++ letter client (not_found_response error_message) ∷ [];
          })
unfolding perform do_get
child_round-get_missing program_name disk s client name error_message rest out (text, h) e fits =
    child_round-perform program_name disk s client _ _ out _ _
      (request-IsWellFormed get name (text, h))
      (rw (payload_string-terminated name text) (
        rw e (
          rw
            (send_message-done client (not_found_response error_message) _
              (message-IsWellFormed get _ error_message (omega arith) fits))
            refl)))

pub child_round-list :
    (program_name : List ℕ) (disk : Disk) (s : Semaphore) (client : Address)
    (separator text : List ℕ) (rest out : List Letter)
    → IsName separator
    → All IsStable disk.entries
    → text_of program_name separator (regular disk.entries) ≡ text
    → length text < 2 ^ 31
    → child_round program_name disk s (record {
      incoming = letter client (message list op_status_ok (terminated separator)) ∷ rest;
      outgoing = out;
    })
      ≡ done
          (succeeded, sem_post s)
          (record { incoming = rest; outgoing = out ++ letter client (list_response text) ∷ [] })
unfolding perform do_list
child_round-list program_name disk s client separator text rest out (t, h) stable e fits =
    child_round-perform program_name disk s client _ _ out _ _
      (request-IsWellFormed list separator (t, h))
      (rw (payload_string-terminated separator t) (
        rw (listing-text_of program_name separator disk.entries stable) (
          rw e (
            rw
              (send_message-done client (list_response text) _
                (message-IsWellFormed list _ text (omega arith) fits))
              refl))))

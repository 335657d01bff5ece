-- ===== src/Client/Answers.antt =====
-- The commands of the client, for the letters that a server sends.
use mathlib.Core.List.{append_assoc, append-nil}
use iiw_udp_gbn.Base.{
  none, ℕ, ◌<◌, ◌^◌, ◌≡◌, refl, Bool, true, false, List, [], ◌∷◌, ◌++◌, some, arith, length, if_no,
}
use iiw_udp_gbn.Base.Int.{ℤ, IsInt, eqb_ℤ}
use iiw_udp_gbn.Client.{
  succeeded, hs_request, do_hand_shake, list_request, do_list, get_request, do_get, put_request,
  do_put,
}
use iiw_udp_gbn.FileTransfer.Chunks.{
  IsReading, chunk_letters, answer_letters, send_file-done, receive_file-done,
}
use iiw_udp_gbn.Message.RoundTrip.{IsWellFormed}
use iiw_udp_gbn.Protocol.{put, get, list, hs, command_code, op_status_ok, message, server_address}
use iiw_udp_gbn.Protocol.{terminated}
use iiw_udp_gbn.Protocol.Text.{
  payload_string-terminated, IsText, payload_string-terminated, payload_string-none,
  message-IsWellFormed, IsName, request-IsWellFormed,
}
use iiw_udp_gbn.Session.{Letter, done, fault}
use iiw_udp_gbn.Session.Steps.{letter, send_message-done, await-done}
use iiw_udp_gbn.SortingTable.{Address}
use iiw_udp_gbn.Wire.{store_port, load_port, load_port-store_port}

-- The handler's address, and the letter that assigns it.
abbrev pub handler_at : ℕ → Address
handler_at port = record server_address { port = port }

abbrev pub assignment : ℕ → Letter
assignment port = letter server_address (message hs op_status_ok (store_port port))

assignment-IsWellFormed : (port : ℕ) → IsWellFormed (message hs op_status_ok (store_port port))
unfolding store_port
assignment-IsWellFormed port = message-IsWellFormed hs _ _ (omega arith) (omega arith)

load_stored : (port : ℕ) → port < 2 ^ 16 → load_port (store_port port) ≡ some (port, [])
load_stored port h = rw append-nil at (load_port-store_port port [] h)

pub do_hand_shake-done :
    (port : ℕ) (rest out : List Letter)
    → port < 2 ^ 16
    → do_hand_shake (record { incoming = assignment port ∷ rest; outgoing = out })
      ≡ done
          (some (handler_at port))
          (record { incoming = rest; outgoing = out ++ letter server_address hs_request ∷ [] })
unfolding do_hand_shake
do_hand_shake-done port rest out h =
    rw
      (send_message-done server_address hs_request _
        (message-IsWellFormed hs _ _ (omega arith) (omega arith)))
      (rw (await-done (command_code hs) server_address _ rest _ (assignment-IsWellFormed port) refl)
        (rw (load_stored port h) refl))

pub do_put-exchange :
    (port : ℕ) (name file text : List ℕ) (chunks : List (List ℕ)) (rest out : List Letter)
    → port < 2 ^ 16
    → IsName name
    → length text < 2 ^ 31
    → IsReading file chunks
    → let peer = handler_at port in
      do_put (some name) (some chunks) (record {
        incoming =
            assignment port
            ∷ letter peer (message put op_status_ok text)
            ∷ (answer_letters peer chunks ++ rest);
        outgoing = out;
      })
      ≡ done succeeded (record {
        incoming = rest;
        outgoing =
            out
            ++ letter server_address hs_request
              ∷ letter peer (put_request name)
              ∷ chunk_letters peer chunks;
      })
unfolding do_put
do_put-exchange port name file text chunks rest out h n fits reading =
    let peer = handler_at port in
    rw (do_hand_shake-done port _ out h) (
      rw (send_message-done peer (put_request name) _ (request-IsWellFormed put name n)) (
        rw
          (await-done (command_code put) peer (message put op_status_ok text)
            (answer_letters peer chunks ++ rest) _
            (message-IsWellFormed put _ text (omega arith) fits) refl)
          (rw (send_file-done peer file chunks rest _ reading)
            (rw (append_assoc, append_assoc) refl))))

pub do_get-exchange :
    (port : ℕ) (name file : List ℕ) (chunks : List (List ℕ)) (rest out : List Letter)
    → port < 2 ^ 16
    → IsName name
    → IsReading file chunks
    → let peer = handler_at port in
      let answer = letter peer (message get op_status_ok []) in
      do_get (some name) true (record {
        incoming = assignment port ∷ answer ∷ (chunk_letters peer chunks ++ answer ∷ rest);
        outgoing = out;
      })
      ≡ done
          (record succeeded { stored = some file })
          (record {
            incoming = rest;
            outgoing =
                out
                ++ letter server_address hs_request
                  ∷ letter peer (get_request name)
                  ∷ answer_letters peer chunks;
          })
unfolding do_get
do_get-exchange port name file chunks rest out h n reading =
    let peer = handler_at port in
    let answer = message get op_status_ok [] in
    let w = message-IsWellFormed get op_status_ok [] (omega arith) (omega arith) in
    rw (do_hand_shake-done port _ out h) (
      rw (send_message-done peer (get_request name) _ (request-IsWellFormed get name n)) (
        rw
          (await-done (command_code get) peer answer
            (chunk_letters peer chunks ++ letter peer answer ∷ rest) _ w refl)
          (rw (receive_file-done peer file [] chunks (letter peer answer ∷ rest) _ reading) (
            rw (await-done (command_code get) peer answer rest _ w refl)
              (rw (append_assoc, append_assoc) refl)))))

-- The refusal of a request, or the list of the names: a text without the zero at its end.
pub do_get-unterminated :
    (port b : ℕ) (name text : List ℕ) (status : ℤ) (opens : Bool) (rest out : List Letter)
    → port < 2 ^ 16
    → IsName name
    → IsText (b ∷ text)
    → length (b ∷ text) < 2 ^ 31
    → IsInt status
    → eqb_ℤ status op_status_ok ≡ false
    → do_get (some name) opens (record {
      incoming = assignment port ∷ letter (handler_at port) (message get status (b ∷ text)) ∷ rest;
      outgoing = out;
    })
      ≡ fault
unfolding do_get
do_get-unterminated port b name text status opens rest out h n t fits s e =
    let peer = handler_at port in
    rw (do_hand_shake-done port _ out h) (
      rw (send_message-done peer (get_request name) _ (request-IsWellFormed get name n)) (
        rw
          (await-done (command_code get) peer (message get status (b ∷ text)) rest _
            (message-IsWellFormed get status (b ∷ text) s fits) refl)
          (rw (if_no _ _ _ e) (rw (payload_string-none b text t) refl))))

pub do_list-unterminated :
    (port b : ℕ) (text : List ℕ) (rest out : List Letter)
    → port < 2 ^ 16
    → IsText (b ∷ text)
    → length (b ∷ text) < 2 ^ 31
    → do_list (record {
      incoming =
          assignment port ∷ letter (handler_at port) (message list op_status_ok (b ∷ text)) ∷ rest;
      outgoing = out;
    })
      ≡ fault
unfolding do_list
do_list-unterminated port b text rest out h t fits =
    let peer = handler_at port in
    rw (do_hand_shake-done port _ out h) (
      rw
        (send_message-done peer list_request _
          (message-IsWellFormed list _ _ (omega arith) (omega arith)))
        (rw
          (await-done (command_code list) peer (message list op_status_ok (b ∷ text)) rest _
            (message-IsWellFormed list op_status_ok (b ∷ text) (omega arith) fits) refl)
          (rw (payload_string-none b text t) refl)))

-- A handshake that is refused, with a text that has its zero.
pub do_hand_shake-refused :
    (status : ℤ) (text : List ℕ) (rest out : List Letter)
    → IsText text
    → length (terminated text) < 2 ^ 31
    → IsInt status
    → eqb_ℤ status op_status_ok ≡ false
    → do_hand_shake (record {
      incoming = letter server_address (message hs status (terminated text)) ∷ rest;
      outgoing = out;
    })
      ≡ done none
          (record { incoming = rest; outgoing = out ++ letter server_address hs_request ∷ [] })
unfolding do_hand_shake
do_hand_shake-refused status text rest out t fits s e =
    rw
      (send_message-done server_address hs_request _
        (message-IsWellFormed hs _ _ (omega arith) (omega arith)))
      (rw
        (await-done (command_code hs) server_address _ rest _
          (message-IsWellFormed hs status _ s fits) refl)
        (rw (if_no _ _ _ e) (rw (payload_string-terminated text t) refl)))

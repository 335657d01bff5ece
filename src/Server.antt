-- ===== src/Server.antt =====
-- logic/server/main.c: the handlers that a handshake assigns, and the loop of the father, which answers
-- handshakes, and of a child, which is a handler. What open and readdir answer is an argument.
pub mod Listing
pub mod Handlers
pub mod Pool
pub mod Rounds
pub mod Setup
mod Tests
use iiw_udp_gbn.Base.{
  ℕ, zero, suc, ◌+◌, Bool, List, [], ◌∷◌, ◌++◌, Option, none, some, if◌then◌else◌,
}
use iiw_udp_gbn.Base.Int.{ℤ, pos, negsuc, eqb_ℤ}
use iiw_udp_gbn.FileTransfer.{send_file, receive_file}
use iiw_udp_gbn.Message.{Message}
use iiw_udp_gbn.Protocol.{
  DmProtocolCommand, put, get, list, hs, command_code, op_status_ok, op_status_e,
  op_status_e_file_not_found, op_status_incorrect, default_server_port, message, payload_string,
  terminated,
}
use iiw_udp_gbn.Server.Listing.{Entry, listing}
use iiw_udp_gbn.Session.{Run, M, ◌>>=◌, ◌>>◌, return, attempt, send_message, receive_message}
use iiw_udp_gbn.SortingTable.{Address}
use iiw_udp_gbn.Wire.{store_port}

-- The semaphore s_busy of a handler; sem_trywait on a `broken` one fails with another error than EAGAIN.
pub data Semaphore : Type 0 where
  counting : ℕ → Semaphore
  broken : Semaphore

abbrev pub max_client : ℕ
max_client = 5

-- What main leaves in the array behind the father's own entry.
abbrev pub new_handlers : ℕ → List Semaphore
new_handlers zero = []
new_handlers (suc n) = counting 1 ∷ new_handlers n

abbrev pub sem_trywait : Semaphore → Option Semaphore
sem_trywait (counting zero) = none
sem_trywait (counting (suc n)) = some (counting n)
sem_trywait broken = none

abbrev pub sem_post : Semaphore → Semaphore
sem_post (counting n) = counting (suc n)
sem_post broken = broken

-- One round of the loop of assignHandler, with the answer of sem_trywait and what the later rounds give.
abbrev pub assign_round :
    ℕ
    → Semaphore
    → List Semaphore
    → Option Semaphore
    → Option ℕ × List Semaphore
    → Option ℕ × List Semaphore
assign_round i s rest (some s') later = (some i, s' ∷ rest)
assign_round i s rest none (found, rest') = (found, s ∷ rest')

-- The loop from the index `i` on; `none` is the return value -1.
unfoldable pub assign_loop : ℕ → List Semaphore → Option ℕ × List Semaphore
assign_loop i [] = (none, [])
assign_loop i (s ∷ rest) = assign_round i s rest (sem_trywait s) (assign_loop (i + 1) rest)

unfoldable pub assign_handler : List Semaphore → Option ℕ × List Semaphore
unfolding assign_loop
assign_handler handlers = assign_loop 0 handlers

-- What an operation leaves: its return value, and the content of the file that it opened for writing.
pub record Reply : Type 0 where
  pub code : ℤ
  pub stored : Option (List ℕ)

abbrev pub failed : Reply
failed = record { code = negsuc 0; stored = none }

abbrev pub succeeded : Reply
succeeded = record { code = pos 0; stored = none }

-- The reply to PUT carries the file's name, without the zero at its end.
abbrev pub put_response : List ℕ → Message
put_response filename = message put op_status_ok filename

unfoldable pub do_put : Address → Option (List ℕ) → Bool → M Reply
do_put client none opens = return failed
do_put client (some filename) opens =
    if opens
    then (send_message client (put_response filename) >> receive_file [] >>= λ content.
        return (record succeeded { stored = some content }))
    else return failed

-- What open and read answer for a file: the text of the error, or the chunks that the reads return.
pub data Opening : Type 0 where
  fails : List ℕ → Opening
  opens : List (List ℕ) → Opening

abbrev pub get_response : Message
get_response = message get op_status_ok []

-- The text of strerror goes without the zero at its end.
abbrev pub not_found_response : List ℕ → Message
not_found_response error_message = message get op_status_e_file_not_found error_message

unfoldable pub do_get : Address → Option (List ℕ) → Opening → M Reply
do_get client none opening = return failed
do_get client (some filename) (fails error_message) =
    send_message client (not_found_response error_message) >> return failed
do_get client (some filename) (opens chunks) =
    send_message client get_response
    >> send_file client chunks
    >> send_message client get_response
    >> return succeeded

abbrev pub list_response : List ℕ → Message
list_response text = message list op_status_ok text

-- strlen of a null separator is a fault.
unfoldable pub do_list : List ℕ → Address → Option (List ℕ) → List Entry → M Reply
do_list program_name client separator entries = do
  text ← attempt (listing program_name separator entries)
  send_message client (list_response text)
  return succeeded

-- The file system as one request finds it.
pub record Disk : Type 0 where
  pub writable : Bool
  pub readable : Opening
  pub entries : List Entry

-- The switch over the command, for a message from `client`.
unfoldable pub perform : List ℕ → Disk → Message → Address → M Reply
perform program_name disk msg client =
    let code = msg.message_header.command in
    let text = attempt (payload_string msg.payload) in
    let on_put : M Reply = text >>= λ name. do_put client name disk.writable in
    let on_get : M Reply = text >>= λ name. do_get client name disk.readable in
    let on_list : M Reply =
      text >>= λ separator. do_list program_name client separator disk.entries in
    if eqb_ℤ code (command_code put)
    then on_put
    else if eqb_ℤ code (command_code get)
    then on_get
    else if eqb_ℤ code (command_code list)
    then on_list
    else return failed

-- One round of a child, with its semaphore; an unknown command changes nothing else.
unfoldable pub child_round : List ℕ → Disk → Semaphore → M (Reply × Semaphore)
child_round program_name disk s_busy = do
  (msg, client) ← receive_message
  reply ← perform program_name disk msg client
  return (reply, sem_post s_busy)

-- "Error occured. This port is only for H-S, check it\n"
abbrev pub only_for_hs : List ℕ
only_for_hs =
    69 ∷ 114 ∷ 114 ∷ 111 ∷ 114 ∷ 32 ∷ 111 ∷ 99 ∷ 99 ∷ 117 ∷ 114 ∷ 101 ∷ 100 ∷ 46 ∷ 32 ∷ 84 ∷ 104
    ∷ 105 ∷ 115 ∷ 32 ∷ 112 ∷ 111 ∷ 114 ∷ 116 ∷ 32 ∷ 105 ∷ 115 ∷ 32 ∷ 111 ∷ 110 ∷ 108 ∷ 121 ∷ 32
    ∷ 102 ∷ 111 ∷ 114 ∷ 32 ∷ 72 ∷ 45 ∷ 83 ∷ 44 ∷ 32 ∷ 99 ∷ 104 ∷ 101 ∷ 99 ∷ 107 ∷ 32 ∷ 105 ∷ 116
    ∷ 10 ∷ []

-- "ERROR: No free ports at the moments"
abbrev pub no_free_ports : List ℕ
no_free_ports =
    69 ∷ 82 ∷ 82 ∷ 79 ∷ 82 ∷ 58 ∷ 32 ∷ 78 ∷ 111 ∷ 32 ∷ 102 ∷ 114 ∷ 101 ∷ 101 ∷ 32 ∷ 112 ∷ 111 ∷ 114
    ∷ 116 ∷ 115 ∷ 32 ∷ 97 ∷ 116 ∷ 32 ∷ 116 ∷ 104 ∷ 101 ∷ 32 ∷ 109 ∷ 111 ∷ 109 ∷ 101 ∷ 110 ∷ 116
    ∷ 115 ∷ []

abbrev pub incorrect_response : Message
incorrect_response = message hs op_status_incorrect (terminated only_for_hs)

-- The port of the i-th handler.
abbrev pub handler_port : ℕ → ℕ
handler_port i = default_server_port + (i + 1)

abbrev pub hs_response : Option ℕ → Message
hs_response none = message hs op_status_e (terminated no_free_ports)
hs_response (some i) = message hs op_status_ok (store_port (handler_port i))

-- One round of the father, with the semaphores of the handlers.
unfoldable pub father_round : List Semaphore → M (List Semaphore)
father_round handlers = do
  (msg, client) ← receive_message
  if eqb_ℤ msg.message_header.command (command_code hs)
      then (let (free_handler, handlers') = assign_handler handlers in
          send_message client (hs_response free_handler) >> return handlers')
      else (send_message client incorrect_response >> return handlers)

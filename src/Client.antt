-- ===== src/Client.antt =====
-- logic/client/controller.c and client/main.c: the commands of the client. What open answers is an
-- argument of a command, and so are the chunks that it reads; the socket is that of the session.
pub mod Socket
pub mod Answers
pub mod Commands
mod Tests
use iiw_udp_gbn.Base.{ℕ, Bool, not, List, [], ◌∷◌, Option, none, some, if◌then◌else◌}
use iiw_udp_gbn.Base.Int.{ℤ, pos, negsuc, eqb_ℤ}
use iiw_udp_gbn.FileTransfer.{send_file, receive_file}
use iiw_udp_gbn.Message.{Message}
use iiw_udp_gbn.Protocol.{
  DmProtocolCommand, unspecified, put, get, list, hs, command_code, op_status_ok, server_address,
  message, payload_string, terminated,
}
use iiw_udp_gbn.Session.{Run, M, ◌>>=◌, ◌>>◌, return, attempt, send_message, await}
use iiw_udp_gbn.SortingTable.{Address}
use iiw_udp_gbn.Wire.{load_port}

-- What a command leaves: its return value, what it printed, and the content of the file that it
-- opened for writing.
pub record Outcome : Type 0 where
  pub code : ℤ
  pub printed : Option (List ℕ)
  pub stored : Option (List ℕ)

abbrev pub failed : Outcome
failed = record { code = negsuc 0; printed = none; stored = none }

abbrev pub succeeded : Outcome
succeeded = record { code = pos 0; printed = none; stored = none }

abbrev pub is_ok : Message → Bool
is_ok msg = eqb_ℤ msg.message_header.status op_status_ok

-- An error of the server is printed with its payload as a string.
abbrev pub refused : Message → M Outcome
refused response = attempt (payload_string response.payload) >> return failed

abbrev pub hs_request : Message
hs_request = message hs op_status_ok []

-- The address of the handler that the server assigns; `none` is -1.
unfoldable pub do_hand_shake : M (Option Address)
do_hand_shake = do
  send_message server_address hs_request
  response ← await (command_code hs)
  if is_ok response
      then (attempt (load_port response.payload) >>= λ (port, _).
          return (some (record server_address { port = port })))
      else (attempt (payload_string response.payload) >> return none)

-- The part of a command that follows a handshake.
abbrev pub with_handler : (Address → M Outcome) → M Outcome
with_handler k =
    do_hand_shake >>= λ assigned. elim assigned [ none ↦ return failed | some handler ↦ k handler ]

-- FILENAME_DEL
abbrev pub filename_del : List ℕ
filename_del = 10 ∷ []

abbrev pub list_request : Message
list_request = message list op_status_ok (terminated filename_del)

unfoldable pub do_list : M Outcome
do_list = with_handler (λ handler. do
  send_message handler list_request
  response ← await (command_code list)
  if is_ok response
      then (attempt (payload_string response.payload) >>= λ text.
          return (record succeeded { printed = text }))
      else refused response)

abbrev pub get_request : List ℕ → Message
get_request name = message get op_status_ok (terminated name)

-- `opens` tells whether open has made the file; its failure is not looked at, and the writes fail.
unfoldable pub do_get : Option (List ℕ) → Bool → M Outcome
do_get none opens = return failed
do_get (some name) opens = with_handler (λ handler. do
  send_message handler (get_request name)
  response ← await (command_code get)
  if is_ok response
      then (receive_file [] >>= λ content. await (command_code get) >>= λ final.
          let written = if opens then some content else none in
          if is_ok final
          then return (record succeeded { stored = written })
          else (refused final >>= λ (o : Outcome). return (record o { stored = written })))
      else refused response)

abbrev pub put_request : List ℕ → Message
put_request name = message put op_status_ok (terminated name)

-- `opened` are the chunks that the reads of the opened file return, `none` if it cannot be opened.
unfoldable pub do_put : Option (List ℕ) → Option (List (List ℕ)) → M Outcome
do_put none opened = return failed
do_put (some name) opened = with_handler (λ handler. elim opened [
  | none ↦ return failed
  | some chunks ↦ do
    send_message handler (put_request name)
    response ← await (command_code put)
    if is_ok response then (send_file handler chunks >> return succeeded) else refused response
])

-- The files that the arguments name, as open finds them.
pub record Files : Type 0 where
  pub opens : Bool
  pub opened : Option (List (List ℕ))

unfoldable pub do_command : DmProtocolCommand → Option (List ℕ) → Files → M Outcome
do_command put arg files = do_put arg files.opened
do_command get arg files = do_get arg files.opens
do_command list arg files = do_list
do_command _ arg files = return failed

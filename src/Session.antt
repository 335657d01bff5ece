-- ===== src/Session.antt =====
-- logic/dm_protocol/dm_protocol.c: sendMessageDMProtocol and receiveMessageDMProtocol, for a process
-- that talks to others over one socket. A letter is the bytes of one message with the address of the
-- other side, its sender where it comes in and its destination where it goes out.
pub mod Steps
pub mod Carriage
mod Tests
use iiw_udp_gbn.Base.{ℕ, Bool, true, false, List, [], ◌∷◌, ◌++◌, Option, none, some, if◌then◌else◌}
use iiw_udp_gbn.Base.Int.{ℤ, pos, eqb_ℤ}
use iiw_udp_gbn.Message.{Message, serialize_message, deserialize_message}
use iiw_udp_gbn.SortingTable.{Address}

pub record Letter : Type 0 where
  pub peer : Address
  pub bytes : List ℕ

-- The letters that are still to come in, and those that went out.
pub record Io : Type 0 where
  pub incoming : List Letter
  pub outgoing : List Letter

-- A call has returned, waits for a letter (or a chunk of its file) that does not come, or has faulted.
pub data Run {ℓ} (A : Type ℓ) : Type ℓ where
  done : A → Io → Run A
  waiting : Io → Run A
  fault : Run A

abbrev pub M {ℓ} : Type ℓ → Type ℓ
M A = Io → Run A

abbrev pub run_then {ℓ κ} : {A : Type ℓ} {B : Type κ} → Run A → (A → M B) → Run B
run_then (done a io) f = f a io
run_then (waiting io) f = waiting io
run_then fault f = fault

infixl 5 ◌>>=◌ ◌>>◌
abbrev pub ◌>>=◌ {ℓ κ} : {A : Type ℓ} {B : Type κ} → M A → (A → M B) → M B
◌>>=◌ m f io = run_then (m io) f

abbrev pub ◌>>◌ {ℓ κ} : {A : Type ℓ} {B : Type κ} → M A → M B → M B
m >> k = m >>= λ _. k

abbrev pub return {ℓ} : {A : Type ℓ} → A → M A
return a io = done a io

-- A step that may fault.
abbrev pub attempt {ℓ} : {A : Type ℓ} → Option A → M A
attempt (some a) io = done a io
attempt none io = fault

abbrev pub or_fault {ℓ κ} : {A : Type ℓ} {B : Type κ} → Option A → (A → Run B) → Run B
or_fault none k = fault
or_fault (some a) k = k a

abbrev pub post : Letter → M (Unit {0})
post l io = done tt (record io { outgoing = io.outgoing ++ l ∷ [] })

-- sendMessageDMProtocol, which returns 0 whatever sendMessageGbn answers.
unfoldable pub send_message : Address → Message → M (Unit {0})
send_message dest msg = do
  bytes ← attempt (serialize_message msg)
  post (record { peer = dest; bytes = bytes })

abbrev pub next_letter : M Letter
next_letter io = elim io.incoming [
  | [] ↦ waiting io
  | l ∷ rest ↦ done l (record io { incoming = rest })
]

-- receiveMessageDMProtocol, which always returns 0: the message and who has sent it.
unfoldable pub receive_message : M (Message × Address)
receive_message = do
  l ← next_letter
  msg ← attempt (deserialize_message l.bytes)
  return (msg, l.peer)

-- The loops that receive until a message has the given command.
abbrev pub await_loop : ℤ → List Letter → List Letter → Run Message
await_loop command [] out = waiting (record { incoming = []; outgoing = out })
await_loop command (l ∷ rest) out =
    let more = await_loop command rest out in
    or_fault (deserialize_message l.bytes) (λ msg.
      if eqb_ℤ msg.message_header.command command
      then done msg (record { incoming = rest; outgoing = out })
      else more)

unfoldable pub await : ℤ → M Message
await command io = await_loop command io.incoming io.outgoing

-- ===== src/Session/Steps.antt =====
-- One step of a session, where its message is well formed or its letter holds such a message.
use iiw_udp_gbn.Base.{◌≡◌, refl, arith, true, List, [], ◌∷◌, ◌++◌}
use iiw_udp_gbn.Base.Int.{ℤ, eqb_ℤ}
use iiw_udp_gbn.Message.{Message}
use iiw_udp_gbn.Message.RoundTrip.{
  IsWellFormed, wire_of, serialize_message-wire_of, deserialize_message-wire_of_self,
}
use iiw_udp_gbn.Session.{
  Letter, Io, Run, M, run_then, done, waiting, fault, send_message, receive_message, await,
}
use iiw_udp_gbn.SortingTable.{Address}

-- The letter that carries a message.
abbrev pub letter : Address → Message → Letter
letter peer msg = record { peer = peer; bytes = wire_of msg }

-- A sequence that has returned has gone through a result of its first part.
pub run_then-done {ℓ κ} :
    {A : Type ℓ} {B : Type κ} (r : Run A) (f : A → M B) (b : B) (io : Io)
    → run_then r f ≡ done b io
    → (a : A) × (io₁ : Io) × (r ≡ done a io₁) × (f a io₁ ≡ done b io)
run_then-done (done a io₁) f b io h = (a, io₁, refl, h)
run_then-done (waiting io₁) f b io h = absurd (ground arith)
run_then-done fault f b io h = absurd (ground arith)

pub send_message-done :
    (dest : Address) (msg : Message) (io : Io)
    → IsWellFormed msg
    → send_message dest msg io
      ≡ done tt (record io { outgoing = io.outgoing ++ letter dest msg ∷ [] })
unfolding send_message
send_message-done dest msg io w = rw (serialize_message-wire_of msg w) refl

pub receive_message-done :
    (peer : Address) (msg : Message) (rest out : List Letter)
    → IsWellFormed msg
    → receive_message (record { incoming = letter peer msg ∷ rest; outgoing = out })
      ≡ done (msg, peer) (record { incoming = rest; outgoing = out })
unfolding receive_message
receive_message-done peer msg rest out w = rw (deserialize_message-wire_of_self msg w) refl

pub await-done :
    (command : ℤ) (peer : Address) (msg : Message) (rest out : List Letter)
    → IsWellFormed msg
    → eqb_ℤ msg.message_header.command command ≡ true
    → await command (record { incoming = letter peer msg ∷ rest; outgoing = out })
      ≡ done msg (record { incoming = rest; outgoing = out })
unfolding await
await-done command peer msg rest out w e = rw (deserialize_message-wire_of_self msg w) (rw e refl)

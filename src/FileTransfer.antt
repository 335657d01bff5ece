-- ===== src/FileTransfer.antt =====
-- logic/dm_protocol/dm_protocol.c: sendFileDMProtocol and receiveFileDMProtocol. The chunks are what the
-- calls of read return, one list of bytes each; a failed read is repeated, so it has no place among
-- them. A write puts all of a chunk into the file.
pub mod Chunks
pub mod Reading
mod Tests
use iiw_udp_gbn.Base.{ℕ, Bool, not, List, [], ◌∷◌, ◌++◌, Option, length, ◌==◌, if◌then◌else◌}
use iiw_udp_gbn.Base.Int.{ℤ, pos}
use iiw_udp_gbn.Message.{Message, new_message, deserialize_message}
use iiw_udp_gbn.Protocol.{unspecified, command_code, op_status_ok}
use iiw_udp_gbn.Session.{
  Letter, Io, Run, done, waiting, M, ◌>>=◌, ◌>>◌, return, or_fault, run_then, send_message,
  receive_message,
}
use iiw_udp_gbn.SortingTable.{Address}
use iiw_udp_gbn.Wire.{copy_bytes}

abbrev pub max_file_chunk_size : ℕ
max_file_chunk_size = 10240

abbrev pub is_full : List ℕ → Bool
is_full chunk = length chunk == max_file_chunk_size

-- The message for a chunk.
abbrev pub chunk_message : List ℕ → Message
chunk_message chunk = record {
  message_header = record new_message.message_header {
    command = command_code unspecified;
    payload_lentgh = pos (length chunk);
    more = is_full chunk;
  };
  payload = chunk;
}

-- The loop ends behind the first chunk that is not full; without one it waits for the next read. Behind
-- each chunk one message is received, whatever it is: the test that would go on receiving begins with a
-- return value below 0, which receiveMessageDMProtocol never gives.
unfoldable pub send_file : Address → List (List ℕ) → M (Unit {0})
send_file dest [] = waiting
send_file dest (chunk ∷ chunks) =
    let rest = send_file dest chunks in
    send_message dest (chunk_message chunk)
    >> receive_message
    >> (if is_full chunk then rest else return tt)

abbrev pub chunk_has_arrived : Message
chunk_has_arrived = record new_message {
  message_header = record new_message.message_header { status = op_status_ok };
}

-- The file with one more chunk at its end; the chunk is answered to where it came from.
abbrev pub store_chunk : List ℕ → Letter → Message → List Letter → List Letter → Run (List ℕ)
store_chunk file l rcvd rest out =
    or_fault (copy_bytes rcvd.message_header.payload_lentgh rcvd.payload) (λ written.
      (send_message l.peer chunk_has_arrived >> return (file ++ written))
        (record { incoming = rest; outgoing = out }))

-- The loop of receiveFileDMProtocol over the letters, with the content of the file so far.
unfoldable pub receive_loop : List ℕ → List Letter → List Letter → Run (List ℕ)
receive_loop file [] out = waiting (record { incoming = []; outgoing = out })
receive_loop file (l ∷ rest) out = or_fault (deserialize_message l.bytes) (λ rcvd.
    run_then (store_chunk file l rcvd rest out) (λ file' io.
      let again = receive_loop file' rest io.outgoing in
      if rcvd.message_header.more then again else done file' io))

unfoldable pub receive_file : List ℕ → M (List ℕ)
unfolding receive_loop
receive_file file io = receive_loop file io.incoming io.outgoing

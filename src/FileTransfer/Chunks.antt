-- ===== src/FileTransfer/Chunks.antt =====
-- A file on its way through the messages.
use mathlib.Core.List.{append_assoc}
use iiw_udp_gbn.Base.{
  ℕ, ◌<◌, ◌≤◌, ◌≡◌, refl, true, false, List, [], ◌∷◌, ◌++◌, map, arith, length, if_yes, if_no,
}
use iiw_udp_gbn.Base.Int.{pos}
use iiw_udp_gbn.FileTransfer.{
  max_file_chunk_size, is_full, chunk_message, chunk_has_arrived, send_file, store_chunk,
  receive_loop, receive_file,
}
use iiw_udp_gbn.Message.RoundTrip.{IsWellFormed, deserialize_message-wire_of_self}
use iiw_udp_gbn.Session.{Letter, done}
use iiw_udp_gbn.Session.Steps.{letter, send_message-done, receive_message-done}
use iiw_udp_gbn.SortingTable.{Address}
use iiw_udp_gbn.Wire.{copy_bytes_self}

-- The reads of a regular file: full chunks, and at its end one that is not full, which may be empty.
pub data IsReading : List ℕ → List (List ℕ) → Type 0 where
  last : {chunk : List ℕ} → length chunk < max_file_chunk_size → IsReading chunk (chunk ∷ [])
  full :
      {chunk file : List ℕ} {chunks : List (List ℕ)}
      → length chunk ≡ max_file_chunk_size
      → IsReading file chunks
      → IsReading (chunk ++ file) (chunk ∷ chunks)

-- The letters for the chunks, and those for the answers.
abbrev pub chunk_letters : Address → List (List ℕ) → List Letter
chunk_letters peer chunks = map (λ c. letter peer (chunk_message c)) chunks

abbrev pub answer_letters : Address → List (List ℕ) → List Letter
answer_letters peer chunks = map (λ c. letter peer chunk_has_arrived) chunks

chunk_message-IsWellFormed :
    (chunk : List ℕ) → length chunk ≤ max_file_chunk_size → IsWellFormed (chunk_message chunk)
chunk_message-IsWellFormed chunk h = record {
  command = omega arith;
  status = omega arith;
  payload_lentgh = omega arith;
  carried = refl;
}

chunk_has_arrived-IsWellFormed : IsWellFormed chunk_has_arrived
chunk_has_arrived-IsWellFormed = record {
  command = omega arith;
  status = omega arith;
  payload_lentgh = omega arith;
  carried = refl;
}

pub send_file-done :
    (dest : Address) (file : List ℕ) (chunks : List (List ℕ)) (rest out : List Letter)
    → IsReading file chunks
    → send_file dest chunks
        (record { incoming = answer_letters dest chunks ++ rest; outgoing = out })
      ≡ done tt (record { incoming = rest; outgoing = out ++ chunk_letters dest chunks })
unfolding send_file
send_file-done dest file chunks rest out (last {chunk = chunk} h) =
    let short : is_full chunk ≡ false = ground arith in
    rw
      (
        send_message-done dest (chunk_message chunk) _
            (chunk_message-IsWellFormed chunk (omega arith)),
        receive_message-done dest chunk_has_arrived rest _ chunk_has_arrived-IsWellFormed,
      )
      (rw (if_no (is_full chunk) _ _ short) refl)
send_file-done dest file chunks rest out
      (full {chunk = chunk} {file = file'} {chunks = cs} h reading) =
    let more : is_full chunk ≡ true = ground arith in
    rw
      (
        send_message-done dest (chunk_message chunk) _
            (chunk_message-IsWellFormed chunk (omega arith)),
        receive_message-done dest chunk_has_arrived (answer_letters dest cs ++ rest) _
            chunk_has_arrived-IsWellFormed,
      )
      (rw (if_yes (is_full chunk) _ _ more) (
        rw append_assoc at (
          send_file-done dest file' cs rest (out ++ letter dest (chunk_message chunk) ∷ [])
            reading)))

store_chunk-done :
    (peer : Address) (file chunk : List ℕ) (l : Letter) (rest out : List Letter)
    → l.peer ≡ peer
    → store_chunk file l (chunk_message chunk) rest out
      ≡ done
          (file ++ chunk)
          (record { incoming = rest; outgoing = out ++ letter peer chunk_has_arrived ∷ [] })
store_chunk-done peer file chunk l rest out e =
    rw (copy_bytes_self (pos (length chunk)) chunk refl, e)
      (rw (send_message-done peer chunk_has_arrived _ chunk_has_arrived-IsWellFormed) refl)

pub receive_file-done :
    (source : Address) (file held : List ℕ) (chunks : List (List ℕ)) (rest out : List Letter)
    → IsReading file chunks
    → receive_file held (record { incoming = chunk_letters source chunks ++ rest; outgoing = out })
      ≡ done
          (held ++ file)
          (record { incoming = rest; outgoing = out ++ answer_letters source chunks })
unfolding receive_file receive_loop
receive_file-done source file held chunks rest out (last {chunk = chunk} h) =
    let short : is_full chunk ≡ false = ground arith in
    let w = chunk_message-IsWellFormed chunk (omega arith) in
    rw (deserialize_message-wire_of_self (chunk_message chunk) w) (
      rw (store_chunk-done source held chunk (letter source (chunk_message chunk)) rest out refl)
        (rw (if_no (is_full chunk) _ _ short) refl))
receive_file-done source file held chunks rest out
      (full {chunk = chunk} {file = file'} {chunks = cs} h reading) =
    let more : is_full chunk ≡ true = ground arith in
    let w = chunk_message-IsWellFormed chunk (omega arith) in
    let ih =
      receive_file-done source file' (held ++ chunk) cs rest
        (out ++ letter source chunk_has_arrived ∷ []) reading in
    rw (deserialize_message-wire_of_self (chunk_message chunk) w) (
      rw
        (store_chunk-done source held chunk (letter source (chunk_message chunk))
          (chunk_letters source cs ++ rest) out refl)
        (rw (if_yes (is_full chunk) _ _ more) (
          rw
            (
              append_assoc held chunk file',
              append_assoc out (letter source chunk_has_arrived ∷ []) (answer_letters source cs),
            )
            at ih)))

-- A file of any length, read chunk by chunk, arrives whole: when sendFileDMProtocol meets the answers
-- of the receiver, it returns, having sent one letter for each chunk that it read; and
-- receiveFileDMProtocol, when it meets those letters, ends with the file behind what its own file held
-- before, having answered each of them to the sender. Neither takes any letter that comes behind.
pub receive_file-send_file :
    (source dest : Address) (file held : List ℕ) (chunks : List (List ℕ))
    (rest out rest' out' : List Letter)
    → IsReading file chunks
    → (send_file dest chunks
          (record { incoming = answer_letters dest chunks ++ rest; outgoing = out })
        ≡ done tt (record { incoming = rest; outgoing = out ++ chunk_letters dest chunks }))
      × (receive_file held
            (record { incoming = chunk_letters source chunks ++ rest'; outgoing = out' })
          ≡ done
              (held ++ file)
              (record { incoming = rest'; outgoing = out' ++ answer_letters source chunks }))
receive_file-send_file source dest file held chunks rest out rest' out' reading = (
  send_file-done dest file chunks rest out reading,
  receive_file-done source file held chunks rest' out' reading,
)

-- ===== src/FileTransfer/Tests.antt =====
-- A file of three bytes.
use iiw_udp_gbn.Base.{ℕ, ◌≡◌, List, [], ◌∷◌, arith}
use iiw_udp_gbn.FileTransfer.{send_file, receive_file}
use iiw_udp_gbn.FileTransfer.Chunks.{last, chunk_letters, answer_letters, receive_file-send_file}
use iiw_udp_gbn.Session.{done}
use iiw_udp_gbn.SortingTable.{Address}

abbrev abc : List ℕ
abc = 97 ∷ 98 ∷ 99 ∷ []

abbrev source : Address
source = record { host = 1; port = 1024 }

abbrev dest : Address
dest = record { host = 1; port = 8889 }

receive_file-send_file_example :
    (send_file dest (abc ∷ []) (record { incoming = answer_letters dest (abc ∷ []); outgoing = [] })
      ≡ done tt (record { incoming = []; outgoing = chunk_letters dest (abc ∷ []) }))
    × (receive_file (1 ∷ []) (record { incoming = chunk_letters source (abc ∷ []); outgoing = [] })
        ≡ done (1 ∷ abc) (record { incoming = []; outgoing = answer_letters source (abc ∷ []) }))
receive_file-send_file_example =
    receive_file-send_file source dest abc (1 ∷ []) (abc ∷ []) [] [] [] [] (last (omega arith))

-- ===== src/Exchange.antt =====
-- A command from its handshake to its end: controller.c of the client with the father and one child of
-- server/main.c. Each of the three is given the letters that the others send it, in their order; the letters
-- that are behind them (`rest…`) and those that went out before (`out…`) are arbitrary.
pub mod Errors
mod Tests
use iiw_udp_gbn.Base.{
  ℕ, ◌+◌, ◌<◌, ◌^◌, ◌≡◌, refl, true, Bool, List, [], ◌∷◌, ◌++◌, Option, none, some, arith, length,
  All,
}
use iiw_udp_gbn.Client
use iiw_udp_gbn.Server
use iiw_udp_gbn.Client.{
  do_put, do_get, do_list, hs_request, get_request, put_request, list_request, filename_del,
}
use iiw_udp_gbn.Client.Answers.{
  do_hand_shake-refused, do_put-exchange, do_get-exchange, do_get-unterminated,
  do_list-unterminated, handler_at,
}
use iiw_udp_gbn.FileTransfer.Chunks.{IsReading, chunk_letters, answer_letters}
use iiw_udp_gbn.Protocol.{server_address, hs, op_status_e}
use iiw_udp_gbn.Server.Handlers.{AllTaken, assign_handler-taken}
use iiw_udp_gbn.Protocol.Text.{is_text-IsText, IsText, IsName, message-IsWellFormed}
use iiw_udp_gbn.Server.{
  no_free_ports, Semaphore, sem_post, assign_handler, Reply, Disk, opens, fails, put_response,
  get_response, not_found_response, list_response, hs_response, handler_port, max_client,
  child_round, father_round,
}
use iiw_udp_gbn.Server.Listing.Text.{IsStable, regular, text_of}
use iiw_udp_gbn.Server.Rounds.{
  father_round-hs, child_round-put, child_round-get, child_round-get_missing, child_round-list,
}
use iiw_udp_gbn.Session.{Letter, Io, Run, done, fault}
use iiw_udp_gbn.Session.Steps.{letter}
use iiw_udp_gbn.SortingTable.{Address}

-- The i-th handler, which the semaphores give to the client at `me`.
module _ (me : Address) (i : ℕ) (s : Semaphore) (program_name : List ℕ) (disk : Disk)
    (rest out restc outc : List Letter) where
  module _ (handlers handlers' : List Semaphore) (restf outf : List Letter) where
    father_round-assigns :
        assign_handler handlers ≡ (some i, handlers')
        → father_round handlers
            (record { incoming = letter me hs_request ∷ restf; outgoing = outf })
          ≡ done handlers' (record {
            incoming = restf;
            outgoing = outf ++ letter me (hs_response (some i)) ∷ [];
          })
    father_round-assigns e = rw e at (
        father_round-hs handlers me hs_request restf outf
          (message-IsWellFormed hs _ _ (omega arith) (omega arith)) refl)

    -- A PUT goes through: a client whose handshake finds a handler for which a semaphore can be taken,
    -- and whose file can be read there and written at the server, ends with success, having sent the
    -- handshake, the request and the chunks; the father lowers that semaphore and names the handler's
    -- port; and the handler, for the request and the chunks, ends with the whole file stored, having
    -- sent its response and an answer for each chunk, and raises its semaphore again. The handler is
    -- one of the five, the name holds no zero byte and fits an int with its zero, and the chunks are
    -- the reads of the file.
    pub put_exchange :
        (name file : List ℕ) (chunks : List (List ℕ))
        → assign_handler handlers ≡ (some i, handlers')
        → i < max_client
        → IsName name
        → disk.writable ≡ true
        → IsReading file chunks
        → let peer = handler_at (handler_port i) in
          (father_round handlers
              (record { incoming = letter me hs_request ∷ restf; outgoing = outf })
            ≡ done handlers' (record {
              incoming = restf;
              outgoing = outf ++ letter me (hs_response (some i)) ∷ [];
            }))
          × (do_put (some name) (some chunks) (record {
            incoming =
                letter server_address (hs_response (some i))
                ∷ letter peer (put_response name)
                ∷ (answer_letters peer chunks ++ rest);
            outgoing = out;
          })
              ≡ done Client.succeeded (record {
                incoming = rest;
                outgoing =
                    out
                    ++ letter server_address hs_request
                      ∷ letter peer (put_request name)
                      ∷ chunk_letters peer chunks;
              }))
          × (child_round program_name disk s (record {
            incoming = letter me (put_request name) ∷ (chunk_letters me chunks ++ restc);
            outgoing = outc;
          })
              ≡ done
                  (record Server.succeeded { stored = some file }, sem_post s)
                  (record {
                    incoming = restc;
                    outgoing = outc ++ letter me (put_response name) ∷ answer_letters me chunks;
                  }))
    put_exchange name file chunks e below n writable reading = (
      father_round-assigns e,
      do_put-exchange (handler_port i) name file name chunks rest out (omega arith) n
          (omega (arith, n.1)) reading,
      child_round-put program_name disk s me name file chunks restc outc n writable reading,
    )

    -- A GET goes through: a client whose handshake finds a handler for which a semaphore can be taken,
    -- and which can open its file for writing, ends with the whole content of the server's file in it
    -- and with success, having sent the handshake, the request and an answer for each chunk; the father
    -- lowers that semaphore and names the handler's port; and the handler, where it can read the file,
    -- has sent the chunks between two responses and raises its semaphore again. The handler is one of
    -- the five, the name holds no zero byte and fits an int with its zero, and the chunks are the reads
    -- of the file.
    pub get_exchange :
        (name file : List ℕ) (chunks : List (List ℕ))
        → assign_handler handlers ≡ (some i, handlers')
        → i < max_client
        → IsName name
        → disk.readable ≡ opens chunks
        → IsReading file chunks
        → let peer = handler_at (handler_port i) in
          (father_round handlers
              (record { incoming = letter me hs_request ∷ restf; outgoing = outf })
            ≡ done handlers' (record {
              incoming = restf;
              outgoing = outf ++ letter me (hs_response (some i)) ∷ [];
            }))
          × (do_get (some name) true (record {
            incoming =
                letter server_address (hs_response (some i))
                ∷ letter peer get_response
                ∷ (chunk_letters peer chunks ++ letter peer get_response ∷ rest);
            outgoing = out;
          })
              ≡ done
                  (record Client.succeeded { stored = some file })
                  (record {
                    incoming = rest;
                    outgoing =
                        out
                        ++ letter server_address hs_request
                          ∷ letter peer (get_request name)
                          ∷ answer_letters peer chunks;
                  }))
          × (child_round program_name disk s (record {
            incoming = letter me (get_request name) ∷ (answer_letters me chunks ++ restc);
            outgoing = outc;
          })
              ≡ done
                  (Server.succeeded, sem_post s)
                  (record {
                    incoming = restc;
                    outgoing =
                        outc
                        ++ letter me get_response
                          ∷ (chunk_letters me chunks ++ letter me get_response ∷ []);
                  }))
    get_exchange name file chunks e below n readable reading = (
      father_round-assigns e,
      do_get-exchange (handler_port i) name file chunks rest out (omega arith) n reading,
      child_round-get program_name disk s me name file chunks restc outc n readable reading,
    )

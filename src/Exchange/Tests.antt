-- ===== src/Exchange/Tests.antt =====
-- Each command with the second handler, for a file of three bytes.
use iiw_udp_gbn.Base.{none, ℕ, ◌≡◌, refl, true, List, [], ◌∷◌, ◌++◌, some, arith}
use iiw_udp_gbn.Client
use iiw_udp_gbn.Server
use iiw_udp_gbn.Client.{do_put, do_get, do_list, hs_request, put_request, get_request}
use iiw_udp_gbn.Client.Answers.{handler_at}
use iiw_udp_gbn.Exchange.{put_exchange, get_exchange}
use iiw_udp_gbn.Exchange.Errors.{get_exchange_missing, busy_exchange}
use iiw_udp_gbn.FileTransfer.Chunks.{last, chunk_letters, answer_letters}
use iiw_udp_gbn.Protocol.{server_address}
use iiw_udp_gbn.Protocol.Text.{IsName}
use iiw_udp_gbn.Server.{
  Semaphore, counting, Disk, opens, fails, put_response, get_response, not_found_response,
  hs_response, handler_port, assign_handler, father_round, child_round,
}
use iiw_udp_gbn.Server.Listing.{Entry}
use iiw_udp_gbn.Session.{done, fault}
use iiw_udp_gbn.Session.Steps.{letter}
use iiw_udp_gbn.SortingTable.{Address}

abbrev me : Address
me = record { host = 1; port = 1024 }

abbrev peer : Address
peer = handler_at 8890

-- "a", "b" and "s"
abbrev a_name : List ℕ
a_name = 97 ∷ []

abbrev b_name : List ℕ
b_name = 98 ∷ []

abbrev program_name : List ℕ
program_name = 115 ∷ []

abbrev content : List ℕ
content = 1 ∷ 0 ∷ 2 ∷ []

abbrev second_free : List Semaphore
second_free = counting 0 ∷ counting 1 ∷ []

abbrev none_free : List Semaphore
none_free = counting 0 ∷ counting 0 ∷ []

abbrev entry : List ℕ → Entry
entry name = record { is_regular = true; name = name; later = some name }

-- The directory holds the program and one file.
abbrev disk : Disk
disk = record {
  writable = true;
  readable = opens (content ∷ []);
  entries = entry program_name ∷ entry b_name ∷ [];
}

a_name-IsName : IsName a_name
a_name-IsName = ((omega arith, tt), omega arith)

assign_second : assign_handler second_free ≡ (some 1, none_free)
unfolding assign_handler
assign_second = refl

put_exchange_example :
    (father_round second_free (record { incoming = letter me hs_request ∷ []; outgoing = [] })
      ≡ done none_free (record { incoming = []; outgoing = letter me (hs_response (some 1)) ∷ [] }))
    × (do_put (some a_name) (some (content ∷ [])) (record {
      incoming =
          letter server_address (hs_response (some 1))
          ∷ letter peer (put_response a_name)
          ∷ answer_letters peer (content ∷ []);
      outgoing = [];
    })
        ≡ done Client.succeeded (record {
          incoming = [];
          outgoing =
              letter server_address hs_request
              ∷ letter peer (put_request a_name)
              ∷ chunk_letters peer (content ∷ []);
        }))
    × (child_round program_name disk (counting 0) (record {
      incoming = letter me (put_request a_name) ∷ chunk_letters me (content ∷ []);
      outgoing = [];
    })
        ≡ done
            (record Server.succeeded { stored = some content }, counting 1)
            (record {
              incoming = [];
              outgoing = letter me (put_response a_name) ∷ answer_letters me (content ∷ []);
            }))
put_exchange_example =
    put_exchange me 1 (counting 0) program_name disk [] [] [] [] second_free none_free [] [] a_name
      content (content ∷ []) assign_second (omega arith) a_name-IsName refl (last (omega arith))

get_exchange_example :
    (father_round second_free (record { incoming = letter me hs_request ∷ []; outgoing = [] })
      ≡ done none_free (record { incoming = []; outgoing = letter me (hs_response (some 1)) ∷ [] }))
    × (do_get (some a_name) true (record {
      incoming =
          letter server_address (hs_response (some 1))
          ∷ letter peer get_response
          ∷ (chunk_letters peer (content ∷ []) ++ letter peer get_response ∷ []);
      outgoing = [];
    })
        ≡ done
            (record Client.succeeded { stored = some content })
            (record {
              incoming = [];
              outgoing =
                  letter server_address hs_request
                  ∷ letter peer (get_request a_name)
                  ∷ answer_letters peer (content ∷ []);
            }))
    × (child_round program_name disk (counting 0) (record {
      incoming = letter me (get_request a_name) ∷ answer_letters me (content ∷ []);
      outgoing = [];
    })
        ≡ done
            (Server.succeeded, counting 1)
            (record {
              incoming = [];
              outgoing =
                  letter me get_response
                  ∷ (chunk_letters me (content ∷ []) ++ letter me get_response ∷ []);
            }))
get_exchange_example =
    get_exchange me 1 (counting 0) program_name disk [] [] [] [] second_free none_free [] [] a_name
      content (content ∷ []) assign_second (omega arith) a_name-IsName refl (last (omega arith))

-- "No"
abbrev no_text : List ℕ
no_text = 111 ∷ []

abbrev unreadable : Disk
unreadable = record disk { readable = fails (78 ∷ no_text) }

get_exchange_missing_example :
    (child_round program_name unreadable
        (counting 0)
        (record { incoming = letter me (get_request a_name) ∷ []; outgoing = [] })
      ≡ done
          (Server.failed, counting 1)
          (record { incoming = []; outgoing = letter me (not_found_response (78 ∷ no_text)) ∷ [] }))
    × (do_get (some a_name) true (record {
      incoming =
          letter server_address (hs_response (some 1))
          ∷ letter peer (not_found_response (78 ∷ no_text))
          ∷ [];
      outgoing = [];
    })
        ≡ fault)
get_exchange_missing_example =
    get_exchange_missing me 1 (counting 0) program_name unreadable [] [] [] [] a_name no_text 78
      true (omega arith) a_name-IsName refl (omega arith, (omega arith, tt)) (omega arith)

busy_exchange_example :
    (father_round none_free (record { incoming = letter me hs_request ∷ []; outgoing = [] })
      ≡ done none_free (record { incoming = []; outgoing = letter me (hs_response none) ∷ [] }))
    × (do_put
          (some a_name)
          (some (content ∷ []))
          (record { incoming = letter server_address (hs_response none) ∷ []; outgoing = [] })
        ≡ done Client.failed
            (record { incoming = []; outgoing = letter server_address hs_request ∷ [] }))
    × (do_get
          (some a_name)
          true
          (record { incoming = letter server_address (hs_response none) ∷ []; outgoing = [] })
        ≡ done Client.failed
            (record { incoming = []; outgoing = letter server_address hs_request ∷ [] }))
    × (do_list (record { incoming = letter server_address (hs_response none) ∷ []; outgoing = [] })
        ≡ done Client.failed
            (record { incoming = []; outgoing = letter server_address hs_request ∷ [] }))
busy_exchange_example =
    busy_exchange me none_free a_name (content ∷ []) true [] [] [] [] (refl, (refl, tt))

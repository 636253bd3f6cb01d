-- ===== src/Tests/Wires.antt =====
-- Partial transfers, and a client and a server over streams.

use socket_communication.Common.{
  bytes_of, to_string, ◌≡◌, refl, true, false, some, List, [], ◌∷◌, ◌++◌, arith,
}
use socket_communication.Db.{Text}
use socket_communication.Sockets.{
  Choices, write_to_socket, read_from_socket, start_write, run_writes, start_read, run_reads,
}
use socket_communication.Sockets.Writes.{Sends, writes-Sends}
use socket_communication.Sockets.Reads.{Gets, reads-Gets}
use socket_communication.Sockets.Services.{
  Peer, SyncServer, server_response, handle_client, run_server, tcp_request, receive_response,
  accepting, left_loop, stops, tests, connects,
}
use socket_communication.Sockets.Exchange.{joined, exchange_answers}
use socket_communication.Sockets.Stopping.{is_quiet, stop_waits}

-- Two bytes, one byte, and the rest.
abbrev some_choices : Choices
some_choices = some 1 ∷ some 0 ∷ []

abbrev hello : Text
hello = bytes_of "Hello"

writes-Sends_example :
    Sends some_choices hello [] (write_to_socket some_choices hello [])
    × Sends some_choices hello [] (run_writes 6 some_choices (start_write hello []))
writes-Sends_example = writes-Sends some_choices hello [] (ground arith)

reads-Gets_example :
    Gets some_choices 7
      (bytes_of "messages")
      []
      (read_from_socket some_choices (bytes_of "messages"))
    × Gets some_choices 7
        (bytes_of "messages")
        []
        (run_reads 8 some_choices (start_read 7 (bytes_of "messages")))
reads-Gets_example = reads-Gets some_choices (bytes_of "messages")

abbrev request_pieces : List Text
request_pieces = bytes_of "EMULATE_LONG" ∷ bytes_of "_COMP_OP 10" ∷ (b'\n' ∷ []) ∷ []

abbrev response_pieces : List Text
response_pieces = bytes_of "Resp" ∷ (bytes_of "onse" ++ b'\n' ∷ []) ∷ []

exchange_answers_example :
    (handle_client request_pieces true ≡ some server_response)
    × (receive_response response_pieces ≡ some (bytes_of "Response"))
unfolding to_string
exchange_answers_example =
    exchange_answers request_pieces response_pieces 10 (unfold joined in unfold tcp_request in refl)
      (unfold joined in refl)

abbrev waiting_server : SyncServer
waiting_server = record { m_stop = false; phase = accepting; answers = [] }

abbrev some_peer : Peer
some_peer = record { pieces = request_pieces; takes = true }

stop_waits_example :
    ((run_server (stops ∷ stops ∷ []) waiting_server).phase ≡ accepting)
    × (run_server
          (stops ∷ connects some_peer ∷ tests ∷ [])
          (run_server (stops ∷ stops ∷ []) waiting_server)
        ≡ record (run_server (stops ∷ stops ∷ []) waiting_server) {
          m_stop = true;
          phase = left_loop;
          answers =
              (run_server (stops ∷ stops ∷ []) waiting_server).answers
              ++ handle_client request_pieces true ∷ [];
        })
unfolding is_quiet
stop_waits_example =
    stop_waits (stops ∷ stops ∷ []) waiting_server some_peer (refl, (refl, tt)) refl

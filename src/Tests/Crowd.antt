-- ===== src/Tests/Crowd.antt =====
-- GameSocketServer with several clients.

use socket_communication.GameSocket.Effects.{Leads}
use socket_communication.GameSocket.Session.{response_header, received, written}
use socket_communication.GameSocket.Gateway.{
  Gateway, Happening, run_server, run_gateway, peer_there, accepted, at_client, signalled,
}
use socket_communication.GameSocket.Gateway.Holds.{Holds, run_gateway-Holds}
use socket_communication.Common.{
  if◌then◌else◌, ran, threw, bytes_of, ◌≡◌, refl, true, false, List, [], ◌∷◌, ◌++◌,
}
use socket_communication.DbPool.{get_connection, return_connection, new_pool}
use socket_communication.GameSocket.Pool
use socket_communication.GameSocket.Pool.Agree.{pool_agrees}
use socket_communication.Tests.{up, two_connections}
use socket_communication.Tests.Gateway.{some_library, some_store, some-IsDigest, some_pool-IsValid}

pool_agrees_example :
    (Pool.get_connection up two_connections ≡ get_connection up two_connections)
    × (Pool.return_connection 1 two_connections ≡ return_connection 1 two_connections)
    × (Pool.construct up 5 ≡ (if up.connects then ran tt (new_pool 5) else threw Pool.empty_pool))
pool_agrees_example = pool_agrees up two_connections 1 4 refl

abbrev empty_gateway : Gateway
empty_gateway = record {
  connections = [];
  store = some_store;
  running = false;
  is_open = true;
  is_accepting = false;
  next_socket = 0;
}

-- Two clients, who speak in turns.
abbrev some_happenings : List Happening
some_happenings =
    accepted peer_there
    ∷ accepted peer_there
    ∷ at_client 0 (received (response_header 5 ++ bytes_of "he"))
    ∷ at_client 1 (received (response_header 5 ++ bytes_of "hello"))
    ∷ at_client 0 (received (bytes_of "llo"))
    ∷ at_client 0 written
    ∷ signalled
    ∷ []

run_gateway-Holds_example :
    Leads
      (λ _ g'. Holds some_store g'.store)
      (λ _ g'. Holds some_store g'.store)
      (run_gateway some_library some_happenings (run_server empty_gateway))
unfolding run_server
run_gateway-Holds_example =
    run_gateway-Holds some_library some-IsDigest some_happenings (run_server empty_gateway)
      some_pool-IsValid

-- ===== src/Lib.antt =====
-- The servers of SocketCommunication. The matching server: clients connect over TCP, log in, open and join rooms,
-- and mirror servers (the containers that host the games) report when games start and end.
--
-- The parts, from the bottom up, and how they interact. A Session (MatchingServer/src/core/session.cpp)
-- reads JSON requests and hands them to one of three controllers (MatchingServer/src/controller). A
-- controller calls a service (MatchingServer/src/service), which checks the request and calls a
-- repository (MatchingServer/src/repository). Each repository method takes a connection from the pool
-- (MatchingServer/src/util/db_pool.cpp), runs one transaction and gives the connection back. The Server
-- (MatchingServer/src/core/server.cpp) keeps the registries of sessions, tokens, mirrors and addresses.
--
-- Files and code:
--   Common and its children: shared types, lists of rows, association lists, and `Ran`, the result of
--     stateful code that returns or throws, with the state reached in either case.
--   DbPool: MatchingServer/src/util/db_pool.cpp. DbPool/Slots, Leases, Start: theorems on it.
--   Db/Schema: the tables of MatchingServer/db-init.sql. Db/Work: `run_work`, the frame that every
--     repository method has; Db/Atomicity, Connections, Healthy: rules and theorems for it.
--   Protocol: the fields of requests, and the responses.
--   RoomRepository, GameRepository, UserRepository: the files of these names in
--     MatchingServer/src/repository, function by function (createRoomWithHost is
--     `create_room_with_host`). A function with the suffix `_body` is the method's `try` block.
--   RoomService, GameService, AuthService: those of MatchingServer/src/service, and
--     MatchingServer/src/util/password_util.cpp. The suffix `_checked` is a method's `try` block.
--   Controllers: MatchingServer/src/controller.
--   Server: the registries of MatchingServer/src/core/server.cpp and the destructor of Session.
--   Sessions, Sessions/Requests, Sessions/Handshake: the handlers of MatchingServer/src/core/session.cpp over a `World`,
--     the server, the database and what has been written to the sockets. Sessions/Broadcasts and
--     Sessions/Lifecycle: the broadcasts, the timers, accepting, running and stopping of
--     MatchingServer/src/core/server.cpp, with the calls of the I/O library as signals.
--   Sessions/Quiet and Sessions/Expiry: what handle_error and check_inactive_sessions leave in the registries.
--   Sessions/System: the whole matching server, a run of the handlers of timers, sockets and sessions in
--     any order. Sessions/Invariants: an interface, what a property of the database needs for all of them to
--     keep it; Sessions/Consistency, AuthService/Consistency and UserRepository/Consistency fill it for the
--     rooms, and Sessions/System/Rooms is the theorem.
--   History: sequences of requests to the room and game services.
--   GameSocket: GameSocketServer, a second program: an HTTP server for registration and login. Its
--     children: Effects, stateful code that raises one of several exceptions; Store, the table Users of
--     init.sql and the transactions on it, with the pool of DbPool; Pool,
--     GameSocketServer/src/db/db_pool.cpp with its loops over indices, which Pool/Agree proves to do what
--     DbPool does; Gateway, GameSocketServer/src/server.cpp, all sessions over one database; AuthApi, UserDao and Session, GameSocketServer/src/api/auth_api.cpp,
--     GameSocketServer/src/db/user_dao.cpp and GameSocketServer/src/session.cpp function by function,
--     with their theorems in child modules; Find and Decimal, lemmas on texts. Of Session, each
--     completion handler is a function (`header_received`, `body_received`), the phase says which one
--     waits, and `run_events` is a whole connection.
--   ChatServer and ChatServer/Client: boost_Chat_Server/Server.cpp and boost_Chat_Server/Client.cpp, a
--     third program: a chat of lines. Each completion handler is an event; ChatServer/Names and
--     ChatServer/Departed: theorems on the map of nicknames.
--   TaskClient: boost_Practice/03_Client_Application/AsyncTCPClient.cpp, a client that sends tasks and
--     calls back; TaskClient/Callbacks: theorems on the callbacks.
--   ThreadClient: boost_Practice/03_Client_Application/MultiThreadAsyncTCPClient.cpp, the same client with
--     several threads, as steps of threads between which mutexes are taken and given back.
--     ThreadClient/Threads: its constructor; Guards, Frames, Deadlock: theorems on the mutexes.
--   Sockets: write.cpp, read.cpp, async_write_some.cpp and async_read_some.cpp of
--     boost_Practice/02_IO_Operations; Sockets/Writes, Reads, Texts: theorems on them. Sockets/Services:
--     boost_Practice/04_Server_Application/IterativeSyncTCPServer.cpp and the clients
--     boost_Practice/03_Client_Application/SyncTCPClient.cpp and SyncUDPClient.cpp, with theorems in
--     Sockets/Exchange and Sockets/Stopping. Sockets/Parallel: ParallelSyncTCPServer.cpp, whose
--     threads end with the process.
--   AsyncServer: AsyncTCPServer.cpp, with the control blocks of its shared pointers; AsyncServer/Lifetimes:
--     a theorem on them.
--   Tests: concrete runs.
--
-- How the code is modelled. A method under a mutex is one step. A transaction works on a copy of the
-- committed tables, which its commit replaces: transactions run one after the other, so concurrent
-- transactions are not modelled. Which statements fail (BEGIN and COMMIT among them), and whether
-- connections are open or can be made, is an argument that the theorems quantify over. A statement that
-- violates a foreign key, a primary key or UNIQUE throws. Of the widths of columns, those of user and
-- nick names are checked; excess spaces, which the database cuts off, count too. `int` values are
-- unbounded integers; JSON numbers are integers. A map's order is that of a list; a query without ORDER
-- BY returns rows in the order of the table. `ip_address` and `port` of a room are not null. Where a
-- commit succeeds, reading the result does not throw. A log message is not modelled. A null pointer
-- that `setSessionStatus` would dereference is an exception in the model.
--
-- Loops are structural recursion. `to_string` has fuel, one step for each digit; a number has fewer
-- digits than its value plus one, which is the fuel that it is given.
--
-- In GameSocket, an exception that leaves a completion handler ends the run of events, since it leaves
-- io_context::run. A `size_t` is a natural number with the checks of its bounds written out. The columns
-- of Users are not null, and the handler of the API type auth is registered. A text that is read is at
-- most what one read delivers; the buffer's size of 8192 does not matter to the handlers.
--
-- Parameters (`External` in AuthService): SHA-256, the match of the nickname pattern by std::regex, and
-- the database's default nickname; nothing is assumed of them. `Library` in GameSocket/AuthApi: SHA-256,
-- HMAC and the JSON library's reader and writer; where a theorem assumes that SHA-256 gives 32 bytes, it says so. LOWER of the database is a field of the
-- tables, of which nothing is assumed either.
--
-- In Sockets, what a call of `write_some` or `read_some` transfers is an argument, one byte at least; the
-- loops have as many rounds as bytes and one for fuel, which is enough since each round transfers a byte.
-- The counter of 8 bits in ThreadClient is written out with its wrap-around.
--
-- Not modelled: the socket I/O, which calls the handlers; the configuration that the main programs read;
-- the threads of the chat server and of AsyncTCPClient.cpp, whose handlers run one at a time in any order;
-- the order in which the two threads of boost_Chat_Server/Client.cpp write to its socket;
-- getters and the wiring of controllers in MatchingServer/src/core/server.cpp; the rest of boost_Practice,
-- which is single calls of the I/O library; the build and container scripts.

pub mod Common
pub mod DbPool
pub mod Db
pub mod Protocol
pub mod RoomRepository
pub mod GameRepository
pub mod UserRepository
pub mod RoomService
pub mod GameService
pub mod AuthService
pub mod Controllers
pub mod Server
pub mod Sessions
pub mod History
pub mod GameSocket
pub mod ChatServer
pub mod TaskClient
pub mod ThreadClient
pub mod Sockets
pub mod AsyncServer
pub mod Tests

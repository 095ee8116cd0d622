-- ===== src/Lib.antt =====
-- multisim: channels between simulations.
--
-- multisim joins simulators, emulators and software. A server process opens named channels, a client
-- process connects to them by name, and both push and pull arrays of 2-state or 4-state data of a
-- fixed width. A channel is a stream socket, found through an info file in the directory `.multisim`.
--
-- What is modelled, and where:
--   InfoFile        src/core/socket_server/info_file.h: `fnv1a_hash_str` and `info_file_path`.
--   UnixSocket      src/core/socket_server/unix_socket.h: `unix_socket_file` and `unix_socket_addr`.
--   Os              the system calls of src/core/socket_server, as a record of operations that all
--                   definitions take. A process threads its `World` through the calls.
--   SocketIo        src/core/socket_server/socket_io.h: `send_msg` and `read_msg`, which transfer whole
--                   messages over a stream that may stall and split them. SocketIo.Stream has the
--                   documented behaviour of send(), read() and poll() that the theorems rely on.
--   SocketServer    src/core/socket_server/server.cpp and server.h: class `Server`; `start` is
--                   `Server::start` and `accept_new_socket` is `Server::acceptNewSocket`.
--   Scan            the conversions of fscanf() that the client uses.
--   SocketClient    src/core/socket_server/client.cpp and client.h: class `Client`; `parse_info` is what
--                   `Client::getServerIpAndPort` reads from an info file.
--   Names           the map `server_name_to_idx` of both sides, and the checks of
--                   src/core/multisim_common.h on names.
--   Data            the buffers of `push_core` and `pull_core` of src/core/multisim_server.cpp and
--                   src/core/multisim_client.cpp, for the targets of src/core/multisim_common.h.
--   MultisimServer  src/core/multisim_server.cpp: `State` has the statics of the file, and each function
--                   keeps its name.
--   Zebu            its part under MULTISIM_ZEBU.
--   MultisimClient  src/core/multisim_client.cpp, in the same way.
--   Channel         runs of a client's pushes and of a server's pulls on one channel.
--                   Channel.Down has those of a server's pushes and of a client's pulls.
--   SocketIo.Separate  what the theorems rely on where a process has several connections: a call on
--                   one descriptor leaves the others alone. SocketIo.Ledger says which calls open and
--                   close connections, and SocketIo.Alive what a peer that stays does.
--   SwServer        example/sw_server/sw_client/read_write/src/sw_server.cpp: `serve` is the loop
--                   of main(), `turn` a round of it, and `process` what a command does to `mem`.
--                   SwServer.Served says what a memory answers, for the loop to be compared with.
--   SwClient        sw_client.cpp beside it: each function keeps its name, and each loop of main() is
--                   a function. SwClient.Coherent runs the client against the server.
--   StreamTest      example/sw_server/sw_client/unit/stream.cpp, its server and its client.
--   EchoTest        unit/echo.cpp beside it, and Bench example/sw_server/sw_client/bench/bench.cpp.
--   Base            numbers, tests, lists and the results of a run, for all files.
--   Tests           a small system to run the program on, with the theorems at concrete inputs.
--
-- Conventions. A text is a list of bytes, and memory behind a data handle a list of 32-bit words. A
-- `Run` is a result, an exit with EXIT_FAILURE, a failing assert or an uncaught exception, or a loop
-- that is out of fuel or waits for ever; the asserts are enabled. A result of -1 carries the `errno` that the call
-- left. Static arrays start with zeros, as in C++, so the sockets of a server process that no start
-- has set are 0 and not -1. Numbers of the program that are not negative are natural numbers; `htons` and the hash wrap around as in C++.
--
-- Fuel. `send_msg` and `read_msg` take the number of rounds, `Server::start` the number of ports
-- that it tries, `Client::start` the number of rounds of each of its loops. A round of the first
-- two transfers bytes or waits in poll(), which has no time limit: where it never comes back, the
-- loop has no result on any fuel, and `IsResponsive` of SocketIo.Stream says that it does come back.
-- A port is tried once; a client waits for its server, and two rounds more than it waits are enough.
-- The server's loop in SwServer takes a number of rounds too, and runs until a client ends it. The
-- loops of StreamTest, EchoTest and Bench around a push or a pull take a number of tries, and run
-- until the call gives success.
--
-- Not modelled: the SystemVerilog modules, the test programs with fork() and signals, the scripts,
-- what is printed on the terminal, the time that is measured, the debug code that makes every
-- thousandth transfer fail, and hosts that are not little-endian.
pub mod Base
pub mod InfoFile
pub mod UnixSocket
pub mod Os
pub mod SocketIo
pub mod Data
pub mod SocketServer
pub mod Names
pub mod Scan
pub mod SocketClient
pub mod MultisimServer
pub mod MultisimClient
pub mod Zebu
pub mod Channel
pub mod SwServer
pub mod SwClient
pub mod StreamTest
pub mod EchoTest
pub mod Bench
pub mod Tests

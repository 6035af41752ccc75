-- ===== src/Lib.antt =====
-- C11Http: HTTP servers and clients over plain sockets, and a pool of workers for requests.
--
-- The program has three layers. server/ and client/ hold, for each platform, a server that accepts
-- connections and a client, both driven by one blocking loop (`waitForEvents`) that reports to a
-- callback; other threads call `send`, `broadcast`, `shutdown` and `disconnect` and wake the loop
-- through a pipe or an event. workers/ hands requests to threads. objects/ holds the requests and
-- responses.
--
--   Common      lists, finite maps, tests, and the monad of state and exceptions. An outcome is `ok`,
--               `throw` for a C++ exception, or `fault` for undefined behaviour. Schedules has runs
--               of a loop that other threads call into.
--   Objects     objects/*
--   Workers     workers/Worker.cpp and workers/WorkerPool.cpp. `thread_step` is one step of
--               `Worker::threadEntryPoint`, `add_work` is `WorkerPool::addWork`.
--   Callback    server/posix/Callback.h: the callback's calls as a log. Sessions has the logs in which
--               names are connected and disconnected in turn, and all else is about connected ones.
--   Messages    queues of bytes as messages in a row.
--   Posix       the calls of the system that the posix code makes, as a record `Os W` over a state `W`
--               of the system, which every theorem takes as a parameter; `fd_set` with its macros.
--   Posix.Descriptors  which descriptors are open, and the documented behaviour of `accept`, `close`
--                      and the other calls that some theorems assume.
--   Posix.Socket       server/posix/Socket.cpp and client/posix/Socket.cpp, which are the same.
--   Posix.Connection   server/posix/ServerConnection.cpp: `accept_connection` is the constructor,
--                      `perform_receive`, `add_queued_message` and `send_queued_message` the methods.
--   Posix.Connections  server/posix/Connections.cpp. `Store` is the object with the heap of
--                      connections; `Represents` says which list of connections it stands for.
--   Posix.Server       server/posix/Server.cpp; Loop has `waitForEvents` as a machine (`pump`) that
--                      stops before the test of its loop and inside `select`, where other threads
--                      come in. Invariant, Construct and Telling are about whole runs of it, Delivery is
--                      about a send and the round after it.
--   Posix.Client       client/posix/Client.cpp, in the same way; Conservation counts the bytes that
--                      a run passes on, by a system that keeps a trace of them.
--   Windows     the calls of Winsock that the Windows code makes, as a record `Winsock W`.
--   Windows.Socket       server/windows/Socket.cpp and Overlap.h; those of client/windows are the same.
--   Windows.Connections  server/windows/ServerConnection.cpp and Connections.cpp, with a heap and a
--                        `Represents` of its own.
--   Windows.Server       server/windows/Server.cpp: the server, and its loop (`pump`), which stops
--                        at the tests of its two loops and in the wait, where completion routines
--                        such as `data_sent` (`DataSentToClient`) and other threads come in. Events
--                        says which events are open and how many sends are on their way, as Winsock
--                        documents it; Invariant is about all that the server can come to from its
--                        constructor on (`Reached`), Final about what comes after `shutdown`.
--   Windows.Client       client/windows/Client.cpp: `open_connection` is `connect` up to its last call,
--                        `prepare_to_receive` is `prepareClientToReceiveData`; Loop has
--                        `waitForEvents` (`pump`), which stops in the wait for its two handles.
--   Facade      server/Server.cpp and client/Client.cpp, the classes that users derive from, over an
--               interface to the server (`PlatformServer`) or client (`PlatformClient`) of a
--               platform, which OnPosix and OnWindows fill.
--   Examples    concrete systems, stores and clients at which the theorems are applied.
--
-- Bounds and fuel. The loops over containers are recursion on lists, the loop over the descriptors
-- is recursion on their number, and a `waitForEvents` is a run of any length of its machine. Only
-- `prepare_to_receive` has fuel, the number of calls that it may make of itself: one more than the
-- pieces that are at hand is enough. Descriptors and counts are natural numbers, -1 is `none`, and
-- the size of a buffer is that of `MAX_BUFFER_SIZE`; no operation of the modelled code does
-- arithmetic that could wrap round.
--
-- Undefined behaviour. `fault` stands for reads through null and dangling pointers, for the first
-- element of an empty vector or queue, for iterators past the end, for `FD_SET` beyond FD_SETSIZE,
-- and for `~Overlap` on an overlap that has not been made, which an exception of a constructor
-- brings about. FD_SETSIZE is a number of the system; `send` of the posix server does not test it
-- again, for descriptors that `addServerConnection` has taken. One kind is left out: an `fd_set`
-- that has never been cleared (`mMasterWrite` of the posix server) is read as some set, an argument
-- of `new_server`, and theorems hold whatever it is. `WSAGetOverlappedResult` with a null
-- `lpdwFlags` is a call of its own, of which nothing is assumed.
--
-- Not modelled. What the system does is a parameter, `Os W` or `Winsock W`. Other threads come in
-- only where the loops stop, so data races on the queues and sets are not seen. Accepted sockets of
-- a constructor that throws stay open. `strerror` texts are left out of exceptions, which name the
-- call that failed. ConnectionInformationReceivedFromClient of the Windows server is defined
-- nowhere: that it adds a connection is a step that may come at any time. Completions for a
-- connection that has been deleted are left out. So is `~WorkerPool`, which frees workers whose
-- threads still run on them. The choice of a platform, the interfaces and the tests are not
-- modelled. The Windows client has no constructor that the class of client/Client.cpp could call,
-- so that class stands over the posix client only. The calls of the Windows callback are those that
-- server/windows/Server.cpp makes, which the declarations of server/windows/Callback.h do not fit.
pub mod Common
pub mod Objects
pub mod Workers
pub mod Callback
pub mod Messages
pub mod Posix
pub mod Windows
pub mod Examples
pub mod Facade

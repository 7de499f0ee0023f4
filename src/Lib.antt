-- ===== src/Lib.antt =====
-- CoSocket: a C++ library of coroutines over epoll, with timeouts, conditions, queues, TCP and HTTP
-- servers and WebSocket frames.
--
-- The files and the code that each models, the paths from the repository's root:
--   UrlCodec    CoSocket/base/UrlCodec.cpp: percent encoding.
--   Timestamp   CoSocket/base/Timestamp.cpp: the wall-clock times of the deadlines.
--   TimeoutSet  CoSocket/net/CoSocket.cpp, `TimeoutSet`: the set of the deadlines, ordered by time, and
--               the map from coroutines to its elements.
--   Epoller     CoSocket/net/Epoller.cpp: the poller over the kernel's epoll.
--   CoSocket    CoSocket/net/CoSocket.cpp and CoSocket.h: State has the members, Events the watchers of
--               the descriptors, Blocking the calls that wait (Connect, Accept, Read, Write) and in
--               Blocking/Steps the scheduler as a transition system over these calls, Transfer ReadFull
--               and WriteAll, Conditions the conditions and the queue of
--               CoSocket/net/CoQueue.h, with Channel for its coroutines, Buffer its buffers, Loop the event loop.
--   Tcp         CoSocket/net/TcpClient.cpp and TcpConnector.cpp.
--   TcpServer   CoSocket/net/TcpServer.cpp: the sockets, the supervision of the workers, and in Accept
--               what a worker does.
--   Timer       CoSocket/net/Timer.cpp.
--   WebSocket   CoSocket/net/http/WebSocketParser.h, WebSocketDecoder.h and WebSocketEncoder.h.
--               Encoder/Stream is a reader of RFC 6455, written from the RFC.
--   Http        CoSocket/net/http: Parser is HttpParser.cpp, Decoder HttpDecoder.h, Encoder
--               HttpEncoder.h, Dispatch the routes of HttpDispatch.cpp, Dispatch/Serve its loop, Client
--               HttpClient.h, Table the maps of strings.
--   Examples    CoSocket/example: Servers the main functions of the servers, Forward the loops of the
--               proxy and the echo server, Shared the one with a shared pointer, Throughput the reader and
--               the writer of the throughput server, HttpServer its handlers, and Clients the clients.
--               HttpServer/Message takes a WebSocket message through the loop of Dispatch/Serve, the
--               parser and the encoder.
--   Prelude     shared helpers: lists, integers, machine words, texts, and tests on numbers.
--   Tests       runs at concrete inputs.
--
-- How the parts meet: a call of CoSocket that would block enters the running coroutine in the watcher
-- of its descriptor (Events), tells the poller (Epoller), sets a deadline (TimeoutSet) and yields; the
-- event loop (Loop) resumes it on an event or on its deadline, and the call undoes all three. The HTTP
-- side stands on these calls and is modelled over their answers.
--
-- State is a record that each operation takes and returns; a C++ map is a function or an ordered list
-- of entries, a set the ordered list of its elements, a `std::string` the list of its bytes. Numbers of
-- 64 bits keep their wrap-around where the code can reach it; the counts of the workers, which are `int`,
-- are integers. A system call is an argument: its answer,
-- or for epoll a kernel with the documented laws. What a coroutine does until it yields is a function
-- on the state, `resume`.
--
-- Fuel: ReadFull and WriteAll get one more than the bytes to transfer, since a round transfers at least
-- one byte; the loop over the parameters of a target gets one more than the bytes of the target, since a
-- round passes at least one; the passes of the event loop get one more than the entries they run
-- through; the loops of HttpClient, HttpDispatch and the proxy get the rounds until
-- the other side ends the connection; the loop over the frames of an answer gets the bytes of the answer
-- and one more. The loop of DoAccept does not end by itself, so its fuel is free, and that of
-- MonitorSlavesLoop takes the answers of its rounds as a list.
--
-- Not modelled: the coroutine library, http_parser and base64, which are copies of other projects;
-- logging.
pub mod Prelude
pub mod UrlCodec
pub mod Timestamp
pub mod TimeoutSet
pub mod Epoller
pub mod CoSocket
pub mod WebSocket
pub mod Examples
pub mod Http
pub mod Tcp
pub mod TcpServer
pub mod Tests
pub mod Timer

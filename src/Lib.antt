-- ===== src/Lib.antt =====
-- Verification of shero, a C++ network library: a reactor (EventLoop, Channel, EPollPoller),
-- TCP connections over a byte buffer, and HTTP and WebSocket on top of them. A connection reads
-- into its input Buffer and calls a message callback; HttpServer's callback drives an
-- HttpParser over that buffer, lets a dispatcher choose a servlet by path, and sends the
-- response; the WebSocket code encodes and decodes frames on the same kind of buffer.
--
-- Files and what they model:
--
-- - Common and its children: shared names, lists over the native numbers, byte strings, bit
--   operations, signed integers.
-- - Buffer (shero/net/Buffer.h, Buffer.cc): the record is m_readIndex, m_writeIndex and
--   m_buffer; each method returns the new buffer. Fixed, Signed and Network hold the
--   fixed-width integers (with shero/base/Endian.h), VarInt the variable-length ones;
--   Invariant, Content and Io prove what the methods do to the queue of readable bytes.
-- - WebSocket.Frame (shero/net/websocket/WSStructure.h, WSStructure.cc): EncodeWSFrameMessage
--   and DecodeWSFrameMessage.
-- - WebSocket.Exchange: the loop over messages that WSCommunication and WSClient::onMessage
--   share. WebSocket.Server (shero/net/websocket/WSServer.cc, WSServlet.cc, WSDispatch.cc),
--   WebSocket.Client (WSClient.cc) and WebSocket.Handshake: the two sides of a connection.
-- - Http.Status, Http.Headers, Http.Message (shero/net/http/HttpStatus.h and .cc, HttpCommon.h
--   and .cc): methods, status codes, the case-insensitive header map, requests, responses and
--   their dump.
-- - Http.Parser (shero/net/http/HttpParser.h, HttpParser.cc): parserHttpRequest as rounds over
--   the buffer. Http.Parser.Printed reads with it what HttpRequest::dump prints.
-- - Dispatch (shero/net/AbstractDispatch.h, http/HttpDispatch.cc, websocket/WSDispatch.cc): the
--   tables of servlets.
-- - Http.Server (shero/net/http/HttpServer.cc, HttpServlet.cc): onMessage and onRequest, with
--   the calls on the connection as a list. Http.Server.Conversation is one connection from its
--   opening to its last message.
-- - Net.Channel, Net.Poller (shero/net/Channel.h and .cc, EPollPoller.cc): event masks, a
--   channel's status against the poller's map and epoll_ctl, and what poll makes of the events
--   that epoll_wait reports.
-- - Net.EventLoop (shero/net/EventLoop.h, EventLoop.cc): the functions that other threads queue
--   and the eventfd; Threads is loop() among them, step by step, and Launch the start of a
--   loop's thread (shero/net/EventLoopThread.cc). Reactor is a loop with all its channels, its
--   poller and the kernel's interest list. Net.Socket and Net.Address (shero/net/Socket.cc,
--   Address.cc): a descriptor and its flags, the split of a host, and an address with its port.
--   Net.Uri (shero/net/Uri.h, and the C++ methods of Uri.rl): a URI's fields, defaults and
--   printing.
-- - Net.ThreadPool (shero/net/EventLoopThreadPool.h, EventLoopThreadPool.cc): which event loop
--   takes the next connection.
-- - Tcp.Connection (shero/net/tcp/TcpConnection.h, TcpConnection.cc): every operation as a
--   function from the connection and the results of its system calls to the new connection and
--   its effects in order. Session is a connection among its users on other threads, with the
--   tasks they queue in its loop.
-- - Tcp.Connector (shero/net/tcp/TcpConnector.h, TcpConnector.cc): the attempts to connect, in
--   the same form.
-- - Tcp.Acceptor, Tcp.Server, Tcp.Client (shero/net/tcp/TcpAcceptor.cc, TcpServer.cc,
--   TcpClient.cc): where connections come from, and who keeps them.
-- - Http.Client (shero/net/http/client/HttpClient.cc, HttpClientParser.cc): the request of a
--   client, the assembly of its response, and its life on one connection. Flow is DoRequest
--   with the clients it makes (Construct), and Served joins what it sends to the server.
-- - Base.Timer (shero/base/Timer.h, Timer.cc): the ordered set of timers and its timerfd.
--   Base.Log (shero/base/Log.h, Log.cc): levels, files, the queue of the logger's thread, and
--   the statements of the log macros (Events). Base.Thread (shero/base/Thread.h, Thread.cc): a
--   thread's start, with its semaphore, and its join. Base.Config (shero/base/Config.cc): the
--   logger's settings. Base.Mutex (shero/base/Mutex.h): who holds a mutex. Base.Util
--   (shero/base/Util.cc): RandomString.
-- - Tests: concrete runs.
--
-- Bytes are natural numbers; a theorem says so where it needs them below 256. A pointer into
-- the buffer's storage is its position. Machine integers keep their wrap where the code can
-- reach it (varints, zigzag, frame lengths); buffer positions are taken to stay below 2 ^ 64.
-- The parser's loop runs on fuel; one round more than the readable bytes is proved enough. The
-- decoder's loop has the code's own three rounds; the loop over messages runs on fuel, for
-- which the same bound is proved. The loops of the client's response parser run on fuel without
-- a bound, as their end depends on the generated grammar. Threads are step relations: a step is
-- what one thread does between two points where another can come in.
--
-- Parameters stand for code that is not in the repository: readv, write, connect and getsockopt
-- (what they return), rand, the clock, the allocator behind std::string::resize, fnmatch, SHA-1
-- and Base64 of OpenSSL, fopen and ftell, getaddrinfo, inet_addr and inet_ntop, the events that
-- epoll_wait reports, yaml-cpp and TinyXML, the parser of responses that Ragel generates, and
-- the user's servlets. The log statements inside other code are left out. The mutex of the
-- dispatcher makes each of its methods one step, but for addGlobServlet, which takes it twice
-- and is modelled without a call in between.
--
-- Not modelled: the Ragel grammars, the templates of singletons and of non-copyable classes,
-- the thread-local identifier of a thread and the checks on it, and the wrappers of the clock,
-- of OpenSSL and of system calls in shero/base/Util.cc, which have no logic of their own; the
-- examples and the tests.
pub mod Common
pub mod Base
pub mod Buffer
pub mod Dispatch
pub mod Http
pub mod Net
pub mod Tcp
pub mod WebSocket
mod Tests

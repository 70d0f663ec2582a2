-- ===== src/Lib.antt =====
-- tzzero-http, an HTTP/1.1 server library over an event loop.
--
-- The parts. A connection (src/net/tcp_connection.cpp) reads its socket into an input `Buffer`
-- (src/utils/buffer.cpp) and calls the server's message callback (src/http/http_server.cpp), which
-- runs the parser (src/http/http_parser.cpp) on the buffer. The parser takes complete lines out of
-- the buffer and keeps its place in an `HttpRequest` (src/http/http_request.cpp). A complete request
-- is answered with an `HttpResponse` (src/http/http_response.cpp), whose text the connection sends:
-- at once as far as the kernel takes it, and the rest from its output buffer when the poller says
-- that the socket is writable. An event loop (src/core/event_loop.cpp) waits in the poller
-- (src/core/epoll_poller.cpp), for as long as its timers (src/core/timer_queue.cpp) allow, calls the
-- callbacks of the events, and then runs the functors that other threads have queued. The server
-- (src/net/tcp_server.cpp) takes new connections from the acceptor (src/net/acceptor.cpp) in its own
-- loop, and gives each to a loop of the pool (src/net/event_loop_thread_pool.cpp), to which it posts
-- the functors that establish and destroy it. The program (src/main.cpp) reads its options, starts a
-- server with one handler, and enters the loop of its main thread. The thread pool (src/utils/thread_pool.cpp), the
-- memory pool and the logger (src/utils/logger.cpp) stand for themselves.
--
-- The files.
--   Buffer: src/utils/buffer.cpp and include/tzzero/utils/buffer.h, method by method under the same
--     names. Bounds has the invariant on the indices, Contents the buffer as a queue of bytes, Search
--     the line ends, Ints the integer methods, Descriptor the two calls of the kernel, Moves the copy
--     and move constructors.
--   Http/Numbers and Http/Headers: the header map, which the request and the response share
--     (`add_header` and its kin in src/http/http_request.cpp), and the texts of numbers.
--   Http/Request, Http/Parser, Http/Response, Http/Server: the files of src/http. Parser/Lines has
--     the request line and the header line; `round` is one round of the loop of
--     `HttpParser::parse_request`. Parser/Stream is the same loop over the list of unread bytes, a
--     description of the parser without indices; Refine compares the two. RoundTrip sets the parser
--     against `HttpRequest::to_string`. Server/Lifecycle is the server as an object over Net/TcpServer,
--     Server/Exchange a connection of Net/Connection with the message callback; Answered and Truncated
--     are about its responses.
--   Program: src/main.cpp. Handler has `http_handler` and its pages, Options the loop over the command
--     line, Startup what follows it, and the signal handler; Routes, Chosen, Serving, Stopping and
--     Answers are about these.
--   Net/Connection: src/net/tcp_connection.cpp. Events has the steps that a connection can take and
--     their runs; Sending and Delivery are about the bytes that are sent, Watching and Closed about the
--     poller's entry and the close callback, Stalled and Hangup about two ways to close.
--   Net/Acceptor: src/net/acceptor.cpp; Accepting is about the connections that `handle_read` takes.
--   Net/TcpServer: src/net/tcp_server.cpp, over Net/Acceptor and Net/EventLoopThreadPool; Names is
--     about the names of the connections, Counts and Lifetimes about what their loops are given to
--     run, Changes about the map, Arrivals about the connections that the acceptor hands over.
--   Net/Service: the server of src/net/tcp_server.cpp with the connections of
--     src/net/tcp_connection.cpp that it made, whose close callbacks come back to it; Objects counts
--     the connections by name, Removals is about their removal from the map, Destructor about the
--     destructor of a server without other loops.
--   Net/EventLoopThreadPool: src/net/event_loop_thread_pool.cpp, which deals new connections out to
--     the loops; Turns is about the order in which it does so. Net/EventLoopThread is one of its
--     threads with its owner, from the same file: Handshake is about `start_loop`, Joining about the
--     destructor.
--   Core/EventLoop: src/core/event_loop.cpp, as steps of the loop's thread and of others; Wakeups is
--     about the functors that are queued and the wake-up descriptor.
--   Core/TimerQueue: src/core/timer_queue.cpp; Expiry is about the order and the timeout, Sets about
--     the two sets, Rounds about `process_expired_timers`, Owned and Freed about the timers that are
--     deleted, and those that a callback's exception loses.
--   Core/EpollPoller: src/core/epoll_poller.cpp; Delivery is about the events that reach a callback.
--   Utils/ThreadPool: src/utils/thread_pool.cpp, as steps of its workers and its callers; Weights
--     counts workers, Tallied tasks; Invariant, Progress and Rest are about the runs of the pool.
--   Utils/Logger: src/utils/logger.cpp; Rotation is about the files that are moved, Sizes about the
--     size that is noted and the place of a line.
--   Utils/MemoryPool: include/tzzero/utils/memory_pool.h; Slots is about one block, Live, Taken and
--     Freed about the set of objects in use.
--   Prelude: lists, strings of bytes, tests and `size_t`.
--
-- The conventions. A byte is a number, a string or a vector a list. `size_t` arithmetic wraps around
-- at 2 ^ 64 (`add_size`, `sub_size`); `max_size`, 2 ^ 63, is what a vector can hold. A method that
-- changes its object returns the new one. The kernel's answers (`readv`, `write`) are arguments: the
-- bytes, the count, or the error number. In Net/Connection `none` is the end of the process, by an
-- assertion or by an exception that nothing catches. In Http/Parser `none` is the end of the fuel of
-- the loop, which is one more than the number of unread bytes: each round but the last takes a byte
-- or more, so the fuel is always enough. A header map is a list of distinct names, and the order in
-- which the map is walked, like the text of the date, is a parameter of the response.
--
-- Threads are interleavings: `step` takes the event that comes next, `none` if it cannot come now, and
-- `run` takes a list of them, which is a schedule. In Core/EventLoop a functor is a number and `spawns`
-- gives the functors that it queues; in Core/TimerQueue a time is a number of microseconds, `scaled` is
-- the arithmetic that makes milliseconds of it, `before` is the order of two pointers, and a parameter
-- gives what a callback asks of the queue. In Net/TcpServer the functors for the loops of the
-- connections are the list `posts`. In Utils/Logger the file system is a function from names to
-- contents.
--
-- A service in Net/Service has the connections by name and the removals that are due; a step is one
-- call in one of the loops. In Program `getopt_long` is the list of what it returns, and `std::stoi` a
-- function that may fail.
--
-- What is not modelled. The socket options and the descriptors that a loop and a poller make for
-- themselves are calls of the kernel. In Net/EventLoopThreadPool a function gives the loops of the
-- threads, in place of Net/EventLoopThread. The examples and the tools are clients of the library.
-- The log lines that the components write, what the program prints, and the addresses of a
-- connection and its two socket options, have no effect on what is modelled. In Net/Service the
-- functors that establish and destroy a connection are steps that may come at any time, and not
-- only in the order of the posts of Net/TcpServer. A copy past the end of a vector is undefined in
-- the source; here it writes nothing.
pub mod Prelude
pub mod Buffer
pub mod Core
pub mod Http
pub mod Net
pub mod Program
pub mod Utils

-- ===== src/Lib.antt =====
-- A downloader of files over HTTP for the console: the tasks of a list are downloaded by a number of
-- concurrent jobs, whose sockets share a limit of bandwidth.
--
-- How the parts interact. `main` reads the tasks and starts the first jobs. Each job has a
-- downloader, which reports to `OnTickSimple::invoke`; that shows the status on the dashboard,
-- replaces the job when it has ended, and follows redirections. The downloaders' sockets buffer what
-- they read and hand it on only when the bandwidth controller allows: their `on_data` calls its
-- `shedule_transfer`, and its loop calls their `transfer`.
--
-- Which file models which part:
-- - Socket: src/aio/tcp_bandwidth.cpp, include/aio/tcp_bandwidth.h, include/data_chunk.h. The record
--   `Socket` has the fields of `TCPSocketBandwidth`; its operations keep their names, `read`, `stop`
--   and `close` as `read_socket`, `stop_socket` and `close_socket`. `trace` is no field of the class:
--   it lists what the socket took in, published and called. What a subscriber does while an event is
--   published is a list of the socket's own calls, an argument of the step.
-- - TcpSimple: include/aio/tcp_simple.h, the plain socket, over the calls and events of Socket. The
--   handlers of its handle are the types of the events that have one. What a subscriber does within a
--   publication may make the handle publish within it.
-- - Controller: include/aio/bandwidth_controller.h over include/aio/bandwidth.h. `Stream` is the
--   interface of the streams, the parameter of the controller's operations; `transfer` is
--   `transfer_all`, its loops are `pass` and `rounds`. The clock is the elapsed time that each call is
--   given; Controller/Clock puts the readings of `Time` under it. A stream that a callback adds during
--   a pass is not visited in that pass: a new socket has nothing available, and the body of the loop
--   only goes on at it.
-- - Shaping: the buffering sockets as the streams of the controller, the `Stream` that
--   `TCPSocketBandwidth` implements. What an owner does while data is published is a list of calls of
--   its own socket; an owner that opens a new stream meanwhile (a downloader that fails, whose job is
--   replaced) is not covered.
-- - Factories: src/aio/factory_tcp.cpp, src/aio/factory_tcp_bandwidth.cpp, the sockets that a downloader
--   gets.
-- - Tasks: src/task_simple.cpp, include/task.h. A text is the list of its characters' codes. A stream
--   whose reads fail, with `badbit` or `failbit` but without `eofbit`, is not modelled.
-- - Jobs: src/on_tick_simple.cpp, include/job.h, include/factory_simple.h,
--   include/dashboard_simple.h, include/downloader.h, and the loop of main.cpp that starts the first
--   jobs, with its handler of SIGINT in Jobs/Interrupt. How the `run` of the d-th
--   downloader ends is a parameter.
-- - Program: src/main.cpp around the job list: the file of tasks, the handlers of the signal and of the
--   idle handle, and the summary. What happens in the loop is a list of events. Program/Create has
--   `FactorySimple::create` over the `run` of the downloader.
-- - Downloader: include/downloader_simple.h. State has the fields, the calls on handles and the
--   failures; File the side of the file; Net `run` and the side of the network; Events the events of
--   the handles. A handle is its pointer with the listeners registered on it. What a call answers at
--   once, and whether it fails at once, is an argument of the operation that makes it; this is so for
--   the calls whose failure the code tests for afterwards (`nodeAddrInfo`, `connect`, `write` and
--   `read` of the socket, `open` of the file), any other fails by a later event. A use of a null
--   pointer sets `crashed`, and the model goes on; the use of `uri_parsed` in the text of a failed
--   resolution is not counted (the text is empty there), and `resource<FileReq>` always makes a handle. The timer is started without failing at once. The parser is an interface; Body has `HttpParser` in
--   its place; Address has `addrinfo2IPAddress` of include/aio_uvw.h. Safety follows a download through its
--   phases: what it listens to in each, and which handles are then there.
-- - Http: src/http.cpp, include/http.h. The callbacks of `HttpParser` keep their names; `feed` is a
--   sequence of them. Which callbacks `http_parser_execute` makes is a parameter of `response_parse`
--   (Http/Order says in which order they come, and that none is made to a parser that is paused),
--   and so are the fields that `http_parser_parse_url` finds, of `uri_parse` (Http/Uri).
-- - Options: src/program_options.cpp, include/program_options.h. `parse_program_options` is given what
--   docopt returns; the regular expression for the limit and `stoul` are written out.
-- - Base: shared names, the Boolean tests, `size_t` arithmetic, lemmas on lists.
-- The modules under each part hold its lemmas and results; `Tests` has its concrete runs.
--
-- Integers. A `size_t` is a natural number; sums and products that may pass 2^64 are taken modulo
-- 2^64, and so are differences that may pass below 0. The counters of pending streams and of slots are
-- numbers of list nodes in memory and are not wrapped.
--
-- Fuel. The loop of `ControllerSimple::transfer` has its budget and two rounds: a round that goes on
-- sends a byte at least, or it wraps the budget, and then one more round empties every stream. The
-- loop of `TaskListSimple::get` has the length of the text and two rounds: each takes a character or
-- reaches the end. The loop of `next_task` has the length of the text and three: each reads a task.
--
-- Not modelled: the construction of the controller and of the factories in main.cpp, the clock of its
-- summary, the format of what the dashboard prints, and the third-party libraries under vendor.
pub mod Base
pub mod Controller
pub mod Downloader
pub mod Factories
pub mod Http
pub mod Jobs
pub mod Options
pub mod Program
pub mod Shaping
pub mod Socket
pub mod Tasks
pub mod TcpSimple

-- ===== src/Lib.antt =====
-- exhy is a C++ server library: fibers that a scheduler runs on worker threads, an IO manager that wakes
-- them by epoll events and timers, byte arrays for network data, and HTTP on top of these. This library
-- models the parts below and proves their properties.
--
-- ByteArray (exhy/exhy_bytearray.cpp and .h, exhy/exhy_endian.h): the chain of memory nodes, m_position,
--   m_size and m_capacity are the record ByteArray; write, read, setPosition, addCapacity and clear are
--   the functions of the same names in snake case, on bytes as lists of numbers. ByteArray/Codec has the
--   typed reads and writes, on top of write and read; ByteArray/Buffers has the io vectors, toString,
--   toHexString and readFromFile. The loops walk the chain node by node, so they are recursive on it.
--   size_t is a number below 2 ^ 64 with its wrap-around; a result `none` is a null pointer that is
--   followed or an exception. Integers are their bit patterns, and the byte order of the machine is the
--   parameter `host`. What `new char[s]` holds is the parameter `uninit`. The number of new nodes is computed
--   in doubles, so the theorems on growth are for fewer than 2 ^ 53 bytes at a time. Not modelled: writeToFile and
--   readFloat.
-- IoManager (exhy/exhy_iomanager.cpp and .h): the contexts of the file descriptors, the number of pending
--   events and the tasks that were handed to a scheduler. addEvent, delEvent, cancelEvent, cancelAll and
--   the body of idle's loop over the events of epoll_wait are functions on this state. What epoll_ctl
--   answers is a parameter, and each of them runs under the lock of its context, so each is one step.
--   IoManager/Board is an abstract view, a board of who waits for which event of which descriptor, with the
--   moves on it that IoManager/Moves relates to the calls. The number of contexts is cast to int, so the theorems
--   on the calls are for fewer than 2 ^ 31 of them; the same holds for the table of FdManager.
--   Not modelled: the wait, the pipe that wakes it, and the handing of expired timers to the scheduler.
-- Scheduler (exhy/exhy_scheduler.cpp and .h, with the states of exhy/exhy_fiber.h): the queue, the search of
--   a worker through it, and one round of the worker's loop. What a fiber does until it gives control
--   back is a parameter. Not modelled: start, stop and the threads.
-- Timers (exhy/exhy_timer.cpp and .h): the set of timers as the list of their addresses in the order of
--   Comparator, over what each address holds. The clock is a parameter of each call. Not modelled:
--   addConditionTimer, which wraps the callback. Timers/Invariant has the well-formed states and Timers/Upkeep
--   the calls as steps on them.
-- FdManager (exhy/exhy_fdmanager.cpp and .h): the table of descriptors; what fstat says is a parameter.
-- Servlets (exhy/http/http_servlet.cpp and .h): the lookup of the servlet for a path; fnmatch is a
--   parameter.
-- Http (exhy/http/http.h and http.cpp): the tables of methods and status codes and the conversions. Http/Messages
--   has HttpRequest and HttpResponse, their maps of headers and both dumps, on texts as lists of bytes; Http/Framing
--   and Http/Lines have a reader of lines and the lines that the dumps consist of. Not modelled: checkGetAs and
--   its kin, for other types than the content length.
-- HttpParser (exhy/http/http_parser.cpp and .h): the request parser, and in HttpParser/Responses the callbacks of
--   the response parser; the machines that Ragel generates are parameters. HttpSession (exhy/http/http_session.cpp): recvRequest and sendResponse, over
--   HttpParser and Streams.
-- Log (exhy/exhy_log.cpp and .h): levels in Log/Levels, the pattern and the items of a formatter in Log/Pattern,
--   loggers, appenders, the manager and the listener on the configuration in Log/Loggers. Loggers, appenders and
--   formatters are shared, so they are addresses into a store. localtime_r with strftime is a
--   parameter. Not modelled: the conversions to and from YAML, the reopening of files and the variadic format.
-- Streams (exhy/exhy_stream.cpp): readFixSize and writeFixSize of a buffer; the virtual functions read and write
--   are parameters. The number of bytes left is an int64_t, so the theorems are for fewer than 2 ^ 63 bytes.
-- HttpPool (exhy/http/http_connection.cpp and .h): the pool of connections; the sockets, the clock and the
--   connecting are parameters. Not modelled: the requests and responses that go over them.
-- Address (exhy/exhy_address.cpp and .h): the comparisons of addresses, as lists of bytes, and the port of an IPv4
--   address. Not modelled: the names and interfaces, IPv6 and Unix addresses and the masks.
-- Common: tests on numbers, lists, bits, words, texts and printed numbers for all of them.
-- Not modelled beyond these: the configuration, threads and locks, the switches between fibers,
--   sockets and hooks, which are calls of the system; the parsers that Ragel generates; the servers, which join
--   the parts above; and zlib.
--
-- ByteArray, IoManager and Timers have their well-formed states in their modules Invariant, Log in Log/Loggers/Wf;
-- the child modules are named for what they are about, and the modules named Runs apply the theorems to
-- concrete states. The functions on fuel are the loop of writeUint32 and writeUint64, whose fuel is the size of
-- the buffer tmp that the bytes go to; the loop of LogFormatter::init, with one more than the length of the
-- pattern, of which each turn takes a character; Logger::log, with the length of the chain of m_root; readFixSize
-- and writeFixSize, with one more than the length, of which each turn takes a byte; recvRequest, with one more
-- than the bytes that the stream has to give; and the printing of a number,
-- with twenty digits, which hold any number below 2 ^ 64. Where the fuel runs out, the loops answer `none`.
pub mod Common
pub mod ByteArray
pub mod IoManager
pub mod Log
pub mod Scheduler
pub mod Http
pub mod Servlets
pub mod Streams
pub mod FdManager
pub mod Timers
pub mod HttpParser
pub mod HttpSession
pub mod Address
pub mod HttpPool

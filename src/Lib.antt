-- ===== src/Lib.antt =====
-- Verification library of lim_webserver: models of the parts of the server that carry its own logic,
-- and the theorems about them.
--
-- The parts and their files (paths from the repository's root):
--   Base       shared names, lists with native lengths, bit operations, words and their bytes,
--              dictionaries (Base/Dict), and the outcome of code that throws or follows a null
--              pointer.
--   Util       spike/base/Util.cpp: StringUtil::UrlEncode and UrlDecode (Util/Url), Trim, TrimLeft
--              and TrimRight (Util/Trim). A string is the list of its bytes. The lazily created
--              output of the URL functions is an option next to what was passed over.
--   ByteArray  spike/net/ByteArray.h, ByteArray.cpp and Endian.h. Chain holds the linked nodes and
--              the loops that walk them; Store the record of the fields and the raw operations
--              (write, read, addCapacity, clear, the iovec views); Codec the numbers and strings
--              (writeFint8 ... readStringVint). The fixed-width codec takes the width in bytes.
--   Timer      spike/coroutine/Timer.h and Timer.cpp. A timer is an address of a heap, the set is
--              the list of addresses in the order of Timer::Comparator; addTimer, cancelTimer,
--              refreshTimer, resetTimer and listExpiredCallback are functions on TimerManager, and
--              Timer/Reach lets them follow one another in any order, and Timer/Race puts a call of
--              cancelTimer between the two critical sections of refreshTimer.
--   Http       spike/net/http: Http.h and Http.cpp (Method, Status, Fields), HttpRequest (Request)
--              and HttpResponse (Response). A std::map is the list of its entries in order. Request
--              uses UrlDecode and Trim of Util. Parser holds the callbacks of HttpParser.cpp, and
--              Session the receive loop of HttpSession.cpp, with the generated parser and the
--              connection as parameters.
--   Log        spike/splog: LogLevel.h, the patterns of LogFormatter.cpp (Log/Pattern), and the buffer
--              of LogStream.h with its integers (Log/Stream). Log/Appender is OutputAppender of
--              LogAppender.cpp and the loop of LogSink.cpp. Log/Async is AsyncAppender: the front
--              buffers that threads log to, and `run`, whose parts are steps that other threads'
--              calls come between. Log/Manager is Logger.cpp and LogManager.cpp over a heap of
--              loggers and appenders, and Log/Config the conversions and the listener of
--              LogInitializer.h and LogInitializer.cpp, which call the manager.
--   Configer   spike/base/Configer.h and Configer.cpp: a variable with its listeners (Var), the
--              variables by name and type (Registry), and LoadFromYaml (Yaml).
--   Coroutine  Queue is the task queue of spike/base/LFQueue.h over a heap of nodes (Linked, Refine
--              and Runs against a list, Race with another thread in the middle of enqueue).
--              Processor is the worker of spike/coroutine/Processor.cpp on lists of tasks: its
--              loop, idle, tickle and addTask are steps that other threads' steps come between
--              (Sleep, Garbage), and Order is about the order of tasks. Scheduler is the choice
--              of a processor and the lock of start and stop of spike/coroutine/Scheduler.cpp.
--   Net        EventLoop is the processor of spike/net/EventLoop.cpp that waits for a poller; Stream
--              sends a ByteArray as spike/net/SocketStream.cpp does, with the socket as a
--              parameter; Channel is the events of spike/net/IoChannel.cpp, and Hook the calls that
--              do_io of spike/coroutine/Hook.cpp tries again, and its timeout; Host is the division
--              of a text into host and service in Address::Lookup, and Mask the masks of IPv4
--              networks, of spike/net/Address.cpp; Fd is the table of file descriptors of
--              spike/coroutine/FdInfo.cpp. Poller is the table of channels of spike/net/Poller.cpp
--              with the interest list of epoll, Poll what its poll does with the events that
--              epoll_wait gives, Socket the life of a socket of spike/net/Socket.cpp,
--              and Server the bind, start, accept and stop of spike/net/Server.cpp, which use it.
--
-- Words. size_t and uint64_t wrap at 2 ^ 64 where the code computes with them; a signed word is an
-- integer in range. The host is taken to be little-endian. Floating-point ceil in addCapacity is
-- taken to be exact, which it is below 2 ^ 53.
--
-- Interfaces. epoll (Net/Poller) and the calls socket, accept and close (Net/Socket) are records of
-- operations on an abstract state with the laws of their documentation. fwrite, a formatter, the
-- callbacks of a variable, its conversion from text, and the emitter of YAML are parameters. A file
-- that an appender writes to is its bytes, with how many bytes of a text each call of fwrite takes and
-- for how many rounds the loop of LogSink is followed. epoll_ctl is taken to succeed where its manual
-- names no failure. AsyncAppender::append tests m_started and
-- takes the lock in one step. A call under the lock of LogManager is one step.
--
-- Fuel. The loops of ByteArray walk on fuel that their callers take from the number of nodes and the
-- size, and a loop out of fuel is stuck; the theorems about write and read give the result itself.
-- The groups of a variable-length number are 5 or 10. The loop of PARSE_PARAM has the length of the
-- text and one more, and that of CountBytes 33 rounds for 32 bits. The receive loop of HttpSession
-- runs on fuel; one more than the bytes to come is enough. `run` of AsyncAppender ends after at most
-- six steps once the appender is stopped. The loop of LogSink has no bound that is enough for every
-- file; one round is enough for a file that takes each text whole. Logger::log calls itself once, for the root logger, when that has an appender.
--
-- Not modelled: the parsers that Ragel generates, the hooks but do_io, context switches, creation of
-- threads, locks, the memory reclaimer, epoll_wait, socket options, the resolver, the conversion of
-- containers through the YAML library, the opening, flushing and rolling of log files, file I/O and
-- floats of ByteArray. boost::lexical_cast and atoi are parameters. A call of a timer operation is
-- one step but for Timer/Race; the time between addTimer's insertion and its look at begin() is not
-- split. The steps of a processor take each operation of its queues as one.
pub mod Base
pub mod Util
pub mod ByteArray
pub mod Timer
pub mod Http
pub mod Log
pub mod Coroutine
pub mod Net
pub mod Configer

-- ===== src/Lib.antt =====
-- tinyRPC: a library for remote procedure calls in C++, modelled from its source.
--
-- The parts, and how they interact
--   A call goes through protocol/ and net/. protocol/schema.hpp and protocol/rpc.hpp turn a struct into
--   its fields and a handler into a remote procedure; protocol/archive.hpp writes each field to a byte
--   stream and reads it back, in one byte order on every machine; protocol/factory.hpp finds a
--   procedure by its name. net/ carries the bytes: a connection keeps what it has received and what it
--   has yet to send in two buffers (net/tcp_buffer.cc), a timer runs tasks at their times
--   (net/timer.cc), a time wheel closes the connections that were idle too long
--   (net/tcp_conn_timer.cc), and a reactor waits for events and runs the tasks that they bring
--   (net/reactor.cc). A connection (net/tcp_connection.cc) reads and writes inside a coroutine
--   (common/coroutine/): the hooks on the system calls (net/coroutine_hook.cc) register its descriptor
--   with the reactor and go back to the main coroutine until it is ready. A server (net/tcp_server.cc)
--   accepts connections and hands them in turn to its threads (net/io_thread.cc), each of which has a
--   reactor, a time wheel and a pool of coroutines; a client (net/tcp_client.cc) sends a request and
--   waits for the reply. common/string.hpp prints numbers. async/ stands apart: an event that
--   coroutines wait for, a pool of threads that resume them, a container of tasks that run on such a
--   pool, and a latch by which a coroutine waits for several tasks.
--
-- Files
--   Prelude and below: library names passed on, list functions over the native numbers, integers,
--     Boolean tests, bits, Option as a monad.
--   Protocol/Endian: SwapByte of protocol/archive.hpp. `Host` is the byte order of a machine. Memory
--     says how a machine keeps a number, Swaps what each swap does to the bytes, and Wire joins them.
--   Protocol/Stream: a std::stringstream as the codec uses it.
--   Protocol/Archive: class Binary of protocol/archive.hpp. `put_` and `get_` are the two overloads of
--     `operator&` for a type, the one that writes and the one that reads. BuiltIn lists the types of
--     SERIALIZER_FOR_POD, Containers has the `insert` of each container, Throwing the readers that may
--     throw. Format describes the wire apart from the code and states the contract of an overload,
--     `Lawful`; ByteOrder, Primitive, Sequence, Pair, Text and Instances fill it; RoundTrip and Shorts
--     hold the conclusions.
--   Protocol/Factory: ObjectFactory and register_class of protocol/factory.hpp, with Lookup.
--   Protocol/Rpc: for_each of protocol/schema.hpp, rpc and dispatch of protocol/rpc.hpp; Exchange joins
--     a client and a server.
--   Net/TcpBuffer: net/tcp_buffer.h and net/tcp_buffer.cc. Memory has the copies, Safety the
--     well-formedness and the moves of the bytes, Fifo the buffer as a queue, Limits the indices.
--   Net/Timer: net/timer.h and net/timer.cc; Pending on the order, Firing on what runs, Arming on the
--     descriptor.
--   Net/TimeWheel: net/tcp_conn_timer.h and net/tcp_conn_timer.cc; Expiry on how long a slot lives.
--   Net/FdEvent: net/fd_event.h and net/fd_event.cc, a descriptor's callbacks; Container has the events
--     by descriptor. The operations that call the reactor are in Net/Reactor/Listening.
--   Net/Reactor: net/reactor.h and net/reactor.cc. `round` is one turn of the loop in Reactor::loop;
--     Watching compares `fds_` with what the kernel watches, Changes is on what other threads leave for
--     the loop, Running on the order of the tasks, and Looping on the rounds until `stop`.
--   Net/CoroutineHook: net/coroutine_hook.cc. Waking joins the hook of `read` with the reactor. Timed has
--     the hooks of connect and sleep with getTimer of net/reactor.cc; Timed/Sleeping joins that of sleep
--     with the timer.
--   Net/TcpConnection: net/tcp_connection.h and net/tcp_connection.cc. `Transport` is what a connection
--     uses; Hooked fills it with the hooks, the reactor and the time wheel. Input and Output are on the
--     two loops, Closing on how a connection ends.
--   Net/IoThread: net/io_thread.h and net/io_thread.cc. Clients and Sweeping are on the map of clients,
--     Dealing on the turns of the threads.
--   Net/TcpServer and Net/TcpClient: the files of those names in net/, with Accepting and Requests.
--   Common/Itoa: itoa and ptrtoa of common/string.hpp, with Reading, RoundTrip, Bounds
--     and Pointer.
--   Common/Grisu: dtoa_grisu2 of common/string.hpp. Table has the
--     cached powers of ten; Scaling, Powers and Digits/Rounding the theorems. Exponent is
--     WriteExponent, with its text read back; Prettify has that function and dtoa_grisu2, with a reader
--     of decimal text in Prettify/Reading.
--   Common/Coroutine: common/coroutine/coroutine.h and coroutine.cc, with Switching; Common/Coroutine/
--     Pool: coroutine_pool.h and coroutine_pool.cc, with Dispatch and Growth.
--   Async/Event: async/event.hpp and event.cc. Setting is on what `set` resumes; Waiting has the
--     accesses of many coroutines to the word as a step relation, and Waiting/Reaching what holds in
--     every state that they reach.
--   Async/ThreadPool: async/thread_pool.hpp and thread_pool.cc. Draining is on the loop of a thread,
--     Counting on the size, as a step relation of callers and threads.
--   Async/Task: async/task.hpp, as frames in a store and what a resumption does with them. Twice is on
--     a task that waits for the pool; Owners is on who destroys a coroutine, with the move assignment
--     of async/generator.hpp.
--   Async/WhenAll: the latch and the awaitable of async/when_all.hpp; Once is on how often the
--     coroutine is resumed, over a step relation of it and its tasks.
--   Async/SyncWait: async/sync_wait.hpp, the thread that waits and the coroutine, as a step relation.
--   Async/TaskContainer: async/task_container.hpp. Counts has the splices, Slots the invariant,
--     Running the steps, and Reaching what holds after any of them.
--   The modules called Tests: runs on concrete values.
--
-- How state and operations correspond
--   An operation has the name of its function in snake case, and takes and returns the state that the
--   function reads and changes. A number of w bytes is its bit pattern, below 256 ^ w. An exception is
--   the result `malformed`. `none` is a fault: a copy outside a vector, an index below zero, a `pop` of
--   an empty queue, a call of an empty function. A clock reading is an argument. Shared events live in
--   a store under numbers. The system calls, the body of a task, the allocator and `coctx_swap`, which
--   is assembly, are parameters; what the kernel promises of `epoll_ctl` is the record `EpollLaws`,
--   and Net/Reactor/Tests fills it; what a socket that takes bytes promises is the record `Delivers`,
--   and Net/TcpConnection/Tests fills it. What a thread does from the switch of a `Yield` to the
--   `Resume` that returns from it is a parameter, `others`. The double that GetCachedPower computes and
--   rounds up is the parameter `ceil_dk`. Coroutines and connections live in stores under numbers, and
--   a null pointer is `none`. In Async the awaiters lie in a store under addresses, a position in the
--   list of slots is the number that its node holds, and a step is one access to what threads share;
--   what a resumed coroutine does, and the growth factor, are parameters.
--
-- Bounds and fuel
--   The reading loop of a text runs on fuel, the length that was announced; each round takes a byte at
--   least. The length of a container is cut to 32 bits as in the code. The sizes of the built-in types
--   are those of 64-bit Linux. The indices of a buffer are natural numbers: a step below zero is a
--   fault, and the growth of a buffer tests that its new size is an `int`. The loop over the tasks of a
--   round runs on fuel, since a task may add another; where none does, more fuel than there are tasks
--   is enough. The loops of `input` and `output` run on fuel: one round for each read that fills the
--   buffer and one more, and one for each byte and one more. The loop of a server's connection and the
--   accepting loop, which need not end, count their rounds. GrisuRound has 2 ^ 64 rounds, more than
--   the remainders that it can pass through; the second loop of DigitGen has 20, each of which multiplies
--   `delta` by ten. The loops over the awaiters of an event have more rounds than awaiters, and the
--   loop of a pool's thread more than handles, where no coroutine adds one. The counts of async/ wrap
--   at 2 ^ 64. Where the language leaves the negation in itoa open, its model wraps.
--
-- Not modelled
--   Of the reactor, its constructor and destructor, and the reactor of a thread; of the events,
--   the container called by two threads at once; setMaxTimeOut; starting and joining threads,
--   creating sockets and TcpServer::start; the constructor of a coroutine that takes a callback;
--   net/mutex.h and net/net_address.cc; of async/, the types that are glue for the compiler's
--   coroutine frames, the joins of a pool's threads and the waits of the destructors, and the run of
--   the task that a container starts, with its resumption under the container's mutex; the templates that
--   count a struct's members; net2/, an unfinished second layer; logging; tests and exercises.
--   System calls and their failures beyond the results that the code tests have no model here.
pub mod Prelude
pub mod Protocol
pub mod Net
pub mod Async
pub mod Common

-- ===== src/Lib.antt =====
-- A verification library for hodgepodge, a collection of C++ components and experiments.
--
-- The modelled parts, with the files that model them:
--
-- thread_queue.h, `blocking_queue<T>`: BlockingQueue holds the queue and what each member does under
-- the mutex (`get` and `put` from where their waits are over, `can_get` and `can_put` for the
-- predicates of the waits, `refuses` for the early return of a `put` that must not block).
-- BlockingQueue/Threads lets any number of threads use one queue: a schedule is a list of actions, each
-- of which lets one thread run from a point where it can lose the mutex to the next, so that every
-- interleaving is a list. A sleeping thread runs again only when its condition variable is
-- notified or wakes for no reason. Calls has what one call does, Wakeup, History, Order and
-- Progress what holds after any schedule.
--
-- tthreads.cpp, `test2` and `test3`: Demo runs the programs of these tests on the threads of
-- BlockingQueue/Threads, the first of which fills the queue and closes it while the others count
-- what they get. Counts has what a reader counts, Filling and Reading what the steps keep, and
-- Totals what the counts add up to.
--
-- thread_pool.h, `ThreadPool`: ThreadPool holds the pool and the steps of its workers and callers, in
-- the same style. A task is a value; what it does is the list of `enqueue` calls that the schedule
-- gives to its worker. Counts counts the threads by where they stand, Invariant proves what
-- each step keeps, and History what follows after any schedule.
-- The file began as a copy of an upstream one; the bound on the waiting tasks and `stop_all` are this
-- repository's.
--
-- SocketHelper.cpp, the transfers: Socket holds `readSocket` and `writeSocket`. The system is not
-- modelled: a transfer takes the list of the answers that its calls get, and the theorems assume
-- of them what the calls document, that a read stores at most what it was asked for and a write
-- takes at most what it was given. A list that ends before the transfer does stands for a call
-- that never returns.
--
-- SocketHelper.cpp, the rest: SetUp holds the functions that make sockets. What the system answers is a
-- parameter, a function of the calls before it, and each call is logged with its answer; SetUp/Opened
-- counts the sockets that a log leaves open. A name of a socket is the list of its
-- characters and is taken to fit `sun_path`; what `errno` is after these functions is not modelled. Descriptors
-- holds the loops that pass descriptors, in the style of Socket, with what they send in
-- Descriptors/Sending and what they receive in Descriptors/Receiving. The receiver gets numbers of its own
-- for the open files that were sent; which file a number stands for is a parameter on both sides.
--
-- HLog.cpp: HLog holds both versions of `HLogInner`, the one that prints a line and the one that calls
-- log4cpp. Its buffer is a list of 4096 characters, a write past the end of which has no result. Line
-- has what the buffer holds, Category the name that is taken from the source file, and Call what log4cpp
-- is called with. The texts that the format strings give are arguments.
--
-- tcube.cpp: Cube holds the 48 stickers as a list, the table of neighbours that `init_peer_off`
-- computes, and `rotate_face`. Rotation has what a rotation does, by the positions that Natural
-- lets it act on, and Pairing what the table says. Cube/Search holds the search of `main` for any states
-- and moves, so that it runs on small graphs too. Its fuel is the number of rounds of the outer
-- loop, and Fuel says how much is enough; Derive and Complete have what the search finds, and Colours
-- applies this to cubes. A `std::set` is the list of its elements. The output of `main`
-- and the part of the file under `#if 0` are not modelled.
--
-- tipc.cpp, on Linux: Ipc holds the map from handles to connections of `ipc_io_service`, a table of
-- 1024 entries and a `std::map` for the other handles, with `associate` and `unassociate` and the calls
-- of `epoll_ctl` that they make. A connection is a number for its address. Handles has what each
-- operation does to the map, and Registered what holds after any sequence of them. Uds
-- holds `string_copy`, and `read` and `write` of `ipc_connection_linux_UDS`, in the style of Socket;
-- Uds/Strings has what the first leaves in its array, and Uds/Transfers compares the others with
-- SocketHelper.cpp. Connection holds the
-- rest of that class, with the service and the log of the calls that a connection makes, and
-- Connection/Life has which descriptors it opens and closes and what becomes of its entry in the
-- service. Uds/Calm has what a `read` stores that meets no error.
--
-- tipc.cpp, on Windows: Pipe holds `read` and `write` of `ipc_connection_win_namedpipe`, in the style of
-- Uds; a call that ends at once and one that is pending first are answers of their own. Channel
-- holds how a connection learns that there are bytes: the read of one byte that it keeps in flight, the
-- completions that the port queues, `notify`, and the reads of `on_read`, as a sequence of
-- actions of the peer, the system and the service. Channel/Reads has what a read takes from the pipe,
-- Sound and Serving what each step keeps, and Stream what holds after any sequence. The reads of one
-- callback are one step. PipeServer holds the handles: the constructors and the destructor,
-- `close`, `connect`, `listen` and `notify` for a client, with `associate` and `unassociate` on
-- Windows, as functions that return, throw or fail an assertion, on the service of Ipc and the log
-- of the system's calls. A handle is an `int` here, so that the table is that of Ipc. PipeServer/Accept
-- and Handles have which handles stay open and what becomes of the service's entries.
--
-- tipc.cpp, `run`: Dispatch holds the loops on Linux and on Windows. What a callback does is the
-- list of what it asks of the service. Dispatch/Batch compares a batch of reports with the requests
-- before it, and Port the loop on Windows with that on Linux.
--
-- tipc.cpp, the test: Exchange holds the loop of `main` that sends a packet at a time, by what
-- `rand()` gives, and `server_tst1`, by the readings of its clock, one for each block, which its output
-- divides by. Exchange/Clock has when the output is defined, Client and Server what they send and
-- accept, and Stale what the server accepts at the end of the file.
-- Session holds what the client writes for a whole test, with the total, and the server's
-- `on_read`, and Session/Passed has how such a test ends. The output, the list of the server's
-- connections and the callbacks of the client are not modelled.
--
-- kernel_module/hello.c: Reverse holds the device as one buffer and a state of every thread, up to the next
-- place where another thread can notice; an event says whether the thread goes on, is interrupted by a signal, or
-- meets a fault. The wait queue is the threads that are asleep. Reverse/Lock, Steps, Invariant and Wakeups
-- have what each step keeps, Runs what holds in every run, Release how the mutex is given back, and Stream and
-- Queue compare the device with a queue of bytes.
--
-- topencl.cpp and myGEMM.cl: Gemm holds `matmult`, `matcmp` and the kernels `myGEMM1`, `myGEMM1b` and
-- `myGEMM2`. The operations on `float` are an argument, of which no law is used, and the order in which the
-- device runs the work-items is a list. Grid and Order have what writes in any order leave in a matrix,
-- Plain the kernels without tiles, and Load and Tiles the one with tiles. The calls of OpenCL are not modelled.
--
-- ft2wrap.h: Bitmap holds `my_draw_bitmap`, with the conversions between `int` and `unsigned` and
-- the clipping. Paint has what a loop leaves that changes a list in place, Window and Rows over which cells the
-- two loops run, and Drawn what becomes of the image.
-- Bitmap/Text holds `printString`, with the FreeType library as an argument, and compares it with a layout.
-- Its `float` variables hold whole numbers only; Bitmap/Float rounds them to 24 bits. The setting of the size and
-- the self test are not modelled.
--
-- An `int` is an integer, and `size_of_int` and `int_of_size` in Prelude/Int are its conversions
-- to and from a 64-bit `size_t`. Bytes are numbers. Values of type T and tasks are of any type.
-- The mutex and the condition variables are taken to be what the C++ standard says they are.
-- The mutex and the wait queue of the kernel are taken to be what its documentation says they are.
-- Running out of memory, but in `reverse_init`, and exceptions but those of the code, are not
-- modelled. The other
-- programs of the repository are not modelled: most of them print what a language or library
-- feature does, and tdrm1.c is a copy of another project's example.
--
-- Prelude passes the shared names on, and Tests holds runs at concrete inputs.
pub mod Prelude
pub mod BlockingQueue
pub mod Demo
pub mod ThreadPool
pub mod Socket
pub mod Cube
pub mod SetUp
pub mod Descriptors
pub mod HLog
pub mod Uds
pub mod Pipe
pub mod Channel
pub mod PipeServer
pub mod Dispatch
pub mod Exchange
pub mod Session
pub mod Gemm
pub mod Ipc
pub mod Connection
pub mod Reverse
pub mod Bitmap
mod Tests

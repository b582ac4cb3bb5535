-- ===== src/Lib.antt =====
-- SecondGear, a reactor for TCP servers: an event loop that polls descriptors, runs timers and
-- pending functors, and serves connections through byte buffers.
--
-- Which file models which part:
-- - Buffer (Buffer.h, Buffer.cpp): the state is the record Buffer with the fields buffer_,
--   readerIndex_ and writerIndex_; every member function is a definition of its name in snake
--   case. Buffer/Valid has the invariant and the contents, Buffer/Write what makes room and
--   adds bytes, Buffer/Read what takes bytes away or reads a descriptor, Buffer/Fifo the
--   refinement, Buffer/Shrink the function shrink.
-- - Time (time/Timestamp, time/Timer): time stamps as integers, timers as records. Time/Text
--   has toString and toFormattedString.
-- - TimerQueue (TimerQueue.h, TimerQueue.cpp, and runAt, runAfter and runEvery of
--   EventLoop.cpp): the state is the record TimerQueue with the timers that exist by address,
--   the ordered set timers_, and what the timer descriptor was last set to. TimerQueue/Valid
--   has the invariant, Insert the functions addTimer, addTimerInLoop and insert, Expire the
--   function getExpired, Restart and Reset the function reset, Running and HandleRead the
--   function handleRead, Delay the function howMuchTimeFromNow.
-- - Channel (Channel.h, Channel.cpp): a descriptor with its events and callbacks; handleEvent
--   gives the callbacks that it runs, in order. Channel/Dispatch says which.
-- - Poller (Poller.h, Poller.cpp, and the members of Channel that end in update()): the
--   channels by address, the table of entries and the map. Poller/Valid has the invariant that
--   ties the three, Update the function updateChannel, Swap and Remove the function
--   removeChannel, Events the four calls that change events, Asks what poll is asked for after
--   them, Entries and Swap/Entries what becomes of the entries of other channels, Fresh the
--   function enableReading of a new channel, Active, Marks and Poll the functions
--   getActiveChannels and poll.
-- - TcpConnection (TcpConnection.h, TcpConnection.cpp): a connection with its poller, its two
--   buffers and its effects on the outside. TcpConnection/Open has the invariant and the stream
--   of bytes, Establish the start, Send the functions send and sendInLoop, Flush the function
--   handleWrite, Flush/Once one call by what write returns, Flush/Drain the calls one after the
--   other, Order what calls do together, Close the functions handleRead, handleClose and
--   connectDestroyed, Frame what calls leave as it was, Late a functor that runs after
--   connectDestroyed, Mute the callbacks that are not set.
-- - EventLoop (EventLoop.h, EventLoop.cpp): pending functors, wake-ups and flags.
--   EventLoop/Interleave has the steps of the loop's thread, from before loop() on, and of the
--   others, without quit, Order what holds in every interleaving.
-- - TcpServer (TcpServer.h, TcpServer.cpp, Acceptor.h, Acceptor.cpp): the connections by name
--   and the number of the next one. TcpServer/Names is about the names, TcpServer/Removal about
--   removeConnection of any connection.
-- - Server (TcpServer.cpp over TcpConnection.cpp and Poller.cpp): a server with its
--   connections, which share a poller, and the functors that destroy them. Server/Valid has the
--   invariant, Calls and Apart what a call on one connection leaves of the others, Accept and
--   Close the beginning and the end of a connection, Listen the acceptor's handleRead, Read the
--   function handleRead of one of them, Serve any sequence of requests, Inputs and Turn a turn
--   of the loop over the connections.
-- - Net (net/SocketsOps.h, net/SocketsOps.cpp, net/Socket.h, net/Socket.cpp,
--   net/InetAddress.cpp): addresses and their text, the byte orders, and what becomes of the
--   results of the system calls. Net/Address has the text of an address.
-- - Latch (thread/CountDownLatch.h, thread/CountDownLatch.cpp, over thread/MutexLock.h and
--   thread/Condition.h): the count, and the threads that wait. Latch/Waiting has the steps of
--   any number of threads.
-- - Thread (thread/Thread.h, thread/Thread.cpp, thread/CurrentThread.h): a thread object, its
--   owner and the new thread, with a latch between them. Thread/Sound has the invariant of
--   their steps, Thread/Start what start() promises.
-- - EventLoopThread (EventLoopThread.h, EventLoopThread.cpp): a thread with a loop of its own.
--   EventLoopThread/Handshake is about startLoop, Destructor about the destructor.
-- - Reactor (EventLoop.cpp, the functions loop and doPendingFunctors over Poller and Channel):
--   a turn of the loop, where callbacks and functors are arguments. Reactor/Views has what
--   handleEvent reads of a channel, Reactor/Turn what runs and in which order.
-- - Loops (EventLoop.cpp, the constructor, the destructor, updateChannel and removeChannel; the
--   constructor of TimerQueue.cpp; the constructor of Acceptor.cpp and listen): the loops of a
--   process, and which thread has which. Loops/Adds is about a new channel that waits for
--   input, Open about the constructor, Local and Confined about what calls of a thread change.
-- - Main (main.cpp): the messages, the callbacks and the set-up of the program. Main/Greeting
--   is about what a new connection is sent, Ready about the set-up, Service about the server
--   from then on.
-- - Common: shared names, lists over the native numbers, integers, the result of a call that
--   can end early, and std::set as an ordered list.
--
-- How the parts interact: the queue of timers runs the callbacks of expired timers, which call
-- back into addTimer; a connection reads into and writes from its buffers, and changes its
-- channel's events through the poller; the poller's table is what poll waits for, and its
-- channels' dispatch is what the loop runs. A turn of the loop polls, dispatches to the active
-- channels and then runs the pending functors. The acceptor takes a connection by Net and hands
-- it to the server. A thread tells its owner that it has started by a latch, and one that has a
-- loop by a condition. The program makes a loop, whose poller has the timers' channel and the
-- one that wakes it, and a server, whose acceptor adds a third; the connections come on top of
-- these. In Reactor, callbacks and functors are arguments, which run. In Server those of the
-- server run, and of the user's message callback what it does to the input buffer; what else it
-- calls is a call of the loop's thread after it, and the user's connection callback is an
-- effect. Main has the callbacks of the program. Elsewhere a callback of the user or of the
-- server, and a functor for the loop, is an effect in the order of the calls.
--
-- Conventions: an assert is live, since the build is a debug build, and ends in the error
-- `assertion`; an exception of std::vector is the error `length_error`. size_t arithmetic wraps
-- at 2 ^ 64. Sums of int64_t time stamps are exact, since a signed overflow is undefined. The
-- type double is the interface Double of Time, with the laws that the code relies on. A pointer
-- to a channel or a timer is an address into a store. System calls, the clock and the addresses
-- that new returns are arguments. Threads are relations between states, one step for each
-- critical section or action of a thread, and a wait on a condition may end with no cause. The
-- byte orders and the text of addresses are the interface Libc of Net, with what the manual
-- says of them. What snprintf prints for the number of a connection is an argument, and numbers
-- print apart; for a time stamp it is written out. The digits of a number run on fuel of 19,
-- enough for the 20 digits of a number below 2 ^ 64; all other loops run over lists.
--
-- Not modelled: calls from another thread beyond the functor that they queue; calls that only
-- pass on to the system (setReuseAddr, shutdownWrite, the flags of a descriptor,
-- waitForSeconds) and destructors other than those of EventLoop and EventLoopThread; what a new
-- thread runs and its name in the system; the functors of other threads in Server, where
-- TcpConnection/Late has what one does that comes too late; exhaustion of memory; messages to
-- standard output.
pub mod Common
pub mod Buffer
pub mod Time
pub mod TimerQueue
pub mod Channel
pub mod Poller
pub mod TcpConnection
pub mod EventLoop
pub mod Net
pub mod TcpServer
pub mod Latch
pub mod Thread
pub mod EventLoopThread
pub mod Server
pub mod Reactor
pub mod Loops
pub mod Main

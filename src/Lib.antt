-- ===== src/Lib.antt =====
-- deps, a base library for network programs in C++: byte buffers, packets and their serialization,
-- sockets on an event loop, and threads.
--
-- Prelude              names, tests and list lemmas that the other modules share
-- Buffer               net/blockbuffer.h, BlockBuffer: the record `Buffer` has its fields, and each
--                      member function is the function of its name. `Pool` is the static part of the
--                      class. Child modules: Memory (memmove and memcpy), Growth (increase_capacity),
--                      Contents (append, resize, replace), Erase, Capacity (when calls succeed),
--                      Counters (the static counters), Run (any sequence of calls), Refine (the
--                      buffer as a list of bytes with a limit), Forward (ForwardBuffer).
-- Marshal              net/marshall.h. Outcome (exceptions, and reads outside the memory), Bytes
--                      (integers in memory), Pack (PackBuffer and Pack), Unpack (Unpack and, of
--                      net/varstr.h, Varstr), Stream (the operators << and >>), and the proofs:
--                      Emit (what is packed), Parse (what is read back), Safe (reads stay in bounds),
--                      RoundTrip, Ordered (std::set and std::map), Unordered (what a set is, apart
--                      from the order in which it arrives), Marshallable (the helpers of that class),
--                      ByteOrder (the macros of the other byte order).
-- Packet               net/packet.h: Header (PacketHeader), the Encoder and the Decoder, and the
--                      proofs in Encode, Serialize, Fresh, Copy and RoundTrip.
-- Net                  net/socket_base.h, net/socket_container.h, net/tcp_socket.cpp and .h,
--                      net/udp_socket.cpp and .h, net/epoll_container.cpp and .h: the record `Net`
--                      is an EpollContainer with the sockets that it points to, `Os` what the
--                      members ask of the system and `App` what of the application. Table (std::map
--                      and std::set), Epoll (the table's members), Tcp and Opening (TcpSocket), Udp
--                      (UdpSocket), Loop (HandleSockets, virtual calls), Options (options of a
--                      descriptor, small members), and the proofs:
--                      Consistent (the invariant), Updates, Container, Deleting, Closing,
--                      Sending, Waking, Queueing, Fresh, Receiving, Datagrams, Consumed, Opened,
--                      UdpOpened, Timeouts, Round, Answers, Run (any sequence of calls).
-- Sys                  sys/util.cpp, sys/logger.cpp and .h, sys/tool.cpp, sys/thread.cpp and .h,
--                      sys/thread_mutex.cpp, sys/thread_rwlock.cpp, sys/locker.h. Clock (the clocks,
--                      and the times that waits and sleeps compute), Ntp, Hex, Format and LocalTime
--                      (what util.cpp prints), Logger, Daemon (daemonize), Thread, Locks (the
--                      wrappers of pthread's locks, and the scoped lockers). The children of Logger:
--                      Line (the buffer of vlog), Levels, File (descriptors), Rotation (maybeRotate
--                      by the atomic steps of many threads). The child of Locks: Exclusion.
-- Threads              sys/thread_queue.h, with signal and timeWait of sys/thread_cond.cpp: ThreadQueue. Run
--                      (threads as a step relation), Order (bound and order under any interleaving),
--                      Signals (the steps with the signals), Awake (no item waits for a thread that
--                      nobody wakes).
--
-- How the parts interact: an Encoder owns one PackBuffer and two Packs on it, which are offsets into
-- it; a PackBuffer owns a BlockBuffer and turns its answers false into exceptions; a Decoder owns an
-- Unpack. The operators << and >> of a type are a record `Codec`, and a message is packed and read by
-- such operators only, so `serialize` and `deserialize` take them as arguments.
--
-- A TcpSocket owns two BlockBuffers and a UdpSocket one; each calls the container that points to it,
-- and the application, whose two members are parameters that may change anything as long as they keep
-- the invariant (`LawfulApp`). The container calls the sockets by pointers, which are addresses in a
-- heap, and deletes a closed one in the next round. System calls are parameters numbered by the calls before, so that each may answer
-- anything; `LawfulOs` is what their manuals promise of the answers. Use of freed memory or of an erased
-- iterator sets `faulty`.
--
-- Conventions. A byte is a number, and memory a list of bytes. `size_t` has 64 bits and its arithmetic
-- wraps where the source computes; a block has 4096 bytes, as in `def_block_alloc_4k`, the only
-- allocator that is used; MaxBlocks is a parameter below 2^32 and 16 for a PackBuffer. malloc is a
-- parameter: `malloc i n` is the answer of the i-th call to a request of n bytes, nothing or n bytes of
-- any content (`Answers`); `Supplies` says that every call has an answer. A member that throws leaves
-- the state that it has made so far. The byte order is that of the x86 branch of the macros in
-- net/marshall.h. A double and a signed integer are given by their bit patterns. The loop of Write runs
-- on fuel, one for each byte that waits, since send takes one at least; running out sets `stuck`. No
-- other loop needs fuel: each goes over a list or counts down a number.
--
-- Not modelled: the kqueue branches of the container and the options under __APPLE__; the peer address
-- of a socket; the sizes of the kernel's buffers that a UdpSocket asks for and does not look at; the
-- initial attributes of locks and condition variables, and join, detach, yield and broadcast, which
-- hand on what pthread does; UintIP2String and getCWD, which hand on what the system answers; the
-- macros of sys/log.h, which format the message that vlog is given; printing to std::ostream; the
-- functions under WIN32, and the counter under MONITOR.
pub mod Prelude
pub mod Buffer
pub mod Marshal
pub mod Packet
pub mod Net
pub mod Sys
pub mod Threads

-- ===== src/Lib.antt =====
-- acid-compute: a C++ library of coroutines, sockets, HTTP and RPC. This development models the parts
-- of it that compute on data the library owns.
--
-- ByteArray (acid/common/byte_array.{h,cpp}) is the buffer that the RPC layer encodes to and decodes
-- from. ByteArray/Store.antt is the chain of blocks with the cursor m_cur and the raw operations:
-- `make` is the constructor, `write`, `read`, `read_at` (read with a position), `set_position`,
-- `add_capacity`, `to_string` and `clear` are the methods of these names. A block is the list of its
-- bytes, a pointer is the index of a block or `none`, and a copy outside of a block is the outcome
-- `undefined`. The modules below it prove what they do: Store/Shape holds the invariant IsValid.
-- ByteArray/Ints.antt has the fixed-width integers (write_fix_uint32 is `write_fix_int` with 4 bytes,
-- write_string_f16 is `write_string_fix` with 2) for a machine of either byte order,
-- ByteArray/Varint.antt the zigzag and variable-length ones (write_var_*, read_var_*), and
-- ByteArray/Buffers.antt the iovec views (get_read_buffers, get_write_buffers).
-- ByteArray/Streams.antt gives the clients two views: Filled (appending) and Ahead (what lies in front
-- of the position), which state only bytes and positions.
--
-- Rpc/Protocol.antt is acid/rpc/protocol.{h,cpp}: `create`, `encode`, `encode_meta`, `decode` and
-- `decode_meta`, built on the ByteArray operations in the order of the source.
--
-- Timers.antt is acid/common/timer.{h,cpp}: the heap of Timer objects, the std::set of their addresses
-- as a list in the comparator's order, and `add_timer`, `cancel`, `refresh`, `reset`,
-- `get_next_timer` and `list_expired_callback`, each as what runs under its lock. IOManager
-- waits for get_next_timer and schedules what list_expired_callback gives. Timers/Order and
-- Timers/Sets hold the lemmas on the set, Timers/Lifecycle the invariant IsValid, Timers/Firing and
-- Timers/Split the parts of Timers/Expiry.
--
-- Rpc/Serializer.antt is acid/rpc/serializer.h on the basic types (`read_value`, `write_value`) and on
-- std::list and std::vector of them (`read_sequence`, `write_sequence`).
--
-- Rpc/Routing.antt is acid/rpc/route_strategy.h, by which a client chooses an address: `select` is the
-- virtual method over the state of the strategy's object, and `rands` is what rand() gives.
--
-- Http/Servlets.antt is acid/http/servlet.{h,cpp}: the tables of servlets and globs with `add_servlet`,
-- `add_glob_servlet`, `del_servlet`, `del_glob_servlet` and the lookups; `handle` says whose handle
-- runs. `fnmatch` of the C library is a parameter, of which nothing is assumed.
--
-- Http/Names.antt, Http/Headers.antt, Http/Requests.antt and Http/Responses.antt are
-- acid/http/http.{h,cpp}: the tables of methods, states and content types with their texts, the
-- std::map of headers in the order of CaseInsensitiveLess, and HttpRequest and HttpResponse with `dump`
-- and `init`. Http/Texts.antt is what they ask of strcmp, strcasecmp and the streams. The digits of a
-- number have room for the 20 of a size_t.
--
-- Stream.antt is acid/common/stream.cpp: `read_fix_size` into a buffer, over the list of the answers
-- that the virtual `read` gives; RpcSession reads its messages through it. Only answers that fit the
-- room asked for are defined, as recv promises.
--
-- Sync.antt is the coroutine synchronisation. Sync/Mutex.antt is CoMutex of acid/common/co_mutex.{h,cpp}
-- as a step relation: `act` is the next action of one coroutine in lock() or unlock(), with the two
-- spinlocks and m_fiber_id as variables, and `relock` a call of lock() by a coroutine that is between a
-- lock() and its unlock(). `Reach` is all orders of the moves that its first argument allows: the
-- theorems on exclusion allow `locks_once`, no relock and no coroutine with the id that the memory of
-- m_fiber_id held, and Sync/Mutex/Reentry says what a relock does. Sync/Cond.antt is CoCond,
-- Sync/Channel.antt is ChannelImpl of acid/common/channel.h and Sync/Counters.antt holds CoSemaphore and
-- CoCountDownLatch: their operations are cut where they wait, since CoMutex lets one coroutine into
-- them at a time. Resuming a scheduled coroutine is a step of its own, in any order. That wait() ends
-- with a lock() is in the order: a coroutine goes on when it has the mutex, maybe never.
--
-- Stream/Sockets.antt is acid/net/socket_stream.{h,cpp} on byte arrays with the two loops of Stream over
-- it, where the answers of recvmsg and sendmsg are lists, defined only within the iovecs that they are
-- given. Rpc/Session.antt is acid/rpc/rpc_session.{h,cpp} over these, the ByteArray and the Protocol.
--
-- Rpc/Results.antt is the Result of acid/rpc/rpc.h, and Rpc/Registry.antt the maps and handlers of
-- acid/rpc/rpc_service_registry.{h,cpp}, which answer with serialized Results: `providers` is equal_range
-- of m_services, an iterator is the id of its entry, and erasing one that dangles is `undefined`.
-- Rpc/Registry/Clients.antt is a turn of its loop over a client's messages, without the timer that closes
-- the client.
--
-- Rpc/Server.antt, Rpc/Client.antt and Rpc/Pool.antt are acid/rpc/rpc_server.{h,cpp}, rpc_client.{h,cpp} and
-- rpc_connection_pool.{h,cpp}. A client's call is cut at its waits, into `start_call`, `end_call` and
-- `result_of`; what the pool's call meets outside is a record, Surroundings. Rpc/Client/Answered runs a
-- call through client and server, and Rpc/Pool/Answers a discovery through registry and pool. The loop
-- of RpcServer::publish takes fuel; the theorem on it holds for every fuel.
--
-- Tasks/Fiber.antt is the state machine of acid/common/fiber.{h,cpp}, and Tasks/Scheduler.antt the list of
-- tasks and the threads in run() of acid/common/scheduler.{h,cpp}: `pick` is the search under the lock,
-- and `Step` is one action of one thread, where resume(), yield() and the switch back are actions of
-- their own. A failed assertion is `none`. The theorems are on `Reach IsFree`: schedule() is called for a
-- fiber only while it is `IsFree`. The idle fibers, start() and stop() are not modelled.
--
-- Descriptors.antt is the table of descriptor contexts of acid/common/fd_manager.{h,cpp}, one call at a
-- time. A pointer to a context is its index among those ever made. Here and in the IOManager a size that the
-- code casts to int for a comparison goes through `is_short`.
--
-- IoManager.antt is acid/common/iomanager.{h,cpp}, one call at a time. The vector of contexts is a size and
-- a function. IoManager/Waiters is its abstract view, the table of the calls of schedule() that wait for
-- an event; IoManager/Valid says when the counter, the contexts and what epoll watches agree. What epoll
-- watches is the replay of the logged calls by the documented effect of EPOLL_CTL_ADD, MOD and DEL. No
-- descriptor is closed while it is watched. A valid state has fewer than 2 ^ 31 contexts, so the theorems on
-- add_event are for descriptors whose fd * 1.5 is an int.
--
-- Hooks.antt is acid/common/hook.cpp: do_io, which read, write, accept and their like go through, connect,
-- fcntl and ioctl. The original calls are a list of answers; each wait of the fiber takes one `Wake`, which
-- says what the world did to the IOManager meanwhile and whether the timer fired. A descriptor is not
-- negative. ioctl calls itself, so it has fuel, and the theorem about it speaks of any amount.
--
-- Sizes are size_t: subtractions wrap at 2 ^ 64, and sums are those of live memory, below 2 ^ 64. A
-- loop with fuel is one of the source's bounded loops: `groups` has the room of the array it fills
-- (5 or 10), `read_groups` the rounds of the source (5 or 10), which all 32-bit and 64-bit values
-- need at most. Every other loop walks a list.
--
-- Not modelled: the other containers of the Serializer, the timers and sockets of the RPC parts, and
-- write_fix_size of a buffer; the contexts of the fibers; addresses and sockets (wrappers of system
-- calls); threads and mutexes; the configuration and the logger (YAML and text output); and the vendored
-- libraries in third_party.
pub mod Prelude
pub mod Outcome
pub mod ByteArray
pub mod Rpc
pub mod Timers
pub mod Http
pub mod Stream
pub mod Sync
pub mod Tasks
pub mod Descriptors
pub mod IoManager
pub mod Hooks
mod Samples

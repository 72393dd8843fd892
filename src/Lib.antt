-- ===== src/Lib.antt =====
-- The pool node: miners send nonces over HTTP, the node computes the deadline of each, keeps the best
-- one of every miner's round and forwards it to the server of the miner's pool.
--
-- How the parts interact. A session (src/Session.cpp) asks the rate limiter (src/RateLimiter.hpp) for
-- each request. A request for the mining info is answered from the wallet's cache (src/Wallet.cpp); a
-- nonce is queued, with the current block of the wallet, with the handler
-- (src/DeadlineRequestHandler.cpp). The handler's loop gathers requests in batches of four (SSE4) or
-- eight (AVX2) and posts them to threads, which compute the deadlines side by side (src/burstmath.c),
-- validate each against the miner's round, forward what improves it (src/NodeComClient.hpp) and
-- answer the session. A thread of the wallet asks for a new block once a second.
--
-- Files and code:
-- - Base: lists, memory with checked accesses, maps, bits, integers, and numbers as decimal text
--   (`std::stoull`, `std::to_string`).
-- - Burstmath: src/burstmath.c. Bytes has the constants and SET_NONCE's byte order, Shabal the
--   interface of the hash, Plot and Deadline `calculate_deadlines_sse4` and
--   `calculate_deadlines_avx2`, Scoop `calculate_scoop`. Reference says what a deadline is without
--   arrays; PlotCorrect, MaskCorrect and DeadlineCorrect compare the two, Bounds
--   has the size of a deadline; Header is the interface that burstmath.h declares; Toy is a hash to run
--   with.
-- - Wallet: src/Wallet.hpp and src/Wallet.cpp. State has the block, the rounds and the reads, Info the
--   JSON and the texts, Refresh `get_mining_info` and `refresh_block`, Miners `cache_miners`, Construct
--   the constructor. InfoLaws, RefreshLaws, MinersLaws, QueryLaws and ConstructLaws have the proofs.
--   Threads puts the thread of `refresh_blocks` among threads that read: Reader and Refresher have
--   their places, Steps the interleaving, Mutex the interface of the shared mutex; Progress, Shown,
--   Copies, Readers, ReadsLaws, Moves, Laws and Heights build what Seen concludes, Sharing and
--   Returns what Finishes does.
-- - Config: src/Config.hpp. Load has the constructor, PoolLaws the map of the pools.
-- - Net: what boost's asynchronous calls report, for connections and acceptors.
-- - NodeCom: src/NodeComClient.hpp. `do_submit_nonce`; Connect has the constructor, Calls the objects of
--   the calls and `async_complete_rpc`. ConnectLaws and CallsLaws have the proofs.
-- - RateLimiter: src/RateLimiter.hpp. Bucket has the loop of `Bucket::aquire`, Limiter
--   `RateLimiter::aquire`, Contention threads interleaved at each load and exchange, Alone one
--   of them without the others, Bound what they take at any rate in exact arithmetic.
-- - Session: src/Session.cpp. Response has the answers, Url `parse_url`, Request `handle_request` and
--   `process_submit_nonce_req`, Connection the reads and writes of a connection and its end. UrlLaws,
--   RequestLaws, QueuedLaws, ComputableLaws and ConnectionLaws have the proofs.
-- - Handler: src/DeadlineRequestHandler.hpp and .cpp. Distribute has `enque_req` and the loop, Batch
--   `validate_deadlines`, Validate `validate_deadline`. ValidateLaws, Forwarded, DistributeLaws,
--   DistributeRuns and BatchLaws have the proofs; Stale follows the rounds over refreshes of the
--   block. Construct has the constructor; Validator is the interface of the two versions of
--   `validate_deadlines`.
-- - Server: src/Server.cpp. Listener has the listener, Main the global objects and `main`; ListenerLaws
--   and MainLaws have the proofs.
-- - HttpServer: src/server.cpp, a prototype that answers every request alike. Session and Listener have
--   the code, SessionLaws and ListenerLaws the proofs.
-- - System: the parts together. Steps has what their threads do to what they share, one step at a
--   time; Loops, Rounds, Counts, Grows, Invariant, Runs and Reached build the invariant, Safety and Drains say
--   what follows, and Begins that the global objects are a state to begin in. Sessions adds the
--   connections that the listener accepts; SessionsLaws, Served and Sent lead to Connected, what
--   each of them can count on.
--
-- State is passed explicitly. The miners' rounds are shared objects: the wallet's map holds places in
-- a store of rounds. The queue and the posted batches are lists. Text is the list of its bytes. A
-- `none` of a definition with arrays is an access outside them, an unset byte or a division by zero.
--
-- Fuel: the loop that fills a plot has 8193 turns (`fill_fuel`), one for each of its 8192 hashes and
-- one to leave; `to_string` has 20 digits, which 2 ^ 64 needs; `connect_loop` has 10 turns, the number
-- of tries.
--
-- Parameters: the Shabal library, rapidjson (`Json`, `Values`), what curl brings (`Transfer`), the rows
-- of the database, boost's shared mutex (`SharedMutex`), `double` (`Double`), the local address and the time, what the calls on sockets
-- return (`Endpoint`, `ErrorCode`), Beast (`Beast`), and all that the start of the program meets
-- (`World`). gRPC gives back each tag once. Handler takes the queue to be first in, first out; System
-- lets it give its requests in any order.
--
-- Not modelled: the copies of Shabal and of the concurrent queue, and the generated code. In
-- System a call of `validate_deadline`, `handle_request` or `refresh_block` is one step (Wallet/Threads
-- has those of `refresh_block`); a thread that
-- meets another in a round finds the mutex held. The count of idle turns of the handler's loop has no end here
-- (it is an `int`). `sscanf` passes over white space and takes single digits, which is left out, as is
-- a program that runs out of memory or threads. The destructors, which run only when
-- the process ends, and the texts of the log are left out.
pub mod Base
pub mod Config
pub mod Net
pub mod Burstmath
pub mod Wallet
pub mod NodeCom
pub mod RateLimiter
pub mod Session
pub mod Handler
pub mod Server
pub mod HttpServer
pub mod System

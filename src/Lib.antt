-- ===== src/Lib.antt =====
-- Verification of dmmr, a replicated key-value cache with an nginx access module.
--
-- The repository has two programs. http_dmmr_cache/ is the cache daemon: dmmr_server.c answers GET,
-- SET and DEL, dmmr_db.c keeps the records in Berkeley DB, dmmr_cluster.c replicates them between
-- nodes. nginx-dmmr-module-c/ is an nginx module that routes a request to a service, checks its
-- credential against the cache, limits the rate of each client and names the upstream.
--
-- Base: Booleans, lists, byte strings and fixed-width integers, shared by all parts.
-- Config: the constants of dmmr_config.h and the opcodes of dmmr_protocol.h.
-- Db: http_dmmr_cache/dmmr_db.c. Db/Record is the record layout, Db/Ops the operations, on a state
--   that is the database together with the answers of malloc, and Db/Cursor the walk over all
--   records (Db/Walk proves how far it gets). Db/Views reads a database as a map from keys to
--   entries, and Db/Lww is the merge that replication promises on such maps. A DB->put that fails is
--   taken to leave the database as it was.
-- Rate: nginx-dmmr-module-c/ngx_http_dmmr_rate_limit.c. Rate/Order and Rate/Tree are the search tree
--   and its order, Rate/Zone the zone and the request handler.
-- Access: the access handler of nginx-dmmr-module-c/ngx_http_dmmr_module.c and its phases:
--   Access/Router and Access/Best (ngx_http_dmmr_router.c), Access/Credential, Access/Cache and
--   Access/Auth (ngx_http_dmmr_auth.c), Access/Upstream (ngx_http_dmmr_upstream.c), Access/Handler,
--   Access/Merge, the merging of configurations, Access/Directives and Access/Limits, which set them,
--   and Access/Connect, the cache's address. What the cache's socket does in each attempt is a
--   parameter; the pool's allocator answers by the place in the handler and the size asked for.
-- Cluster: http_dmmr_cache/dmmr_cluster.c. Cluster/Peers is the table of peers, Cluster/PeerList the
--   peer list that nodes exchange, and Cluster/Session the frames that a connection acts on.
--   Cluster/Wire is the frame on both sides of the wire; Cluster/Handshake, Cluster/Hello and
--   Cluster/Bootstrap are the conversations made of frames: AUTH_REQUEST, HELLO, and the snapshot that
--   a new node fetches. Cluster/Outbox is the outbox and the sender of a peer, Cluster/Reaper the reaper;
--   Cluster/Seeds is the configuration and discovery. Proofs: Cluster/Transport (a frame that is sent
--   is received), Cluster/Transfer and Cluster/Fetch (a snapshot), Cluster/Orderly, Cluster/Turns,
--   Cluster/Fifo, Cluster/Offer and Cluster/Reaper (outboxes), Cluster/Seeded, Cluster/Greeting,
--   Cluster/Intake, Cluster/Trust, and Cluster/Replicate, a write on its way from the handler of one
--   node to the database of another.
-- Server: http_dmmr_cache/dmmr_server.c and dmmr_net.c. Server/Net is the loops around recv and send,
--   Server/Frame read_frame, Server/Request the handlers, Server/Client the loop over a connection's
--   requests, Server/Jobs, Server/Control and Server/Gc the queues between the threads and the garbage
--   collector. Proofs: Server/Wire, Server/Refused and Server/Pipeline (a stream of requests),
--   Server/Store, Server/Announce, Server/Writes and Server/Legacy (the handlers and the entries of the
--   database), and Server/Gateway, which puts the nginx module's client and the server together.
-- Pool: http_dmmr_cache/dmmr_heap_pool.c. Pool/Heap is the pool and its operations, on the links that
--   the free slots hold; Pool/Chain is its free list as a sequence of distinct slots. The walk of
--   dmmr_heap_pool_used runs on fuel: one more than the number of free slots is enough. Pool/Payload
--   is the pool of payload buffers in dmmr_pool.c.
--
-- The parts meet in these places: Server/Request calls Db/Ops under its handles and puts commands into
-- the queue that Server/Control empties into the outboxes of Cluster/Outbox; Cluster/Bootstrap applies
-- received records with db_apply_record; Server/Jobs takes its entries from Pool/Heap; the request of
-- Access/Cache is what Server/Frame reads.
--
-- Integers are natural numbers with the wrap-around of their width written out. Berkeley DB, malloc,
-- nginx's slab pool, its red-black tree's recolouring and deletion, CRC-32 and SHA-256 are parameters:
-- records of operations with the documented laws that the code relies on, filled by small concrete
-- instances in Db/Toy and Rate/Toy, or plain functions. What recv, send and connect give is a sequence
-- of events. Loops are structural recursion on the list or the tree that they walk, so nothing runs on
-- fuel unless its file says so: the loop of handle_client takes one unit for a request and one for the
-- end of the stream, the loop of request_snapshot one for a frame. A mutex makes the code between lock
-- and unlock one step, which is how operations on shared state are modelled.
--
-- Not modelled: the sockets themselves, creating and joining threads, signals, the command line and
-- the daemon's start-up, logging, generate_nonce, strlcpy, nginx's tables of directives, and
-- ngx_http_dmmr_rate_zone_init, which sets up an empty tree and queue.
-- sha256.c is a general-purpose hash; the model of hmac_sha256 has it as a parameter.
pub mod Base
pub mod Config
pub mod Db
pub mod Rate
pub mod Access
pub mod Cluster
pub mod Pool
pub mod Server

-- ===== src/Server.antt =====
-- http_dmmr_cache/dmmr_server.c with dmmr_net.c: the public protocol of the cache, the handlers of its
-- requests and the queues between its threads. Sockets, clocks and allocators are parameters: what one
-- call meets is an `Env`. The queues are locked while they change, so a turn of a thread is a function.
pub mod Net
pub mod Frame
pub mod Request
pub mod Client
pub mod Wire
pub mod Refused
pub mod Pipeline
pub mod Store
pub mod Gateway
pub mod Announce
pub mod Writes
pub mod Legacy
pub mod Control
pub mod Jobs
pub mod Gc
mod Tests

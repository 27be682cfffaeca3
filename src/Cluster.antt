-- ===== src/Cluster.antt =====
-- http_dmmr_cache/dmmr_cluster.c: the table of peers, the frames between nodes, their senders and
-- sessions, and how a node finds the others.
pub mod Peers
pub mod PeerList
pub mod NoSelf
pub mod Exchange
pub mod Session
pub mod Wire
pub mod Transport
pub mod Bootstrap
pub mod Transfer
pub mod Fetch
pub mod Outbox
pub mod Offer
pub mod Orderly
pub mod Turns
pub mod Fifo
pub mod Reaper
pub mod Hello
pub mod Greeting
pub mod Intake
pub mod Replicate
pub mod Handshake
pub mod Trust
pub mod Seeds
pub mod Seeded
mod Samples
mod Tests

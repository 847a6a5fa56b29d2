-- ===== src/Peer.antt =====
-- candy/src/peer/peer.h and peer.cc: the connection to one other client.
pub mod State
pub mod Send
pub mod Calls
pub mod Invariant
pub mod Soundness
pub mod Edges
pub mod Timeout

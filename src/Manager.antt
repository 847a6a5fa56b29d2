-- ===== src/Manager.antt =====
-- candy/src/peer/manager.h and manager.cc: the routes over other clients.
pub mod Table
pub mod TableLaws
pub mod State
pub mod Messages
pub mod Settings
pub mod Send
pub mod Queue
pub mod Stun
pub mod Receive
pub mod Calls
pub mod Soundness
pub mod Invariant
pub mod Steps
pub mod Packets
pub mod StunLaws
pub mod Mapped
pub mod OnlyPeers

-- ===== src/Tun.antt =====
-- candy/src/tun/tun.h and tun.cc: packets between the system and the other clients.
pub mod Flows
pub mod Packets
pub mod Bounded
pub mod Returns
pub mod Tunnel
pub mod Routes

-- ===== src/Netstack.antt =====
-- candy/src/netstack: the UDP multiplexer of udpmux.h and udpmux.cc, and stun.h.
pub mod Stun
pub mod Mux
pub mod Owners
pub mod Replies
pub mod Index
pub mod Tcp
pub mod Udp
pub mod Stack

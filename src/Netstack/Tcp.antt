-- ===== src/Netstack/Tcp.antt =====
-- class SessionTcp of candy/src/netstack/session_tcp.h and session_tcp.cc.
pub mod State
pub mod Stack
pub mod Reactor
pub mod Calls
pub mod Induction
pub mod Forward
pub mod Arrival
pub mod Backward
pub mod Ends
pub mod Repeats
pub mod Losses

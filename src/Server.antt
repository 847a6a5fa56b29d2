-- ===== src/Server.antt =====
-- candy/src/websocket/server.h and server.cc: the server that clients meet at.
pub mod State
pub mod Routes
pub mod Alloc
pub mod Handlers
pub mod Serve
pub mod AllocLaws
pub mod Keeps
pub mod Logins
pub mod Reach
pub mod SecondLogin
pub mod Relay
pub mod Settings
pub mod Sdwan
pub mod Rules
pub mod Registry

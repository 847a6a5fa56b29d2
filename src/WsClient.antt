-- ===== src/WsClient.antt =====
-- candy/src/websocket/client.h and client.cc: the client's connection to the server.
pub mod State
pub mod Send
pub mod Handlers
pub mod Loop
pub mod Login
pub mod Peers
pub mod RouteTable
pub mod Offer
pub mod GivenAway
pub mod Overread

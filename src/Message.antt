-- ===== src/Message.antt =====
-- candy/src/websocket/message.h and message.cc: the messages between client and server.
pub mod Kind
pub mod Layout
pub mod Hash
pub mod Signed
pub mod Make

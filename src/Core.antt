-- ===== src/Core.antt =====
-- candy/src/core/message.h, client.h and client.cc: the messages between the parts of a client, and
-- the queues that carry them.
pub mod Message
pub mod Queue
pub mod Fifo

-- ===== src/Examples.antt =====
-- The theorems at concrete inputs.
mod Data
mod Network
mod Signing
mod Serving
mod Clients
mod Managing
mod Connecting
mod Tunnelling
mod Routing
mod Muxing
mod Relaying
mod Stacking
mod Sdwan
mod Configuring

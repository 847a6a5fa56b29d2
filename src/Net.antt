-- ===== src/Net.antt =====
-- candy/src/core/net.h and net.cc: byte order, IPv4 addresses, and addresses with a mask.
pub mod Order
pub mod Ip4
pub mod Address
pub mod RoundTrip
pub mod Value
pub mod Prefix
pub mod Host
pub mod Walk
pub mod Cidr
pub mod CidrLaws
pub mod Text

-- ===== src/Net.antt =====
-- net/common.h, net/ipv4/ipv4.h and net/udp/udp.h: byte order, addresses and checksums.
pub mod ByteOrder
pub mod Ipv4
pub mod Udp
mod Examples

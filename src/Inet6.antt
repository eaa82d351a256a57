-- ===== src/Inet6.antt =====
-- src/inet6.c: a minimal IPv6 stack over Ethernet.
pub mod Examples
pub mod Addr
pub mod Checksum
pub mod Packet
pub mod Send
pub mod Recv
pub mod Deliver
pub mod Answer
pub mod Text

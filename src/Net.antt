-- ===== src/Net.antt =====
-- Go's package `net` as the code uses it: hardware addresses, IP addresses and IPv4 networks.
pub mod Mac
pub mod Ipv4
pub mod Ipv6
pub mod Ip
pub mod Local
pub mod Cidr

-- ===== src/Proxy.antt =====
-- reverseproxy.go: the reverse proxy. Time, the network and the transports' round trips are
-- parameters.
pub mod Relay
pub mod Director
pub mod Joining
pub mod Transport
pub mod Headers
pub mod Serve
pub mod Conn
pub mod Hijack
pub mod Tunnel
pub mod Latency
pub mod DialTls

-- ===== src/Proxy.antt =====
-- The gRPC proxy: boot/proxy_entry.go, and the part of boot/grpc_entry.go that reads its rules from
-- the boot configuration.
pub mod Rule
pub mod Director
pub mod Config
pub mod Entry
pub mod Codec
pub mod Handler
pub mod Call
mod Tests

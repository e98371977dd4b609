-- ===== src/Boot.antt =====
-- The parts of boot/ beside the proxy, and the interceptors of middleware/ around its HTTP server.
pub mod Integers
pub mod ErrorWrapper
pub mod Plain
pub mod HttpHeader
pub mod Gateway
pub mod GrpcWebOptions
pub mod Entry
pub mod Registration
pub mod Layers
mod Tests

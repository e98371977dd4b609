-- ===== src/Middleware.antt =====
-- The middleware, middleware/: what the interceptors share (Slices, Payload, Address, Outgoing, Info
-- and Access), the interceptors (Handler, Panic, Log, Prom, Guard, Jwt, Trace and Timeout), the chains
-- of them, and libraries for the tests (Plain).
pub mod Slices
pub mod Payload
pub mod Address
pub mod Outgoing
pub mod Access
pub mod Info
pub mod Handler
pub mod Panic
pub mod Log
pub mod Prom
pub mod Guard
pub mod Jwt
pub mod Trace
pub mod Timeout
pub mod Chain
pub mod Plain
mod Tests
pub mod InterceptorTests
mod ChainTests

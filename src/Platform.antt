-- ===== src/Platform.antt =====
-- What the worker runs on: D1 and KV as interfaces, the handler monad and the error boundary.
pub mod Http
pub mod Database
pub mod Kv
pub mod Bucket
pub mod Memory

-- ===== src/Handlers.antt =====
-- backend/src/handlers: the HTTP handlers. Each is an action of the runtime, over the host, the
-- codecs of third-party crates that it calls, and the active chain adapter.
pub mod Tx
pub mod Wallet
pub mod Statements
pub mod Requests

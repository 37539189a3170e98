-- ===== src/Chain/Solana.antt =====
-- backend/src/chain/solana.rs, the adapter for Solana. The children hold its parts: the crates that
-- it calls (`Sdk`, `Json`), the instructions that it builds, the RPC calls, and the methods of the
-- trait.
pub mod Sdk
pub mod Json
pub mod Instructions
pub mod Errors
pub mod Rpc
pub mod Methods

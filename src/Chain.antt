-- ===== src/Chain.antt =====
-- backend/src/chain: the port to a blockchain and its implementation for Solana.
pub mod Adapter
pub mod Solana

-- ===== src/Blocklist.antt =====
-- internal/blocklist: feeds and lists. Parser reads them, Engine fetches and stores them, Health
-- judges the stored snapshots; Gathered, Stored and Healthy are proofs.
pub mod Parser
pub mod Engine
pub mod Gathered
pub mod Stored
pub mod Fetcher
pub mod Health
pub mod Healthy

-- ===== src/Node.antt =====
-- internal/dnsengine/engine.go and cmd/dataplane/main.go: the data plane put together from its parts.
-- Startup builds it; Feeding and Ruling are proofs across the parts.
pub mod Startup
pub mod Feeding
pub mod Ruling
pub mod Answers

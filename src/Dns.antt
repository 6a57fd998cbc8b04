-- ===== src/Dns.antt =====
-- internal/dnsengine/engine.go: the handling of one DNS query. Domain is the work on names, State
-- the engine and what it is wired to, Answering the replies and the log, Forward the upstream path,
-- Allowing and Process the handler; the other modules are proofs.
pub mod Domain
pub mod State
pub mod Answering
pub mod Forward
pub mod Allowing
pub mod Process
pub mod Effects
pub mod Filters
pub mod Replies
pub mod Tally
pub mod Clearance
pub mod Precedence
pub mod Denials
pub mod Stale

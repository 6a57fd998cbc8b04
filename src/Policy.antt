-- ===== src/Policy.antt =====
-- internal/policy: the policy engine. Types and Platform are the data, Schedule and Scope the two
-- filters, Snapshot the precomputed rules, Engine the decision; the other modules are proofs.
pub mod Types
pub mod Schedule
pub mod Window
pub mod Scope
pub mod Snapshot
pub mod Engine
pub mod Loader
pub mod Accepted
pub mod Choice
pub mod Lookup
pub mod Bloom
pub mod Override
pub mod Precedence
pub mod Flat
pub mod Coverage
pub mod Hits
pub mod Candidates

-- ===== src/Detector.antt =====
-- internal/threat/detector.go: the heuristics on domain names. Labels takes names apart, Confusables
-- has the homoglyphs, Patterns the generated names, Heuristics the detector; Lookalike,
-- Soundness and Verdicts are proofs.
pub mod Labels
pub mod Confusables
pub mod Patterns
pub mod Heuristics
pub mod Lookalike
pub mod Soundness
pub mod Verdicts

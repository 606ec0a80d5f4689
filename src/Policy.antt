-- ===== src/Policy.antt =====
-- internal/policy: rules over a token's inventory, the findings and the health score.
pub mod Severity
pub mod Condition
pub mod Facts
pub mod Guard
pub mod Match
pub mod Evaluate
pub mod Load
pub mod Packs

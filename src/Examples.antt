-- ===== src/Examples.antt =====
-- Concrete inputs, each theorem's statement at one of them, and runs of the code.
pub mod Fixtures
mod Rules
mod Calls
mod Reports
mod Fleet
mod Service
mod Tools

-- ===== src/Trace.antt =====
-- internal/trace: recorded PKCS#11 calls and what the analyzer finds in them.
pub mod Coverage
pub mod Event
pub mod Effects
pub mod Report
pub mod Sessions
pub mod Calls
pub mod Analyze
pub mod Keys

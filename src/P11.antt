-- ===== src/P11.antt =====
-- internal/p11: the addresses of tokens.
pub mod Uri

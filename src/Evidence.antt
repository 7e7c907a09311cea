-- ===== src/Evidence.antt =====
-- internal/evidence: the quotes from evidence that a run trusts.
pub mod Normal
pub mod Quotes

-- ===== src/Authority.antt =====
-- src/authority/canonical-memory-authority.ts: admission of a provider's candidate, the plan of a
-- revision, and the commit that writes it.
pub mod Admission
pub mod Plan
pub mod Commit

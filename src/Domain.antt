-- ===== src/Domain.antt =====
-- The domain of the fabric: src/domain. Optional fields are `Option`, and ids and timestamps are
-- text. The string unions that the verifier checks again at run time (memory class and type,
-- speaker provenance, epistemic status) stay text; those that control flow are data types.
pub mod Json
pub mod Platform
pub mod Scope
pub mod Memory
pub mod Records
pub mod Errors
pub mod Encode

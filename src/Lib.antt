-- ===== src/Lib.antt =====
-- The canonical core of the memory fabric: how memories are committed, stored, delivered to
-- providers, synchronized to devices and checked before they are shown.
--
-- Parts and files.
-- - Domain: src/domain/types.ts, errors.ts and utils.ts. Domain/Memory and Domain/Records have the
--   interfaces as records; Domain/Scope the joined text keys, those of the store included;
--   Domain/Errors the error classes and the result of a call that may throw; Domain/Json and
--   Domain/Platform `normalize`, `stableStringify` and `sha256`; Domain/Encode the values that the
--   code hashes or compares as JSON; Domain/Scope/Keys what the keys determine.
-- - Store: src/store/in-memory-canonical-memory-store.ts. Store has `InMemoryState`, the operations
--   of a transaction (`putHead` is put_head, `nextCommitSeq` is next_commit_seq, …) and
--   `transaction`; Store/Queries the reads and `compareAndSetDeviceCheckpoint`; Store/Outbox
--   `claimOutboxBatch`; Store/Settlement `settleOutboxClaim`; Store/Listings the listings and
--   `getNamespaceOperationsSummary`; Store/Invariant the invariant; Store/Outbox/Places,
--   Store/Outbox/Lease, Store/Outbox/Exclusive and Store/Settlement/Fence the rules of leases,
--   Store/Summary those of the summary.
-- - Authority: src/authority/canonical-memory-authority.ts. Authority/Admission has the admission of
--   provider candidates, Authority/Plan the branch of each operation, Authority/Commit `commit` and
--   `commitInTransaction`; the files below Authority/Commit and Authority/Plan are proofs.
-- - Sync: src/sync/memory-sync-service.ts (`readChanges`, `pullForDevice`,
--   `acknowledgeDeviceChanges`); Sync/Log, Sync/Page and Sync/Acknowledge are proofs.
-- - Verification: src/verification/canonical-verifier.ts (`verifyMany`).
-- - Operations: src/operations/central-operations-service.ts (`claimOutbox`, `settleOutbox`), with the
--   types of src/operations/types.ts and central-operations-store.ts; Operations/Pages the inventory,
--   the fleet and the materializations; Operations/Inventory, Operations/Cursor and Operations/Fleet are
--   proofs.
-- - Candidates: src/candidates/memory-candidate-service.ts (`ingest`), with `validateInput`
--   in Candidates/Validation; Candidates/Ingested, Candidates/Created and Candidates/Committed are
--   proofs, the last of ingest, commit and verification together.
-- - Curation: src/curation/memory-curation-record-store.ts and the in-memory store beside it, with the
--   record of src/curation/types.ts; Curation/Backed and Curation/Puts are
--   proofs.
-- - Review: src/review/types.ts and normalization.ts; Review/Queue in-memory-semantic-review-store.ts;
--   Review/Enqueue and Review/Service semantic-review-service.ts (its `resolve` is decide);
--   Review/Versions, Review/Final and Review/Decides are proofs.
-- - History: the calls that change the store as steps, and their interleavings.
-- - Examples: runs of the model on a small store.
--
-- The authority writes heads, revisions, changes and outbox records in one transaction; the sync
-- service pages through the changes and moves the checkpoints of devices; the operations service
-- leases outbox records to workers and records what providers did; the verifier reads heads and
-- revisions. All of them share one store. The candidate service puts the candidates that the
-- authority commits; the curation records are an admission verifier of the authority, and the review
-- queue, a store of its own, takes its cases from them.
--
-- State and time. An operation takes the state and returns the state after it. A transaction works
-- on a copy and keeps it only if the work returns, so a throw leaves the state as it was. Calls
-- run between the awaits of other calls: a service call that reads the store more than once takes
-- one state for each read, but for three places. The items of claimOutbox, and the number in the
-- error of a failed acknowledgement, are read in the state that the write left; the records of one
-- receipt enter the review queue at one time and one after the other. The clock, the random ids and
-- the claim tokens are arguments.
--
-- Sequence and revision numbers are naturals, without the loss of precision of JavaScript numbers
-- from 2^53 on. A number that a caller gives to a service is of the type Number, and the code's check
-- for safe integers is safe_natural. Times are milliseconds from the first representable date.
-- Loops are structural recursion; no definition needs fuel but the printing of decimals, whose
-- fuel is one more than the number printed, which has at most that many digits.
--
-- Times of the review queue are compared as texts, as the code does, and a number that may be a
-- fraction is a sign with a fraction, an infinity or NaN.
--
-- Parameters: the record Platform stands for SHA-256, `JSON.stringify`, `Date.parse`,
-- `toISOString` and `localeCompare`. Theorems assume nothing of them. The admission verifier is a function of the candidate, or the curation records.
--
-- Not modelled: the PostgreSQL stores (SQL), the materialization worker, retrieval, the canary gate
-- and the remediation of reviews, semantic resolution, the curation policy and provider,
-- distillation, insights, source adapters and scripts. The ids that the factories draw are arguments;
-- in a history a candidate is put under an id that the store does not have. Messages of errors are
-- not kept, only their class, fields and throw site.
pub mod Base
pub mod Domain
pub mod Store
pub mod Authority
pub mod Sync
pub mod Verification
pub mod Operations
pub mod Candidates
pub mod Curation
pub mod Review
pub mod History
pub mod Examples

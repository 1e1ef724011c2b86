-- ===== src/Store.antt =====
-- src/store/in-memory-canonical-memory-store.ts: the state, and the operations of a transaction.
-- A transaction works on a clone of the state, which replaces it only if the work does not throw;
-- `clone` copies values and so is the identity here. The write barrier makes a transaction atomic.
pub mod Queries
pub mod Outbox
pub mod Settlement
pub mod Listings
pub mod Summary
pub mod Invariant
use digital_life_memory_fabr.Base.{
  ℕ, ◌+◌, ◌≡◌, String, List, [], ◌∷◌, ◌++◌, Option, none, some, ◌==◌, ◌&&◌, eqb, find,
  if◌then◌else◌, arith,
}
use digital_life_memory_fabr.Base.JsMap as M
use digital_life_memory_fabr.Base.JsMap.{JsMap}
use digital_life_memory_fabr.Domain.Scope.{
  MemoryScope, scope_key, revision_key, scoped_idempotency_key,
}
use digital_life_memory_fabr.Domain.Memory.{
  MemoryCandidate, CandidateStatus, CanonicalMemoryHead, MemoryRevision,
}
use digital_life_memory_fabr.Domain.Records.{
  MemoryChangeEnvelope, MemoryOutboxRecord, MemoryConflict, DeviceCheckpoint,
  ProviderMaterialization, CanonicalCommitResult,
}
use digital_life_memory_fabr.Domain.Errors.{
  Result, ok, err, FabricError, validation_error, semantic_identity_conflict, missing_candidate,
  identity_collision, revision_exists,
}

pub record InMemoryState : Type 0 where
  pub candidates : JsMap MemoryCandidate
  pub heads : JsMap CanonicalMemoryHead
  pub revisions : JsMap MemoryRevision
  pub commit_seq_by_scope : JsMap ℕ
  pub changes : List MemoryChangeEnvelope
  pub outbox : List MemoryOutboxRecord
  pub conflicts : List MemoryConflict
  pub device_checkpoints : JsMap DeviceCheckpoint
  pub provider_materializations : JsMap ProviderMaterialization
  pub idempotency : JsMap CanonicalCommitResult

abbrev pub empty_state : InMemoryState
empty_state = record {
  candidates = [];
  heads = [];
  revisions = [];
  commit_seq_by_scope = [];
  changes = [];
  outbox = [];
  conflicts = [];
  device_checkpoints = [];
  provider_materializations = [];
  idempotency = [];
}

unfoldable pub get_candidate : String → InMemoryState → Option MemoryCandidate
get_candidate id s = M.get id s.candidates

unfoldable pub put_candidate : MemoryCandidate → InMemoryState → InMemoryState
put_candidate c s = record s { candidates = M.set c.candidate_id c s.candidates }

unfoldable pub set_candidate_status :
    String → CandidateStatus → InMemoryState → Result InMemoryState
set_candidate_status id status s = elim (M.get id s.candidates) [
  | none ↦ err (validation_error missing_candidate)
  | some c ↦ ok (record s { candidates = M.set id (record c { status = status }) s.candidates })
]

unfoldable pub get_head : String → InMemoryState → Option CanonicalMemoryHead
get_head id s = M.get id s.heads

-- The head with the scope and the semantic key of `head`, if there is one.
unfoldable pub semantic_collision : CanonicalMemoryHead → InMemoryState → Option CanonicalMemoryHead
semantic_collision head s =
    find
      (λ current.
        scope_key current.scope == scope_key head.scope
        && current.semantic_key == head.semantic_key)
      (M.values s.heads)

unfoldable pub put_head : CanonicalMemoryHead → InMemoryState → Result InMemoryState
put_head head s =
    if eqb head.current_revision 1
    then elim (M.get head.memory_id s.heads) [
      | some _ ↦ err (validation_error identity_collision)
      | none ↦ elim (semantic_collision head s) [
        | some _ ↦ err (semantic_identity_conflict head.scope head.semantic_key)
        | none ↦ ok (record s { heads = M.set head.memory_id head s.heads })
      ]
    ]
    else ok (record s { heads = M.set head.memory_id head s.heads })

unfoldable pub get_revision : String → ℕ → InMemoryState → Option MemoryRevision
get_revision id n s = M.get (revision_key id n) s.revisions

unfoldable pub append_revision : MemoryRevision → InMemoryState → Result InMemoryState
append_revision r s = elim (M.get (revision_key r.memory_id r.revision) s.revisions) [
  | some _ ↦ err (validation_error revision_exists)
  | none ↦ ok (record s { revisions = M.set (revision_key r.memory_id r.revision) r s.revisions })
]

-- `map.get(key) ?? 0`
abbrev pub or_zero : Option ℕ → ℕ
or_zero none = 0
or_zero (some n) = n

-- The sequence number of the last commit in a scope: `getScopeHighWatermark`.
unfoldable pub high_watermark : MemoryScope → InMemoryState → ℕ
high_watermark scope s = or_zero (M.get (scope_key scope) s.commit_seq_by_scope)

unfoldable pub next_commit_seq : MemoryScope → InMemoryState → ℕ × InMemoryState
unfolding high_watermark
next_commit_seq scope s =
    let next = high_watermark scope s + 1 in
    (next, record s { commit_seq_by_scope = M.set (scope_key scope) next s.commit_seq_by_scope })

unfoldable pub append_change : MemoryChangeEnvelope → InMemoryState → InMemoryState
append_change change s = record s { changes = s.changes ++ change ∷ [] }

unfoldable pub append_outbox : MemoryOutboxRecord → InMemoryState → InMemoryState
append_outbox r s = record s { outbox = s.outbox ++ r ∷ [] }

unfoldable pub append_conflict : MemoryConflict → InMemoryState → InMemoryState
append_conflict conflict s = record s { conflicts = s.conflicts ++ conflict ∷ [] }

unfoldable pub get_commit_result :
    MemoryScope → String → InMemoryState → Option CanonicalCommitResult
get_commit_result scope key s = M.get (scoped_idempotency_key scope key) s.idempotency

unfoldable pub put_commit_result :
    MemoryScope → String → CanonicalCommitResult → InMemoryState → InMemoryState
put_commit_result scope key result s = record s {
  idempotency = M.set (scoped_idempotency_key scope key) result s.idempotency;
}

-- `transaction`: what the work returned or threw, and the state afterwards.
unfoldable pub transaction {ℓ} :
    {A : Type ℓ}
    → (InMemoryState → Result (A × InMemoryState))
    → InMemoryState
    → Result A × InMemoryState
transaction work s = elim (work s) [ ok (a, draft) ↦ (ok a, draft) | err e ↦ (err e, s) ]

module _ {ℓ} {A : Type ℓ} (work : InMemoryState → Result (A × InMemoryState))
    (s : InMemoryState) where
  pub transaction-ok :
      (a : A) (s' : InMemoryState) → work s ≡ ok (a, s') → transaction work s ≡ (ok a, s')
  unfolding transaction
  transaction-ok a s' h = ground arith

  pub transaction-err : (e : FabricError) → work s ≡ err e → transaction work s ≡ (err e, s)
  unfolding transaction
  transaction-err e h = ground arith

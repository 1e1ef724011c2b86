-- ===== src/Authority/Commit.antt =====
-- `commit` and `commitInTransaction`: the writes of a commit, and its guards in the code's order.
pub mod Effect
pub mod Invariant
pub mod Cases
pub mod Guarantees
pub mod Replay
pub mod Provider
pub mod Stale
pub mod Creates
use digital_life_memory_fabr.Base.{ℕ, Bool, String, ◌==◌, Option, none, some, if◌then◌else◌}
use digital_life_memory_fabr.Base.Text.{is_blank}
use digital_life_memory_fabr.Domain.Platform.{Platform}
use digital_life_memory_fabr.Domain.Encode.{content_hash, payload_hash}
use digital_life_memory_fabr.Domain.Memory.{
  MemoryCandidate, CanonicalMemoryHead, MemoryRevision, MemoryProvenance, create, supersede,
  same_operation, CandidateStatus,
}
use digital_life_memory_fabr.Domain.Records.{
  MemoryChangeEnvelope, MemoryOutboxRecord, MemoryConflict, CanonicalCommitResult, OutboxStatus,
}
use digital_life_memory_fabr.Domain.Errors.{
  Result, ok, err, ◌>>=◌, ◌>>◌, throw_if, or_throw, validation_error, candidate_not_found,
  revision_conflict, unsupported_operation, idempotency_reused, empty_field,
}
use digital_life_memory_fabr.Store.{
  InMemoryState, get_candidate, set_candidate_status, put_head, append_revision, next_commit_seq,
  append_change, append_outbox, append_conflict, get_commit_result, put_commit_result, transaction,
}
use digital_life_memory_fabr.Authority.Admission.{
  require_pending, require_provider_admission, require_verified_provider_admission_state,
}
use digital_life_memory_fabr.Authority.Plan.{
  CommitDraw, CommitPlan, Resolution, conflicted, planned, create_plan, plan_mutation,
}

pub record CanonicalCommitRequest : Type 0 where
  pub candidate_id : String
  pub idempotency_key : String

pub data CommitOutcome : Type 0 where
  committed : CanonicalCommitResult → CommitOutcome
  conflict : MemoryConflict → CommitOutcome

unfoldable pub provenance_for : MemoryCandidate → CommitPlan → MemoryProvenance
provenance_for c plan = record {
  source_type = c.source_type;
  source_id = c.source_id;
  candidate_id = c.candidate_id;
  candidate_fingerprint = c.candidate_fingerprint;
  producer = plan.producer;
  source_experience_refs = plan.source_experience_refs;
  canonical_admission = c.canonical_admission;
}

unfoldable pub build_revision :
    Platform → CommitDraw → MemoryCandidate → CommitPlan → ℕ → MemoryRevision
build_revision p draw c plan commit_seq = record {
  memory_id = plan.memory_id;
  revision = plan.new_revision;
  scope = c.scope;
  memory_class = plan.memory_class;
  memory_kind = plan.memory_kind;
  memory_type = plan.memory_type;
  speaker_provenance = plan.speaker_provenance;
  semantic_key = plan.semantic_key;
  status = plan.status;
  canonical_content = plan.canonical_content;
  content_hash = content_hash p plan.canonical_content;
  author = c.origin;
  provenance = provenance_for c plan;
  evidence_refs = plan.evidence_refs;
  epistemic_status = plan.epistemic_status;
  producer = plan.producer;
  source_experience_refs = plan.source_experience_refs;
  semantic_fingerprint = plan.semantic_fingerprint;
  committed_at = draw.now;
  commit_seq = commit_seq;
  observed_at = plan.observed_at;
  valid_from = plan.valid_from;
  valid_until = plan.valid_until;
}

unfoldable pub build_head : CommitDraw → MemoryCandidate → CommitPlan → CanonicalMemoryHead
build_head draw c plan = record {
  memory_id = plan.memory_id;
  scope = c.scope;
  memory_class = plan.memory_class;
  memory_kind = plan.memory_kind;
  memory_type = plan.memory_type;
  semantic_key = plan.semantic_key;
  current_revision = plan.new_revision;
  status = plan.status;
  created_at = plan.head_created_at;
  updated_at = draw.now;
}

unfoldable pub build_change :
    CommitDraw → String → MemoryCandidate → CommitPlan → ℕ → String → MemoryChangeEnvelope
build_change draw key c plan commit_seq hash = record {
  event_id = draw.event_id;
  scope = c.scope;
  commit_seq = commit_seq;
  memory_id = plan.memory_id;
  operation = c.proposed_operation;
  base_revision = plan.base_revision;
  new_revision = plan.new_revision;
  idempotency_key = key;
  author = c.origin;
  committed_at = draw.now;
  payload_hash = hash;
}

unfoldable pub build_outbox : CommitDraw → MemoryCandidate → CommitPlan → ℕ → MemoryOutboxRecord
build_outbox draw c plan commit_seq = record {
  outbox_id = draw.outbox_id;
  scope = c.scope;
  commit_seq = commit_seq;
  memory_id = plan.memory_id;
  revision = plan.new_revision;
  operation = c.proposed_operation;
  status = OutboxStatus.pending;
  attempts = 0;
  created_at = draw.now;
  claimed_by = none;
  claim_token = none;
  lease_expires_at = none;
  next_attempt_at = none;
  last_error = none;
  updated_at = none;
}

unfoldable pub build_result :
    Platform → CommitDraw → String → MemoryCandidate → CommitPlan → ℕ → CanonicalCommitResult
build_result p draw key c plan commit_seq =
    let r = build_revision p draw c plan commit_seq in
    record {
      head = build_head draw c plan;
      revision = r;
      change = build_change draw key c plan commit_seq (payload_hash p r);
      outbox = build_outbox draw c plan commit_seq;
    }

-- From `putHead` to `putCommitResultByIdempotencyKey`.
unfoldable pub write_result :
    String → MemoryCandidate → CanonicalCommitResult → InMemoryState → Result InMemoryState
write_result key c result s = do
  s₁ ← put_head result.head s
  s₂ ← append_revision result.revision s₁
  s₃ ←
      set_candidate_status c.candidate_id CandidateStatus.accepted
        (append_outbox result.outbox (append_change result.change s₂))
  ok (put_commit_result c.scope key result s₃)

-- From `nextCommitSeq` to the end.
unfoldable pub persist :
    Platform
    → CommitDraw
    → String
    → MemoryCandidate
    → CommitPlan
    → InMemoryState
    → Result (CommitOutcome × InMemoryState)
persist p draw key c plan s =
    let (commit_seq, s₁) = next_commit_seq c.scope s in
    let result = build_result p draw key c plan commit_seq in
    write_result key c result s₁ >>= λ s₂. ok (committed result, s₂)

unfoldable pub record_conflict :
    MemoryCandidate → MemoryConflict → InMemoryState → Result (CommitOutcome × InMemoryState)
record_conflict c found s = set_candidate_status c.candidate_id CandidateStatus.conflict s >>= λ s₁.
    ok (conflict found, append_conflict found s₁)

unfoldable pub resolve :
    Platform
    → CommitDraw
    → String
    → MemoryCandidate
    → InMemoryState
    → Resolution
    → Result (CommitOutcome × InMemoryState)
resolve p draw key c s (conflicted found) = record_conflict c found s
resolve p draw key c s (planned plan) = persist p draw key c plan s

unfoldable pub resolution : CommitDraw → MemoryCandidate → InMemoryState → Result Resolution
resolution draw c s =
    if same_operation c.proposed_operation create
    then ok (planned (create_plan draw c))
    else plan_mutation draw c s

-- A candidate whose idempotency key is new.
unfoldable pub commit_fresh :
    Platform
    → CommitDraw
    → String
    → MemoryCandidate
    → Option String
    → InMemoryState
    → Result (CommitOutcome × InMemoryState)
commit_fresh p draw key c verified s = do
  require_pending c
  require_verified_provider_admission_state p c verified
  throw_if (same_operation c.proposed_operation supersede) unsupported_operation
  found ← resolution draw c s
  resolve p draw key c s found

-- A replay returns the first result, unless another candidate used the key.
unfoldable pub commit_prior :
    MemoryCandidate → CanonicalCommitResult → InMemoryState → Result (CommitOutcome × InMemoryState)
commit_prior c prior s =
    if prior.revision.provenance.candidate_id == c.candidate_id
    then ok (committed prior, s)
    else err (validation_error idempotency_reused)

unfoldable pub commit_in_transaction :
    Platform
    → CommitDraw
    → CanonicalCommitRequest
    → Option String
    → InMemoryState
    → Result (CommitOutcome × InMemoryState)
commit_in_transaction p draw request verified s = do
  c ← or_throw (get_candidate request.candidate_id s) (candidate_not_found request.candidate_id)
  elim (get_commit_result c.scope request.idempotency_key s) [
    | some prior ↦ commit_prior c prior s
    | none ↦ commit_fresh p draw request.idempotency_key c verified s
  ]

unfoldable pub outcome_result : Result CommitOutcome → Result CanonicalCommitResult
outcome_result (err e) = err e
outcome_result (ok (committed result)) = ok result
outcome_result (ok (conflict c)) =
    err (revision_conflict c.memory_id c.expected_revision c.current_revision)

-- What `commit` does before its transaction.
unfoldable pub admit :
    Platform
    → Option (MemoryCandidate → Bool)
    → CanonicalCommitRequest
    → InMemoryState
    → Result (Option String)
admit p verifier request s = do
  throw_if (is_blank request.idempotency_key) (validation_error empty_field)
  c ← or_throw (get_candidate request.candidate_id s) (candidate_not_found request.candidate_id)
  require_provider_admission p verifier c

-- The transaction of `commit`, and what the call returns.
unfoldable pub commit_admitted :
    Platform
    → CommitDraw
    → CanonicalCommitRequest
    → Option String
    → InMemoryState
    → Result CanonicalCommitResult × InMemoryState
commit_admitted p draw request verified s =
    let (outcome, s') = transaction (commit_in_transaction p draw request verified) s in
    (outcome_result outcome, s')

-- `commit`. The admission reads `seen`, the state before the call waits for its transaction; the
-- transaction runs on `s`, which other calls may have changed since.
unfoldable pub commit :
    Platform
    → Option (MemoryCandidate → Bool)
    → CommitDraw
    → CanonicalCommitRequest
    → InMemoryState
    → InMemoryState
    → Result CanonicalCommitResult × InMemoryState
commit p verifier draw request seen s = elim (admit p verifier request seen) [
  | err e ↦ (err e, s)
  | ok verified ↦ commit_admitted p draw request verified s
]

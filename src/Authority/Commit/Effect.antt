-- ===== src/Authority/Commit/Effect.antt =====
-- What a transaction of the authority does to the state, field by field.
use digital_life_memory_fabr.Base.{
  ◌+◌, String, ◌≡◌, none, some, [], ◌∷◌, ◌++◌, arith, inl, inr, eqb_iff, Option-cases,
}
use digital_life_memory_fabr.Base.JsMap as M
use digital_life_memory_fabr.Domain.Platform.{Platform}
use digital_life_memory_fabr.Domain.Scope.{revision_key, scoped_idempotency_key}
use digital_life_memory_fabr.Domain.Memory.{
  MemoryCandidate, CandidateStatus, CanonicalMemoryHead, MemoryRevision,
}
use digital_life_memory_fabr.Domain.Records.{CanonicalCommitResult}
use digital_life_memory_fabr.Domain.Errors.{ok, >>=-eq-ok}
use digital_life_memory_fabr.Store.{
  InMemoryState, put_head, append_revision, set_candidate_status, high_watermark,
  semantic_collision, append_change, append_outbox, put_commit_result, next_commit_seq,
}
use digital_life_memory_fabr.Authority.Plan.{CommitDraw, CommitPlan}
use digital_life_memory_fabr.Authority.Commit.{
  CommitOutcome, committed, build_result, write_result, persist,
}

-- The writes of one committed result.
pub record Wrote (key : String) (c : MemoryCandidate) (result : CanonicalCommitResult)
    (s s' : InMemoryState) : Type 0 where
  pub heads : s'.heads ≡ M.set result.head.memory_id result.head s.heads
  pub revisions :
      s'.revisions
      ≡ M.set
          (revision_key result.revision.memory_id result.revision.revision)
          result.revision
          s.revisions
  pub commit_seq_by_scope : s'.commit_seq_by_scope ≡ s.commit_seq_by_scope
  pub changes : s'.changes ≡ s.changes ++ result.change ∷ []
  pub outbox : s'.outbox ≡ s.outbox ++ result.outbox ∷ []
  pub conflicts : s'.conflicts ≡ s.conflicts
  pub device_checkpoints : s'.device_checkpoints ≡ s.device_checkpoints
  pub provider_materializations : s'.provider_materializations ≡ s.provider_materializations
  pub idempotency : s'.idempotency ≡ M.set (scoped_idempotency_key c.scope key) result s.idempotency
  pub accepted :
      (old : MemoryCandidate) × (M.get c.candidate_id s.candidates ≡ some old)
      × (s'.candidates
          ≡ M.set c.candidate_id (record old { status = CandidateStatus.accepted }) s.candidates)
  pub revision_new :
      M.get (revision_key result.revision.memory_id result.revision.revision) s.revisions ≡ none
  pub head_new :
      result.head.current_revision ≡ 1
      → (M.get result.head.memory_id s.heads ≡ none) × (semantic_collision result.head s ≡ none)

-- `putHead` sets the head, and its first revision is of a new memory.
put_head-eq-ok :
    (head : CanonicalMemoryHead) (s s' : InMemoryState)
    → put_head head s ≡ ok s'
    → (s' ≡ record s { heads = M.set head.memory_id head s.heads })
      × (head.current_revision ≡ 1
          → (M.get head.memory_id s.heads ≡ none) × (semantic_collision head s ≡ none))
unfolding put_head
put_head-eq-ok head s s' h = (ground arith, λ e. ground (arith, eqb_iff head.current_revision 1))

append_revision-eq-ok :
    (r : MemoryRevision) (s s' : InMemoryState)
    → append_revision r s ≡ ok s'
    → (s' ≡ record s { revisions = M.set (revision_key r.memory_id r.revision) r s.revisions })
      × (M.get (revision_key r.memory_id r.revision) s.revisions ≡ none)
unfolding append_revision
append_revision-eq-ok r s s' h = (ground arith, ground arith)

set_candidate_status-eq-ok :
    (id : String) (status : CandidateStatus) (s s' : InMemoryState)
    → set_candidate_status id status s ≡ ok s'
    → (old : MemoryCandidate) × (M.get id s.candidates ≡ some old)
      × (s' ≡ record s { candidates = M.set id (record old { status = status }) s.candidates })
unfolding set_candidate_status
set_candidate_status-eq-ok id status s s' h = elim (Option-cases (M.get id s.candidates)) [
  | inl e ↦ absurd (ground arith)
  | inr (old, e) ↦ (old, e, ground arith)
]

pub write_result-Wrote :
    (key : String) (c : MemoryCandidate) (result : CanonicalCommitResult) (s s' : InMemoryState)
    → write_result key c result s ≡ ok s'
    → Wrote key c result s s'
unfolding write_result append_change append_outbox put_commit_result
write_result-Wrote key c result s s' h =
    let (s₁, e₁, h₁) = >>=-eq-ok (put_head result.head s) _ h in
    let (s₂, e₂, h₂) = >>=-eq-ok (append_revision result.revision s₁) _ h₁ in
    let (s₃, e₃, h₃) = >>=-eq-ok (set_candidate_status _ _ _) _ h₂ in
    let p₁ = put_head-eq-ok result.head s s₁ e₁ in
    let p₂ = append_revision-eq-ok result.revision s₁ s₂ e₂ in
    let p₃ = set_candidate_status-eq-ok _ _ _ s₃ e₃ in
    record {
      heads = ground arith;
      revisions = ground arith;
      commit_seq_by_scope = ground arith;
      changes = ground arith;
      outbox = ground arith;
      conflicts = ground arith;
      device_checkpoints = ground arith;
      provider_materializations = ground arith;
      idempotency = ground arith;
      accepted = (p₃.0, ground arith, ground arith);
      revision_new = ground arith;
      head_new = p₁.1;
    }

abbrev pub result_of :
    Platform
    → CommitDraw
    → String
    → MemoryCandidate
    → CommitPlan
    → InMemoryState
    → CanonicalCommitResult
result_of p draw key c plan s = build_result p draw key c plan (high_watermark c.scope s + 1)

-- A commit that is written takes the next sequence number of its scope.
pub persist-eq-ok :
    (p : Platform) (draw : CommitDraw) (key : String) (c : MemoryCandidate) (plan : CommitPlan)
    (s s' : InMemoryState) (o : CommitOutcome)
    → persist p draw key c plan s ≡ ok (o, s')
    → (o ≡ committed (result_of p draw key c plan s))
      × Wrote key c (result_of p draw key c plan s) (next_commit_seq c.scope s).1 s'
unfolding persist next_commit_seq
persist-eq-ok p draw key c plan s s' o h =
    let (s₂, e, k) = >>=-eq-ok (write_result key c (result_of p draw key c plan s) _) _ h in
    (ground arith, write_result-Wrote key c _ _ s' (ground arith))

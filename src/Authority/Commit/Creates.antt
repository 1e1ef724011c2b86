-- ===== src/Authority/Commit/Creates.antt =====
-- The commit of a candidate that creates a memory.
use digital_life_memory_fabr.Base.{
  Bool, false, String, Option, none, some, ◌≡◌, refl, ap, ◌∙◌, arith, inl, inr, Option-cases,
}
use digital_life_memory_fabr.Base.JsMap as M
use digital_life_memory_fabr.Base.Text.{is_blank}
use digital_life_memory_fabr.Domain.Platform.{Platform}
use digital_life_memory_fabr.Domain.Scope.{revision_key}
use digital_life_memory_fabr.Domain.Memory.{
  MemoryCandidate, CandidateStatus, create, same_operation,
}
use digital_life_memory_fabr.Domain.Errors.{ok, Result-cases}
use digital_life_memory_fabr.Store.{
  InMemoryState, get_candidate, get_head, get_commit_result, put_head, append_revision,
  set_candidate_status, semantic_collision, append_change, append_outbox, put_commit_result,
  next_commit_seq, transaction-ok,
}
use digital_life_memory_fabr.Store.Invariant.{WellFormed}
use digital_life_memory_fabr.Authority.Admission.{
  is_pending, is_provider, require_pending, require_provider_admission, verified_by,
  provider_admission_state_fingerprint, require_verified_provider_admission_state, same_optional,
}
use digital_life_memory_fabr.Authority.Plan.{CommitDraw, create_plan}
use digital_life_memory_fabr.Authority.Commit.{
  CanonicalCommitRequest, committed, commit, CommitOutcome, admit, commit_admitted,
  commit_in_transaction, commit_fresh, resolution, resolve, persist, write_result, outcome_result,
  build_head, build_result, build_revision,
}
use digital_life_memory_fabr.Authority.Commit.Effect.{result_of, persist-eq-ok}

-- The ids that the factory drew are new, and no head of the scope has the semantic key.
pub record Free (draw : CommitDraw) (key : String) (c : MemoryCandidate) (s : InMemoryState)
    : Type 0 where
  pub memory_id_free : get_head draw.memory_id s ≡ none
  pub semantic_key_free : semantic_collision (build_head draw c (create_plan draw c)) s ≡ none
  pub key_free : get_commit_result c.scope key s ≡ none

create_revision_free :
    (p : Platform) (draw : CommitDraw) (s : InMemoryState)
    → WellFormed p s
    → get_head draw.memory_id s ≡ none
    → M.get (revision_key draw.memory_id 1) s.revisions ≡ none
unfolding get_head
create_revision_free p draw s w free =
    elim (Option-cases (M.get (revision_key draw.memory_id 1) s.revisions)) [
      | inl e ↦ e
      | inr (r, e) ↦
          let owner = w.revisions_have_head draw.memory_id 1 r e in
          absurd (ground (arith, owner.stored))
    ]

pub persist-create :
    (p : Platform) (draw : CommitDraw) (key : String) (c : MemoryCandidate) (s : InMemoryState)
    → WellFormed p s
    → get_candidate c.candidate_id s ≡ some c
    → Free draw key c s
    → (s' : InMemoryState) × (persist p draw key c (create_plan draw c) s
        ≡ ok (committed (result_of p draw key c (create_plan draw c) s), s'))
unfolding persist write_result next_commit_seq put_head append_revision set_candidate_status
    get_candidate get_head build_result build_head build_revision create_plan append_change
    append_outbox put_commit_result semantic_collision
persist-create p draw key c s w found free =
    let fresh = create_revision_free p draw s w free.memory_id_free in
    let head_free = free.memory_id_free in
    let key_free = free.semantic_key_free in
    elim (Result-cases (persist p draw key c (create_plan draw c) s)) [
      | inl (e, failed) ↦ absurd (ground (arith, failed, fresh, head_free, key_free, found))
      | inr ((o, s'), done) ↦
          let (e, wrote) = persist-eq-ok p draw key c (create_plan draw c) s s' o done in
          (s', rw e at done)
    ]

module _ (p : Platform) (verifier : Option (MemoryCandidate → Bool)) (draw : CommitDraw)
    (request : CanonicalCommitRequest) (c : MemoryCandidate) (s s' : InMemoryState)
    (found : get_candidate request.candidate_id s ≡ some c)
    (waiting : c.status ≡ CandidateStatus.pending) (own : is_provider c.producer.kind ≡ false)
    (creating : c.proposed_operation ≡ create) (keyed : is_blank request.idempotency_key ≡ false)
    (free : Free draw request.idempotency_key c s) where
  create_admitted : admit p verifier request s ≡ ok none
  unfolding admit require_provider_admission provider_admission_state_fingerprint verified_by
  create_admitted = ground (arith, found, own, keyed)

  create_in_transaction :
      (o : CommitOutcome)
      → persist p draw request.idempotency_key c (create_plan draw c) s ≡ ok (o, s')
      → commit_in_transaction p draw request none s ≡ ok (o, s')
  unfolding commit_in_transaction commit_fresh require_pending is_pending same_operation resolution
      resolve require_verified_provider_admission_state provider_admission_state_fingerprint
      same_optional
  create_in_transaction o done =
      let key_free = free.key_free in ground (arith, found, own, waiting, creating, key_free, done)

  create_commits :
      (o : CommitOutcome)
      → persist p draw request.idempotency_key c (create_plan draw c) s ≡ ok (o, s')
      → commit p verifier draw request s s ≡ (outcome_result (ok o), s')
  unfolding commit commit_admitted
  create_commits o done =
      rw
        (
          create_admitted,
          commit,
          commit_admitted,
          transaction-ok _ s o s' (create_in_transaction o done),
        )
        refl

-- A pending candidate of no provider that creates a memory is committed, whatever the admission
-- verifier: unless the ids are taken or a head of the scope has its semantic key.
pub commit-create :
    (p : Platform) (verifier : Option (MemoryCandidate → Bool)) (draw : CommitDraw)
    (request : CanonicalCommitRequest) (c : MemoryCandidate) (s : InMemoryState)
    → WellFormed p s
    → get_candidate request.candidate_id s ≡ some c
    → c.status ≡ CandidateStatus.pending
    → is_provider c.producer.kind ≡ false
    → c.proposed_operation ≡ create
    → is_blank request.idempotency_key ≡ false
    → Free draw request.idempotency_key c s
    → (s' : InMemoryState) × (commit p verifier draw request s s
        ≡ (ok (result_of p draw request.idempotency_key c (create_plan draw c) s), s'))
      × (persist p draw request.idempotency_key c (create_plan draw c) s
          ≡ ok (committed (result_of p draw request.idempotency_key c (create_plan draw c) s), s'))
unfolding outcome_result get_candidate
commit-create p verifier draw request c s w found waiting own creating keyed free =
    let own_id = w.candidates_keyed request.candidate_id c found in
    let (s', done) =
      persist-create p draw request.idempotency_key c s w
        (ap (λ k. M.get k s.candidates) own_id ∙ found) free in
    (
      s',
      create_commits p verifier draw request c s s' found waiting own creating keyed free _ done,
      done,
    )

-- ===== src/Authority/Commit/Cases.antt =====
-- The ways in which a transaction of the authority can return.
use digital_life_memory_fabr.Base.{
  String, ◌≡◌, Option, none, some, true, false, arith, ◌⊎◌, inl, inr, Bool-cases, Option-cases,
  eq_iff,
}
use digital_life_memory_fabr.Base.JsMap as M
use digital_life_memory_fabr.Domain.Platform.{Platform}
use digital_life_memory_fabr.Domain.Memory.{
  MemoryCandidate, CandidateStatus, create, supersede, same_operation,
}
use digital_life_memory_fabr.Domain.Records.{CanonicalCommitResult, MemoryConflict}
use digital_life_memory_fabr.Domain.Errors.{ok, Result-cases}
use digital_life_memory_fabr.Store.{
  InMemoryState, get_candidate, get_commit_result, set_candidate_status, append_conflict,
}
use digital_life_memory_fabr.Authority.Admission.{
  is_pending, require_pending, require_verified_provider_admission_state,
}
use digital_life_memory_fabr.Authority.Plan.{
  CommitDraw, CommitPlan, Resolution, planned, create_plan, plan_mutation,
}
use digital_life_memory_fabr.Authority.Commit.{
  CanonicalCommitRequest, CommitOutcome, committed, conflict, commit_in_transaction, commit_fresh,
  commit_prior, resolution, resolve, record_conflict,
}

-- A transaction returns the stored result of its key, or commits afresh.
pub commit_in_transaction-eq-ok :
    (p : Platform) (draw : CommitDraw) (request : CanonicalCommitRequest) (verified : Option String)
    (s s' : InMemoryState) (o : CommitOutcome)
    → commit_in_transaction p draw request verified s ≡ ok (o, s')
    → (c : MemoryCandidate) × (get_candidate request.candidate_id s ≡ some c)
      × (((prior : CanonicalCommitResult) × (get_commit_result c.scope request.idempotency_key s
              ≡ some prior)
            × (o ≡ committed prior)
            × (s' ≡ s)
            × (prior.revision.provenance.candidate_id ≡ c.candidate_id))
          ⊎ ((get_commit_result c.scope request.idempotency_key s ≡ none)
              × (commit_fresh p draw request.idempotency_key c verified s ≡ ok (o, s'))))
unfolding commit_in_transaction commit_prior
commit_in_transaction-eq-ok p draw request verified s s' o h =
    elim (Option-cases (get_candidate request.candidate_id s)) [
      | inl e ↦ absurd (ground arith)
      | inr (c, e) ↦ elim (Option-cases (get_commit_result c.scope request.idempotency_key s)) [
        | inl none_before ↦ (c, e, inr (none_before, ground arith))
        | inr (prior, before) ↦ (
          c,
          e,
          inl (
            prior,
            before,
            ground arith,
            ground arith,
            ground (arith, eq_iff prior.revision.provenance.candidate_id c.candidate_id),
          ),
        )
      ]
    ]

-- What a fresh commit has checked before it writes.
pub commit_fresh-eq-ok :
    (p : Platform) (draw : CommitDraw) (key : String) (c : MemoryCandidate)
    (verified : Option String) (s s' : InMemoryState) (o : CommitOutcome)
    → commit_fresh p draw key c verified s ≡ ok (o, s')
    → (r : Resolution) × (is_pending c.status ≡ true)
      × (require_verified_provider_admission_state p c verified ≡ ok tt)
      × (same_operation c.proposed_operation supersede ≡ false)
      × (resolution draw c s ≡ ok r)
      × (resolve p draw key c s r ≡ ok (o, s'))
unfolding commit_fresh require_pending
commit_fresh-eq-ok p draw key c verified s s' o h = elim (Result-cases (resolution draw c s)) [
  | inl (e, failed) ↦ absurd (ground arith)
  | inr (r, made) ↦ (r, ground arith, ground arith, ground arith, made, ground arith)
]

-- A plan is that of `create`, or was made on a head.
pub resolution-planned :
    (draw : CommitDraw) (c : MemoryCandidate) (s : InMemoryState) (plan : CommitPlan)
    → resolution draw c s ≡ ok (planned plan)
    → ((same_operation c.proposed_operation create ≡ true) × (plan ≡ create_plan draw c))
      ⊎ ((same_operation c.proposed_operation create ≡ false)
          × (plan_mutation draw c s ≡ ok (planned plan)))
unfolding resolution
resolution-planned draw c s plan h =
    elim (Bool-cases (same_operation c.proposed_operation create)) [
      | inl e ↦ inl (e, ground arith)
      | inr e ↦ inr (e, ground arith)
    ]

-- The state after a conflict.
pub record_conflict-eq-ok :
    (c : MemoryCandidate) (found : MemoryConflict) (s s' : InMemoryState) (o : CommitOutcome)
    → record_conflict c found s ≡ ok (o, s')
    → (old : MemoryCandidate) × (M.get c.candidate_id s.candidates ≡ some old)
      × (o ≡ conflict found)
      × (s'
          ≡ append_conflict found (record s {
            candidates =
                M.set c.candidate_id
                  (record old { status = CandidateStatus.conflict })
                  s.candidates;
          }))
unfolding record_conflict set_candidate_status
record_conflict-eq-ok c found s s' o h = elim (Option-cases (M.get c.candidate_id s.candidates)) [
  | inl e ↦ absurd (ground arith)
  | inr (old, e) ↦ (old, e, ground arith, ground arith)
]

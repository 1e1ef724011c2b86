-- ===== src/Examples/Authority.antt =====
-- Runs of the authority.
use digital_life_memory_fabr.Base.{
  ◌⊎◌, Bool, true, String, [], ◌∷◌, Option, none, some, ◌≡◌, refl, arith, eq_refl,
}
use digital_life_memory_fabr.Base.JsMap as M
use digital_life_memory_fabr.Base.Text.{is_blank}
use digital_life_memory_fabr.Domain.Errors.{ok, err, revision_conflict, FabricError}
use digital_life_memory_fabr.Domain.Platform.{sha256}
use digital_life_memory_fabr.Domain.Encode.{admission_json}
use digital_life_memory_fabr.Domain.Memory.{MemoryCandidate, CandidateStatus, same_operation}
use digital_life_memory_fabr.Domain.Records.{CanonicalCommitResult, MemoryConflict}
use digital_life_memory_fabr.Domain.Scope.{scope_key, same_scope, scoped_idempotency_key}
use digital_life_memory_fabr.Store.{
  InMemoryState, put_candidate, get_candidate, get_commit_result, get_head, put_head,
  append_revision, append_outbox, append_change, put_commit_result, set_candidate_status,
  semantic_collision, high_watermark, next_commit_seq, transaction,
}
use digital_life_memory_fabr.Store.Invariant.{WellFormed}
use digital_life_memory_fabr.Authority.Admission.{
  require_verified_provider_admission_state, provider_admission_state_fingerprint, is_provider,
  is_pending, require_pending, same_optional, proof_fingerprint, base_proof_valid,
  create_proof_valid, merge_proof_valid, requires_review, require_provider_admission, verified_by,
}
use digital_life_memory_fabr.Authority.Plan.{create_plan, conflict_record}
use digital_life_memory_fabr.Authority.Commit.{
  committed, commit, admit, commit_admitted, commit_in_transaction, commit_fresh, resolution,
  resolve, persist, write_result, outcome_result, build_result, build_head, build_revision,
  build_change, build_outbox,
}
use digital_life_memory_fabr.Examples.{
  platform, tea, coffee, provided, provided_proof, first_draw, second_draw, first_request,
  second_request, provider_request, with_tea, first_result, after_tea, with_provided,
}
use digital_life_memory_fabr.Authority.Commit.Guarantees.{Consumes, commit-Consumes}
use digital_life_memory_fabr.Authority.Commit.Stale.{
  Proposes, stale_commit_conflicts, Advances, commit_admitted-Advances,
}
use digital_life_memory_fabr.Authority.Commit.Provider.{Proven, Approved, commit_provider-Approved}
use digital_life_memory_fabr.History.Keeps.{Extends}
use digital_life_memory_fabr.History.Always.{
  History-WellFormed, History-Extends, commit_replays_later,
}
use digital_life_memory_fabr.Examples.Start.{
  first_commit, first_call, with_tea-WellFormed, after_tea-WellFormed, coffee_put,
}

History-WellFormed_example : WellFormed platform (put_candidate (coffee 1) after_tea)
History-WellFormed_example = History-WellFormed platform after_tea _ coffee_put after_tea-WellFormed

History-Extends_example : Extends after_tea (put_candidate (coffee 1) after_tea)
History-Extends_example = History-Extends platform after_tea _ coffee_put

commit_replays_later_example :
    (commit platform none second_draw first_request
        (put_candidate (coffee 1) after_tea)
        (put_candidate (coffee 1) after_tea)
      ≡ (ok first_result, put_candidate (coffee 1) after_tea))
    ⊎ ((e : FabricError) × (admit platform none first_request (put_candidate (coffee 1) after_tea)
          ≡ err e)
        × (commit platform none second_draw first_request
              (put_candidate (coffee 1) after_tea)
              (put_candidate (coffee 1) after_tea)
            ≡ (err e, put_candidate (coffee 1) after_tea)))
commit_replays_later_example =
    commit_replays_later platform none none first_draw second_draw first_request with_tea
      (put_candidate (coffee 1) after_tea) with_tea after_tea _ first_result with_tea-WellFormed
      first_call coffee_put

commit-Consumes_example :
    ((commit platform none first_draw first_request with_tea with_tea).1 ≡ with_tea)
    ⊎ Consumes platform none first_request with_tea with_tea
        (commit platform none first_draw first_request with_tea with_tea).1
commit-Consumes_example =
    commit-Consumes platform none first_draw first_request with_tea with_tea with_tea-WellFormed

commit_admitted-Advances_example : Advances tea first_result with_tea after_tea
unfolding get_candidate get_commit_result M.get scope_key scoped_idempotency_key
commit_admitted-Advances_example =
    commit_admitted-Advances platform first_draw first_request none tea with_tea after_tea
      first_result with_tea-WellFormed refl refl first_commit

-- The update names revision 7, and the memory is at 1.
abbrev with_stale : InMemoryState
with_stale = record after_tea {
  candidates =
      ("cand-1", record tea { status = CandidateStatus.accepted }) ∷ ("cand-2", coffee 7) ∷ [];
}

stale_proposal : Proposes platform second_request none (coffee 7) "mem-1" 7 with_stale
unfolding get_candidate get_commit_result M.get is_pending require_verified_provider_admission_state
    provider_admission_state_fingerprint is_provider same_optional same_operation scope_key
    scoped_idempotency_key
stale_proposal = record {
  stored = refl;
  own_id = refl;
  new = refl;
  waiting = refl;
  admitted = refl;
  not_supersede = refl;
  not_create = refl;
  base = refl;
  base_number = refl;
}

abbrev stale_conflict : MemoryConflict
stale_conflict = conflict_record second_draw "mem-1" (coffee 7) first_result.head 7

stale_commit_conflicts_example :
    commit_admitted platform second_draw second_request none with_stale ≡ (
      err (revision_conflict "mem-1" 7 1),
      record with_stale {
        candidates =
            M.set "cand-2"
              (record (coffee 7) { status = CandidateStatus.conflict })
              with_stale.candidates;
        conflicts = stale_conflict ∷ [];
      },
    )
unfolding get_head M.get build_result build_head same_scope create_plan scope_key
stale_commit_conflicts_example =
    stale_commit_conflicts platform second_draw second_request none (coffee 7) "mem-1" 7
      first_result.head with_stale stale_proposal refl refl refl

-- The verifier of the provider's admission agrees to everything.
abbrev agrees : Option (MemoryCandidate → Bool)
agrees = some (λ c. true)

abbrev approval : String
approval = sha256 platform (admission_json provided provided_proof)

provided_fingerprint : provider_admission_state_fingerprint platform provided ≡ ok (some approval)
unfolding provider_admission_state_fingerprint proof_fingerprint base_proof_valid create_proof_valid
    merge_proof_valid requires_review is_blank is_provider same_operation
provided_fingerprint = refl

provided_admitted : admit platform agrees provider_request with_provided ≡ ok (some approval)
unfolding admit get_candidate M.get is_blank require_provider_admission verified_by
provided_admitted = rw (provided_fingerprint, verified_by) refl

provided_required :
    require_verified_provider_admission_state platform provided (some approval) ≡ ok tt
unfolding require_verified_provider_admission_state same_optional
provided_required = rw (provided_fingerprint, same_optional, eq_refl approval) refl

abbrev provider_result : CanonicalCommitResult
provider_result =
    build_result platform first_draw "key-3" provided (create_plan first_draw provided) 1

provider_persist :
    (s' : InMemoryState) × (persist platform first_draw "key-3" provided
        (create_plan first_draw provided)
        with_provided
      ≡ ok (committed provider_result, s'))
unfolding persist write_result next_commit_seq high_watermark put_head append_revision append_outbox
    append_change put_commit_result set_candidate_status semantic_collision create_plan build_result
    build_head build_revision build_change build_outbox M.get M.set
provider_persist = (_, refl)

provider_fresh :
    commit_fresh platform first_draw "key-3" provided (some approval) with_provided
    ≡ ok (committed provider_result, provider_persist.0)
unfolding commit_fresh resolution resolve require_pending is_pending same_operation
provider_fresh = ground (arith, provided_required, provider_persist.1)

provider_run :
    (commit platform agrees first_draw provider_request with_provided with_provided).0
    ≡ ok provider_result
unfolding commit commit_admitted outcome_result transaction commit_in_transaction get_candidate
    get_commit_result M.get
provider_run = ground (arith, provided_admitted, provider_fresh)

commit_provider-Approved_example :
    (fingerprint : String) × Proven platform provided fingerprint
    × Approved platform agrees provider_request with_provided fingerprint
unfolding get_candidate get_commit_result is_provider M.get
commit_provider-Approved_example =
    commit_provider-Approved platform agrees first_draw provider_request with_provided with_provided
      (commit platform agrees first_draw provider_request with_provided with_provided).1 provided
      provider_result refl refl refl
      (λ i. (
        provider_run i,
        (commit platform agrees first_draw provider_request with_provided with_provided).1,
      ))

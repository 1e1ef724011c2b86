-- ===== src/History/Always.antt =====
-- What holds in every history of the store, whatever the calls and their interleaving.
use digital_life_memory_fabr.Base.{
  String, ◌≡◌, refl, ◌⊎◌, Bool, Option, arith, inl, inr, find, Bool-cases, Option-cases,
}
use digital_life_memory_fabr.Domain.Platform.{Platform}
use digital_life_memory_fabr.Domain.Memory.{MemoryCandidate}
use digital_life_memory_fabr.Domain.Records.{CanonicalCommitResult}
use digital_life_memory_fabr.Domain.Errors.{ok, err, FabricError, Result-cases}
use digital_life_memory_fabr.Store.{
  InMemoryState, put_candidate, get_candidate, transaction, get_commit_result,
}
use digital_life_memory_fabr.Store.Invariant.{WellFormed, WellFormed-same, candidates_keyed-set}
use digital_life_memory_fabr.Store.Outbox.{claim_outbox_batch}
use digital_life_memory_fabr.Store.Settlement.{
  settle_outbox_claim, settle_record, SettleClaimRequest, write_outcomes, owns_claim, is_requested,
}
use digital_life_memory_fabr.Authority.Plan.{CommitDraw}
use digital_life_memory_fabr.Authority.Commit.{
  CanonicalCommitRequest, commit_admitted, commit, admit,
}
use digital_life_memory_fabr.Authority.Commit.Guarantees.{commit-WellFormed}
use digital_life_memory_fabr.Authority.Commit.Replay.{commit_admitted_later}
use digital_life_memory_fabr.Sync.Acknowledge.{acknowledge-WellFormed}
use digital_life_memory_fabr.Operations.{
  ClaimOutboxInput, claim_outbox, validate_claim, SettleOutboxInput, settle_outbox,
  validate_settlement, settle_request,
}
use digital_life_memory_fabr.History.{
  Step, candidate_put, committed_memory, acknowledged_changes, claimed_outbox, settled_outbox,
  History, start, then_step,
}
use digital_life_memory_fabr.History.Keeps.{Extends, Extends-refl, Extends-trans, commit-Extends}
use digital_life_memory_fabr.History.Keeps.Calls.{
  put_candidate-Extends, outbox-Extends, acknowledge-Extends,
}

-- Nothing but the outbox and the materializations is different.
abbrev OutboxOnly : InMemoryState → InMemoryState → Type 0
OutboxOnly s s' =
    s' ≡ record s { outbox = s'.outbox; provider_materializations = s'.provider_materializations }

claim_outbox-OutboxOnly :
    (p : Platform) (input : ClaimOutboxInput) (token now : String) (s : InMemoryState)
    → OutboxOnly s (claim_outbox p input token now s).1
unfolding claim_outbox claim_outbox_batch
claim_outbox-OutboxOnly p input token now s =
    elim (Result-cases (validate_claim p input token now)) [
      | inl (e, refused) ↦ ground (arith, refused)
      | inr ((claim, limit), valid) ↦ rw (valid, claim_outbox) refl
    ]

settled-OutboxOnly :
    (p : Platform) (request : SettleClaimRequest) (s : InMemoryState)
    → OutboxOnly s (transaction (settle_outbox_claim p request) s).1
unfolding transaction settle_outbox_claim settle_record
settled-OutboxOnly p request s = elim (Option-cases (find (is_requested request) s.outbox)) [
  | inl e ↦ ground (arith, e)
  | inr (r, e) ↦ elim (Bool-cases (owns_claim p request r)) [
    | inl mine ↦
        elim (Result-cases
          (write_outcomes request.settled_at r request.outcomes s.provider_materializations)) [
            | inl (e', failed) ↦ ground (arith, e, mine, failed)
            | inr ((ms, m), written) ↦ ground (arith, e, mine, written)
          ]
    | inr other ↦ ground (arith, e, other)
  ]
]

settle_outbox-OutboxOnly :
    (p : Platform) (input : SettleOutboxInput) (now : String) (s : InMemoryState)
    → OutboxOnly s (settle_outbox p input now s).1
unfolding settle_outbox
settle_outbox-OutboxOnly p input now s = elim (Result-cases (validate_settlement p input now)) [
  | inl (e, refused) ↦ ground (arith, refused)
  | inr (u, valid) ↦ rw (valid, settle_outbox) (settled-OutboxOnly p (settle_request input now) s)
]

outbox-WellFormed :
    (p : Platform) (s s' : InMemoryState) → OutboxOnly s s' → WellFormed p s → WellFormed p s'
outbox-WellFormed p s s' e w =
    rw e (WellFormed-same p s _ w w.candidates_keyed refl refl refl refl w.checkpoints_behind)

pub put_candidate-WellFormed :
    (p : Platform) (c : MemoryCandidate) (s : InMemoryState)
    → WellFormed p s
    → WellFormed p (put_candidate c s)
unfolding put_candidate
put_candidate-WellFormed p c s w =
    WellFormed-same p s _ w
      (candidates_keyed-set c.candidate_id c s.candidates w.candidates_keyed refl) refl refl refl
      refl w.checkpoints_behind

Step-WellFormed :
    (p : Platform) (s s' : InMemoryState) → Step p s s' → WellFormed p s → WellFormed p s'
Step-WellFormed p s _ (candidate_put c _ fresh) w = put_candidate-WellFormed p c s w
Step-WellFormed p s _ (committed_memory verifier draw request seen _) w =
    commit-WellFormed p verifier draw request seen s w
Step-WellFormed p s _ (acknowledged_changes input now seen _) w =
    acknowledge-WellFormed p input now seen s w
Step-WellFormed p s _ (claimed_outbox input token now _) w =
    outbox-WellFormed p s _ (claim_outbox-OutboxOnly p input token now s) w
Step-WellFormed p s _ (settled_outbox input now _) w =
    outbox-WellFormed p s _ (settle_outbox-OutboxOnly p input now s) w

Step-Extends : (p : Platform) (s s' : InMemoryState) → Step p s s' → Extends s s'
Step-Extends p s _ (candidate_put c _ fresh) = put_candidate-Extends c s fresh
Step-Extends p s _ (committed_memory verifier draw request seen _) =
    commit-Extends p verifier draw request seen s
Step-Extends p s _ (acknowledged_changes input now seen _) = acknowledge-Extends input now seen s
Step-Extends p s _ (claimed_outbox input token now _) =
    outbox-Extends s _ (claim_outbox-OutboxOnly p input token now s)
Step-Extends p s _ (settled_outbox input now _) =
    outbox-Extends s _ (settle_outbox-OutboxOnly p input now s)

-- Every state that the calls reach from a well-formed one, in any order and interleaving, is well
-- formed.
pub History-WellFormed :
    (p : Platform) (s s' : InMemoryState) → History p s s' → WellFormed p s → WellFormed p s'
History-WellFormed p s _ (start _) w = w
History-WellFormed p s _ (then_step _ s' s'' before step) w =
    Step-WellFormed p s' s'' step (History-WellFormed p s s' before w)

-- No history loses or changes a revision or the result of a commit, cuts the log, changes the id
-- or the scope of a candidate, or moves a device back.
pub History-Extends : (p : Platform) (s s' : InMemoryState) → History p s s' → Extends s s'
History-Extends p s _ (start _) = Extends-refl s
History-Extends p s _ (then_step _ s' s'' before step) =
    Extends-trans s s' s'' (History-Extends p s s' before) (Step-Extends p s' s'' step)

-- A commit that succeeded was admitted, and its transaction did the rest.
commit-admitted :
    (p : Platform) (verifier : Option (MemoryCandidate → Bool)) (draw : CommitDraw)
    (request : CanonicalCommitRequest) (seen s s' : InMemoryState) (result : CanonicalCommitResult)
    → commit p verifier draw request seen s ≡ (ok result, s')
    → (verified : Option String) × (commit_admitted p draw request verified s ≡ (ok result, s'))
unfolding commit
commit-admitted p verifier draw request seen s s' result h =
    elim (Result-cases (admit p verifier request seen)) [
      | inl (e, refused) ↦ let failed = rw (refused, commit) at h in absurd (cc failed)
      | inr (verified, admitted) ↦ (verified, rw (admitted, commit) at h)
    ]

-- A request whose commit succeeded on a well-formed store writes nothing when it is sent again after
-- any further calls, whatever ids, time and admission verifier the second call has: it returns the
-- same result, unless its own admission, which runs before the earlier result is looked up, refuses
-- it, and then it returns the error of the admission.
pub commit_replays_later :
    (p : Platform) (verifier verifier' : Option (MemoryCandidate → Bool)) (draw draw' : CommitDraw)
    (request : CanonicalCommitRequest) (seen seen' s s' later : InMemoryState)
    (result : CanonicalCommitResult)
    → WellFormed p s
    → commit p verifier draw request seen s ≡ (ok result, s')
    → History p s' later
    → (commit p verifier' draw' request seen' later ≡ (ok result, later))
      ⊎ ((e : FabricError) × (admit p verifier' request seen' ≡ err e)
          × (commit p verifier' draw' request seen' later ≡ (err e, later)))
unfolding get_candidate get_commit_result commit
commit_replays_later p verifier verifier' draw draw' request seen seen' s s' later result w h
      history =
    let kept = History-Extends p s' later history in
    let (verified, first) = commit-admitted p verifier draw request seen s s' result h in
    elim (Result-cases (admit p verifier' request seen')) [
      | inl (e, refused) ↦ inr (e, refused, rw (refused, commit) refl)
      | inr (verified', admitted) ↦
          let replayed =
            commit_admitted_later p draw draw' request verified verified' s s' later result w first
              kept.candidates_kept kept.results_kept in
          inl (rw (admitted, commit) replayed)
    ]

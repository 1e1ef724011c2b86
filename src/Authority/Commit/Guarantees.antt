-- ===== src/Authority/Commit/Guarantees.antt =====
-- What a commit guarantees, whatever the state of the other records.
use digital_life_memory_fabr.Base.{
  String, ◌≡◌, refl, ap, Option, some, none, Bool, true, false, ◌⊎◌, inl, inr,
}
use digital_life_memory_fabr.Base.JsMap as M
use digital_life_memory_fabr.Domain.Platform.{Platform}
use digital_life_memory_fabr.Domain.Memory.{
  MemoryCandidate, CandidateStatus, supersede, same_operation,
}
use digital_life_memory_fabr.Domain.Errors.{ok, Result-cases}
use digital_life_memory_fabr.Store.{
  InMemoryState, get_candidate, get_commit_result, append_conflict, transaction-ok, transaction-err,
}
use digital_life_memory_fabr.Store.Invariant.{WellFormed, WellFormed-same, candidates_keyed-set}
use digital_life_memory_fabr.Authority.Admission.{
  is_pending, require_verified_provider_admission_state,
}
use digital_life_memory_fabr.Authority.Plan.{
  CommitDraw, CommitPlan, Resolution, conflicted, planned, create_plan,
}
use digital_life_memory_fabr.Authority.Plan.Fits.{Continues, plan_mutation-Continues}
use digital_life_memory_fabr.Authority.Commit.{
  CanonicalCommitRequest, CommitOutcome, commit_in_transaction, resolution, resolve,
  commit_admitted, commit, admit,
}
use digital_life_memory_fabr.Authority.Commit.Effect.{persist-eq-ok}
use digital_life_memory_fabr.Authority.Commit.Invariant.{written-WellFormed}
use digital_life_memory_fabr.Authority.Commit.Cases.{
  commit_in_transaction-eq-ok, commit_fresh-eq-ok, resolution-planned, record_conflict-eq-ok,
}

pub plan_stands :
    (p : Platform) (draw : CommitDraw) (c : MemoryCandidate) (s : InMemoryState) (plan : CommitPlan)
    → WellFormed p s
    → resolution draw c s ≡ ok (planned plan)
    → (plan.new_revision ≡ 1) ⊎ Continues c plan s
unfolding create_plan
plan_stands p draw c s plan w h = elim (resolution-planned draw c s plan h) [
  | inl (_, e) ↦ inl (ap (λ (x : CommitPlan). x.new_revision) e)
  | inr (_, made) ↦ inr (plan_mutation-Continues p draw c s plan w made)
]

resolve-WellFormed :
    (p : Platform) (draw : CommitDraw) (key : String) (c : MemoryCandidate) (s s' : InMemoryState)
    (o : CommitOutcome) (r : Resolution)
    → WellFormed p s
    → resolution draw c s ≡ ok r
    → resolve p draw key c s r ≡ ok (o, s')
    → WellFormed p s'
unfolding resolve append_conflict
resolve-WellFormed p draw key c s s' o (planned plan) w made h =
    written-WellFormed p draw key c plan s s' w (plan_stands p draw c s plan w made)
      (persist-eq-ok p draw key c plan s s' o h).1
resolve-WellFormed p draw key c s s' o (conflicted found) w made h =
    let (old, stored, _, e) = record_conflict-eq-ok c found s s' o h in
    rw e (
      WellFormed-same p s _ w
        (candidates_keyed-set c.candidate_id _ s.candidates w.candidates_keyed
          (w.candidates_keyed c.candidate_id old stored))
        refl refl refl refl w.checkpoints_behind)

transaction-WellFormed :
    (p : Platform) (draw : CommitDraw) (request : CanonicalCommitRequest) (verified : Option String)
    (s s' : InMemoryState) (o : CommitOutcome)
    → WellFormed p s
    → commit_in_transaction p draw request verified s ≡ ok (o, s')
    → WellFormed p s'
transaction-WellFormed p draw request verified s s' o w h =
    let (c, _, how) = commit_in_transaction-eq-ok p draw request verified s s' o h in
    elim how [
      | inl (prior, _, _, e, _) ↦ rw e w
      | inr (_, fresh) ↦
          let (r, _, _, _, made, done) = commit_fresh-eq-ok p draw _ c verified s s' o fresh in
          resolve-WellFormed p draw _ c s s' o r w made done
    ]

-- A commit keeps the store well formed, whatever it returns and whatever was verified before.
pub commit_admitted-WellFormed :
    (p : Platform) (draw : CommitDraw) (request : CanonicalCommitRequest) (verified : Option String)
    (s : InMemoryState)
    → WellFormed p s
    → WellFormed p (commit_admitted p draw request verified s).1
unfolding commit_admitted
commit_admitted-WellFormed p draw request verified s w =
    elim (Result-cases (commit_in_transaction p draw request verified s)) [
      | inl (e, failed) ↦ rw (transaction-err _ s e failed) w
      | inr ((o, s'), done) ↦
          rw (transaction-ok _ s o s' done)
            (transaction-WellFormed p draw request verified s s' o w done)
    ]

-- `commit` keeps the store well formed, whatever state the admission read.
pub commit-WellFormed :
    (p : Platform) (verifier : Option (MemoryCandidate → Bool)) (draw : CommitDraw)
    (request : CanonicalCommitRequest) (seen s : InMemoryState)
    → WellFormed p s
    → WellFormed p (commit p verifier draw request seen s).1
unfolding commit
commit-WellFormed p verifier draw request seen s w =
    elim (Result-cases (admit p verifier request seen)) [
      | inl (e, refused) ↦ rw (refused, commit) w
      | inr (verified, admitted) ↦
          rw (admitted, commit) (commit_admitted-WellFormed p draw request verified s w)
    ]

-- A commit that takes its candidate: one that was pending, not a supersede, under a key that the
-- scope has not used, in the admission state that was admitted. It is not pending after.
pub record Consumes (p : Platform) (verifier : Option (MemoryCandidate → Bool))
    (request : CanonicalCommitRequest) (seen s s' : InMemoryState) : Type 0 where
  pub candidate : MemoryCandidate
  pub verified : Option String
  pub stored : get_candidate request.candidate_id s ≡ some candidate
  pub pending : is_pending candidate.status ≡ true
  pub not_supersede : same_operation candidate.proposed_operation supersede ≡ false
  pub key_new : get_commit_result candidate.scope request.idempotency_key s ≡ none
  pub admitted : admit p verifier request seen ≡ ok verified
  pub unchanged : require_verified_provider_admission_state p candidate verified ≡ ok tt
  pub after : MemoryCandidate
  pub left : get_candidate request.candidate_id s' ≡ some after
  pub taken : is_pending after.status ≡ false

resolve-taken :
    (p : Platform) (draw : CommitDraw) (request : CanonicalCommitRequest) (c : MemoryCandidate)
    (s s' : InMemoryState) (o : CommitOutcome) (r : Resolution)
    → c.candidate_id ≡ request.candidate_id
    → resolve p draw request.idempotency_key c s r ≡ ok (o, s')
    → (after : MemoryCandidate) × (get_candidate request.candidate_id s' ≡ some after)
      × (is_pending after.status ≡ false)
unfolding resolve get_candidate append_conflict is_pending
resolve-taken p draw request c s s' o (planned plan) id h =
    let wrote = (persist-eq-ok p draw request.idempotency_key c plan s s' o h).1 in
    let (old, _, e) = wrote.accepted in
    (
      record old { status = CandidateStatus.accepted },
      rw e (M.get-set_at c.candidate_id request.candidate_id _ _ id),
      refl,
    )
resolve-taken p draw request c s s' o (conflicted found) id h =
    let (old, _, _, e) = record_conflict-eq-ok c found s s' o h in
    (
      record old { status = CandidateStatus.conflict },
      rw e (M.get-set_at c.candidate_id request.candidate_id _ s.candidates id),
      refl,
    )

transaction-Consumes :
    (p : Platform) (verifier : Option (MemoryCandidate → Bool)) (draw : CommitDraw)
    (request : CanonicalCommitRequest) (verified : Option String) (seen s s' : InMemoryState)
    (o : CommitOutcome)
    → WellFormed p s
    → admit p verifier request seen ≡ ok verified
    → commit_in_transaction p draw request verified s ≡ ok (o, s')
    → (s' ≡ s) ⊎ Consumes p verifier request seen s s'
unfolding get_candidate
transaction-Consumes p verifier draw request verified seen s s' o w admitted h =
    let (c, here, how) = commit_in_transaction-eq-ok p draw request verified s s' o h in
    elim how [
      | inl (prior, _, _, e, _) ↦ inl e
      | inr (key_new, fresh) ↦
          let (r, waiting, unchanged, operation, _, done) =
            commit_fresh-eq-ok p draw _ c verified s s' o fresh in
          let (after, left, taken) =
            resolve-taken p draw request c s s' o r (w.candidates_keyed request.candidate_id c here)
              done in
          inr (record {
            candidate = c;
            verified = verified;
            stored = here;
            pending = waiting;
            not_supersede = operation;
            key_new = key_new;
            admitted = admitted;
            unchanged = unchanged;
            after = after;
            left = left;
            taken = taken;
          })
    ]

-- A commit on a well-formed store leaves the state as it was, or takes a candidate that was pending,
-- of an operation other than supersede, under an idempotency key that the scope had not used, in the
-- admission state that was admitted before; and the candidate is not pending after it.
pub commit-Consumes :
    (p : Platform) (verifier : Option (MemoryCandidate → Bool)) (draw : CommitDraw)
    (request : CanonicalCommitRequest) (seen s : InMemoryState)
    → WellFormed p s
    → ((commit p verifier draw request seen s).1 ≡ s)
      ⊎ Consumes p verifier request seen s (commit p verifier draw request seen s).1
unfolding commit commit_admitted
commit-Consumes p verifier draw request seen s w =
    elim (Result-cases (admit p verifier request seen)) [
      | inl (e, refused) ↦ inl (rw (refused, commit) refl)
      | inr (verified, admitted) ↦
          elim (Result-cases (commit_in_transaction p draw request verified s)) [
            | inl (e, failed) ↦
                inl (rw (admitted, commit, commit_admitted, transaction-err _ s e failed) refl)
            | inr ((o, s'), done) ↦
                rw (admitted, commit, commit_admitted, transaction-ok _ s o s' done)
                  (transaction-Consumes p verifier draw request verified seen s s' o w admitted
                    done)
          ]
    ]

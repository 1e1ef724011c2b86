-- ===== src/Authority/Commit/Stale.antt =====
-- A base revision that is out of date, and the numbers that a commit takes.
use mathlib.Core.Path.{subst}
use digital_life_memory_fabr.Base.{
  ℕ, ◌+◌, String, ◌≡◌, refl, Option, none, some, [], ◌∷◌, ◌++◌, true, false, arith, ◌⊎◌, inl, inr,
  eqb,
}
use digital_life_memory_fabr.Base.JsMap as M
use digital_life_memory_fabr.Domain.Platform.{Platform}
use digital_life_memory_fabr.Domain.Scope.{same_scope}
use digital_life_memory_fabr.Domain.Memory.{
  MemoryCandidate, CanonicalMemoryHead, CandidateStatus, create, supersede, same_operation,
}
use digital_life_memory_fabr.Domain.Records.{CanonicalCommitResult}
use digital_life_memory_fabr.Domain.Errors.{ok, err, revision_conflict}
use digital_life_memory_fabr.Store.{
  InMemoryState, get_candidate, get_head, get_commit_result, transaction, set_candidate_status,
  append_conflict, high_watermark, next_commit_seq,
}
use digital_life_memory_fabr.Store.Invariant.{WellFormed}
use digital_life_memory_fabr.Authority.Admission.{
  is_pending, require_pending, require_verified_provider_admission_state,
}
use digital_life_memory_fabr.Authority.Plan.{
  CommitDraw, CommitPlan, Resolution, planned, conflicted, conflict_record, plan_mutation,
  plan_or_conflict,
}
use digital_life_memory_fabr.Authority.Plan.Fits.{Continues}
use digital_life_memory_fabr.Authority.Commit.{
  CanonicalCommitRequest, committed, commit_admitted, commit_in_transaction, commit_fresh,
  outcome_result, resolve, resolution, record_conflict, build_result, build_head, build_change,
}
use digital_life_memory_fabr.Authority.Commit.Guarantees.{plan_stands}
use digital_life_memory_fabr.Authority.Commit.Effect.{Wrote, result_of, persist-eq-ok}
use digital_life_memory_fabr.Authority.Commit.Cases.{commit_fresh-eq-ok, record_conflict-eq-ok}

-- A pending candidate that may be committed and names the base revision of a memory.
pub record Proposes (p : Platform) (request : CanonicalCommitRequest) (verified : Option String)
    (c : MemoryCandidate) (base_id : String) (expected : ℕ) (s : InMemoryState) : Type 0 where
  pub stored : get_candidate request.candidate_id s ≡ some c
  pub own_id : c.candidate_id ≡ request.candidate_id
  pub new : get_commit_result c.scope request.idempotency_key s ≡ none
  pub waiting : is_pending c.status ≡ true
  pub admitted : require_verified_provider_admission_state p c verified ≡ ok tt
  pub not_supersede : same_operation c.proposed_operation supersede ≡ false
  pub not_create : same_operation c.proposed_operation create ≡ false
  pub base : c.base_memory_id ≡ some base_id
  pub base_number : c.base_revision ≡ some expected

-- A commit of a pending and admitted candidate, under a new key, on a revision that is not the
-- current one of its memory returns a revision conflict with both numbers, marks the candidate and
-- logs the conflict, and writes nothing else.
pub stale_commit_conflicts :
    (p : Platform) (draw : CommitDraw) (request : CanonicalCommitRequest) (verified : Option String)
    (c : MemoryCandidate) (base_id : String) (expected : ℕ) (head : CanonicalMemoryHead)
    (s : InMemoryState)
    → Proposes p request verified c base_id expected s
    → get_head base_id s ≡ some head
    → same_scope head.scope c.scope ≡ true
    → eqb head.current_revision expected ≡ false
    → commit_admitted p draw request verified s ≡ (
      err (revision_conflict base_id expected head.current_revision),
      record s {
        candidates =
            M.set c.candidate_id (record c { status = CandidateStatus.conflict }) s.candidates;
        conflicts = s.conflicts ++ conflict_record draw base_id c head expected ∷ [];
      },
    )
unfolding commit_admitted commit_in_transaction commit_fresh require_pending resolution
    plan_mutation plan_or_conflict resolve record_conflict set_candidate_status append_conflict
    transaction outcome_result get_candidate
stale_commit_conflicts p draw request verified c base_id expected head s h found within stale =
    ground (
      arith, h.stored, h.own_id, h.new, h.waiting, h.admitted, h.not_supersede, h.not_create,
      h.base, h.base_number, found, within, stale,
    )

-- What a commit that wrote something has written: the next number of its scope, one change and one
-- outbox record at the ends of their lists, and the next revision of its memory, or the first.
pub record Advances (c : MemoryCandidate) (result : CanonicalCommitResult) (s s' : InMemoryState)
    : Type 0 where
  pub number : result.change.commit_seq ≡ high_watermark c.scope s + 1
  pub watermark : high_watermark c.scope s' ≡ high_watermark c.scope s + 1
  pub logged : s'.changes ≡ s.changes ++ result.change ∷ []
  pub queued : s'.outbox ≡ s.outbox ++ result.outbox ∷ []
  pub current : get_head result.head.memory_id s' ≡ some result.head
  pub next :
      ((get_head result.head.memory_id s ≡ none) × (result.head.current_revision ≡ 1))
      ⊎ ((old : CanonicalMemoryHead) × (get_head result.head.memory_id s ≡ some old)
          × (result.head.current_revision ≡ old.current_revision + 1))

written-Advances :
    (p : Platform) (draw : CommitDraw) (key : String) (c : MemoryCandidate) (plan : CommitPlan)
    (s s' : InMemoryState)
    → (plan.new_revision ≡ 1) ⊎ Continues c plan s
    → Wrote key c (result_of p draw key c plan s) (next_commit_seq c.scope s).1 s'
    → Advances c (result_of p draw key c plan s) s s'
unfolding next_commit_seq high_watermark build_result build_head build_change get_head
written-Advances p draw key c plan s s' stands wrote = record {
  number = refl;
  watermark = rw (wrote.commit_seq_by_scope, M.get-set_self) refl;
  logged = wrote.changes;
  queued = wrote.outbox;
  current = rw wrote.heads (M.get-set_self plan.memory_id (build_head draw c plan) s.heads);
  next = elim stands [
    | inl first ↦ inl ((wrote.head_new first).0, first)
    | inr f ↦ inr (f.head, f.stored, f.next)
  ];
}

resolve-Advances :
    (p : Platform) (draw : CommitDraw) (key : String) (c : MemoryCandidate) (s s' : InMemoryState)
    (result : CanonicalCommitResult) (r : Resolution)
    → WellFormed p s
    → resolution draw c s ≡ ok r
    → resolve p draw key c s r ≡ ok (committed result, s')
    → Advances c result s s'
unfolding resolve
resolve-Advances p draw key c s s' result (conflicted found) w made h =
    let (_, _, e, _) = record_conflict-eq-ok c found s s' _ h in absurd (cc e)
resolve-Advances p draw key c s s' result (planned plan) w made h =
    let (e, wrote) = persist-eq-ok p draw key c plan s s' _ h in
    let same : result_of p draw key c plan s ≡ result = cc e in
    subst (λ x. Advances c x s s') same
      (written-Advances p draw key c plan s s' (plan_stands p draw c s plan w made) wrote)

-- In a well-formed store, a commit that wrote its candidate, rather than returning an earlier
-- result, took the next sequence number of the scope, and the next revision of the memory or the
-- first of a new one, and put one change and one outbox record behind the others.
pub commit_admitted-Advances :
    (p : Platform) (draw : CommitDraw) (request : CanonicalCommitRequest) (verified : Option String)
    (c : MemoryCandidate) (s s' : InMemoryState) (result : CanonicalCommitResult)
    → WellFormed p s
    → get_candidate request.candidate_id s ≡ some c
    → get_commit_result c.scope request.idempotency_key s ≡ none
    → commit_admitted p draw request verified s ≡ (ok result, s')
    → Advances c result s s'
unfolding commit_admitted commit_in_transaction outcome_result transaction
commit_admitted-Advances p draw request verified c s s' result w here new h =
    let fresh : commit_fresh p draw request.idempotency_key c verified s
        ≡ ok (committed result, s') =
      ground (arith, h, here, new) in
    let (r, _, _, _, made, done) =
      commit_fresh-eq-ok p draw request.idempotency_key c verified s s' _ fresh in
    resolve-Advances p draw request.idempotency_key c s s' result r w made done

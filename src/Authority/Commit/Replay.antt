-- ===== src/Authority/Commit/Replay.antt =====
-- Idempotency of a commit, and the sequence number that it takes.
use mathlib.Core.Path.{subst}
use digital_life_memory_fabr.Base.{String, ◌≡◌, sym, ◌∙◌, ap, Option, some, arith, inl, inr, eq_iff}
use digital_life_memory_fabr.Base.JsMap as M
use digital_life_memory_fabr.Domain.Platform.{Platform}
use digital_life_memory_fabr.Domain.Scope.{MemoryScope, scoped_idempotency_key}
use digital_life_memory_fabr.Domain.Memory.{MemoryCandidate, CandidateStatus}
use digital_life_memory_fabr.Domain.Records.{CanonicalCommitResult}
use digital_life_memory_fabr.Domain.Errors.{ok}
use digital_life_memory_fabr.Store.{
  InMemoryState, get_candidate, get_commit_result, transaction, next_commit_seq,
}
use digital_life_memory_fabr.Store.Invariant.{WellFormed}
use digital_life_memory_fabr.Authority.Plan.{
  CommitDraw, CommitPlan, Resolution, conflicted, planned,
}
use digital_life_memory_fabr.Authority.Commit.{
  CanonicalCommitRequest, committed, commit_in_transaction, resolve, commit_admitted,
  outcome_result, commit_prior, build_result, build_revision, provenance_for,
}
use digital_life_memory_fabr.Authority.Commit.Effect.{Wrote, result_of, persist-eq-ok}
use digital_life_memory_fabr.Authority.Commit.Cases.{
  commit_in_transaction-eq-ok, commit_fresh-eq-ok, record_conflict-eq-ok,
}

-- The state answers the key with the result, for the candidate of the request.
record Remembers (request : CanonicalCommitRequest) (result : CanonicalCommitResult)
    (s : InMemoryState) : Type 0 where
  candidate : MemoryCandidate
  stored : get_candidate request.candidate_id s ≡ some candidate
  answered : get_commit_result candidate.scope request.idempotency_key s ≡ some result
  own : result.revision.provenance.candidate_id ≡ candidate.candidate_id

Remembers-replays :
    (p : Platform) (draw : CommitDraw) (request : CanonicalCommitRequest) (verified : Option String)
    (result : CanonicalCommitResult) (s : InMemoryState)
    → Remembers request result s
    → commit_admitted p draw request verified s ≡ (ok result, s)
unfolding commit_admitted commit_in_transaction commit_prior outcome_result transaction
Remembers-replays p draw request verified result s m = ground (
  arith,
  m.stored,
  m.answered,
  eq_iff result.revision.provenance.candidate_id m.candidate.candidate_id,
  m.own,
)

written_Remembers :
    (p : Platform) (draw : CommitDraw) (request : CanonicalCommitRequest) (c : MemoryCandidate)
    (plan : CommitPlan) (s s' : InMemoryState)
    → WellFormed p s
    → get_candidate request.candidate_id s ≡ some c
    → Wrote request.idempotency_key c
        (result_of p draw request.idempotency_key c plan s)
        (next_commit_seq c.scope s).1
        s'
    → Remembers request (result_of p draw request.idempotency_key c plan s) s'
unfolding get_candidate get_commit_result next_commit_seq build_result build_revision provenance_for
written_Remembers p draw request c plan s s' w here wrote =
    let (old, stored, e) = wrote.accepted in
    let id = w.candidates_keyed request.candidate_id c here in
    let same : c ≡ old = ground (arith, here, stored, id) in
    record {
      candidate = record old { status = CandidateStatus.accepted };
      stored = rw e (M.get-set_at c.candidate_id request.candidate_id _ s.candidates id);
      answered = rw wrote.idempotency (
          M.get-set_at _ _ _ s.idempotency (
            ap (λ (x : MemoryCandidate). scoped_idempotency_key x.scope request.idempotency_key)
              same));
      own = ap (λ (x : MemoryCandidate). x.candidate_id) same;
    }

resolve-Remembers :
    (p : Platform) (draw : CommitDraw) (request : CanonicalCommitRequest) (c : MemoryCandidate)
    (s s' : InMemoryState) (result : CanonicalCommitResult) (r : Resolution)
    → WellFormed p s
    → get_candidate request.candidate_id s ≡ some c
    → resolve p draw request.idempotency_key c s r ≡ ok (committed result, s')
    → Remembers request result s'
unfolding resolve
resolve-Remembers p draw request c s s' result (planned plan) w here h =
    let (e, wrote) = persist-eq-ok p draw request.idempotency_key c plan s s' _ h in
    let same : result_of p draw request.idempotency_key c plan s ≡ result = cc e in
    subst (λ x. Remembers request x s') same
      (written_Remembers p draw request c plan s s' w here wrote)
resolve-Remembers p draw request c s s' result (conflicted found) w here h =
    let (_, _, e, _) = record_conflict-eq-ok c found s s' _ h in absurd (cc e)

transaction_Remembers :
    (p : Platform) (draw : CommitDraw) (request : CanonicalCommitRequest) (verified : Option String)
    (s s' : InMemoryState) (result : CanonicalCommitResult)
    → WellFormed p s
    → commit_in_transaction p draw request verified s ≡ ok (committed result, s')
    → Remembers request result s'
transaction_Remembers p draw request verified s s' result w h =
    let (c, here, how) = commit_in_transaction-eq-ok p draw request verified s s' _ h in
    elim how [
      | inl (prior, before, e, unchanged, own) ↦
          let same : prior ≡ result = cc e in
          rw unchanged (
            subst (λ x. Remembers request x s) same
              (record { candidate = c; stored = here; answered = before; own = own }))
      | inr (_, fresh) ↦
          let (r, _, _, _, _, done) = commit_fresh-eq-ok p draw _ c verified s s' _ fresh in
          resolve-Remembers p draw request c s s' result r w here done
    ]

commit_admitted-eq-ok :
    (p : Platform) (draw : CommitDraw) (request : CanonicalCommitRequest) (verified : Option String)
    (s s' : InMemoryState) (result : CanonicalCommitResult)
    → commit_admitted p draw request verified s ≡ (ok result, s')
    → commit_in_transaction p draw request verified s ≡ ok (committed result, s')
unfolding commit_admitted outcome_result transaction
commit_admitted-eq-ok p draw request verified s s' result h = ground arith

Remembers-later :
    (request : CanonicalCommitRequest) (result : CanonicalCommitResult) (s later : InMemoryState)
    → ((id : String) (c : MemoryCandidate)
        → M.get id s.candidates ≡ some c
        → (c' : MemoryCandidate) × (M.get id later.candidates ≡ some c')
          × ((c'.candidate_id ≡ c.candidate_id) × (c'.scope ≡ c.scope)))
    → ((key : String) (r : CanonicalCommitResult)
        → M.get key s.idempotency ≡ some r
        → M.get key later.idempotency ≡ some r)
    → Remembers request result s
    → Remembers request result later
unfolding get_candidate get_commit_result
Remembers-later request result s later candidates results m =
    let (c', stored, (same_id, same_scope)) =
      candidates request.candidate_id m.candidate m.stored in
    record {
      candidate = c';
      stored = stored;
      answered =
          ap
            (λ (x : MemoryScope).
              M.get (scoped_idempotency_key x request.idempotency_key) later.idempotency)
            same_scope
          ∙ results _ result m.answered;
      own = m.own ∙ sym same_id;
    }

-- A request whose commit succeeded returns the same result, and writes nothing, in any later state
-- that has kept the ids and scopes of candidates and the results of commits.
pub commit_admitted_later :
    (p : Platform) (draw draw' : CommitDraw) (request : CanonicalCommitRequest)
    (verified verified' : Option String) (s s' later : InMemoryState)
    (result : CanonicalCommitResult)
    → WellFormed p s
    → commit_admitted p draw request verified s ≡ (ok result, s')
    → ((id : String) (c : MemoryCandidate)
        → M.get id s'.candidates ≡ some c
        → (c' : MemoryCandidate) × (M.get id later.candidates ≡ some c')
          × ((c'.candidate_id ≡ c.candidate_id) × (c'.scope ≡ c.scope)))
    → ((key : String) (r : CanonicalCommitResult)
        → M.get key s'.idempotency ≡ some r
        → M.get key later.idempotency ≡ some r)
    → commit_admitted p draw' request verified' later ≡ (ok result, later)
commit_admitted_later p draw draw' request verified verified' s s' later result w h candidates
      results =
    Remembers-replays p draw' request verified' result later (
      Remembers-later request result s' later candidates results (
        transaction_Remembers p draw request verified s s' result w
          (commit_admitted-eq-ok p draw request verified s s' result h)))

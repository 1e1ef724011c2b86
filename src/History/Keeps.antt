-- ===== src/History/Keeps.antt =====
-- What no call takes away: revisions, the log, results of commits, the ids and scopes of
-- candidates, the progress of devices. Here a commit, below the other calls.
pub mod Calls
use digital_life_memory_fabr.Base.{
  ◌≤◌, String, ◌≡◌, refl, ap, ◌∙◌, Option, none, some, List, [], ◌∷◌, ◌++◌, Bool, arith, inl, inr,
  ◌==◌, Bool-cases, eq_iff,
}
use digital_life_memory_fabr.Base.JsMap as M
use digital_life_memory_fabr.Base.JsMap.{JsMap}
use digital_life_memory_fabr.Domain.Platform.{Platform}
use digital_life_memory_fabr.Domain.Memory.{MemoryCandidate, MemoryRevision, CandidateStatus}
use digital_life_memory_fabr.Domain.Records.{
  MemoryChangeEnvelope, DeviceCheckpoint, CanonicalCommitResult,
}
use digital_life_memory_fabr.Domain.Errors.{ok, Result-cases}
use digital_life_memory_fabr.Store.{
  InMemoryState, get_commit_result, next_commit_seq, append_conflict, transaction-ok,
  transaction-err,
}
use digital_life_memory_fabr.Authority.Plan.{
  CommitDraw, CommitPlan, Resolution, planned, conflicted,
}
use digital_life_memory_fabr.Authority.Commit.{
  CanonicalCommitRequest, CommitOutcome, commit, commit_admitted, commit_in_transaction, admit,
  resolve,
}
use digital_life_memory_fabr.Authority.Commit.Effect.{Wrote, result_of, persist-eq-ok}
use digital_life_memory_fabr.Authority.Commit.Cases.{
  commit_in_transaction-eq-ok, commit_fresh-eq-ok, record_conflict-eq-ok,
}

-- The candidate under an id may change its status; its id and its scope stay.
abbrev pub SameCandidate : MemoryCandidate → MemoryCandidate → Type 0
SameCandidate c c' = (c'.candidate_id ≡ c.candidate_id) × (c'.scope ≡ c.scope)

pub record Extends (s s' : InMemoryState) : Type 0 where
  pub revisions_kept :
      (key : String) (r : MemoryRevision)
      → M.get key s.revisions ≡ some r
      → M.get key s'.revisions ≡ some r
  pub appended : List MemoryChangeEnvelope
  pub log_kept : s'.changes ≡ s.changes ++ appended
  pub results_kept :
      (key : String) (result : CanonicalCommitResult)
      → M.get key s.idempotency ≡ some result
      → M.get key s'.idempotency ≡ some result
  pub candidates_kept :
      (id : String) (c : MemoryCandidate)
      → M.get id s.candidates ≡ some c
      → (c' : MemoryCandidate) × (M.get id s'.candidates ≡ some c') × SameCandidate c c'
  pub devices_forward :
      (key : String) (c : DeviceCheckpoint)
      → M.get key s.device_checkpoints ≡ some c
      → (c' : DeviceCheckpoint) × (M.get key s'.device_checkpoints ≡ some c')
        × (c.last_applied_commit_seq ≤ c'.last_applied_commit_seq)

pub append_nil : (xs : List MemoryChangeEnvelope) → xs ≡ xs ++ []
append_nil [] = refl
append_nil (x ∷ xs) = ap (◌∷◌ x) (append_nil xs)

append_assoc : (xs ys zs : List MemoryChangeEnvelope) → (xs ++ ys) ++ zs ≡ xs ++ (ys ++ zs)
append_assoc [] ys zs = refl
append_assoc (x ∷ xs) ys zs = ap (◌∷◌ x) (append_assoc xs ys zs)

pub Extends-refl : (s : InMemoryState) → Extends s s
Extends-refl s = record {
  revisions_kept = λ key r h. h;
  appended = [];
  log_kept = append_nil s.changes;
  results_kept = λ key r h. h;
  candidates_kept = λ id c h. (c, h, (refl, refl));
  devices_forward = λ key c h. (c, h, omega arith);
}

pub Extends-trans : (s s' s'' : InMemoryState) → Extends s s' → Extends s' s'' → Extends s s''
Extends-trans s s' s'' e f = record {
  revisions_kept = λ key r h. f.revisions_kept key r (e.revisions_kept key r h);
  appended = e.appended ++ f.appended;
  log_kept =
      f.log_kept
      ∙ (ap (λ xs. xs ++ f.appended) e.log_kept ∙ append_assoc s.changes e.appended f.appended);
  results_kept = λ key r h. f.results_kept key r (e.results_kept key r h);
  candidates_kept = λ id c h.
      let (c', h', (same_id, same_scope)) = e.candidates_kept id c h in
      let (c'', h'', (same_id', same_scope')) = f.candidates_kept id c' h' in
      (c'', h'', (same_id' ∙ same_id, same_scope' ∙ same_scope));
  devices_forward = λ key c h.
      let (c', h', le) = e.devices_forward key c h in
      let (c'', h'', le') = f.devices_forward key c' h' in (c'', h'', omega (arith, le, le'));
}

-- A new status under the id keeps the candidates.
candidates_kept-set :
    (k : String) (old : MemoryCandidate) (status : CandidateStatus) (m : JsMap MemoryCandidate)
    → M.get k m ≡ some old
    → (id : String) (c : MemoryCandidate) → M.get id m ≡ some c
    → (c' : MemoryCandidate) × (M.get id (M.set k (record old { status = status }) m) ≡ some c')
      × SameCandidate c c'
candidates_kept-set k old status m stored id c h = elim (Bool-cases (k == id)) [
  | inl e ↦
      let same : k ≡ id = ground (arith, eq_iff k id, e) in
      let one : old ≡ c = ground (arith, stored, h, same) in
      (
        record old { status = status },
        M.get-set_at k id _ m same,
        (
          ap (λ (x : MemoryCandidate). x.candidate_id) one,
          ap (λ (x : MemoryCandidate). x.scope) one,
        ),
      )
  | inr e ↦ (c, M.get-set_ne k id _ m e ∙ h, (refl, refl))
]

written-Extends :
    (p : Platform) (draw : CommitDraw) (key : String) (c : MemoryCandidate) (plan : CommitPlan)
    (s s' : InMemoryState)
    → get_commit_result c.scope key s ≡ none
    → Wrote key c (result_of p draw key c plan s) (next_commit_seq c.scope s).1 s'
    → Extends s s'
unfolding get_commit_result next_commit_seq
written-Extends p draw key c plan s s' fresh wrote =
    let (old, stored, after) = wrote.accepted in
    record {
      revisions_kept =
          λ k r h. rw wrote.revisions (M.get-set_fresh _ k _ r s.revisions wrote.revision_new h);
      appended = (result_of p draw key c plan s).change ∷ [];
      log_kept = wrote.changes;
      results_kept = λ k r h. rw wrote.idempotency (M.get-set_fresh _ k _ r s.idempotency fresh h);
      candidates_kept =
          λ id x h. rw after (candidates_kept-set c.candidate_id old _ s.candidates stored id x h);
      devices_forward = λ k d h. (d, rw wrote.device_checkpoints h, omega arith);
    }

resolve-Extends :
    (p : Platform) (draw : CommitDraw) (key : String) (c : MemoryCandidate) (s s' : InMemoryState)
    (o : CommitOutcome) (r : Resolution)
    → get_commit_result c.scope key s ≡ none
    → resolve p draw key c s r ≡ ok (o, s')
    → Extends s s'
unfolding resolve append_conflict
resolve-Extends p draw key c s s' o (planned plan) fresh h =
    written-Extends p draw key c plan s s' fresh (persist-eq-ok p draw key c plan s s' o h).1
resolve-Extends p draw key c s s' o (conflicted found) fresh h =
    let (old, stored, _, e) = record_conflict-eq-ok c found s s' o h in
    rw e (record {
      revisions_kept = λ key r h. h;
      appended = [];
      log_kept = append_nil s.changes;
      results_kept = λ key r h. h;
      candidates_kept = candidates_kept-set c.candidate_id old _ s.candidates stored;
      devices_forward = λ key d h. (d, h, omega arith);
    })

transaction-Extends :
    (p : Platform) (draw : CommitDraw) (request : CanonicalCommitRequest) (verified : Option String)
    (s s' : InMemoryState) (o : CommitOutcome)
    → commit_in_transaction p draw request verified s ≡ ok (o, s')
    → Extends s s'
transaction-Extends p draw request verified s s' o h =
    let (c, _, how) = commit_in_transaction-eq-ok p draw request verified s s' o h in
    elim how [
      | inl (prior, _, _, e, _) ↦ rw e (Extends-refl s)
      | inr (fresh, done) ↦
          let (r, _, _, _, _, resolved) = commit_fresh-eq-ok p draw _ c verified s s' o done in
          resolve-Extends p draw _ c s s' o r fresh resolved
    ]

pub commit-Extends :
    (p : Platform) (verifier : Option (MemoryCandidate → Bool)) (draw : CommitDraw)
    (request : CanonicalCommitRequest) (seen s : InMemoryState)
    → Extends s (commit p verifier draw request seen s).1
unfolding commit commit_admitted
commit-Extends p verifier draw request seen s =
    elim (Result-cases (admit p verifier request seen)) [
      | inl (e, refused) ↦ rw (refused, commit) (Extends-refl s)
      | inr (verified, admitted) ↦
          elim (Result-cases (commit_in_transaction p draw request verified s)) [
            | inl (e, failed) ↦ rw (admitted, commit, transaction-err _ s e failed) (Extends-refl s)
            | inr ((o, s'), done) ↦
                rw (admitted, commit, transaction-ok _ s o s' done)
                  (transaction-Extends p draw request verified s s' o done)
          ]
    ]

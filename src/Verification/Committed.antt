-- ===== src/Verification/Committed.antt =====
-- What the verifier says of a revision that the authority has just written.
use digital_life_memory_fabr.Base.{
  ℕ, ◌+◌, true, false, String, Option, none, some, ◌==◌, ◌≡◌, refl, sym, ap, ◌∙◌, arith, eq_refl,
  eqb_refl,
}
use digital_life_memory_fabr.Base.JsMap as M
use digital_life_memory_fabr.Domain.Platform.{Platform}
use digital_life_memory_fabr.Domain.Scope.{MemoryScope, scope_key, same_scope, revision_key}
use digital_life_memory_fabr.Domain.Memory.{
  MemoryCandidate, CanonicalMemoryHead, MemoryRevision, restore, active, same_status,
}
use digital_life_memory_fabr.Store.{
  InMemoryState, get_head, get_revision, next_commit_seq, high_watermark,
}
use digital_life_memory_fabr.Authority.Plan.{CommitDraw, CommitPlan, carry_plan, apply_operation}
use digital_life_memory_fabr.Authority.Commit.{
  build_revision, build_head, build_result, provenance_for, persist, committed,
}
use digital_life_memory_fabr.Domain.Records.{CanonicalCommitResult}
use digital_life_memory_fabr.Domain.Errors.{ok}
use digital_life_memory_fabr.Authority.Commit.Effect.{Wrote, result_of, persist-eq-ok}
use digital_life_memory_fabr.Verification.{
  SuppressionReason, allow, suppress, revision_integrity, verify_one, verify_head, verify_revision,
  confirm, suppress_head, suppress_live_head, expected_matches, revision_intact, identity_intact,
  vocabulary_intact, provenance_intact, window_intact, starts_later, ended, bound_time, same_head,
}

-- What a plan must say for the verifier: the fingerprint of its candidate, words of the
-- vocabulary, and a window of validity that is open.
pub record Presentable (p : Platform) (draw : CommitDraw) (c : MemoryCandidate) (plan : CommitPlan)
    (effective : ℕ) : Type 0 where
  pub live : plan.status ≡ active
  pub fingerprint : plan.semantic_fingerprint ≡ c.candidate_fingerprint
  pub vocabulary : (n : ℕ) → vocabulary_intact (build_revision p draw c plan n) ≡ true
  pub window : window_intact (bound_time p plan.valid_from) (bound_time p plan.valid_until) ≡ true
  pub started : starts_later (bound_time p plan.valid_from) effective ≡ false
  pub lasting : ended (bound_time p plan.valid_until) effective ≡ false

live_head-passes :
    (head : CanonicalMemoryHead) (expected : Option ℕ) (scope : MemoryScope)
    → head.status ≡ active
    → same_scope head.scope scope ≡ true
    → expected_matches expected head ≡ true
    → suppress_head (some head) expected scope ≡ none
unfolding suppress_head suppress_live_head
live_head-passes head expected scope live within matching = ground (arith, live, within, matching)

same_head_refl : (p : Platform) (h : Option CanonicalMemoryHead) → same_head p h h ≡ true
unfolding same_head
same_head_refl p none = refl
same_head_refl p (some head) = eq_refl _

-- A head that stays, with a revision that passes.
unchanged-allow :
    (p : Platform) (scope : MemoryScope) (effective : ℕ) (s : InMemoryState) (id : String)
    (expected : Option ℕ) (head : CanonicalMemoryHead) (r : MemoryRevision)
    → get_head id s ≡ some head
    → suppress_head (some head) expected scope ≡ none
    → get_revision head.memory_id head.current_revision s ≡ some r
    → verify_revision p head (some r) scope effective ≡ allow r
    → verify_one p scope effective s s s (id, expected) ≡ allow r
unfolding verify_one verify_head confirm
unchanged-allow p scope effective s id expected head r found passes stored shown =
    rw (found, passes, verify_head, stored, shown, confirm, same_head_refl p (get_head id s)) refl

module _ (p : Platform) (draw : CommitDraw) (c : MemoryCandidate) (plan : CommitPlan) where
  built_revision-identity :
      (n : ℕ)
      → identity_intact (build_head draw c plan) (build_revision p draw c plan n) c.scope ≡ true
  unfolding identity_intact build_revision build_head same_scope same_status
  built_revision-identity n = ground (
    arith,
    eq_refl plan.memory_id,
    eqb_refl plan.new_revision,
    eq_refl (scope_key c.scope),
    eq_refl plan.memory_class,
    eq_refl plan.memory_kind,
    eq_refl plan.memory_type,
    eq_refl plan.semantic_key,
  )

  built_revision-provenance :
      (n : ℕ)
      → plan.semantic_fingerprint ≡ c.candidate_fingerprint
      → provenance_intact p (build_revision p draw c plan n) ≡ true
  unfolding provenance_intact build_revision provenance_for
  built_revision-provenance n same = rw (eq_refl, same, eq_refl, eq_refl, eq_refl) refl

  built_revision-intact :
      (n effective : ℕ)
      → Presentable p draw c plan effective
      → revision_intact p (build_head draw c plan) (build_revision p draw c plan n) c.scope ≡ true
  unfolding revision_intact build_revision
  built_revision-intact n effective h = ground (
    arith,
    built_revision-identity n,
    h.vocabulary n,
    built_revision-provenance n h.fingerprint,
    h.window,
  )

  built_revision-shown :
      (n effective : ℕ)
      → Presentable p draw c plan effective
      → verify_revision p
          (build_head draw c plan)
          (some (build_revision p draw c plan n))
          c.scope
          effective
        ≡ allow (build_revision p draw c plan n)
  unfolding verify_revision build_revision
  built_revision-shown n effective h =
      rw (built_revision-intact n effective h, h.started, h.lasting) refl

  built_head-passes :
      (expected : Option ℕ)
      → plan.status ≡ active
      → expected_matches expected (build_head draw c plan) ≡ true
      → suppress_head (some (build_head draw c plan)) expected c.scope ≡ none
  unfolding build_head same_scope
  built_head-passes expected live matching =
      live_head-passes (build_head draw c plan) expected c.scope live (eq_refl (scope_key c.scope))
        matching

stored_revision :
    (p : Platform) (draw : CommitDraw) (key : String) (c : MemoryCandidate) (plan : CommitPlan)
    (s s' : InMemoryState)
    → Wrote key c (result_of p draw key c plan s) (next_commit_seq c.scope s).1 s'
    → M.get (revision_key plan.memory_id plan.new_revision) s'.revisions
      ≡ some (build_revision p draw c plan (high_watermark c.scope s + 1))
unfolding build_result build_revision next_commit_seq
stored_revision p draw key c plan s s' wrote = rw wrote.revisions (M.get-set_self _ _ s.revisions)

-- Every revision that the authority writes for a presentable plan is what the verifier allows in
-- the state after, to whoever asks for the current revision or for its number.
pub persist-verified :
    (p : Platform) (draw : CommitDraw) (key : String) (c : MemoryCandidate) (plan : CommitPlan)
    (effective : ℕ) (expected : Option ℕ) (s s' : InMemoryState) (result : CanonicalCommitResult)
    → Presentable p draw c plan effective
    → expected_matches expected (build_head draw c plan) ≡ true
    → persist p draw key c plan s ≡ ok (committed result, s')
    → verify_one p c.scope effective s' s' s' (plan.memory_id, expected) ≡ allow result.revision
unfolding get_head get_revision build_result build_head next_commit_seq
persist-verified p draw key c plan effective expected s s' result h matching done =
    let n = high_watermark c.scope s + 1 in
    let (e, wrote) = persist-eq-ok p draw key c plan s s' _ done in
    let head : M.get plan.memory_id s'.heads ≡ some (build_head draw c plan) =
      rw wrote.heads (M.get-set_self plan.memory_id (build_head draw c plan) s.heads) in
    let stored : M.get (revision_key plan.memory_id plan.new_revision) s'.revisions
        ≡ some (build_revision p draw c plan n) =
      stored_revision p draw key c plan s s' wrote in
    let same : result ≡ result_of p draw key c plan s = cc e in
    let shown =
      unchanged-allow p c.scope effective s' plan.memory_id expected (build_head draw c plan)
        (build_revision p draw c plan n) head
        (built_head-passes p draw c plan expected h.live matching) stored
        (built_revision-shown p draw c plan n effective h) in
    shown ∙ ap (λ (x : CanonicalCommitResult). allow x.revision) (sym same)

-- A revision that does not pass is suppressed in the state after, for its reason.
pub persist-suppressed :
    (p : Platform) (draw : CommitDraw) (key : String) (c : MemoryCandidate) (plan : CommitPlan)
    (effective : ℕ) (expected : Option ℕ) (reason : SuppressionReason) (s s' : InMemoryState)
    (result : CanonicalCommitResult)
    → plan.status ≡ active
    → expected_matches expected (build_head draw c plan) ≡ true
    → persist p draw key c plan s ≡ ok (committed result, s')
    → verify_revision p
        (build_head draw c plan)
        (some (build_revision p draw c plan (high_watermark c.scope s + 1)))
        c.scope
        effective
      ≡ suppress reason
    → verify_one p c.scope effective s' s' s' (plan.memory_id, expected) ≡ suppress reason
unfolding get_head get_revision build_result build_head next_commit_seq verify_one verify_head
    confirm
persist-suppressed p draw key c plan effective expected reason s s' result live matching done
      damaged =
    let (e, wrote) = persist-eq-ok p draw key c plan s s' _ done in
    let head : M.get plan.memory_id s'.heads ≡ some (build_head draw c plan) =
      rw wrote.heads (M.get-set_self plan.memory_id (build_head draw c plan) s.heads) in
    let stored = stored_revision p draw key c plan s s' wrote in
    let passes = built_head-passes p draw c plan expected live matching in
    rw (head, passes, verify_head, stored, damaged, confirm) refl

-- A restored memory cannot be shown when the candidate that restores it has another fingerprint
-- than the revision it restores: the new revision names the candidate's in its provenance and the
-- old one as its own, and the verifier takes that for a damaged revision, in every scope and at
-- every time.
pub restore_suppressed :
    (p : Platform) (draw : CommitDraw) (key base_id : String) (c : MemoryCandidate)
    (head head' : CanonicalMemoryHead) (current : MemoryRevision) (plan : CommitPlan)
    (n effective : ℕ) (scope : MemoryScope) (s s' : InMemoryState) (result : CanonicalCommitResult)
    → apply_operation restore base_id c head current n ≡ ok plan
    → (c.candidate_fingerprint == current.semantic_fingerprint) ≡ false
    → persist p draw key c plan s ≡ ok (committed result, s')
    → verify_revision p head' (some result.revision) scope effective ≡ suppress revision_integrity
unfolding apply_operation carry_plan build_result build_revision provenance_for verify_revision
    revision_intact provenance_intact
restore_suppressed p draw key base_id c head head' current plan n effective scope s s' result made
      other done =
    let same : result ≡ result_of p draw key c plan s =
      cc ((persist-eq-ok p draw key c plan s s' _ done).0) in
    let plan_is : plan ≡ carry_plan base_id active c head current n = ground (arith, made) in
    rw (same, plan_is) (ground (arith, other))

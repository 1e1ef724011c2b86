-- ===== src/Candidates/Committed.antt =====
-- From the input of a candidate to what the verifier shows: ingest, commit and verification of a
-- memory that its user creates.
use mathlib.Core.Path.{subst}
use digital_life_memory_fabr.Base.{
  or_else, ℕ, Bool, true, false, String, Option, none, some, ◌≡◌, refl, ap, ◌∙◌, sym, arith, inl,
  inr, Option-cases,
}
use digital_life_memory_fabr.Base.Text.{is_blank}
use digital_life_memory_fabr.Domain.Platform.{Platform}
use digital_life_memory_fabr.Domain.Memory.{
  CandidateInput, MemoryCandidate, CanonicalMemoryHead, create, same_operation,
}
use digital_life_memory_fabr.Domain.Scope.{MemoryScope}
use digital_life_memory_fabr.Domain.Records.{CanonicalCommitResult}
use digital_life_memory_fabr.Domain.Errors.{ok}
use digital_life_memory_fabr.Store.{InMemoryState, put_candidate, transaction}
use digital_life_memory_fabr.Store.Invariant.{WellFormed}
use digital_life_memory_fabr.Authority.Admission.{is_provider}
use digital_life_memory_fabr.Authority.Plan.{CommitDraw, create_plan}
use digital_life_memory_fabr.Authority.Commit.{commit, build_revision, build_head, build_result}
use digital_life_memory_fabr.Authority.Commit.Creates.{Free, commit-create}
use digital_life_memory_fabr.Verification.{
  verify_one, verify_revision, revision_intact, allow, suppress, revision_integrity,
  vocabulary_intact, starts_later, ended, bound_time, expected_matches,
}
use digital_life_memory_fabr.Verification.Committed.{
  Presentable, persist-verified, persist-suppressed,
}
use digital_life_memory_fabr.History.Always.{put_candidate-WellFormed}
use digital_life_memory_fabr.Candidates.Created.{Worded, created, created-Presentable}
use digital_life_memory_fabr.Candidates.{ingest, IngestDraw, build_candidate, base_head}
use digital_life_memory_fabr.Candidates.Validation.{
  validate_input, validate_admission, validate_times, merge_bound, validate_texts, validate_base,
}
use digital_life_memory_fabr.Candidates.Ingested.{
  ingest-eq-ok, validate_input-Valid, ingest-Proposal,
}

-- The base of an input for a new memory: none.
create_base :
    (input : CandidateInput) (base : Option ℕ) (seen : InMemoryState)
    → input.proposed_operation ≡ create
    → validate_base input ≡ ok base
    → (base ≡ none) × (base_head input seen ≡ none)
unfolding validate_base base_head same_operation
create_base input base seen creating h = (ground (arith, creating), ground (arith, creating))

-- A user's input that ingest accepted for a new memory, in the words of its types, becomes a memory
-- that the verifier allows: its commit right after succeeds, unless an id is taken, the key of the
-- request was used or a head of the scope has its semantic key, and in the state after it the verifier
-- allows the revision at every time of its window of validity.
pub ingested_memory_shown :
    (p : Platform) (verifier : Option (MemoryCandidate → Bool)) (draw : IngestDraw)
    (commit_draw : CommitDraw) (key : String) (input : CandidateInput) (seen s s' : InMemoryState)
    (c : MemoryCandidate) (effective : ℕ)
    → WellFormed p s
    → ingest p draw input seen s ≡ (ok c, s')
    → Worded input
    → input.proposed_operation ≡ create
    → is_provider c.producer.kind ≡ false
    → is_blank key ≡ false
    → Free commit_draw key c s'
    → starts_later (bound_time p input.valid_from) effective ≡ false
    → ended (bound_time p input.valid_until) effective ≡ false
    → (result : CanonicalCommitResult) × (s'' : InMemoryState) × (commit p verifier commit_draw
          (record { candidate_id = c.candidate_id; idempotency_key = key })
          s'
          s'
        ≡ (ok result, s''))
      × (result.revision.canonical_content ≡ input.proposed_content)
      × (verify_one p c.scope effective s'' s'' s'' (commit_draw.memory_id, some 1)
          ≡ allow result.revision)
unfolding build_candidate create_plan build_result build_revision build_head expected_matches
    base_head same_operation
ingested_memory_shown p verifier draw commit_draw key input seen s s' c effective w h worded
      creating own keyed free started lasting =
    let done = ingest-eq-ok p draw input seen s c s' h in
    let proposal = ingest-Proposal p draw input seen s c s' h in
    let valid = validate_input-Valid p input done.base done.valid in
    let (no_base, no_head) = create_base input done.base seen creating valid.base_checked in
    let same : c ≡ created p draw input done.base valid worded =
      done.built ∙ (λ i. build_candidate p draw input (no_base i) (no_head i)) in
    let shown : Presentable p commit_draw c (create_plan commit_draw c) effective =
      subst (λ x. Presentable p commit_draw x (create_plan commit_draw x) effective) (sym same)
        (created-Presentable p draw input done.base valid worded commit_draw effective started
          lasting) in
    let well : WellFormed p s' = rw done.stored (put_candidate-WellFormed p c s w) in
    let (s'', done', persisted) =
      commit-create p verifier commit_draw
        (record { candidate_id = c.candidate_id; idempotency_key = key }) c s' well proposal.kept
        proposal.is_pending own (rw same creating) keyed free in
    (
      _,
      s'',
      done',
      proposal.same_content,
      persist-verified p commit_draw key c (create_plan commit_draw c) effective (some 1) s' s'' _
          shown refl persisted,
    )

-- No part of the validation reads the fingerprint.
validate_input-fingerprint :
    (p : Platform) (input : CandidateInput) (t : Option String)
    → validate_input p (record input { candidate_fingerprint = t }) ≡ validate_input p input
unfolding validate_input validate_texts validate_times validate_base validate_admission merge_bound
validate_input-fingerprint p input t = elim (Option-cases input.canonical_admission) [
  | inl e ↦ rw e refl
  | inr (proof, e) ↦ rw e refl
]

blank_fingerprint_ingested :
    (p : Platform) (draw : IngestDraw) (input : CandidateInput) (t : String)
    (seen s : InMemoryState)
    → validate_input p input ≡ ok none
    → input.proposed_operation ≡ create
    → ingest p draw (record input { candidate_fingerprint = some t }) seen s ≡ (
      ok (build_candidate p draw (record input { candidate_fingerprint = some t }) none none),
      put_candidate
          (build_candidate p draw (record input { candidate_fingerprint = some t }) none none)
          s,
    )
unfolding ingest transaction base_head same_operation
blank_fingerprint_ingested p draw input t seen s valid creating =
    rw (validate_input-fingerprint p input (some t) ∙ valid, ingest, creating) refl

blank_revision :
    (p : Platform) (draw : IngestDraw) (commit_draw : CommitDraw) (input : CandidateInput)
    (t : String) (head : CanonicalMemoryHead) (n effective : ℕ) (scope : MemoryScope)
    (c : MemoryCandidate)
    → c.candidate_fingerprint ≡ t
    → is_blank t ≡ true
    → verify_revision p head
        (some (build_revision p commit_draw c (create_plan commit_draw c) n))
        scope
        effective
      ≡ suppress revision_integrity
unfolding build_revision create_plan verify_revision revision_intact vocabulary_intact
blank_revision p draw commit_draw input t head n effective scope c own blank =
    let damaged : is_blank c.candidate_fingerprint ≡ true = ap is_blank own ∙ blank in
    ground (arith, damaged)

-- A valid input for a new memory, from a producer that is no provider, is ingested also with a
-- fingerprint of its own that is blank, and its commit right after succeeds, unless an id is taken,
-- the key of the request was used or a head of the scope has its semantic key. But in the
-- state after it the verifier, asked for its first revision, takes it for damaged, at every time.
pub blank_fingerprint_suppressed :
    (p : Platform) (verifier : Option (MemoryCandidate → Bool)) (draw : IngestDraw)
    (commit_draw : CommitDraw) (key t : String) (input : CandidateInput) (seen s : InMemoryState)
    (c : MemoryCandidate) (effective : ℕ)
    → c ≡ build_candidate p draw (record input { candidate_fingerprint = some t }) none none
    → WellFormed p s
    → validate_input p input ≡ ok none
    → input.proposed_operation ≡ create
    → is_blank t ≡ true
    → is_provider c.producer.kind ≡ false
    → is_blank key ≡ false
    → Free commit_draw key c (put_candidate c s)
    → (ingest p draw (record input { candidate_fingerprint = some t }) seen s
        ≡ (ok c, put_candidate c s))
      × (result : CanonicalCommitResult) × (s'' : InMemoryState) × (commit p verifier commit_draw
            (record { candidate_id = c.candidate_id; idempotency_key = key })
            (put_candidate c s)
            (put_candidate c s)
          ≡ (ok result, s''))
      × (verify_one p c.scope effective s'' s'' s'' (commit_draw.memory_id, some 1)
          ≡ suppress revision_integrity)
unfolding build_candidate or_else create_plan build_head expected_matches
blank_fingerprint_suppressed p verifier draw commit_draw key t input seen s c effective built w
      valid creating blank own keyed free =
    let h : ingest p draw (record input { candidate_fingerprint = some t }) seen s
        ≡ (ok c, put_candidate c s) =
      blank_fingerprint_ingested p draw input t seen s valid creating
      ∙ (λ i. (ok (sym built i), put_candidate (sym built i) s)) in
    let proposal = ingest-Proposal p draw _ seen s c (put_candidate c s) h in
    let well = put_candidate-WellFormed p c s w in
    let operation : c.proposed_operation ≡ create =
      ap (λ (x : MemoryCandidate). x.proposed_operation) built ∙ creating in
    let (s'', done', persisted) =
      commit-create p verifier commit_draw
        (record { candidate_id = c.candidate_id; idempotency_key = key }) c (put_candidate c s) well
        proposal.kept proposal.is_pending own operation keyed free in
    let fingerprint : c.candidate_fingerprint ≡ t =
      ap (λ (x : MemoryCandidate). x.candidate_fingerprint) built in
    (
      h,
      _,
      s'',
      done',
      persist-suppressed p commit_draw key c (create_plan commit_draw c) effective (some 1)
          revision_integrity (put_candidate c s) s'' _ refl refl persisted
          (blank_revision p draw commit_draw input t _ _ effective c.scope c fingerprint blank),
    )

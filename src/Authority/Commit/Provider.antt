-- ===== src/Authority/Commit/Provider.antt =====
-- The guards of a commit: the admission of what a provider produced, and stale base revisions.
use digital_life_memory_fabr.Base.{
  String, ◌≡◌, refl, ap, ◌∙◌, Option, none, some, Bool, true, false, arith, ◌⊎◌, inl, inr,
  Option-cases, Bool-cases, eq_iff,
}
use digital_life_memory_fabr.Domain.Platform.{Platform, sha256}
use digital_life_memory_fabr.Domain.Encode.{admission_json}
use digital_life_memory_fabr.Domain.Memory.{MemoryCandidate, CanonicalAdmissionProof}
use digital_life_memory_fabr.Domain.Records.{CanonicalCommitResult}
use digital_life_memory_fabr.Domain.Errors.{ok, Result-cases}
use digital_life_memory_fabr.Store.{InMemoryState, get_candidate, get_commit_result, transaction}
use digital_life_memory_fabr.Authority.Admission.{
  is_provider, requires_review, base_proof_valid, create_proof_valid, merge_proof_valid,
  proof_fingerprint, provider_admission_state_fingerprint, verified_by, require_provider_admission,
  require_verified_provider_admission_state, same_optional,
}
use digital_life_memory_fabr.Authority.Plan.{CommitDraw}
use digital_life_memory_fabr.Authority.Commit.{
  CanonicalCommitRequest, commit, commit_admitted, commit_in_transaction, commit_fresh, admit,
  outcome_result,
}
use digital_life_memory_fabr.Authority.Commit.Cases.{commit_fresh-eq-ok}

-- A candidate of a provider that has a fingerprint has a valid proof and needs no review.
pub record Proven (p : Platform) (c : MemoryCandidate) (fingerprint : String) : Type 0 where
  pub proof : CanonicalAdmissionProof
  pub attached : c.canonical_admission ≡ some proof
  pub base_valid : base_proof_valid proof ≡ true
  pub fits : (create_proof_valid proof c ≡ true) ⊎ (merge_proof_valid proof c ≡ true)
  pub certain : requires_review c.epistemic_status ≡ false
  pub own : fingerprint ≡ sha256 p (admission_json c proof)

proof_fingerprint-Proven :
    (p : Platform) (c : MemoryCandidate) (proof : CanonicalAdmissionProof) (f : Option String)
    → c.canonical_admission ≡ some proof
    → proof_fingerprint p c proof ≡ ok f
    → (fingerprint : String) × (f ≡ some fingerprint) × Proven p c fingerprint
unfolding proof_fingerprint
proof_fingerprint-Proven p c proof f attached h = (
  sha256 p (admission_json c proof),
  ground (arith, h),
  record {
    proof = proof;
    attached = attached;
    base_valid = ground (arith, h);
    fits = elim (Bool-cases (create_proof_valid proof c)) [
      | inl e ↦ inl e
      | inr e ↦ inr (ground (arith, h, e))
    ];
    certain = ground (arith, h);
    own = refl;
  },
)

fingerprint-Proven :
    (p : Platform) (c : MemoryCandidate) (f : Option String)
    → is_provider c.producer.kind ≡ true
    → provider_admission_state_fingerprint p c ≡ ok f
    → (fingerprint : String) × (f ≡ some fingerprint) × Proven p c fingerprint
unfolding provider_admission_state_fingerprint
fingerprint-Proven p c f provider h = elim (Option-cases c.canonical_admission) [
  | inl e ↦ absurd (ground (arith, h, provider, e))
  | inr (proof, e) ↦ proof_fingerprint-Proven p c proof f e (ground (arith, h, provider, e))
]

same_optional-some : (f : Option String) (g : String) → same_optional (some g) f ≡ true → f ≡ some g
unfolding same_optional
same_optional-some none g h = cc h
same_optional-some (some x) g h = ground (arith, h, eq_iff g x)

required-eq :
    (p : Platform) (c : MemoryCandidate) (verified : Option String)
    → is_provider c.producer.kind ≡ true
    → require_verified_provider_admission_state p c verified ≡ ok tt
    → (fingerprint : String) × (verified ≡ some fingerprint) × Proven p c fingerprint
unfolding require_verified_provider_admission_state
required-eq p c verified provider h =
    elim (Result-cases (provider_admission_state_fingerprint p c)) [
      | inl (e, failed) ↦ absurd (ground (arith, h, failed))
      | inr (f, e) ↦
          let (fingerprint, is, proven) = fingerprint-Proven p c f provider e in
          (fingerprint, same_optional-some verified fingerprint (ground (arith, h, e, is)), proven)
    ]

verified_by-some :
    (verifier : Option (MemoryCandidate → Bool)) (c : MemoryCandidate) (f : Option String)
    (fingerprint : String)
    → verified_by verifier c f ≡ ok (some fingerprint)
    → (verify : MemoryCandidate → Bool) × (verifier ≡ some verify)
      × (verify c ≡ true)
      × (f ≡ some fingerprint)
unfolding verified_by
verified_by-some verifier c none fingerprint h = absurd (cc h)
verified_by-some none c (some g) fingerprint h = absurd (cc h)
verified_by-some (some verify) c (some g) fingerprint h =
    (verify, refl, ground (arith, h), ground (arith, h))

-- What the admission of a request found in the state that it read.
pub record Approved (p : Platform) (verifier : Option (MemoryCandidate → Bool))
    (request : CanonicalCommitRequest) (seen : InMemoryState) (fingerprint : String) : Type 0 where
  pub candidate : MemoryCandidate
  pub stored : get_candidate request.candidate_id seen ≡ some candidate
  pub verify : MemoryCandidate → Bool
  pub configured : verifier ≡ some verify
  pub approved : verify candidate ≡ true
  pub same_state : provider_admission_state_fingerprint p candidate ≡ ok (some fingerprint)

admit-Approved :
    (p : Platform) (verifier : Option (MemoryCandidate → Bool)) (request : CanonicalCommitRequest)
    (seen : InMemoryState) (fingerprint : String)
    → admit p verifier request seen ≡ ok (some fingerprint)
    → Approved p verifier request seen fingerprint
unfolding admit require_provider_admission
admit-Approved p verifier request seen fingerprint h =
    elim (Option-cases (get_candidate request.candidate_id seen)) [
      | inl e ↦ absurd (ground (arith, h, e))
      | inr (c, e) ↦ elim (Result-cases (provider_admission_state_fingerprint p c)) [
        | inl (e', failed) ↦ absurd (ground (arith, h, e, failed))
        | inr (f, made) ↦
            let (verify, configured, approved, is) =
              verified_by-some verifier c f fingerprint (ground (arith, h, e, made)) in
            record {
              candidate = c;
              stored = e;
              verify = verify;
              configured = configured;
              approved = approved;
              same_state = made ∙ ap ok is;
            }
      ]
    ]

-- A commit that wrote a candidate of a provider, rather than returning an earlier result, had an
-- admission verifier that approved the candidate; the candidate has a valid proof that fits its
-- operation, needs no review, and the state of its admission that was approved, by its
-- fingerprint, is the one that was committed.
pub commit_provider-Approved :
    (p : Platform) (verifier : Option (MemoryCandidate → Bool)) (draw : CommitDraw)
    (request : CanonicalCommitRequest) (seen s s' : InMemoryState) (c : MemoryCandidate)
    (result : CanonicalCommitResult)
    → get_candidate request.candidate_id s ≡ some c
    → get_commit_result c.scope request.idempotency_key s ≡ none
    → is_provider c.producer.kind ≡ true
    → commit p verifier draw request seen s ≡ (ok result, s')
    → (fingerprint : String) × Proven p c fingerprint × Approved p verifier request seen fingerprint
unfolding commit commit_admitted outcome_result transaction commit_in_transaction
commit_provider-Approved p verifier draw request seen s s' c result here new provider h =
    elim (Result-cases (admit p verifier request seen)) [
      | inl (e, refused) ↦ absurd (ground (arith, h, refused))
      | inr (verified, admitted) ↦
          elim (Result-cases (commit_fresh p draw request.idempotency_key c verified s)) [
            | inl (e, failed) ↦ absurd (ground (arith, h, admitted, here, new, failed))
            | inr ((o, after), done) ↦
                let (_, _, required, _, _, _) =
                  commit_fresh-eq-ok p draw _ c verified s after o done in
                let (fingerprint, is, proven) = required-eq p c verified provider required in
                (
                  fingerprint,
                  proven,
                  admit-Approved p verifier request seen fingerprint (admitted ∙ ap ok is),
                )
          ]
    ]

-- ===== src/Authority/Admission.antt =====
-- The admission of candidates that a provider produced (`providerAdmissionStateFingerprint` to
-- `requireVerifiedProviderAdmissionState`). The admission verifier is an argument.
use digital_life_memory_fabr.Base.{
  Bool, true, false, not, String, ◌&&◌, ◌||◌, ◌==◌, Option, none, some, if◌then◌else◌,
}
use digital_life_memory_fabr.Base.Text.{is_blank}
use text.Mathlib.Text.{starts_with}
use digital_life_memory_fabr.Domain.Platform.{Platform, sha256}
use digital_life_memory_fabr.Domain.Encode.{admission_json}
use digital_life_memory_fabr.Domain.Memory.{
  MemoryCandidate, CanonicalAdmissionProof, ProducerKind, SemanticRelation, AdmissionOutcome,
  CandidateStatus, create, merge, equivalent, existing_subsumes_candidate,
  candidate_subsumes_existing, canonical_candidate, canonical_merge, same_operation,
}
use digital_life_memory_fabr.Domain.Errors.{
  Result, ok, err, ◌>>=◌, ◌>>◌, throw_if, or_throw, validation_error, candidate_not_pending,
  admission_required, admission_invalid, review_required, verifier_missing, not_admitted,
  admission_changed,
}

unfoldable pub is_admissible_relation : SemanticRelation → Bool
is_admissible_relation equivalent = true
is_admissible_relation existing_subsumes_candidate = true
is_admissible_relation candidate_subsumes_existing = true
is_admissible_relation _ = false

unfoldable pub is_provider : ProducerKind → Bool
is_provider ProducerKind.provider = true
is_provider _ = false

unfoldable pub is_pending : CandidateStatus → Bool
is_pending CandidateStatus.pending = true
is_pending _ = false

unfoldable pub require_pending : MemoryCandidate → Result (Unit {0})
require_pending c = throw_if (not (is_pending c.status)) (candidate_not_pending c.candidate_id)

-- `left === right` for optional texts.
unfoldable pub same_optional : Option String → Option String → Bool
same_optional none none = true
same_optional (some a) (some b) = a == b
same_optional _ _ = false

unfoldable pub present_text : Option String → Bool
present_text none = false
present_text (some t) = not (is_blank t)

unfoldable pub relation_allowed : Option SemanticRelation → Bool
relation_allowed none = false
relation_allowed (some r) = is_admissible_relation r

unfoldable pub is_merge_outcome : AdmissionOutcome → Bool
is_merge_outcome canonical_merge = true
is_merge_outcome canonical_candidate = false

unfoldable pub base_proof_valid : CanonicalAdmissionProof → Bool
base_proof_valid proof =
    not (is_blank proof.admission_policy_version)
    && not (is_blank proof.curation_provider)
    && starts_with proof.curation_record_id "cur_"

unfoldable pub create_proof_valid : CanonicalAdmissionProof → MemoryCandidate → Bool
unfolding is_merge_outcome
create_proof_valid proof c =
    not (is_merge_outcome proof.outcome) && same_operation c.proposed_operation create

unfoldable pub merge_proof_valid : CanonicalAdmissionProof → MemoryCandidate → Bool
unfolding is_merge_outcome present_text relation_allowed
merge_proof_valid proof c =
    is_merge_outcome proof.outcome
    && same_operation c.proposed_operation merge
    && same_optional proof.target_memory_id c.base_memory_id
    && present_text proof.semantic_policy_version
    && relation_allowed proof.semantic_relation

unfoldable pub requires_review : String → Bool
requires_review epistemic_status =
    epistemic_status == "inferred"
    || epistemic_status == "synthesized"
    || epistemic_status == "uncertain"

-- The fingerprint of a candidate that has a proof, or what its validation throws.
unfoldable pub proof_fingerprint :
    Platform → MemoryCandidate → CanonicalAdmissionProof → Result (Option String)
proof_fingerprint p c proof = do
  throw_if
      (not (base_proof_valid proof)
        || not (create_proof_valid proof c) && not (merge_proof_valid proof c))
      (validation_error admission_invalid)
  throw_if (requires_review c.epistemic_status) (validation_error review_required)
  ok (some (sha256 p (admission_json c proof)))

-- `none` for a candidate that no provider produced.
unfoldable pub provider_admission_state_fingerprint :
    Platform → MemoryCandidate → Result (Option String)
provider_admission_state_fingerprint p c =
    if is_provider c.producer.kind
    then (or_throw c.canonical_admission (validation_error admission_required)
        >>= proof_fingerprint p c)
    else ok none

-- What the admission verifier says of a candidate whose proof has a fingerprint.
unfoldable pub verified_by :
    Option (MemoryCandidate → Bool) → MemoryCandidate → Option String → Result (Option String)
verified_by verifier c none = ok none
verified_by none c (some fingerprint) = err (validation_error verifier_missing)
verified_by (some verify) c (some fingerprint) =
    if verify c then ok (some fingerprint) else err (validation_error not_admitted)

unfoldable pub require_provider_admission :
    Platform → Option (MemoryCandidate → Bool) → MemoryCandidate → Result (Option String)
require_provider_admission p verifier c =
    provider_admission_state_fingerprint p c >>= verified_by verifier c

unfoldable pub require_verified_provider_admission_state :
    Platform → MemoryCandidate → Option String → Result (Unit {0})
require_verified_provider_admission_state p c verified = do
  current ← provider_admission_state_fingerprint p c
  throw_if (not (same_optional current verified)) (validation_error admission_changed)

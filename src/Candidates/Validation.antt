-- ===== src/Candidates/Validation.antt =====
-- `validateInput` of src/candidates/memory-candidate-service.ts, with its checks in their order.
use digital_life_memory_fabr.Base.{
  ℕ, Bool, true, false, not, String, List, [], ◌∷◌, Option, none, some, ◌==◌, ◌&&◌, ◌||◌, ltb,
  if◌then◌else◌, is_given,
}
use text.Mathlib.Text.{starts_with}
use digital_life_memory_fabr.Base.Text.{is_blank}
use digital_life_memory_fabr.Domain.Platform.{
  Platform, positive_integer, Double, below_zero, above_one,
}
use digital_life_memory_fabr.Domain.Memory.{
  CandidateInput, MemoryProducer, SourceExperienceRef, CanonicalAdmissionProof, EvidenceRef, create,
  merge, same_operation,
}
use digital_life_memory_fabr.Domain.Errors.{
  Result, ok, ◌>>=◌, ◌>>◌, throw_if, or_throw, validation_error, empty_field, bad_timestamp,
  origin_mismatch, evidence_required, bad_confidence, bad_record_id, merge_unbound, merge_unproved,
  validity_reversed, create_with_base, base_required, bad_base_revision,
}
use digital_life_memory_fabr.Authority.Admission.{
  same_optional, present_text, is_merge_outcome, relation_allowed,
}

unfoldable pub require_non_empty : String → Result (Unit {0})
require_non_empty value = throw_if (is_blank value) (validation_error empty_field)

-- `value !== undefined`
unfoldable pub require_if_given : Option String → Result (Unit {0})
unfolding require_non_empty
require_if_given none = ok tt
require_if_given (some value) = require_non_empty value

-- The time of an optional timestamp.
unfoldable pub validate_timestamp : Platform → Option String → Result (Option ℕ)
validate_timestamp p none = ok none
validate_timestamp p (some value) = do
  time ← or_throw (p.date_parse value) (validation_error bad_timestamp)
  ok (some time)

unfoldable pub validate_texts : CandidateInput → Result (Unit {0})
validate_texts input = do
  require_non_empty input.scope.tenant_id
  require_non_empty input.scope.life_did
  require_non_empty input.scope.memory_namespace
  require_non_empty input.origin.life_did
  require_non_empty input.memory_kind
  require_non_empty input.candidate_type
  require_non_empty input.source_type
  require_non_empty input.proposed_content.text
  require_if_given input.semantic_key

unfoldable pub no_evidence : List EvidenceRef → Bool
no_evidence [] = true
no_evidence (r ∷ rs) = false

-- `confidence !== undefined && (confidence < 0 || confidence > 1)`
unfoldable pub outside_unit : Option Double → Bool
outside_unit none = false
outside_unit (some confidence) = below_zero confidence || above_one confidence

unfoldable pub validate_producer : Option MemoryProducer → Result (Unit {0})
validate_producer none = ok tt
validate_producer (some producer) = require_non_empty producer.id

-- What a proof of a merge must say.
unfoldable pub merge_bound : CanonicalAdmissionProof → CandidateInput → Bool
merge_bound proof input =
    same_operation input.proposed_operation merge
    && same_optional proof.target_memory_id input.base_memory_id
    && present_text proof.semantic_policy_version
    && relation_allowed proof.semantic_relation

unfoldable pub validate_admission :
    CandidateInput → Option CanonicalAdmissionProof → Result (Unit {0})
validate_admission input none = ok tt
validate_admission input (some proof) = do
  require_non_empty proof.admission_policy_version
  require_non_empty proof.curation_provider
  throw_if (not (starts_with proof.curation_record_id "cur_")) (validation_error bad_record_id)
  if is_merge_outcome proof.outcome
      then throw_if (not (merge_bound proof input)) (validation_error merge_unbound)
      else throw_if (same_operation input.proposed_operation merge)
          (validation_error merge_unproved)

unfoldable pub validate_source_refs : List SourceExperienceRef → Result (Unit {0})
validate_source_refs [] = ok tt
validate_source_refs (r ∷ rs) =
    let rest = validate_source_refs rs in
    do require_non_empty r.source_type; require_non_empty r.source_id; rest

-- `sourceExperienceRefs ?? []`
unfoldable pub or_no_refs : Option (List SourceExperienceRef) → List SourceExperienceRef
or_no_refs none = []
or_no_refs (some rs) = rs

-- Both are given, and the end is before the start.
unfoldable pub reversed : Option ℕ → Option ℕ → Bool
reversed (some from) (some until) = ltb until from
reversed _ _ = false

unfoldable pub validate_times : Platform → CandidateInput → Result (Unit {0})
validate_times p input = do
  observed ← validate_timestamp p input.observed_at
  from ← validate_timestamp p input.valid_from
  until ← validate_timestamp p input.valid_until
  throw_if (reversed from until) (validation_error validity_reversed)

-- The base of the proposed operation: the revision that the candidate keeps.
unfoldable pub validate_base : CandidateInput → Result (Option ℕ)
unfolding is_given
validate_base input =
    if same_operation input.proposed_operation create
    then (throw_if (is_given input.base_memory_id || is_given input.base_revision)
          (validation_error create_with_base)
        >> ok none)
    else (do
      id ← or_throw input.base_memory_id (validation_error base_required)
      given ← or_throw input.base_revision (validation_error base_required)
      n ← or_throw (positive_integer given) (validation_error bad_base_revision)
      ok (some n))

-- `validateInput`, with the base revision as a natural number.
unfoldable pub validate_input : Platform → CandidateInput → Result (Option ℕ)
validate_input p input = do
  validate_texts input
  throw_if (not (input.origin.life_did == input.scope.life_did)) (validation_error origin_mismatch)
  throw_if (no_evidence input.evidence_refs) (validation_error evidence_required)
  throw_if (outside_unit input.confidence) (validation_error bad_confidence)
  validate_producer input.producer
  validate_admission input input.canonical_admission
  validate_source_refs (or_no_refs input.source_experience_refs)
  validate_times p input
  validate_base input

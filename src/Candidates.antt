-- ===== src/Candidates.antt =====
-- src/candidates/memory-candidate-service.ts: the defaults of a candidate's input and `ingest`;
-- Candidates/Validation has `validateInput`. A head is read before the transaction, from a state of
-- its own.
pub mod Validation
pub mod Ingested
pub mod Created
pub mod Committed
use Prim.Native.String as Str
use digital_life_memory_fabr.Base.{
  ℕ, String, List, [], ◌∷◌, Option, none, some, ◌==◌, ◌&&◌, ◌||◌, if◌then◌else◌, or_else,
}
use digital_life_memory_fabr.Base.Text.{slice_from}
use digital_life_memory_fabr.Domain.Json.{Json, string, object, end, field}
use digital_life_memory_fabr.Domain.Platform.{Platform, sha256}
use digital_life_memory_fabr.Domain.Encode.{scope_json, or_null}
use digital_life_memory_fabr.Domain.Memory.{
  CandidateInput, MemoryCandidate, CandidateStatus, CanonicalMemoryHead, MemoryProducer,
  ProducerKind, SourceExperienceRef, create, same_operation,
}
use digital_life_memory_fabr.Domain.Errors.{Result, ok, err, ◌>>=◌, ◌>>◌}
use digital_life_memory_fabr.Store.{InMemoryState, get_head, put_candidate, transaction}
use digital_life_memory_fabr.Candidates.Validation.{validate_input}

unfoldable pub default_memory_type : String → String
default_memory_type candidate_type =
    if candidate_type == "preference_candidate"
    then "preference"
    else if candidate_type == "relationship_candidate"
    then "relationship"
    else if candidate_type == "project_state_candidate"
    then "project_state"
    else if candidate_type == "commitment_candidate"
    then "commitment"
    else if candidate_type == "habit_candidate"
    then "habit"
    else if candidate_type == "event_candidate"
    then "event"
    else "general_fact"

unfoldable pub speaker_of_kind : ProducerKind → String
speaker_of_kind ProducerKind.user = "user"
speaker_of_kind ProducerKind.system = "system"
speaker_of_kind _ = "unknown"

unfoldable pub default_speaker_provenance : MemoryProducer → String
default_speaker_provenance producer = speaker_of_kind producer.kind

-- The object that `candidateSemanticFingerprint` hashes.
pub fingerprint_json :
    CandidateInput → Option String → Option String → Option String → String → Json
fingerprint_json input memory_type speaker_provenance semantic_key epistemic_status = object (
    field "scope" (scope_json input.scope) (
      field "candidateType" (string input.candidate_type) (
        field "memoryClass" (string input.memory_class) (
          field "memoryKind" (string input.memory_kind) (
            field "memoryType" (or_null memory_type) (
              field "speakerProvenance" (or_null speaker_provenance) (
                field "semanticKey" (or_null semantic_key) (
                  field "proposedText" (string input.proposed_content.text) (
                    field "epistemicStatus" (string epistemic_status) (
                      field "observedAt" (or_null input.observed_at) (
                        field "validFrom" (or_null input.valid_from)
                          (field "validUntil" (or_null input.valid_until) end))))))))))))

-- The three fields that a caller sets beside its input are arguments.
unfoldable pub candidate_semantic_fingerprint :
    Platform → CandidateInput → Option String → Option String → Option String → String → String
candidate_semantic_fingerprint p input memory_type speaker_provenance semantic_key status =
    sha256 p (fingerprint_json input memory_type speaker_provenance semantic_key status)

abbrev pub ingress_producer : MemoryProducer
ingress_producer = record {
  kind = ProducerKind.runtime;
  id = "dlmf-candidate-ingress";
  provider_name = none;
  adapter_version = none;
  provider_version = none;
}

-- `sourceExperienceRefs ?? (sourceId === undefined ? [] : [{ sourceType, sourceId }])`
unfoldable pub default_source_refs : CandidateInput → List SourceExperienceRef
default_source_refs input = elim input.source_experience_refs [
  | some rs ↦ rs
  | none ↦ elim input.source_id [
    | none ↦ []
    | some id ↦
        record {
          source_type = input.source_type;
          source_id = id;
          archive_ref = none;
          checksum = none;
        }
        ∷ []
  ]
]

unfoldable pub base_head : CandidateInput → InMemoryState → Option CanonicalMemoryHead
base_head input seen =
    if same_operation input.proposed_operation create
    then none
    else elim input.base_memory_id [ none ↦ none | some id ↦ get_head id seen ]

-- `input.memoryType ?? baseHead?.memoryType ?? defaultMemoryType(input.candidateType)`
unfoldable pub resolved_memory_type : CandidateInput → Option CanonicalMemoryHead → String
resolved_memory_type input none =
    or_else input.memory_type (default_memory_type input.candidate_type)
resolved_memory_type input (some head) = or_else input.memory_type head.memory_type

-- `input.semanticKey ?? baseHead?.semanticKey ?? exact:…`
unfoldable pub resolved_semantic_key : CandidateInput → Option CanonicalMemoryHead → String → String
resolved_semantic_key input none fingerprint =
    or_else input.semantic_key (Str.◌++◌ "exact:" (slice_from 7 fingerprint))
resolved_semantic_key input (some head) fingerprint = or_else input.semantic_key head.semantic_key

-- What the id factory and the clock return.
pub record IngestDraw : Type 0 where
  pub candidate_id : String
  pub now : String

unfoldable pub build_candidate :
    Platform → IngestDraw → CandidateInput → Option ℕ → Option CanonicalMemoryHead → MemoryCandidate
build_candidate p draw input base_revision head =
    let status = or_else input.epistemic_status "uncertain" in
    let producer = or_else input.producer ingress_producer in
    let memory_type = resolved_memory_type input head in
    let speaker = or_else input.speaker_provenance (default_speaker_provenance producer) in
    let provisional =
      candidate_semantic_fingerprint p input (some memory_type) (some speaker) input.semantic_key
        status in
    let key = resolved_semantic_key input head provisional in
    record {
      candidate_id = draw.candidate_id;
      scope = input.scope;
      origin = input.origin;
      candidate_type = input.candidate_type;
      source_type = input.source_type;
      source_id = input.source_id;
      memory_class = input.memory_class;
      memory_kind = input.memory_kind;
      memory_type = memory_type;
      speaker_provenance = speaker;
      semantic_key = key;
      proposed_content = input.proposed_content;
      evidence_refs = input.evidence_refs;
      epistemic_status = status;
      confidence = input.confidence;
      producer = producer;
      source_experience_refs = default_source_refs input;
      candidate_fingerprint = or_else input.candidate_fingerprint (
          candidate_semantic_fingerprint p input (some memory_type) (some speaker) (some key)
            status);
      distillation_policy_version = input.distillation_policy_version;
      provider_run_id = input.provider_run_id;
      canonical_admission = input.canonical_admission;
      proposed_operation = input.proposed_operation;
      base_memory_id = input.base_memory_id;
      base_revision = base_revision;
      status = CandidateStatus.pending;
      created_at = draw.now;
      observed_at = input.observed_at;
      valid_from = input.valid_from;
      valid_until = input.valid_until;
    }

-- `ingest`. The base head is read in `seen`; the transaction runs on `s`.
unfoldable pub ingest :
    Platform
    → IngestDraw
    → CandidateInput
    → InMemoryState
    → InMemoryState
    → Result MemoryCandidate × InMemoryState
ingest p draw input seen s = elim (validate_input p input) [
  | err e ↦ (err e, s)
  | ok base_revision ↦
      let candidate = build_candidate p draw input base_revision (base_head input seen) in
      transaction (λ tx. ok (candidate, put_candidate candidate tx)) s
]

-- ===== src/Domain/Memory.antt =====
-- Candidates, heads and revisions (src/domain/types.ts).
use digital_life_memory_fabr.Base.{ℕ, Bool, true, false, String, List, Option}
use digital_life_memory_fabr.Domain.Json.{Fields}
use digital_life_memory_fabr.Domain.Platform.{Double, Number}
use digital_life_memory_fabr.Domain.Scope.{MemoryScope}

pub data ProducerKind : Type 0 where
  user system provider runtime imported : ProducerKind

pub record MemoryProducer : Type 0 where
  pub kind : ProducerKind
  pub id : String
  pub provider_name : Option String
  pub adapter_version : Option String
  pub provider_version : Option String

pub record SourceExperienceRef : Type 0 where
  pub source_type : String
  pub source_id : String
  pub archive_ref : Option String
  pub checksum : Option String

pub record EvidenceRef : Type 0 where
  pub source_type : String
  pub source_ref : String

pub record MemoryAuthor : Type 0 where
  pub life_did : String
  pub agent_id : Option String
  pub runtime_id : Option String
  pub device_id : Option String

pub data SemanticRelation : Type 0 where
  equivalent existing_subsumes_candidate candidate_subsumes_existing contradicts unrelated :
      SemanticRelation

pub data CandidateStatus : Type 0 where
  pending accepted rejected conflict expired : CandidateStatus

pub data MemoryStatus : Type 0 where
  active tombstoned superseded : MemoryStatus

pub data MemoryOperation : Type 0 where
  create update supersede tombstone restore merge : MemoryOperation

pub data AdmissionOutcome : Type 0 where
  canonical_candidate canonical_merge : AdmissionOutcome

pub record CanonicalAdmissionProof : Type 0 where
  pub admission_policy_version : String
  pub curation_provider : String
  pub curation_provider_version : Option String
  pub curation_record_id : String
  pub outcome : AdmissionOutcome
  pub semantic_policy_version : Option String
  pub semantic_relation : Option SemanticRelation
  pub target_memory_id : Option String

pub record MemoryProvenance : Type 0 where
  pub source_type : String
  pub source_id : Option String
  pub candidate_id : String
  pub candidate_fingerprint : String
  pub producer : MemoryProducer
  pub source_experience_refs : List SourceExperienceRef
  pub canonical_admission : Option CanonicalAdmissionProof

pub record CanonicalContent : Type 0 where
  pub text : String
  pub payload : Option Fields

pub record MemoryCandidate : Type 0 where
  pub candidate_id : String
  pub scope : MemoryScope
  pub origin : MemoryAuthor
  pub candidate_type : String
  pub source_type : String
  pub source_id : Option String
  pub memory_class : String
  pub memory_kind : String
  pub memory_type : String
  pub speaker_provenance : String
  pub semantic_key : String
  pub proposed_content : CanonicalContent
  pub evidence_refs : List EvidenceRef
  pub epistemic_status : String
  pub confidence : Option Double
  pub producer : MemoryProducer
  pub source_experience_refs : List SourceExperienceRef
  pub candidate_fingerprint : String
  pub distillation_policy_version : Option String
  pub provider_run_id : Option String
  pub canonical_admission : Option CanonicalAdmissionProof
  pub proposed_operation : MemoryOperation
  pub base_memory_id : Option String
  pub base_revision : Option ℕ
  pub status : CandidateStatus
  pub created_at : String
  pub observed_at : Option String
  pub valid_from : Option String
  pub valid_until : Option String

pub record CandidateInput : Type 0 where
  pub scope : MemoryScope
  pub origin : MemoryAuthor
  pub candidate_type : String
  pub source_type : String
  pub source_id : Option String
  pub memory_class : String
  pub memory_kind : String
  pub memory_type : Option String
  pub speaker_provenance : Option String
  pub semantic_key : Option String
  pub proposed_content : CanonicalContent
  pub evidence_refs : List EvidenceRef
  pub epistemic_status : Option String
  pub confidence : Option Double
  pub producer : Option MemoryProducer
  pub source_experience_refs : Option (List SourceExperienceRef)
  pub candidate_fingerprint : Option String
  pub distillation_policy_version : Option String
  pub provider_run_id : Option String
  pub canonical_admission : Option CanonicalAdmissionProof
  pub proposed_operation : MemoryOperation
  pub base_memory_id : Option String
  pub base_revision : Option Number
  pub observed_at : Option String
  pub valid_from : Option String
  pub valid_until : Option String

pub record CanonicalMemoryHead : Type 0 where
  pub memory_id : String
  pub scope : MemoryScope
  pub memory_class : String
  pub memory_kind : String
  pub memory_type : String
  pub semantic_key : String
  pub current_revision : ℕ
  pub status : MemoryStatus
  pub created_at : String
  pub updated_at : String

pub record MemoryRevision : Type 0 where
  pub memory_id : String
  pub revision : ℕ
  pub scope : MemoryScope
  pub memory_class : String
  pub memory_kind : String
  pub memory_type : String
  pub speaker_provenance : String
  pub semantic_key : String
  pub status : MemoryStatus
  pub canonical_content : CanonicalContent
  pub content_hash : String
  pub author : MemoryAuthor
  pub provenance : MemoryProvenance
  pub evidence_refs : List EvidenceRef
  pub epistemic_status : String
  pub producer : MemoryProducer
  pub source_experience_refs : List SourceExperienceRef
  pub semantic_fingerprint : String
  pub committed_at : String
  pub commit_seq : ℕ
  pub observed_at : Option String
  pub valid_from : Option String
  pub valid_until : Option String

unfoldable pub status_name : MemoryStatus → String
status_name active = "active"
status_name tombstoned = "tombstoned"
status_name superseded = "superseded"

unfoldable pub same_status : MemoryStatus → MemoryStatus → Bool
same_status active active = true
same_status tombstoned tombstoned = true
same_status superseded superseded = true
same_status _ _ = false

unfoldable pub same_operation : MemoryOperation → MemoryOperation → Bool
same_operation create create = true
same_operation update update = true
same_operation supersede supersede = true
same_operation tombstone tombstone = true
same_operation restore restore = true
same_operation merge merge = true
same_operation _ _ = false

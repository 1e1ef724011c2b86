-- ===== src/Curation.antt =====
-- src/curation/memory-curation-record-store.ts and its in-memory store: the curation records, and
-- the check that one of them backs a candidate's admission, which the authority asks for.
pub mod Backed
pub mod Puts
use digital_life_memory_fabr.Base.{
  Bool, true, false, not, String, List, [], ◌∷◌, Option, none, some, ◌==◌, ◌&&◌, ◌||◌, any, filter,
  sort_by, is_given, or_else, if◌then◌else◌,
}
use digital_life_memory_fabr.Base.JsMap as M
use digital_life_memory_fabr.Base.JsMap.{JsMap}
use digital_life_memory_fabr.Domain.Platform.{Platform, locale_le}
use digital_life_memory_fabr.Domain.Scope.{MemoryScope, same_scope}
use digital_life_memory_fabr.Domain.Memory.{
  MemoryCandidate, CanonicalAdmissionProof, SemanticRelation, create, merge, same_operation,
  equivalent, existing_subsumes_candidate, candidate_subsumes_existing, contradicts, unrelated,
}
use digital_life_memory_fabr.Authority.Admission.{same_optional, is_merge_outcome}

pub data CanonicalAdmissionOutcome : Type 0 where
  supporting_evidence_only rejected pending_review canonical_candidate canonical_merge :
      CanonicalAdmissionOutcome

pub data MemoryDurability : Type 0 where
  transient session_scoped time_bounded durable identity_long_term unknown : MemoryDurability

pub data SemanticDisposition : Type 0 where
  novel duplicate merge_required : SemanticDisposition

pub record MemoryCurationRecord : Type 0 where
  pub record_id : String
  pub receipt_id : String
  pub scope : MemoryScope
  pub source_type : String
  pub source_id : String
  pub provider_name : String
  pub provider_run_id : String
  pub provider_unit_ref : String
  pub provider_unit_text : String
  pub provider_unit_fingerprint : String
  pub provider_epistemic_status : String
  pub attributed_epistemic_basis : String
  pub memory_type : String
  pub speaker_provenance : String
  pub semantic_key : String
  pub semantic_policy_version : String
  pub semantic_relation : Option SemanticRelation
  pub curation_provider : String
  pub curation_provider_version : Option String
  pub admission_policy_version : String
  pub outcome : CanonicalAdmissionOutcome
  pub attributed_epistemic_status : String
  pub durability : MemoryDurability
  pub memory_worthy : Bool
  pub semantic_disposition : SemanticDisposition
  pub reason_codes : List String
  pub target_memory_id : Option String
  pub candidate_id : Option String
  pub canonical_memory_id : Option String
  pub created_at : String

unfoldable pub same_outcome : CanonicalAdmissionOutcome → CanonicalAdmissionOutcome → Bool
same_outcome supporting_evidence_only supporting_evidence_only = true
same_outcome rejected rejected = true
same_outcome pending_review pending_review = true
same_outcome canonical_candidate canonical_candidate = true
same_outcome canonical_merge canonical_merge = true
same_outcome _ _ = false

-- `durability === "durable" || durability === "identity_long_term"`
unfoldable pub is_durable : MemoryDurability → Bool
is_durable durable = true
is_durable identity_long_term = true
is_durable _ = false

unfoldable pub is_novel : SemanticDisposition → Bool
is_novel novel = true
is_novel _ = false

unfoldable pub is_duplicate : SemanticDisposition → Bool
is_duplicate duplicate = true
is_duplicate _ = false

unfoldable pub same_relation : SemanticRelation → SemanticRelation → Bool
same_relation equivalent equivalent = true
same_relation existing_subsumes_candidate existing_subsumes_candidate = true
same_relation candidate_subsumes_existing candidate_subsumes_existing = true
same_relation contradicts contradicts = true
same_relation unrelated unrelated = true
same_relation _ _ = false

unfoldable pub same_optional_relation : Option SemanticRelation → Option SemanticRelation → Bool
same_optional_relation none none = true
same_optional_relation (some a) (some b) = same_relation a b
same_optional_relation _ _ = false

-- `candidate.producer.providerName ?? candidate.producer.id`
unfoldable pub producer_name : MemoryCandidate → String
producer_name c = or_else c.producer.provider_name c.producer.id

-- What a record must say of every candidate that it backs.
unfoldable pub common_agrees :
    MemoryCurationRecord → CanonicalAdmissionProof → MemoryCandidate → Bool
common_agrees r proof c =
    r.record_id == proof.curation_record_id
    && same_optional r.candidate_id (some c.candidate_id)
    && same_scope r.scope c.scope
    && r.source_type == c.source_type
    && same_optional (some r.source_id) c.source_id
    && r.provider_name == producer_name c
    && is_given c.provider_run_id
    && same_optional (some r.provider_run_id) c.provider_run_id
    && r.memory_type == c.memory_type
    && r.speaker_provenance == c.speaker_provenance
    && r.semantic_key == c.semantic_key
    && r.admission_policy_version == proof.admission_policy_version
    && r.curation_provider == proof.curation_provider
    && same_optional r.curation_provider_version proof.curation_provider_version

unfoldable pub merge_agrees :
    MemoryCurationRecord → CanonicalAdmissionProof → MemoryCandidate → Bool
merge_agrees r proof c =
    same_operation c.proposed_operation merge
    && is_given c.base_memory_id
    && same_optional c.base_memory_id r.target_memory_id
    && same_optional c.base_memory_id proof.target_memory_id
    && same_optional proof.semantic_policy_version (some r.semantic_policy_version)
    && same_optional_relation proof.semantic_relation r.semantic_relation
    && same_outcome r.outcome canonical_merge
    && r.memory_worthy
    && is_durable r.durability
    && is_duplicate r.semantic_disposition
    && any (λ evidence. evidence.source_ref == r.provider_unit_ref) c.evidence_refs

unfoldable pub create_agrees : MemoryCurationRecord → MemoryCandidate → Bool
create_agrees r c =
    same_operation c.proposed_operation create
    && r.provider_unit_text == c.proposed_content.text
    && same_outcome r.outcome canonical_candidate
    && r.attributed_epistemic_status == c.epistemic_status
    && r.memory_worthy
    && is_durable r.durability
    && is_novel r.semantic_disposition

unfoldable pub proof_agrees :
    MemoryCurationRecord → CanonicalAdmissionProof → MemoryCandidate → Bool
proof_agrees r proof c =
    common_agrees r proof c
    && (if is_merge_outcome proof.outcome then merge_agrees r proof c else create_agrees r c)

-- Without a record, a proof or a source the answer is no.
unfoldable pub curation_record_backs_canonical_admission :
    Option MemoryCurationRecord → MemoryCandidate → Bool
curation_record_backs_canonical_admission none c = false
curation_record_backs_canonical_admission (some r) c = elim c.canonical_admission [
  | none ↦ false
  | some proof ↦ is_given c.source_id && proof_agrees r proof c
]

abbrev pub CurationRecords : Type 0
CurationRecords = JsMap MemoryCurationRecord

-- `value ?? existing`, for a field that a new record may leave out.
unfoldable pub or_existing : Option String → Option String → Option String
or_existing (some value) existing = some value
or_existing none existing = existing

-- What `put` stores in the place of a record that is there.
unfoldable pub replaced : MemoryCurationRecord → MemoryCurationRecord → MemoryCurationRecord
replaced existing r =
    if is_given existing.canonical_memory_id && not (is_given r.canonical_memory_id)
    then existing
    else record r {
      candidate_id = or_existing r.candidate_id existing.candidate_id;
      canonical_memory_id = or_existing r.canonical_memory_id existing.canonical_memory_id;
    }

unfoldable pub put : MemoryCurationRecord → CurationRecords → CurationRecords
put r records = elim (M.get r.record_id records) [
  | none ↦ M.set r.record_id r records
  | some existing ↦ M.set r.record_id (replaced existing r) records
]

unfoldable pub unit_order : Platform → MemoryCurationRecord → MemoryCurationRecord → Bool
unit_order p left right = locale_le p left.provider_unit_ref right.provider_unit_ref

unfoldable pub list_by_receipt : Platform → String → CurationRecords → List MemoryCurationRecord
list_by_receipt p receipt_id records =
    sort_by (unit_order p) (filter (λ r. r.receipt_id == receipt_id) (M.values records))

unfoldable pub verify_canonical_admission : CurationRecords → MemoryCandidate → Bool
verify_canonical_admission records c = elim c.canonical_admission [
  | none ↦ false
  | some proof ↦
      curation_record_backs_canonical_admission (M.get proof.curation_record_id records) c
]

-- ===== src/Domain/Encode.antt =====
-- The objects that the code hands to `sha256` and `stableStringify`. An absent property is left
-- out, as `JSON.stringify` leaves out `undefined`.
use digital_life_memory_fabr.Base.{ℕ, String, List, [], ◌∷◌, Option, none, some}
use digital_life_memory_fabr.Base.Text.{decimal}
use digital_life_memory_fabr.Domain.Json.{
  Json, Items, Fields, null, number, string, array, object, nil, cons, end, field,
}
use digital_life_memory_fabr.Domain.Platform.{Platform, sha256}
use digital_life_memory_fabr.Domain.Scope.{MemoryScope}
use digital_life_memory_fabr.Domain.Memory.{
  MemoryAuthor, MemoryProducer, ProducerKind, SourceExperienceRef, SemanticRelation,
  AdmissionOutcome, CanonicalAdmissionProof, CanonicalContent, MemoryCandidate, CanonicalMemoryHead,
  MemoryRevision, status_name,
}

-- `...(value === undefined ? {} : { [key]: value })`
pub optional : String → Option String → Fields → Fields
optional k none rest = rest
optional k (some v) rest = field k (string v) rest

-- `value ?? null`
pub or_null : Option String → Json
or_null none = null
or_null (some v) = string v

pub natural : ℕ → Json
natural n = number (decimal n)

pub scope_json : MemoryScope → Json
scope_json s = object (
    field "tenantId" (string s.tenant_id) (
      field "lifeDid" (string s.life_did)
        (field "memoryNamespace" (string s.memory_namespace) end)))

kind_name : ProducerKind → String
kind_name ProducerKind.user = "user"
kind_name ProducerKind.system = "system"
kind_name ProducerKind.provider = "provider"
kind_name ProducerKind.runtime = "runtime"
kind_name ProducerKind.imported = "import"

pub producer_json : MemoryProducer → Json
producer_json m = object (
    field "kind" (string (kind_name m.kind)) (
      field "id" (string m.id) (
        optional "providerName" m.provider_name (
          optional "adapterVersion" m.adapter_version
            (optional "providerVersion" m.provider_version end)))))

source_ref_json : SourceExperienceRef → Json
source_ref_json r = object (
    field "sourceType" (string r.source_type) (
      field "sourceId" (string r.source_id)
        (optional "archiveRef" r.archive_ref (optional "checksum" r.checksum end))))

source_ref_items : List SourceExperienceRef → Items
source_ref_items [] = nil
source_ref_items (r ∷ rs) = cons (source_ref_json r) (source_ref_items rs)

pub source_refs_json : List SourceExperienceRef → Json
source_refs_json rs = array (source_ref_items rs)

text_items : List String → Items
text_items [] = nil
text_items (x ∷ xs) = cons (string x) (text_items xs)

pub texts_json : List String → Json
texts_json xs = array (text_items xs)

pub author_json : MemoryAuthor → Json
author_json a = object (
    field "lifeDid" (string a.life_did) (
      optional "agentId" a.agent_id
        (optional "runtimeId" a.runtime_id (optional "deviceId" a.device_id end))))

payload_field : Option Fields → Fields
payload_field none = end
payload_field (some fs) = field "payload" (object fs) end

pub content_json : CanonicalContent → Json
content_json c = object (field "text" (string c.text) (payload_field c.payload))

pub relation_name : SemanticRelation → String
relation_name SemanticRelation.equivalent = "equivalent"
relation_name SemanticRelation.existing_subsumes_candidate = "existing_subsumes_candidate"
relation_name SemanticRelation.candidate_subsumes_existing = "candidate_subsumes_existing"
relation_name SemanticRelation.contradicts = "contradicts"
relation_name SemanticRelation.unrelated = "unrelated"

outcome_name : AdmissionOutcome → String
outcome_name AdmissionOutcome.canonical_candidate = "canonical_candidate"
outcome_name AdmissionOutcome.canonical_merge = "canonical_merge"

proof_json : CanonicalAdmissionProof → Json
proof_json a = object (
    field "admissionPolicyVersion" (string a.admission_policy_version) (
      field "curationProvider" (string a.curation_provider) (
        optional "curationProviderVersion" a.curation_provider_version (
          field "curationRecordId" (string a.curation_record_id) (
            field "outcome" (string (outcome_name a.outcome)) (
              optional "semanticPolicyVersion" a.semantic_policy_version (
                relation_field a.semantic_relation
                  (optional "targetMemoryId" a.target_memory_id end))))))))
  where
    relation_field : Option SemanticRelation → Fields → Fields
    relation_field none rest = rest
    relation_field (some r) rest = field "semanticRelation" (string (relation_name r)) rest

-- The object that `providerAdmissionStateFingerprint` hashes.
pub admission_json : MemoryCandidate → CanonicalAdmissionProof → Json
admission_json c proof = object (
    field "candidateId" (string c.candidate_id) (
      field "scope" (scope_json c.scope) (
        field "sourceType" (string c.source_type) (
          field "sourceId" (or_null c.source_id) (
            field "candidateType" (string c.candidate_type) (
              field "memoryClass" (string c.memory_class) (
                field "memoryKind" (string c.memory_kind) (
                  field "memoryType" (string c.memory_type) (
                    field "speakerProvenance" (string c.speaker_provenance) (
                      field "semanticKey" (string c.semantic_key) (
                        field "proposedContent" (content_json c.proposed_content) (
                          field "epistemicStatus" (string c.epistemic_status)
                            (field "producer" (producer_json c.producer) rest)))))))))))))
  where
    rest : Fields
    rest = field "sourceExperienceRefs" (source_refs_json c.source_experience_refs) (
        field "candidateFingerprint" (string c.candidate_fingerprint) (
          field "distillationPolicyVersion" (or_null c.distillation_policy_version) (
            field "providerRunId" (or_null c.provider_run_id)
              (field "canonicalAdmission" (proof_json proof) end))))

pub content_hash : Platform → CanonicalContent → String
content_hash p c = sha256 p (content_json c)

-- `payloadHash`, which the authority writes and the sync service checks.
pub payload_hash : Platform → MemoryRevision → String
payload_hash p r = sha256 p (
    object (
      field "memoryId" (string r.memory_id) (
        field "revision" (natural r.revision) (
          field "status" (string (status_name r.status)) (
            field "canonicalContent" (content_json r.canonical_content) (
              field "contentHash" (string r.content_hash) (
                field "epistemicStatus" (string r.epistemic_status) (
                  field "memoryType" (string r.memory_type) (
                    field "speakerProvenance" (string r.speaker_provenance) (
                      field "semanticKey" (string r.semantic_key)
                        (field "semanticFingerprint" (string r.semantic_fingerprint) end)))))))))))

pub head_json : CanonicalMemoryHead → Json
head_json h = object (
    field "memoryId" (string h.memory_id) (
      field "scope" (scope_json h.scope) (
        field "memoryClass" (string h.memory_class) (
          field "memoryKind" (string h.memory_kind) (
            field "memoryType" (string h.memory_type) (
              field "semanticKey" (string h.semantic_key) (
                field "currentRevision" (natural h.current_revision) (
                  field "status" (string (status_name h.status)) (
                    field "createdAt" (string h.created_at)
                      (field "updatedAt" (string h.updated_at) end))))))))))

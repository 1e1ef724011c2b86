-- ===== src/Review.antt =====
-- src/review: the queue of semantic reviews. This file has the cases, decisions and events of
-- src/review/types.ts, their words in JSON, and the normalization of identifiers.
pub mod Queue
pub mod Enqueue
pub mod Service
pub mod Versions
pub mod Final
pub mod Decides
use digital_life_memory_fabr.Base.{
  ℕ, Bool, true, false, not, String, List, [], ◌∷◌, map, Option, none, some, ◌==◌, ◌&&◌, ◌||◌, any,
  filter, if◌then◌else◌,
}
use digital_life_memory_fabr.Base.Text.{trim}
use digital_life_memory_fabr.Domain.Json.{Json, Fields, boolean, string, object, end, field}
use digital_life_memory_fabr.Domain.Platform.{Platform, Number, stable_stringify}
use digital_life_memory_fabr.Domain.Scope.{MemoryScope}
use digital_life_memory_fabr.Domain.Memory.{MemoryAuthor, SemanticRelation}
use digital_life_memory_fabr.Domain.Encode.{
  scope_json, author_json, texts_json, natural, relation_name,
}

pub data SemanticReviewTrigger : Type 0 where
  pending_review canary_sample : SemanticReviewTrigger

pub data SemanticReviewStatus : Type 0 where
  pending deferred resolved : SemanticReviewStatus

pub data SemanticReviewDisposition : Type 0 where
  approved_as_classified confirmed_contradiction confirmed_unrelated : SemanticReviewDisposition
  misclassified invalid_candidate needs_more_evidence policy_superseded : SemanticReviewDisposition

pub record SemanticReviewDecision : Type 0 where
  pub decision_id : String
  pub idempotency_key : String
  pub disposition : SemanticReviewDisposition
  pub reviewer : MemoryAuthor
  pub evidence_ids : List String
  pub reason_codes : List String
  pub decided_at : String

pub record SemanticReviewCase : Type 0 where
  pub case_id : String
  pub scope : MemoryScope
  pub curation_record_id : String
  pub receipt_id : String
  pub trigger : SemanticReviewTrigger
  pub semantic_key : String
  pub semantic_policy_version : String
  pub memory_type : String
  pub semantic_relation : Option SemanticRelation
  pub trigger_reason_codes : List String
  pub status : SemanticReviewStatus
  pub version : ℕ
  pub latest_decision : Option SemanticReviewDecision
  pub canonical_write_performed : Bool
  pub created_at : String
  pub updated_at : String

pub data EventType : Type 0 where
  enqueued event_deferred event_resolved : EventType

pub record SemanticReviewEvent : Type 0 where
  pub event_id : String
  pub case_id : String
  pub scope : MemoryScope
  pub event_type : EventType
  pub case_version : ℕ
  pub reason_codes : List String
  pub decision : Option SemanticReviewDecision
  pub occurred_at : String

pub record SemanticReviewResolutionRequest : Type 0 where
  pub case_id : String
  pub scope : MemoryScope
  pub expected_version : Number
  pub idempotency_key : String
  pub disposition : SemanticReviewDisposition
  pub reviewer : MemoryAuthor
  pub evidence_ids : List String
  pub reason_codes : List String

unfoldable pub is_review_trigger : SemanticReviewTrigger → Bool
is_review_trigger pending_review = true
is_review_trigger canary_sample = false

unfoldable pub is_pending_status : SemanticReviewStatus → Bool
is_pending_status pending = true
is_pending_status _ = false

unfoldable pub is_deferred_status : SemanticReviewStatus → Bool
is_deferred_status deferred = true
is_deferred_status _ = false

unfoldable pub is_resolved_status : SemanticReviewStatus → Bool
is_resolved_status resolved = true
is_resolved_status _ = false

unfoldable pub is_enqueued : EventType → Bool
is_enqueued enqueued = true
is_enqueued _ = false

unfoldable pub is_deferred_event : EventType → Bool
is_deferred_event event_deferred = true
is_deferred_event _ = false

unfoldable pub is_resolved_event : EventType → Bool
is_resolved_event event_resolved = true
is_resolved_event _ = false

-- `disposition === "needs_more_evidence"`
unfoldable pub needs_more : SemanticReviewDisposition → Bool
needs_more needs_more_evidence = true
needs_more _ = false

unfoldable pub is_policy_superseded : SemanticReviewDisposition → Bool
is_policy_superseded policy_superseded = true
is_policy_superseded _ = false

unfoldable pub disposition_name : SemanticReviewDisposition → String
disposition_name approved_as_classified = "approved_as_classified"
disposition_name confirmed_contradiction = "confirmed_contradiction"
disposition_name confirmed_unrelated = "confirmed_unrelated"
disposition_name misclassified = "misclassified"
disposition_name invalid_candidate = "invalid_candidate"
disposition_name needs_more_evidence = "needs_more_evidence"
disposition_name policy_superseded = "policy_superseded"

trigger_name : SemanticReviewTrigger → String
trigger_name pending_review = "pending_review"
trigger_name canary_sample = "canary_sample"

event_name : EventType → String
event_name enqueued = "enqueued"
event_name event_deferred = "deferred"
event_name event_resolved = "resolved"

-- A property that is `undefined` is left out.
relation_field : Option SemanticRelation → Fields → Fields
relation_field none rest = rest
relation_field (some r) rest = field "semanticRelation" (string (relation_name r)) rest

immutable_fields : SemanticReviewCase → Fields → Fields
immutable_fields c rest = field "caseId" (string c.case_id) (
    field "scope" (scope_json c.scope) (
      field "curationRecordId" (string c.curation_record_id) (
        field "receiptId" (string c.receipt_id) (
          field "trigger" (string (trigger_name c.trigger)) (
            field "semanticKey" (string c.semantic_key) (
              field "semanticPolicyVersion" (string c.semantic_policy_version) (
                field "memoryType" (string c.memory_type) (
                  relation_field c.semantic_relation (
                    field "triggerReasonCodes" (texts_json c.trigger_reason_codes) (
                      field "canonicalWritePerformed" (boolean c.canonical_write_performed)
                        rest))))))))))

pub immutable_case : Platform → SemanticReviewCase → String
immutable_case p c = stable_stringify p (object (immutable_fields c end))

pub immutable_resolution_case : Platform → SemanticReviewCase → String
immutable_resolution_case p c =
    stable_stringify p (object (immutable_fields c (field "createdAt" (string c.created_at) end)))

decision_fields : SemanticReviewDecision → Fields → Fields
decision_fields d rest = field "decisionId" (string d.decision_id) (
    field "idempotencyKey" (string d.idempotency_key) (
      field "disposition" (string (disposition_name d.disposition)) (
        field "reviewer" (author_json d.reviewer) (
          field "evidenceIds" (texts_json d.evidence_ids)
            (field "reasonCodes" (texts_json d.reason_codes) rest)))))

pub decision_json : SemanticReviewDecision → Json
decision_json d = object (decision_fields d (field "decidedAt" (string d.decided_at) end))

intent_decision : Option SemanticReviewDecision → Fields
intent_decision none = end
intent_decision (some d) = field "decision" (object (decision_fields d end)) end

event_intent : SemanticReviewEvent → Json
event_intent e = object (
    field "caseId" (string e.case_id) (
      field "scope" (scope_json e.scope) (
        field "eventType" (string (event_name e.event_type)) (
          field "caseVersion" (natural e.case_version)
            (field "reasonCodes" (texts_json e.reason_codes) (intent_decision e.decision))))))

pub same_event_intent : Platform → SemanticReviewEvent → SemanticReviewEvent → Bool
same_event_intent p left right =
    stable_stringify p (event_intent left) == stable_stringify p (event_intent right)

-- `[...new Set(values)]`; `seen` has the values before.
unfoldable pub unique_after : List String → List String → List String
unique_after seen [] = []
unique_after seen (x ∷ xs) =
    let skipped = unique_after seen xs in
    let kept = unique_after (x ∷ seen) xs in if any (λ y. y == x) seen then skipped else x ∷ kept

-- `normalizeSemanticReviewIdentifiers`
unfoldable pub normalize_identifiers : List String → List String
normalize_identifiers values = filter (λ x. not (x == "")) (unique_after [] (map trim values))

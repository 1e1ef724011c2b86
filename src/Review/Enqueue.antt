-- ===== src/Review/Enqueue.antt =====
-- src/review/semantic-review-service.ts: how curation records become review cases.
use Prim.Native.String as Str
use digital_life_memory_fabr.Base.{
  Bool, true, false, not, String, List, [], ◌∷◌, Option, none, some, ◌==◌, ◌&&◌, any, or_else,
  if◌then◌else◌,
}
use digital_life_memory_fabr.Base.Text.{is_blank, slice_from, slice_to}
use digital_life_memory_fabr.Domain.Json.{Json, string, object, end, field}
use digital_life_memory_fabr.Domain.Platform.{Platform, sha256}
use digital_life_memory_fabr.Domain.Encode.{scope_json}
use digital_life_memory_fabr.Domain.Errors.{
  Result, ok, err, ◌>>=◌, ◌>>◌, throw_if, validation_error, empty_field, not_pending_review,
  not_a_sample, unknown_sample,
}
use digital_life_memory_fabr.Curation as C
use digital_life_memory_fabr.Curation.{
  MemoryCurationRecord, CurationRecords, CanonicalAdmissionOutcome, same_outcome,
}
use digital_life_memory_fabr.Review.{
  SemanticReviewTrigger, SemanticReviewStatus, SemanticReviewCase, SemanticReviewEvent, EventType,
  normalize_identifiers,
}
use digital_life_memory_fabr.Review.Queue.{ReviewState, enqueue}

-- `sha256(value).slice(7, 39)`
pub digest : Platform → Json → String
digest p value = slice_to 32 (slice_from 7 (sha256 p value))

unfoldable pub no_texts : List String → Bool
no_texts [] = true
no_texts (x ∷ xs) = false

unfoldable pub unique_non_empty : List String → Result (List String)
unique_non_empty values =
    let normalized = normalize_identifiers values in
    throw_if (no_texts normalized) (validation_error empty_field) >> ok normalized

pub case_id_for : Platform → MemoryCurationRecord → String
case_id_for p r = Str.◌++◌ "semrev_" (
    digest p (
      object
        (field "scope" (scope_json r.scope) (field "curationRecordId" (string r.record_id) end))))

pub enqueued_event_id : Platform → String → String
enqueued_event_id p case_id = Str.◌++◌ "semevt_" (
    digest p (object (field "caseId" (string case_id) (field "eventType" (string "enqueued") end))))

unfoldable pub is_pending_outcome : CanonicalAdmissionOutcome → Bool
is_pending_outcome outcome = same_outcome outcome C.pending_review

unfoldable pub trigger_for : MemoryCurationRecord → List String → Option SemanticReviewTrigger
trigger_for r samples =
    if is_pending_outcome r.outcome
    then some SemanticReviewTrigger.pending_review
    else if any (λ id. id == r.record_id) samples
    then some SemanticReviewTrigger.canary_sample
    else none

unfoldable pub check_trigger : SemanticReviewTrigger → MemoryCurationRecord → Result (Unit {0})
check_trigger SemanticReviewTrigger.pending_review r =
    throw_if (not (is_pending_outcome r.outcome)) (validation_error not_pending_review)
check_trigger SemanticReviewTrigger.canary_sample r =
    throw_if (is_pending_outcome r.outcome) (validation_error not_a_sample)

unfoldable pub trigger_reason : SemanticReviewTrigger → String
trigger_reason SemanticReviewTrigger.pending_review = "review:pending_outcome"
trigger_reason SemanticReviewTrigger.canary_sample = "review:canary_sample"

unfoldable pub new_case :
    Platform
    → String
    → MemoryCurationRecord
    → SemanticReviewTrigger
    → List String
    → SemanticReviewCase
new_case p now r trigger reasons = record {
  case_id = case_id_for p r;
  scope = r.scope;
  curation_record_id = r.record_id;
  receipt_id = r.receipt_id;
  trigger = trigger;
  semantic_key = r.semantic_key;
  semantic_policy_version = r.semantic_policy_version;
  memory_type = r.memory_type;
  semantic_relation = r.semantic_relation;
  trigger_reason_codes = reasons;
  status = SemanticReviewStatus.pending;
  version = 1;
  latest_decision = none;
  canonical_write_performed = false;
  created_at = now;
  updated_at = now;
}

unfoldable pub enqueued_event :
    Platform → String → MemoryCurationRecord → SemanticReviewTrigger → SemanticReviewEvent
enqueued_event p now r trigger = record {
  event_id = enqueued_event_id p (case_id_for p r);
  case_id = case_id_for p r;
  scope = r.scope;
  event_type = EventType.enqueued;
  case_version = 1;
  reason_codes = trigger_reason trigger ∷ [];
  decision = none;
  occurred_at = now;
}

unfoldable pub enqueue_record :
    Platform
    → String
    → MemoryCurationRecord
    → SemanticReviewTrigger
    → ReviewState
    → Result (SemanticReviewCase × ReviewState)
enqueue_record p now r trigger s = do
  check_trigger trigger r
  reasons ← unique_non_empty r.reason_codes
  enqueue p (new_case p now r trigger reasons) (enqueued_event p now r trigger) s

-- The loop of `enqueueReceipt`; the cases before an error stay in the queue. The records of one
-- receipt share a time, and no other call runs between them.
unfoldable pub enqueue_records :
    Platform
    → String
    → List String
    → List MemoryCurationRecord
    → ReviewState
    → Result (List SemanticReviewCase) × ReviewState
enqueue_records p now samples [] s = (ok [], s)
enqueue_records p now samples (r ∷ rs) s = elim (trigger_for r samples) [
  | none ↦ enqueue_records p now samples rs s
  | some trigger ↦ elim (enqueue_record p now r trigger s) [
    | err e ↦ (err e, s)
    | ok (c, s') ↦
        let (rest, s'') = enqueue_records p now samples rs s' in (rest >>= λ cs. ok (c ∷ cs), s'')
  ]
]

unfoldable pub samples_known : List String → List MemoryCurationRecord → Bool
samples_known [] records = true
samples_known (id ∷ ids) records = any (λ r. r.record_id == id) records && samples_known ids records

unfoldable pub enqueue_receipt :
    Platform
    → String
    → String
    → Option (List String)
    → CurationRecords
    → ReviewState
    → Result (List SemanticReviewCase) × ReviewState
enqueue_receipt p now receipt_id samples curation s =
    let records = C.list_by_receipt p receipt_id curation in
    let ids = or_else samples [] in
    if is_blank receipt_id
    then (err (validation_error empty_field), s)
    else if samples_known ids records
    then enqueue_records p now ids records s
    else (err (validation_error unknown_sample), s)

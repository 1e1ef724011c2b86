-- ===== src/Review/Service.antt =====
-- src/review/semantic-review-service.ts: how a review case is decided. The reads of a decision are of
-- states of their own: other calls may run between them.
use Prim.Native.String as Str
use text.Mathlib.Text.{starts_with}
use digital_life_memory_fabr.Base.{
  ℕ, ◌+◌, Bool, true, false, not, String, List, Option, none, some, ◌==◌, ◌&&◌, any, if◌then◌else◌,
}
use digital_life_memory_fabr.Base.Text.{is_blank, trim}
use digital_life_memory_fabr.Domain.Json.{string, object, end, field}
use digital_life_memory_fabr.Domain.Platform.{Platform, stable_stringify, positive_integer}
use digital_life_memory_fabr.Domain.Scope.{same_scope}
use digital_life_memory_fabr.Domain.Memory.{MemoryAuthor}
use digital_life_memory_fabr.Domain.Encode.{scope_json, author_json}
use digital_life_memory_fabr.Domain.Errors.{
  Result, ok, ◌>>=◌, ◌>>◌, throw_if, or_throw, validation_error, empty_field, unidentified_reviewer,
  unbound_evidence, successor_required, decision_reused, already_resolved, disposition_refused,
  missing_case, bad_expected_revision, origin_mismatch,
}
use digital_life_memory_fabr.Review.{
  SemanticReviewTrigger, SemanticReviewStatus, SemanticReviewDisposition, SemanticReviewDecision,
  SemanticReviewCase, SemanticReviewEvent, SemanticReviewResolutionRequest, EventType,
  approved_as_classified, misclassified, needs_more_evidence, is_resolved_status, needs_more,
  is_policy_superseded, disposition_name, normalize_identifiers,
}
use digital_life_memory_fabr.Review.Queue.{
  ReviewState, resolve, get_case, get_event_by_idempotency_key, reviewer_identified, same_texts,
}
use digital_life_memory_fabr.Review.Enqueue.{digest, unique_non_empty}

-- `value?.trim() ? { [key]: value.trim() } : {}`
unfoldable pub trimmed : Option String → Option String
trimmed none = none
trimmed (some value) = if trim value == "" then none else some (trim value)

-- A reviewer of the model has no fields but those that the code allows.
unfoldable pub normalized_reviewer : MemoryAuthor → MemoryAuthor
normalized_reviewer a = record {
  life_did = a.life_did;
  agent_id = trimmed a.agent_id;
  runtime_id = trimmed a.runtime_id;
  device_id = trimmed a.device_id;
}

-- A text that goes on after the prefix: `startsWith(prefix) && length > prefix.length`.
unfoldable pub extends_prefix : String → String → Bool
extends_prefix prefix value = starts_with value prefix && not (value == prefix)

unfoldable pub successor_named : SemanticReviewCase → List String → Bool
successor_named current evidence =
    any (extends_prefix (Str.◌++◌ "policy:" (Str.◌++◌ current.semantic_policy_version "->")))
      evidence
    && any (extends_prefix "receipt:") evidence

unfoldable pub allowed_disposition : SemanticReviewTrigger → SemanticReviewDisposition → Bool
allowed_disposition SemanticReviewTrigger.pending_review approved_as_classified = false
allowed_disposition SemanticReviewTrigger.pending_review misclassified = false
allowed_disposition SemanticReviewTrigger.pending_review _ = true
allowed_disposition SemanticReviewTrigger.canary_sample approved_as_classified = true
allowed_disposition SemanticReviewTrigger.canary_sample misclassified = true
allowed_disposition SemanticReviewTrigger.canary_sample needs_more_evidence = true
allowed_disposition SemanticReviewTrigger.canary_sample _ = false

-- The parts of a request after their normalization.
pub record Ruling : Type 0 where
  pub expected : ℕ
  pub reviewer : MemoryAuthor
  pub evidence_ids : List String
  pub reason_codes : List String

unfoldable pub validate_ruling : SemanticReviewResolutionRequest → Result Ruling
validate_ruling request = do
  expected ←
      or_throw (positive_integer request.expected_version) (validation_error bad_expected_revision)
  throw_if (is_blank request.idempotency_key) (validation_error empty_field)
  throw_if (not (request.reviewer.life_did == request.scope.life_did))
      (validation_error origin_mismatch)
  throw_if (not (reviewer_identified (normalized_reviewer request.reviewer)))
      (validation_error unidentified_reviewer)
  evidence ← unique_non_empty request.evidence_ids
  reasons ← unique_non_empty request.reason_codes
  ok (record {
    expected = expected;
    reviewer = normalized_reviewer request.reviewer;
    evidence_ids = evidence;
    reason_codes = reasons;
  })

unfoldable pub same_decision :
    Platform
    → SemanticReviewEvent
    → SemanticReviewResolutionRequest
    → Ruling
    → Option SemanticReviewDecision
    → Bool
same_decision p e request ruling none = false
same_decision p e request ruling (some d) =
    e.case_id == request.case_id
    && same_scope e.scope request.scope
    && d.idempotency_key == request.idempotency_key
    && disposition_name d.disposition == disposition_name request.disposition
    && stable_stringify p (author_json d.reviewer)
      == stable_stringify p (author_json ruling.reviewer)
    && same_texts p d.evidence_ids (normalize_identifiers ruling.evidence_ids)
    && same_texts p d.reason_codes (normalize_identifiers ruling.reason_codes)

-- The case that the request read, after the checks of its evidence.
unfoldable pub current_case :
    SemanticReviewResolutionRequest → Ruling → ReviewState → Result SemanticReviewCase
current_case request ruling seen = do
  current ← or_throw (get_case request.scope request.case_id seen) (validation_error missing_case)
  throw_if (not (same_scope current.scope request.scope)) (validation_error origin_mismatch)
  throw_if
      (not (any (λ x. x == Str.◌++◌ "curation:" current.curation_record_id) ruling.evidence_ids))
      (validation_error unbound_evidence)
  throw_if
      (is_policy_superseded request.disposition
        && not (successor_named current ruling.evidence_ids))
      (validation_error successor_required)
  ok current

pub decision_id_for : Platform → SemanticReviewResolutionRequest → String
decision_id_for p request = Str.◌++◌ "semdec_" (
    digest p (
      object (
        field "scope" (scope_json request.scope)
          (field "idempotencyKey" (string request.idempotency_key) end))))

unfoldable pub decision_of :
    Platform → String → SemanticReviewResolutionRequest → Ruling → SemanticReviewDecision
decision_of p now request ruling = record {
  decision_id = decision_id_for p request;
  idempotency_key = request.idempotency_key;
  disposition = request.disposition;
  reviewer = ruling.reviewer;
  evidence_ids = ruling.evidence_ids;
  reason_codes = ruling.reason_codes;
  decided_at = now;
}

unfoldable pub next_case : SemanticReviewCase → SemanticReviewDecision → SemanticReviewCase
next_case current d = record current {
  status =
      if needs_more d.disposition
      then SemanticReviewStatus.deferred
      else SemanticReviewStatus.resolved;
  version = current.version + 1;
  latest_decision = some d;
  canonical_write_performed = false;
  updated_at = d.decided_at;
}

unfoldable pub decision_event :
    Platform → SemanticReviewCase → SemanticReviewDecision → SemanticReviewEvent
decision_event p current d = record {
  event_id = Str.◌++◌ "semevt_" (digest p (object (field "decisionId" (string d.decision_id) end)));
  case_id = current.case_id;
  scope = current.scope;
  event_type =
      if needs_more d.disposition then EventType.event_deferred else EventType.event_resolved;
  case_version = current.version + 1;
  reason_codes = d.reason_codes;
  decision = some d;
  occurred_at = d.decided_at;
}

-- A key that `keyed` has not.
unfoldable pub decide_new :
    Platform
    → String
    → SemanticReviewResolutionRequest
    → Ruling
    → SemanticReviewCase
    → ReviewState
    → Result (SemanticReviewCase × ReviewState)
decide_new p now request ruling current s = do
  throw_if (is_resolved_status current.status) (validation_error already_resolved)
  throw_if (not (allowed_disposition current.trigger request.disposition))
      (validation_error disposition_refused)
  resolve p current.case_id ruling.expected (next_case current (decision_of p now request ruling))
      (decision_event p current (decision_of p now request ruling)) s

unfoldable pub replay_decision :
    Platform
    → SemanticReviewResolutionRequest
    → Ruling
    → SemanticReviewEvent
    → ReviewState
    → Result (SemanticReviewCase × ReviewState)
replay_decision p request ruling prior s = do
  throw_if (not (same_decision p prior request ruling prior.decision))
      (validation_error decision_reused)
  replay ← or_throw (get_case request.scope request.case_id s) (validation_error missing_case)
  ok (replay, s)

-- `resolve` of the service: the case is read in `seen`, the key in `keyed`, and the rest runs on `s`.
unfoldable pub decide :
    Platform
    → String
    → SemanticReviewResolutionRequest
    → ReviewState
    → ReviewState
    → ReviewState
    → Result (SemanticReviewCase × ReviewState)
decide p now request seen keyed s = do
  ruling ← validate_ruling request
  current ← current_case request ruling seen
  elim (get_event_by_idempotency_key request.scope request.idempotency_key keyed) [
    | some prior ↦ replay_decision p request ruling prior s
    | none ↦ decide_new p now request ruling current s
  ]

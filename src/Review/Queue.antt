-- ===== src/Review/Queue.antt =====
-- src/review/in-memory-semantic-review-store.ts: the cases, and what a resolution may change.
use Prim.Native.Nat.{Ordering}
use Prim.Native.Char.{Char}
use Prim.Native.String.{◌++◌, ◌∷◌}
use digital_life_memory_fabr.Base as B
use digital_life_memory_fabr.Base.{
  ℕ, ◌+◌, Bool, true, false, not, String, List, Option, none, some, ◌==◌, ◌&&◌, ◌||◌, any, filter,
  eqb, leb, ltb, take, sort_by, is_given, or_else, if◌then◌else◌,
}
use digital_life_memory_fabr.Base.JsMap as M
use digital_life_memory_fabr.Base.JsMap.{JsMap}
use digital_life_memory_fabr.Base.Text.{is_blank}
use digital_life_memory_fabr.Domain.Json.{text_le}
use digital_life_memory_fabr.Domain.Platform.{
  locale_le, Platform, Number, nat, stable_stringify, positive_integer,
}
use digital_life_memory_fabr.Domain.Scope.{MemoryScope, same_scope}
use digital_life_memory_fabr.Domain.Memory.{MemoryAuthor}
use digital_life_memory_fabr.Domain.Encode.{texts_json}
use digital_life_memory_fabr.Domain.Errors.{
  Result, ok, ◌>>=◌, ◌>>◌, throw_if, or_throw, validation_error, semantic_review_conflict,
  enqueue_invalid, enqueue_changed, missing_case, decision_missing, decision_reused,
  resolution_changed, bad_limit,
}
use digital_life_memory_fabr.Review.{
  SemanticReviewCase, SemanticReviewDecision, SemanticReviewEvent, SemanticReviewStatus,
  is_pending_status, is_deferred_status, is_resolved_status, is_enqueued, is_deferred_event,
  is_resolved_event, needs_more, immutable_case, immutable_resolution_case, same_event_intent,
  decision_json,
}

pub record ReviewState : Type 0 where
  pub cases : JsMap SemanticReviewCase
  pub case_by_curation_record : JsMap String
  pub events : JsMap (List SemanticReviewEvent)
  pub events_by_idempotency : JsMap SemanticReviewEvent

abbrev pub empty_reviews : ReviewState
empty_reviews = record {
  cases = B.[];
  case_by_curation_record = B.[];
  events = B.[];
  events_by_idempotency = B.[];
}

abbrev nul : Char
nul = Char.char 0 tt

-- The keys of this store join the parts with U+0000.
unfoldable pub review_scope_key : MemoryScope → String
review_scope_key s = s.tenant_id ++ (nul ∷ (s.life_did ++ (nul ∷ s.memory_namespace)))

unfoldable pub review_key : MemoryScope → String → String
unfolding review_scope_key
review_key scope key = review_scope_key scope ++ (nul ∷ key)

-- A case and an event as `enqueue` accepts them.
unfoldable pub enqueue_accepts : SemanticReviewCase → SemanticReviewEvent → Bool
enqueue_accepts c e =
    not c.canonical_write_performed
    && is_pending_status c.status
    && eqb c.version 1
    && not (is_given c.latest_decision)
    && c.created_at == c.updated_at
    && e.case_id == c.case_id
    && same_scope e.scope c.scope
    && is_enqueued e.event_type
    && eqb e.case_version 1
    && not (is_given e.decision)
    && e.occurred_at == c.created_at

unfoldable pub existing_case : SemanticReviewCase → ReviewState → Option SemanticReviewCase
existing_case c s = elim (M.get c.curation_record_id s.case_by_curation_record) [
  | none ↦ M.get c.case_id s.cases
  | some prior ↦ M.get prior s.cases
]

-- `events.get(caseId)?.[0]`
unfoldable pub first_event : Option (List SemanticReviewEvent) → Option SemanticReviewEvent
first_event none = none
first_event (some B.[]) = none
first_event (some (B.◌∷◌ e es)) = some e

unfoldable pub replay_enqueue :
    Platform
    → SemanticReviewCase
    → SemanticReviewEvent
    → SemanticReviewCase
    → ReviewState
    → Result (SemanticReviewCase × ReviewState)
replay_enqueue p c e existing s = do
  throw_if (not (immutable_case p existing == immutable_case p c))
      (validation_error enqueue_changed)
  before ←
      or_throw (first_event (M.get existing.case_id s.events)) (validation_error enqueue_changed)
  throw_if (not (same_event_intent p before e)) (validation_error enqueue_changed)
  ok (existing, s)

unfoldable pub put_case : SemanticReviewCase → SemanticReviewEvent → ReviewState → ReviewState
put_case c e s = record s {
  cases = M.set c.case_id c s.cases;
  case_by_curation_record = M.set c.curation_record_id c.case_id s.case_by_curation_record;
  events = M.set c.case_id (B.◌∷◌ e B.[]) s.events;
}

-- What the call returns and the state after; a call that throws leaves the state.
unfoldable pub enqueue :
    Platform
    → SemanticReviewCase
    → SemanticReviewEvent
    → ReviewState
    → Result (SemanticReviewCase × ReviewState)
enqueue p c e s = do
  throw_if (not (enqueue_accepts c e)) (validation_error enqueue_invalid)
  elim (existing_case c s) [
    | some existing ↦ replay_enqueue p c e existing s
    | none ↦ ok (c, put_case c e s)
  ]

unfoldable pub get_case : MemoryScope → String → ReviewState → Option SemanticReviewCase
get_case scope case_id s = elim (M.get case_id s.cases) [
  | none ↦ none
  | some c ↦ if same_scope c.scope scope then some c else none
]

unfoldable pub get_event_by_idempotency_key :
    MemoryScope → String → ReviewState → Option SemanticReviewEvent
get_event_by_idempotency_key scope key s = M.get (review_key scope key) s.events_by_idempotency

unfoldable pub list_by_receipt :
    Platform → MemoryScope → String → ReviewState → List SemanticReviewCase
list_by_receipt p scope receipt_id s =
    sort_by (λ left right. locale_le p left.case_id right.case_id)
      (filter (λ c. c.receipt_id == receipt_id && same_scope c.scope scope) (M.values s.cases))

-- `left.createdAt.localeCompare(right.createdAt) || left.caseId.localeCompare(right.caseId)`
unfoldable pub case_order : Platform → SemanticReviewCase → SemanticReviewCase → Bool
case_order p left right = elim (p.locale_compare left.created_at right.created_at) [
  | Ordering.lt ↦ true
  | Ordering.gt ↦ false
  | Ordering.eq ↦ locale_le p left.case_id right.case_id
]

unfoldable pub same_review_status : SemanticReviewStatus → SemanticReviewStatus → Bool
same_review_status SemanticReviewStatus.pending status = is_pending_status status
same_review_status SemanticReviewStatus.deferred status = is_deferred_status status
same_review_status SemanticReviewStatus.resolved status = is_resolved_status status

unfoldable pub status_selected : Option SemanticReviewStatus → SemanticReviewCase → Bool
status_selected none c = true
status_selected (some status) c = same_review_status c.status status

unfoldable pub list_limit : Option Number → Result ℕ
list_limit limit = do
  n ← or_throw (positive_integer (or_else limit (nat 100))) (validation_error bad_limit)
  throw_if (ltb 1000 n) (validation_error bad_limit)
  ok n

unfoldable pub list :
    Platform
    → MemoryScope
    → Option SemanticReviewStatus
    → Option Number
    → ReviewState
    → Result (List SemanticReviewCase)
list p scope status limit s = do
  n ← list_limit limit
  ok (
      take n (
        sort_by (case_order p)
          (filter (λ c. same_scope c.scope scope && status_selected status c) (M.values s.cases))))

-- `[agentId, runtimeId, deviceId].some((value) => value !== undefined && value.trim().length > 0)`
unfoldable pub names_actor : Option String → Bool
names_actor none = false
names_actor (some value) = not (is_blank value)

unfoldable pub reviewer_identified : MemoryAuthor → Bool
reviewer_identified a =
    names_actor a.agent_id || names_actor a.runtime_id || names_actor a.device_id

-- `stableStringify(left) === stableStringify(right)` on texts and on decisions.
unfoldable pub same_texts : Platform → List String → List String → Bool
same_texts p left right =
    stable_stringify p (texts_json left) == stable_stringify p (texts_json right)

unfoldable pub same_decision_json :
    Platform → SemanticReviewDecision → SemanticReviewDecision → Bool
same_decision_json p left right =
    stable_stringify p (decision_json left) == stable_stringify p (decision_json right)

-- The status and the event that the disposition asks for.
unfoldable pub status_fits :
    SemanticReviewDecision → SemanticReviewCase → SemanticReviewEvent → Bool
status_fits d next e =
    if needs_more d.disposition
    then is_deferred_status next.status && is_deferred_event e.event_type
    else is_resolved_status next.status && is_resolved_event e.event_type

unfoldable pub decision_fits :
    Platform → SemanticReviewDecision → Option SemanticReviewDecision → Bool
decision_fits p d none = false
decision_fits p d (some latest) =
    d.decision_id == latest.decision_id && same_decision_json p d latest

-- A resolution as the store accepts it, on a case of the expected version.
unfoldable pub resolution_accepts :
    Platform
    → String
    → ℕ
    → SemanticReviewCase
    → SemanticReviewCase
    → SemanticReviewEvent
    → SemanticReviewDecision
    → Bool
resolution_accepts p case_id expected current next e d =
    not next.canonical_write_performed
    && next.case_id == case_id
    && immutable_resolution_case p next == immutable_resolution_case p current
    && eqb next.version (expected + 1)
    && decision_fits p d next.latest_decision
    && e.case_id == case_id
    && same_scope e.scope next.scope
    && eqb e.case_version next.version
    && same_texts p e.reason_codes d.reason_codes
    && d.reviewer.life_did == next.scope.life_did
    && reviewer_identified d.reviewer
    && any (λ x. x == "curation:" ++ next.curation_record_id) d.evidence_ids
    && e.occurred_at == next.updated_at
    && d.decided_at == next.updated_at
    && text_le current.updated_at next.updated_at
    && status_fits d next e

-- `this.events.get(caseId) ?? []`
unfoldable pub case_events : String → ReviewState → List SemanticReviewEvent
case_events case_id s = or_else (M.get case_id s.events) B.[]

unfoldable pub write_resolution :
    String → SemanticReviewCase → SemanticReviewEvent → String → ReviewState → ReviewState
write_resolution case_id next e event_key s = record s {
  cases = M.set case_id next s.cases;
  events = M.set case_id (B.◌++◌ (case_events case_id s) (B.◌∷◌ e B.[])) s.events;
  events_by_idempotency = M.set event_key e s.events_by_idempotency;
}

-- A key that is new; `current` is the stored case.
unfoldable pub resolve_new :
    Platform
    → String
    → ℕ
    → SemanticReviewCase
    → SemanticReviewEvent
    → SemanticReviewDecision
    → SemanticReviewCase
    → ReviewState
    → Result (SemanticReviewCase × ReviewState)
resolve_new p case_id expected next e d current s = do
  throw_if (not (eqb current.version expected))
      (semantic_review_conflict case_id expected current.version)
  throw_if (not (resolution_accepts p case_id expected current next e d))
      (validation_error resolution_changed)
  ok (next, write_resolution case_id next e (review_key current.scope d.idempotency_key) s)

unfoldable pub resolve :
    Platform
    → String
    → ℕ
    → SemanticReviewCase
    → SemanticReviewEvent
    → ReviewState
    → Result (SemanticReviewCase × ReviewState)
resolve p case_id expected next e s = do
  current ← or_throw (M.get case_id s.cases) (validation_error missing_case)
  d ← or_throw e.decision (validation_error decision_missing)
  elim (M.get (review_key current.scope d.idempotency_key) s.events_by_idempotency) [
    | some prior ↦
        throw_if (not (same_event_intent p prior e)) (validation_error decision_reused)
        >> ok (current, s)
    | none ↦ resolve_new p case_id expected next e d current s
  ]

unfoldable pub list_events : MemoryScope → String → ReviewState → List SemanticReviewEvent
list_events scope case_id s = elim (M.get case_id s.cases) [
  | none ↦ B.[]
  | some c ↦
      if same_scope c.scope scope
      then sort_by (λ left right. leb left.case_version right.case_version) (case_events case_id s)
      else B.[]
]

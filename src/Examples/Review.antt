-- ===== src/Examples/Review.antt =====
-- Runs of the review queue.
use digital_life_memory_fabr.Base.{
  String, length, ap, sym, ◌∙◌, arith, eq_iff, eq_refl, text_cases, [], ◌∷◌, some, ◌≡◌, refl, ◌⊎◌,
  inl, inr, is_given, or_else,
}
use digital_life_memory_fabr.Base.JsMap as M
use digital_life_memory_fabr.Base.Text.{is_blank, trim, trim_start, trim_end}
use digital_life_memory_fabr.Domain.Platform.{nat, positive_integer}
use digital_life_memory_fabr.Domain.Json.{text_le}
use digital_life_memory_fabr.Domain.Errors.{ok}
use digital_life_memory_fabr.Domain.Scope.{same_scope, scope_key}
use digital_life_memory_fabr.Curation.{MemoryCurationRecord, pending_review}
use digital_life_memory_fabr.Review.{
  SemanticReviewCase, SemanticReviewEvent, SemanticReviewResolutionRequest, SemanticReviewTrigger,
  SemanticReviewDisposition, is_resolved_status, is_pending_status, is_enqueued,
  is_policy_superseded, needs_more, disposition_name, normalize_identifiers, unique_after,
}
use digital_life_memory_fabr.Review.Queue.{
  ReviewState, empty_reviews, enqueue, enqueue_accepts, existing_case, put_case, get_case,
  get_event_by_idempotency_key, review_key, review_scope_key, reviewer_identified, names_actor,
  case_events, same_texts,
}
use digital_life_memory_fabr.Review.Service.{
  decide, validate_ruling, normalized_reviewer, trimmed, current_case, Ruling, replay_decision,
  same_decision, next_case, decision_of, decision_event, allowed_disposition,
}
use digital_life_memory_fabr.Review.Enqueue.{unique_non_empty, no_texts, new_case, enqueued_event}
use digital_life_memory_fabr.Review.Versions.{Governed, empty_reviews-Governed}
use digital_life_memory_fabr.Review.Final.{
  ReviewHistory, review_start, review_then, case_enqueued, Later, ReviewHistory-Governed,
  ReviewHistory-Later, resolved_case_stays,
}
use digital_life_memory_fabr.Review.Decides.{Decided, decide-Decided, decide_succeeds}
use digital_life_memory_fabr.Examples.{platform, scope, author}
use digital_life_memory_fabr.Examples.Curation.{curation}

abbrev doubtful : MemoryCurationRecord
doubtful = record curation { outcome = pending_review }

abbrev open_case : SemanticReviewCase
open_case =
    record (new_case platform "09:00" doubtful SemanticReviewTrigger.pending_review
      ("durable" ∷ [])) { case_id = "semrev_1" }

abbrev opened : SemanticReviewEvent
opened = record (enqueued_event platform "09:00" doubtful SemanticReviewTrigger.pending_review) {
  case_id = "semrev_1";
}

abbrev with_case : ReviewState
with_case = put_case open_case opened empty_reviews

case_put : enqueue platform open_case opened empty_reviews ≡ ok (open_case, with_case)
unfolding enqueue enqueue_accepts existing_case new_case enqueued_event is_pending_status is_given
    is_enqueued same_scope scope_key M.get
case_put = refl

case_history : ReviewHistory platform empty_reviews with_case
case_history =
    review_then empty_reviews empty_reviews with_case (review_start empty_reviews)
      (case_enqueued open_case opened empty_reviews open_case with_case case_put)

ReviewHistory-Governed_example : Governed with_case
ReviewHistory-Governed_example =
    ReviewHistory-Governed platform empty_reviews with_case case_history empty_reviews-Governed

with_case-Governed : Governed with_case
with_case-Governed =
    ReviewHistory-Governed platform empty_reviews with_case case_history empty_reviews-Governed

ReviewHistory-Later_example : Later empty_reviews with_case
ReviewHistory-Later_example =
    ReviewHistory-Later platform empty_reviews with_case empty_reviews-Governed case_history

abbrev confirmation : SemanticReviewResolutionRequest
confirmation = record {
  case_id = "semrev_1";
  scope = scope;
  expected_version = nat 1;
  idempotency_key = "decide-1";
  disposition = SemanticReviewDisposition.confirmed_unrelated;
  reviewer = record author { agent_id = some " reviewer " };
  evidence_ids = "curation:cur_1" ∷ [];
  reason_codes = "other topic" ∷ [];
}

abbrev ruling : Ruling
ruling = record {
  expected = 1;
  reviewer = record author { agent_id = some "reviewer" };
  evidence_ids = "curation:cur_1" ∷ [];
  reason_codes = "other topic" ∷ [];
}

confirm_valid : validate_ruling confirmation ≡ ok ruling
unfolding validate_ruling positive_integer is_blank reviewer_identified names_actor
    normalized_reviewer trimmed trim trim_start trim_end unique_non_empty no_texts
    normalize_identifiers unique_after
confirm_valid = refl

confirm_found : current_case confirmation ruling with_case ≡ ok open_case
unfolding current_case get_case put_case new_case same_scope scope_key is_policy_superseded M.get
    M.set
confirm_found = refl

decide_succeeds_example :
    (s' : ReviewState) × (decide platform "10:00" confirmation with_case with_case with_case
      ≡ ok (next_case open_case (decision_of platform "10:00" confirmation ruling), s'))
unfolding new_case is_resolved_status allowed_disposition get_event_by_idempotency_key put_case
    text_le M.get
decide_succeeds_example =
    decide_succeeds platform "10:00" confirmation ruling with_case open_case with_case-Governed
      confirm_valid confirm_found refl refl refl refl refl refl

confirm_done :
    (s' : ReviewState) × (decide platform "10:00" confirmation with_case with_case with_case
      ≡ ok (next_case open_case (decision_of platform "10:00" confirmation ruling), s'))
unfolding new_case is_resolved_status allowed_disposition get_event_by_idempotency_key put_case
    text_le M.get
confirm_done =
    decide_succeeds platform "10:00" confirmation ruling with_case open_case with_case-Governed
      confirm_valid confirm_found refl refl refl refl refl refl

abbrev closed_case : SemanticReviewCase
closed_case = next_case open_case (decision_of platform "10:00" confirmation ruling)

abbrev closing : SemanticReviewEvent
closing = decision_event platform open_case (decision_of platform "10:00" confirmation ruling)

decide-Decided_example :
    ((M.get "semrev_1" with_case.cases ≡ some closed_case) × (confirm_done.0 ≡ with_case))
    ⊎ Decided platform "10:00" confirmation with_case closed_case confirm_done.0
decide-Decided_example =
    decide-Decided platform "10:00" confirmation with_case with_case with_case closed_case
      confirm_done.0 with_case-Governed confirm_done.1

abbrev closed : ReviewState
closed = record {
  cases = ("semrev_1", closed_case) ∷ [];
  case_by_curation_record = ("cur_1", "semrev_1") ∷ [];
  events = ("semrev_1", opened ∷ closing ∷ []) ∷ [];
  events_by_idempotency = (review_key scope "decide-1", closing) ∷ [];
}

get_single {ℓ} :
    {V : Type ℓ} (k id : String) (v x : V) → M.get id ((k, v) ∷ []) ≡ some x → (k ≡ id) × (v ≡ x)
unfolding M.get
get_single k id v x h = elim (text_cases k id) [
  | inl e ↦ (e, ground (arith, eq_iff k id))
  | inr ne ↦ absurd (ground (arith, ne))
]

closed-Governed : Governed closed
unfolding new_case next_case case_events or_else M.get
closed-Governed = record {
  own_id = λ id c h.
      let (e, is) = get_single "semrev_1" id closed_case c h in
      ap (λ (x : SemanticReviewCase). x.case_id) (sym is) ∙ e;
  counted = λ id c h.
      let (e, is) = get_single "semrev_1" id closed_case c h in
      ap (λ k. length (case_events k closed)) (sym e)
      ∙ ap (λ (x : SemanticReviewCase). x.version) is;
  nothing_written = λ id c h.
      let (_, is) = get_single "semrev_1" id closed_case c h in
      ap (λ (x : SemanticReviewCase). x.canonical_write_performed) (sym is);
  linked = λ record_id id h.
      let (_, is) = get_single "cur_1" record_id "semrev_1" id h in
      (closed_case, ap (λ k. M.get k closed.cases) (sym is));
}

closed_found : current_case confirmation ruling closed ≡ ok closed_case
unfolding current_case get_case new_case next_case same_scope scope_key is_policy_superseded M.get
closed_found = refl

decided_again : decide platform "11:00" confirmation closed closed closed ≡ ok (closed_case, closed)
unfolding decide replay_decision get_event_by_idempotency_key get_case same_decision same_texts
    decision_event decision_of new_case next_case same_scope scope_key review_key review_scope_key
    disposition_name normalize_identifiers unique_after trim trim_start trim_end M.get
decided_again = rw (confirm_valid, decide, closed_found, eq_refl, eq_refl, eq_refl) refl

resolved_case_stays_example : (closed_case ≡ closed_case) × (closed ≡ closed)
unfolding next_case decision_of needs_more is_resolved_status M.get
resolved_case_stays_example =
    resolved_case_stays platform "11:00" confirmation closed closed closed closed closed_case
      closed_case closed-Governed (review_start closed) refl refl decided_again

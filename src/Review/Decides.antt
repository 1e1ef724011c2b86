-- ===== src/Review/Decides.antt =====
-- What a decision writes, and when it is accepted.
use digital_life_memory_fabr.Base.{
  ◌+◌, Bool, true, false, String, none, some, ◌≡◌, refl, ap, sym, ◌∙◌, arith, ◌⊎◌, inl, inr, ◌==◌,
  ◌&&◌, any, eq_refl, eqb, eq_iff, eqb_refl, eqb_iff, Option-cases, if◌then◌else◌,
}
use Prim.Native.String as Str
use digital_life_memory_fabr.Base.JsMap as M
use digital_life_memory_fabr.Domain.Json.{text_le}
use digital_life_memory_fabr.Domain.Platform.{Platform, positive_integer, stable_stringify}
use digital_life_memory_fabr.Domain.Encode.{texts_json}
use digital_life_memory_fabr.Domain.Scope.{MemoryScope, same_scope, scope_key}
use digital_life_memory_fabr.Domain.Errors.{ok, Result-cases}
use digital_life_memory_fabr.Review.{
  SemanticReviewCase, SemanticReviewStatus, SemanticReviewDecision, SemanticReviewResolutionRequest,
  is_resolved_status, is_deferred_status, is_deferred_event, is_resolved_event, needs_more,
  immutable_resolution_case, immutable_fields, decision_json,
}
use digital_life_memory_fabr.Review.Queue.{
  ReviewState, resolve, resolve_new, write_resolution, review_key, resolution_accepts,
  decision_fits, status_fits, same_texts, same_decision_json, reviewer_identified, get_case,
  get_event_by_idempotency_key,
}
use digital_life_memory_fabr.Review.Service.{
  decide, decide_new, validate_ruling, current_case, Ruling, next_case, decision_event, decision_of,
  allowed_disposition, normalized_reviewer,
}
use digital_life_memory_fabr.Review.Enqueue.{unique_non_empty}
use digital_life_memory_fabr.Review.Versions.{Governed, resolve-eq-ok, resolution-parts}
use digital_life_memory_fabr.Review.Final.{decide-eq-ok, current_case-eq-ok}

-- The write of a decision: the case before and after.
pub record Decided (p : Platform) (now : String) (request : SemanticReviewResolutionRequest)
    (s : ReviewState) (after : SemanticReviewCase) (s' : ReviewState) : Type 0 where
  pub before : SemanticReviewCase
  pub ruling : Ruling
  pub stored : M.get request.case_id s.cases ≡ some before
  pub valid : validate_ruling request ≡ ok ruling
  pub expected : positive_integer request.expected_version ≡ some before.version
  pub written : M.get request.case_id s'.cases ≡ some after
  pub up : after.version ≡ before.version + 1
  pub allowed : allowed_disposition after.trigger request.disposition ≡ true
  pub status : after.status ≡ (
      if needs_more request.disposition
      then SemanticReviewStatus.deferred
      else SemanticReviewStatus.resolved)
  pub decision : after.latest_decision ≡ some (decision_of p now request ruling)
  pub others :
      (id : String) → (request.case_id == id) ≡ false → M.get id s'.cases ≡ M.get id s.cases

validated-version :
    (request : SemanticReviewResolutionRequest) (ruling : Ruling)
    → validate_ruling request ≡ ok ruling
    → positive_integer request.expected_version ≡ some ruling.expected
unfolding validate_ruling
validated-version request ruling h =
    elim (Option-cases (positive_integer request.expected_version)) [
      | inl e ↦ absurd (ground (arith, e))
      | inr (n, e) ↦ elim (Result-cases (unique_non_empty request.evidence_ids)) [
        | inl (e', failed) ↦ absurd (ground (arith, e, failed))
        | inr (evidence, e') ↦ elim (Result-cases (unique_non_empty request.reason_codes)) [
          | inl (e'', failed) ↦ absurd (ground (arith, e, e', failed))
          | inr (reasons, e'') ↦ e ∙ ap some (ground (arith, e, e', e''))
        ]
      ]
    ]

-- A decision that returns either wrote nothing and returned the stored case, or found the case at
-- the version that the request expected and wrote it at the next one, with the decision of the
-- request as it was validated, deferred if it needs more evidence and resolved otherwise, where the
-- disposition is one that the trigger of the case allows; it wrote no other case.
pub decide-Decided :
    (p : Platform) (now : String) (request : SemanticReviewResolutionRequest)
    (seen keyed s : ReviewState) (c : SemanticReviewCase) (s' : ReviewState)
    → Governed seen
    → decide p now request seen keyed s ≡ ok (c, s')
    → ((M.get request.case_id s.cases ≡ some c) × (s' ≡ s)) ⊎ Decided p now request s c s'
unfolding next_case decision_of write_resolution
decide-Decided p now request seen keyed s c s' g h =
    let done = decide-eq-ok p now request seen keyed s c s' h in
    elim done.effect [
      | inl replay ↦ inl replay
      | inr (open_case, allowed, resolving) ↦
          let own = g.own_id request.case_id done.current done.seen_case in
          let step = resolve-eq-ok p _ _ _ _ s c s' resolving in
          let stored : M.get request.case_id s.cases ≡ some step.current =
            ap (λ k. M.get k s.cases) (sym own) ∙ step.stored in
          elim step.effect [
            | inl (is, same) ↦ inl (stored ∙ ap some (sym is), same)
            | inr (at_n, accepted, is, wrote, _) ↦
                let cases : s'.cases ≡ M.set done.current.case_id c s.cases =
                  ap (λ (x : ReviewState). x.cases) wrote
                  ∙ ap (λ x. M.set done.current.case_id x s.cases) (sym is) in
                inr (record {
                  before = step.current;
                  ruling = done.ruling;
                  stored = stored;
                  valid = done.valid;
                  expected = validated-version request done.ruling done.valid ∙ ap some (sym at_n);
                  written =
                      ap (M.get request.case_id) cases
                      ∙ M.get-set_at done.current.case_id request.case_id c s.cases own;
                  up =
                      ap (λ (x : SemanticReviewCase). x.version) is
                      ∙ ((resolution-parts p _ _ step.current _ _ step.decision accepted).1
                          ∙ ap (λ k. k + 1) (sym at_n));
                  allowed =
                      ap
                        (λ (x : SemanticReviewCase).
                          allowed_disposition x.trigger request.disposition)
                        is
                      ∙ allowed;
                  status = ap (λ (x : SemanticReviewCase). x.status) is;
                  decision = ap (λ (x : SemanticReviewCase). x.latest_decision) is;
                  others = λ id other.
                      ap (M.get id) cases
                      ∙ M.get-set_ne done.current.case_id id c s.cases
                          (ap (λ k. k == id) own ∙ other);
                })
          ]
    ]

validated-reviewer :
    (request : SemanticReviewResolutionRequest) (ruling : Ruling)
    → validate_ruling request ≡ ok ruling
    → ((ruling.reviewer.life_did == request.scope.life_did) ≡ true)
      × (reviewer_identified ruling.reviewer ≡ true)
unfolding validate_ruling normalized_reviewer
validated-reviewer request ruling h =
    elim (Option-cases (positive_integer request.expected_version)) [
      | inl e ↦ absurd (ground (arith, e))
      | inr (n, e) ↦ elim (Result-cases (unique_non_empty request.evidence_ids)) [
        | inl (e', failed) ↦ absurd (ground (arith, e, failed))
        | inr (evidence, e') ↦ elim (Result-cases (unique_non_empty request.reason_codes)) [
          | inl (e'', failed) ↦ absurd (ground (arith, e, e', failed))
          | inr (reasons, e'') ↦ (ground (arith, e, e', e''), ground (arith, e, e', e''))
        ]
      ]
    ]

current_case-evidence :
    (request : SemanticReviewResolutionRequest) (ruling : Ruling) (s : ReviewState)
    (c : SemanticReviewCase)
    → current_case request ruling s ≡ ok c
    → any (λ x. x == Str.◌++◌ "curation:" c.curation_record_id) ruling.evidence_ids ≡ true
unfolding current_case
current_case-evidence request ruling s c h =
    elim (Option-cases (get_case request.scope request.case_id s)) [
      | inl e ↦ absurd (ground (arith, e))
      | inr (x, e) ↦ ground (arith, e)
    ]

next_case-immutable :
    (p : Platform) (c : SemanticReviewCase) (d : SemanticReviewDecision)
    → c.canonical_write_performed ≡ false
    → immutable_resolution_case p (next_case c d) ≡ immutable_resolution_case p c
unfolding next_case immutable_resolution_case immutable_fields
next_case-immutable p c d none_written = simp none_written

both : {a b : Bool} → a ≡ true → b ≡ true → a && b ≡ true
both {a} {b} ha hb = rw (ha, hb) refl

same_text : {s t : String} → s ≡ t → (s == t) ≡ true
same_text {s} {t} e = (eq_iff s t).1 e

module _ (p : Platform) (now : String) (request : SemanticReviewResolutionRequest) (ruling : Ruling)
    (s : ReviewState) (c : SemanticReviewCase) where
  abbrev the_decision : SemanticReviewDecision
  the_decision = decision_of p now request ruling

  decision-status_fits :
      status_fits the_decision (next_case c the_decision) (decision_event p c the_decision) ≡ true
  unfolding status_fits next_case decision_event is_deferred_status is_resolved_status
      is_deferred_event is_resolved_event
  decision-status_fits = ground arith

  decision-resolution_accepts :
      validate_ruling request ≡ ok ruling
      → current_case request ruling s ≡ ok c
      → c.scope ≡ request.scope
      → c.version ≡ ruling.expected
      → c.canonical_write_performed ≡ false
      → text_le c.updated_at now ≡ true
      → resolution_accepts p c.case_id ruling.expected c
          (next_case c the_decision)
          (decision_event p c the_decision)
          the_decision
        ≡ true
  unfolding resolution_accepts decision_fits same_texts same_decision_json decision_of next_case
      decision_event same_scope
  decision-resolution_accepts valid found scope_is version_is none_written onward =
      let (own_life, identified) = validated-reviewer request ruling valid in
      let same_case = same_text (next_case-immutable p c the_decision none_written) in
      let version : eqb (c.version + 1) (ruling.expected + 1) ≡ true =
        (eqb_iff (c.version + 1) (ruling.expected + 1)).1 (ap (λ k. k + 1) version_is) in
      let life : (ruling.reviewer.life_did == c.scope.life_did) ≡ true =
        ap (λ (x : MemoryScope). ruling.reviewer.life_did == x.life_did) scope_is ∙ own_life in
      let same = eq_refl c.case_id in
      let same_decision =
        both (eq_refl the_decision.decision_id)
          (eq_refl (stable_stringify p (decision_json the_decision))) in
      let same_reasons = eq_refl (stable_stringify p (texts_json ruling.reason_codes)) in
      let fields = both (both (both same same_case) version) same_decision in
      let event =
        both
          (both (both (both fields same) (eq_refl (scope_key c.scope))) (eqb_refl (c.version + 1)))
          same_reasons in
      let evidence =
        both (both (both event life) identified) (current_case-evidence request ruling s c found) in
      both (both (both (both evidence (eq_refl now)) (eq_refl now)) onward) decision-status_fits

  decision-resolves :
      resolution_accepts p c.case_id ruling.expected c
          (next_case c the_decision)
          (decision_event p c the_decision)
          the_decision
        ≡ true
      → M.get c.case_id s.cases ≡ some c
      → c.version ≡ ruling.expected
      → c.scope ≡ request.scope
      → get_event_by_idempotency_key request.scope request.idempotency_key s ≡ none
      → (s' : ReviewState) × (resolve p c.case_id ruling.expected
            (next_case c the_decision)
            (decision_event p c the_decision)
            s
          ≡ ok (next_case c the_decision, s'))
  unfolding resolve resolve_new decision_event decision_of get_event_by_idempotency_key
  decision-resolves accepted stored version_is scope_is new =
      let here : M.get (review_key c.scope request.idempotency_key) s.events_by_idempotency ≡ none =
        ap (λ x. M.get (review_key x request.idempotency_key) s.events_by_idempotency) scope_is
        ∙ new in
      let at_version = (eqb_iff c.version ruling.expected).1 version_is in
      elim (Result-cases (
        resolve p c.case_id ruling.expected (next_case c the_decision)
          (decision_event p c the_decision) s)) [
            | inl (e, failed) ↦ absurd (ground (arith, failed, stored, here, at_version, accepted))
            | inr ((x, s'), done) ↦ (
              s',
              done
                  ∙ ap (λ y. ok (y, s')) (ground (arith, done, stored, here, at_version, accepted)),
            )
          ]

-- A decision succeeds: on a case that is not resolved, at the version that it names, with a valid
-- request for a disposition that the trigger of the case allows, with an idempotency key that is
-- new and a clock that has not run back since the case was written, it returns the case in its next
-- version.
pub decide_succeeds :
    (p : Platform) (now : String) (request : SemanticReviewResolutionRequest) (ruling : Ruling)
    (s : ReviewState) (c : SemanticReviewCase)
    → Governed s
    → validate_ruling request ≡ ok ruling
    → current_case request ruling s ≡ ok c
    → c.scope ≡ request.scope
    → c.version ≡ ruling.expected
    → is_resolved_status c.status ≡ false
    → allowed_disposition c.trigger request.disposition ≡ true
    → get_event_by_idempotency_key request.scope request.idempotency_key s ≡ none
    → text_le c.updated_at now ≡ true
    → (s' : ReviewState) × (decide p now request s s s
        ≡ ok (next_case c (decision_of p now request ruling), s'))
unfolding decide decide_new
decide_succeeds p now request ruling s c g valid found scope_is version_is open_case allowed new
      onward =
    let stored = current_case-eq-ok request ruling s c found in
    let own = g.own_id request.case_id c stored in
    let accepted =
      decision-resolution_accepts p now request ruling s c valid found scope_is version_is
        (g.nothing_written request.case_id c stored) onward in
    let (s', resolving) =
      decision-resolves p now request ruling s c accepted (ap (λ k. M.get k s.cases) own ∙ stored)
        version_is scope_is new in
    (s', rw (valid, decide, found, new, open_case, allowed) resolving)

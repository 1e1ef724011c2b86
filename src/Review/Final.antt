-- ===== src/Review/Final.antt =====
-- The histories of the review queue: the versions of a case only go up, and a resolved case stays.
use digital_life_memory_fabr.Base.{
  ℕ, ◌+◌, ◌<◌, true, false, String, none, some, ◌≡◌, refl, ap, sym, ◌∙◌, arith, ◌⊎◌, inl, inr,
  Option-cases, text_cases,
}
use digital_life_memory_fabr.Base.JsMap as M
use digital_life_memory_fabr.Domain.Platform.{Platform}
use digital_life_memory_fabr.Domain.Errors.{ok, Result-cases}
use digital_life_memory_fabr.Review.{
  SemanticReviewCase, SemanticReviewEvent, SemanticReviewResolutionRequest, is_resolved_status,
}
use digital_life_memory_fabr.Review.Queue.{
  ReviewState, enqueue, resolve, get_case, get_event_by_idempotency_key, put_case, write_resolution,
}
use digital_life_memory_fabr.Review.Service.{
  decide, decide_new, replay_decision, validate_ruling, current_case, Ruling, next_case,
  decision_event, decision_of, allowed_disposition,
}
use digital_life_memory_fabr.Review.Versions.{
  Governed, new_case-free, resolve-eq-ok, enqueue-eq-ok, enqueue-Governed, resolve-Governed,
  resolution-parts,
}

-- One write of the queue, whoever asked for it.
pub data ReviewStep (p : Platform) : ReviewState → ReviewState → Type 0 where
  case_enqueued :
      (c : SemanticReviewCase) (e : SemanticReviewEvent) (s : ReviewState) (c' : SemanticReviewCase)
      (s' : ReviewState)
      → enqueue p c e s ≡ ok (c', s')
      → ReviewStep p s s'
  case_resolved :
      (id : String) (expected : ℕ) (next : SemanticReviewCase) (e : SemanticReviewEvent)
      (s : ReviewState) (c : SemanticReviewCase) (s' : ReviewState)
      → resolve p id expected next e s ≡ ok (c, s')
      → ReviewStep p s s'

pub data ReviewHistory (p : Platform) : ReviewState → ReviewState → Type 0 where
  review_start : (s : ReviewState) → ReviewHistory p s s
  review_then :
      (s s' s'' : ReviewState) → ReviewHistory p s s' → ReviewStep p s' s'' → ReviewHistory p s s''

-- The queue keeps its invariant in every history: as many events as the version says, cases under
-- their own ids, links that lead to cases, and no canonical write.
pub ReviewHistory-Governed :
    (p : Platform) (s s' : ReviewState) → ReviewHistory p s s' → Governed s → Governed s'
ReviewHistory-Governed p s _ (review_start _) g = g
ReviewHistory-Governed p s _ (review_then _ s' s'' before (case_enqueued c e _ c' _ h)) g =
    enqueue-Governed p c e s' c' s'' (ReviewHistory-Governed p s s' before g) h
ReviewHistory-Governed p s _ (review_then _ s' s'' before (case_resolved id n next e _ c _ h)) g =
    resolve-Governed p id n next e s' c s'' (ReviewHistory-Governed p s s' before g) h

-- A case of the first state is unchanged in the second, or has a higher version there.
pub Later : ReviewState → ReviewState → Type 0
Later s s' =
    (id : String) (c : SemanticReviewCase)
    → M.get id s.cases ≡ some c
    → (c' : SemanticReviewCase) × (M.get id s'.cases ≡ some c')
      × ((c ≡ c') ⊎ (c.version < c'.version))

Later-refl : (s : ReviewState) → Later s s
unfolding Later
Later-refl s id c h = (c, h, inl refl)

Later-trans : (s s' s'' : ReviewState) → Later s s' → Later s' s'' → Later s s''
unfolding Later
Later-trans s s' s'' f g id c h =
    let (c', h', up) = f id c h in
    let (c'', h'', up') = g id c' h' in
    (
      c'',
      h'',
      elim up [
        | inl e ↦ elim up' [ inl e' ↦ inl (e ∙ e') | inr more ↦ inr (ground (arith, e, more)) ]
        | inr less ↦ elim up' [
          | inl e' ↦ inr (ground (arith, e', less))
          | inr more ↦ inr (omega (arith, less, more))
        ]
      ],
    )

put_case-Later :
    (c : SemanticReviewCase) (e : SemanticReviewEvent) (s : ReviewState)
    → M.get c.case_id s.cases ≡ none
    → Later s (put_case c e s)
unfolding Later put_case
put_case-Later c e s free id x h = (x, M.get-set_fresh c.case_id id c x s.cases free h, inl refl)

write_resolution-Later :
    (id key : String) (current next : SemanticReviewCase) (e : SemanticReviewEvent)
    (s : ReviewState)
    → M.get id s.cases ≡ some current
    → next.version ≡ current.version + 1
    → Later s (write_resolution id next e key s)
unfolding Later write_resolution
write_resolution-Later id key current next e s stored up i x h = elim (text_cases id i) [
  | inl same ↦
      let old : current ≡ x = cc (stored, h, same) in
      (next, M.get-set_at id i next s.cases same, inr (ground (arith, old, up)))
  | inr other ↦ (x, M.get-set_ne id i next s.cases other ∙ h, inl refl)
]

ReviewStep-Later : (p : Platform) (s s' : ReviewState) → Governed s → ReviewStep p s s' → Later s s'
ReviewStep-Later p s s' g (case_enqueued c e _ c' _ h) = elim (enqueue-eq-ok p c e s c' s' h) [
  | inl same ↦ rw same (Later-refl s)
  | inr (new, _, _, written) ↦ rw written (put_case-Later c e s (new_case-free c s g new))
]
ReviewStep-Later p s s' g (case_resolved id n next e _ c _ h) =
    let done = resolve-eq-ok p id n next e s c s' h in
    elim done.effect [
      | inl (_, same) ↦ rw same (Later-refl s)
      | inr (at_n, accepted, _, written, _) ↦
          let (_, up, _) = resolution-parts p id n done.current next e done.decision accepted in
          rw written (
            write_resolution-Later id _ done.current next e s done.stored
              (up ∙ ap (λ k. k + 1) (sym at_n)))
    ]

-- In every history a case of the queue stays there, and is unchanged or has a higher version.
pub ReviewHistory-Later :
    (p : Platform) (s s' : ReviewState) → Governed s → ReviewHistory p s s' → Later s s'
ReviewHistory-Later p s _ g (review_start _) = Later-refl s
ReviewHistory-Later p s _ g (review_then _ s' s'' before step) =
    Later-trans s s' s'' (ReviewHistory-Later p s s' g before)
      (ReviewStep-Later p s' s'' (ReviewHistory-Governed p s s' before g) step)

get_case-eq-some :
    (request : SemanticReviewResolutionRequest) (s : ReviewState) (c : SemanticReviewCase)
    → get_case request.scope request.case_id s ≡ some c
    → M.get request.case_id s.cases ≡ some c
unfolding get_case
get_case-eq-some request s c h = elim (Option-cases (M.get request.case_id s.cases)) [
  | inl e ↦ absurd (ground (arith, e))
  | inr (x, e) ↦ e ∙ ground (arith, e)
]

pub current_case-eq-ok :
    (request : SemanticReviewResolutionRequest) (ruling : Ruling) (seen : ReviewState)
    (current : SemanticReviewCase)
    → current_case request ruling seen ≡ ok current
    → M.get request.case_id seen.cases ≡ some current
unfolding current_case
current_case-eq-ok request ruling seen current h =
    elim (Option-cases (get_case request.scope request.case_id seen)) [
      | inl e ↦ absurd (ground (arith, e))
      | inr (x, e) ↦ get_case-eq-some request seen current (e ∙ ground (arith, e))
    ]

-- What a decision that returned has found, and done.
pub record Decision (p : Platform) (now : String) (request : SemanticReviewResolutionRequest)
    (seen s : ReviewState) (c : SemanticReviewCase) (s' : ReviewState) : Type 0 where
  pub ruling : Ruling
  pub valid : validate_ruling request ≡ ok ruling
  pub current : SemanticReviewCase
  pub seen_case : M.get request.case_id seen.cases ≡ some current
  pub effect :
      ((M.get request.case_id s.cases ≡ some c) × (s' ≡ s))
      ⊎ ((is_resolved_status current.status ≡ false)
          × (allowed_disposition current.trigger request.disposition ≡ true)
          × (resolve p current.case_id ruling.expected
                (next_case current (decision_of p now request ruling))
                (decision_event p current (decision_of p now request ruling))
                s
              ≡ ok (c, s')))

pub decide-eq-ok :
    (p : Platform) (now : String) (request : SemanticReviewResolutionRequest)
    (seen keyed s : ReviewState) (c : SemanticReviewCase) (s' : ReviewState)
    → decide p now request seen keyed s ≡ ok (c, s')
    → Decision p now request seen s c s'
unfolding decide replay_decision decide_new
decide-eq-ok p now request seen keyed s c s' h = elim (Result-cases (validate_ruling request)) [
  | inl (e, failed) ↦ absurd (ground (arith, failed))
  | inr (ruling, valid) ↦ elim (Result-cases (current_case request ruling seen)) [
    | inl (e, failed) ↦ absurd (ground (arith, valid, failed))
    | inr (current, found) ↦ record {
      ruling = ruling;
      valid = valid;
      current = current;
      seen_case = current_case-eq-ok request ruling seen current found;
      effect =
          elim (Option-cases
            (get_event_by_idempotency_key request.scope request.idempotency_key keyed)) [
              | inr (prior, before) ↦
                  elim (Option-cases (get_case request.scope request.case_id s)) [
                    | inl missing ↦ absurd (ground (arith, valid, found, before, missing))
                    | inr (x, here) ↦ inl (
                      get_case-eq-some request s c
                          (here ∙ ground (arith, valid, found, before, here)),
                      ground (arith, valid, found, before, here),
                    )
                  ]
              | inl new ↦ inr (
                ground (arith, valid, found, new),
                ground (arith, valid, found, new),
                ground (arith, valid, found, new),
              )
            ];
    }
  ]
]

-- A case that is resolved stays as it is: a decision on it that returns, whatever its request and
-- whatever was decided since it read the case, returns the stored case and writes nothing.
pub resolved_case_stays :
    (p : Platform) (now : String) (request : SemanticReviewResolutionRequest)
    (seen keyed s s' : ReviewState) (stored c : SemanticReviewCase)
    → Governed seen
    → ReviewHistory p seen s
    → M.get request.case_id s.cases ≡ some stored
    → is_resolved_status stored.status ≡ true
    → decide p now request seen keyed s ≡ ok (c, s')
    → (c ≡ stored) × (s' ≡ s)
unfolding next_case Later
resolved_case_stays p now request seen keyed s s' stored c g history here closed h =
    let done = decide-eq-ok p now request seen keyed s c s' h in
    elim done.effect [
      | inl (found, same) ↦ (cc (found, here), same)
      | inr (open_case, _, resolving) ↦
          let own = g.own_id request.case_id done.current done.seen_case in
          let step = resolve-eq-ok p _ _ _ _ s c s' resolving in
          let current_is : step.current ≡ stored =
            cc (ap (λ k. M.get k s.cases) own, step.stored, here) in
          elim step.effect [
            | inl (is, same) ↦ (is ∙ current_is, same)
            | inr (at_n, accepted, _, _, _) ↦
                let (_, up, _) = resolution-parts p _ _ step.current _ _ step.decision accepted in
                let (later, found, order) =
                  ReviewHistory-Later p seen s g history request.case_id done.current
                    done.seen_case in
                let later_is : later ≡ stored = cc (found, here) in
                elim order [
                  | inl unchanged ↦
                      let open_stored : is_resolved_status stored.status ≡ false =
                        ap (λ (x : SemanticReviewCase). is_resolved_status x.status)
                          (sym (unchanged ∙ later_is))
                        ∙ open_case in
                      absurd (cc (open_stored, closed))
                  | inr older ↦
                      let version_is : later.version ≡ step.current.version =
                        ap (λ (x : SemanticReviewCase). x.version) (later_is ∙ sym current_is) in
                      absurd (omega (arith, up, at_n, version_is, older))
                ]
          ]
    ]

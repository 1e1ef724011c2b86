-- ===== src/Review/Versions.antt =====
-- The invariant of the review queue, and what no sequence of its writes undoes.
use digital_life_memory_fabr.Base.{
  ℕ, ◌+◌, true, false, String, [], ◌∷◌, ◌++◌, none, some, ◌≡◌, ap, sym, ◌∙◌, arith, ◌⊎◌, inl, inr,
  eqb_iff, eq_iff, length, length-append, or_else, Option-cases, Bool-cases, text_cases,
}
use digital_life_memory_fabr.Base.JsMap as M
use digital_life_memory_fabr.Domain.Platform.{Platform}
use digital_life_memory_fabr.Domain.Errors.{ok}
use digital_life_memory_fabr.Review.{
  SemanticReviewCase, SemanticReviewEvent, SemanticReviewDecision,
}
use digital_life_memory_fabr.Review.Queue.{
  ReviewState, empty_reviews, enqueue, enqueue_accepts, existing_case, replay_enqueue, put_case,
  resolve, resolve_new, resolution_accepts, write_resolution, review_key, case_events,
}

-- What a resolution that returned has done: nothing, under a key that has an event, or the write.
pub record ResolutionEffect (p : Platform) (id : String) (expected : ℕ) (next : SemanticReviewCase)
    (e : SemanticReviewEvent) (s : ReviewState) (c : SemanticReviewCase) (s' : ReviewState)
    : Type 0 where
  pub current : SemanticReviewCase
  pub stored : M.get id s.cases ≡ some current
  pub decision : SemanticReviewDecision
  pub bound : e.decision ≡ some decision
  pub effect :
      ((c ≡ current) × (s' ≡ s))
      ⊎ ((current.version ≡ expected)
          × (resolution_accepts p id expected current next e decision ≡ true)
          × (c ≡ next)
          × (s' ≡ write_resolution id next e (review_key current.scope decision.idempotency_key) s)
          × (M.get (review_key current.scope decision.idempotency_key) s.events_by_idempotency
              ≡ none))

pub resolve-eq-ok :
    (p : Platform) (id : String) (expected : ℕ) (next : SemanticReviewCase)
    (e : SemanticReviewEvent) (s : ReviewState) (c : SemanticReviewCase) (s' : ReviewState)
    → resolve p id expected next e s ≡ ok (c, s')
    → ResolutionEffect p id expected next e s c s'
unfolding resolve resolve_new
resolve-eq-ok p id expected next e s c s' h = elim (Option-cases (M.get id s.cases)) [
  | inl missing ↦ absurd (ground (arith, missing))
  | inr (current, stored) ↦ elim (Option-cases e.decision) [
    | inl missing ↦ absurd (ground (arith, stored, missing))
    | inr (d, bound) ↦ record {
      current = current;
      stored = stored;
      decision = d;
      bound = bound;
      effect =
          elim (Option-cases
            (M.get (review_key current.scope d.idempotency_key) s.events_by_idempotency)) [
              | inr (prior, found) ↦
                  inl (ground (arith, stored, bound, found), ground (arith, stored, bound, found))
              | inl new ↦ inr (
                (eqb_iff current.version expected).0 (ground (arith, stored, bound, new)),
                ground (arith, stored, bound, new),
                ground (arith, stored, bound, new),
                ground (arith, stored, bound, new),
                new,
              )
            ];
    }
  ]
]

pub record Accepted (c : SemanticReviewCase) (e : SemanticReviewEvent) : Type 0 where
  pub first_version : c.version ≡ 1
  pub no_write : c.canonical_write_performed ≡ false

enqueue_accepts-Accepted :
    (c : SemanticReviewCase) (e : SemanticReviewEvent) → enqueue_accepts c e ≡ true → Accepted c e
unfolding enqueue_accepts
enqueue_accepts-Accepted c e h = record {
  first_version = (eqb_iff c.version 1).0 (ground arith);
  no_write = ground arith;
}

pub enqueue-eq-ok :
    (p : Platform) (c : SemanticReviewCase) (e : SemanticReviewEvent) (s : ReviewState)
    (c' : SemanticReviewCase) (s' : ReviewState)
    → enqueue p c e s ≡ ok (c', s')
    → (s' ≡ s) ⊎ ((existing_case c s ≡ none) × Accepted c e × (c' ≡ c) × (s' ≡ put_case c e s))
unfolding enqueue replay_enqueue
enqueue-eq-ok p c e s c' s' h = elim (Bool-cases (enqueue_accepts c e)) [
  | inr refused ↦ absurd (ground (arith, refused))
  | inl accepted ↦ elim (Option-cases (existing_case c s)) [
    | inr (existing, found) ↦ inl (ground (arith, accepted, found))
    | inl new ↦ inr (
      new,
      enqueue_accepts-Accepted c e accepted,
      ground (arith, accepted, new),
      ground (arith, accepted, new),
    )
  ]
]

pub resolution-parts :
    (p : Platform) (id : String) (expected : ℕ) (current next : SemanticReviewCase)
    (e : SemanticReviewEvent) (d : SemanticReviewDecision)
    → resolution_accepts p id expected current next e d ≡ true
    → (next.case_id ≡ id) × (next.version ≡ expected + 1) × (next.canonical_write_performed ≡ false)
unfolding resolution_accepts
resolution-parts p id expected current next e d h = (
  (eq_iff next.case_id id).0 (ground arith),
  (eqb_iff next.version (expected + 1)).0 (ground arith),
  ground arith,
)

-- What holds of the queue between two calls: a case stands under its own id, has as many events as
-- its version says and has written nothing canonical, and every link leads to a case.
pub record Governed (s : ReviewState) : Type 0 where
  pub own_id : (id : String) (c : SemanticReviewCase) → M.get id s.cases ≡ some c → c.case_id ≡ id
  pub counted :
      (id : String) (c : SemanticReviewCase)
      → M.get id s.cases ≡ some c
      → length (case_events id s) ≡ c.version
  pub nothing_written :
      (id : String) (c : SemanticReviewCase)
      → M.get id s.cases ≡ some c
      → c.canonical_write_performed ≡ false
  pub linked :
      (record_id id : String)
      → M.get record_id s.case_by_curation_record ≡ some id
      → (c : SemanticReviewCase) × (M.get id s.cases ≡ some c)

pub empty_reviews-Governed : Governed empty_reviews
unfolding M.get
empty_reviews-Governed = record {
  own_id = λ id c h. absurd (ground arith);
  counted = λ id c h. absurd (ground arith);
  nothing_written = λ id c h. absurd (ground arith);
  linked = λ record_id id h. absurd (ground arith);
}

-- Where no case is found for a governed queue, none has the id.
pub new_case-free :
    (c : SemanticReviewCase) (s : ReviewState)
    → Governed s
    → existing_case c s ≡ none
    → M.get c.case_id s.cases ≡ none
unfolding existing_case
new_case-free c s g h = elim (Option-cases (M.get c.curation_record_id s.case_by_curation_record)) [
  | inl e ↦ ground (arith, e)
  | inr (prior, e) ↦
      let (found, stored) = g.linked c.curation_record_id prior e in
      absurd (ground (arith, e, stored))
]

-- A link that is still there after a case is set.
linked-set :
    (id id' : String) (c : SemanticReviewCase) (s : ReviewState)
    → (x : SemanticReviewCase) × (M.get id' s.cases ≡ some x)
    → (x : SemanticReviewCase) × (M.get id' (M.set id c s.cases) ≡ some x)
linked-set id id' c s (x, stored) = elim (text_cases id id') [
  | inl e ↦ (c, M.get-set_at id id' c s.cases e)
  | inr ne ↦ (x, M.get-set_ne id id' c s.cases ne ∙ stored)
]

put_case-Governed :
    (c : SemanticReviewCase) (e : SemanticReviewEvent) (s : ReviewState)
    → Governed s
    → Accepted c e
    → Governed (put_case c e s)
unfolding put_case case_events or_else
put_case-Governed c e s g accepted = record {
  own_id = λ id x h. elim (M.get-set_cases c.case_id id c x s.cases h) [
    | inl (same, is) ↦ ap (λ (y : SemanticReviewCase). y.case_id) (sym is) ∙ same
    | inr (_, old) ↦ g.own_id id x old
  ];
  counted = λ id x h. elim (M.get-set_cases c.case_id id c x s.cases h) [
    | inl (same, is) ↦
        ap (λ o. length (or_else o [])) (M.get-set_at c.case_id id (e ∷ []) s.events same)
        ∙ (sym accepted.first_version ∙ ap (λ (y : SemanticReviewCase). y.version) is)
    | inr (other, old) ↦
        ap (λ o. length (or_else o [])) (M.get-set_ne c.case_id id (e ∷ []) s.events other)
        ∙ g.counted id x old
  ];
  nothing_written = λ id x h. elim (M.get-set_cases c.case_id id c x s.cases h) [
    | inl (same, is) ↦
        ap (λ (y : SemanticReviewCase). y.canonical_write_performed) (sym is) ∙ accepted.no_write
    | inr (_, old) ↦ g.nothing_written id x old
  ];
  linked = λ record_id id h.
      elim (M.get-set_cases c.curation_record_id record_id c.case_id id s.case_by_curation_record
        h) [
          | inl (_, is) ↦ (c, M.get-set_at c.case_id id c s.cases is)
          | inr (_, old) ↦ linked-set c.case_id id c s (g.linked record_id id old)
        ];
}

write_resolution-Governed :
    (id key : String) (n : ℕ) (current next : SemanticReviewCase) (e : SemanticReviewEvent)
    (s : ReviewState)
    → Governed s
    → M.get id s.cases ≡ some current
    → current.version ≡ n
    → next.case_id ≡ id
    → next.version ≡ n + 1
    → next.canonical_write_performed ≡ false
    → Governed (write_resolution id next e key s)
unfolding write_resolution case_events or_else
write_resolution-Governed id key n current next e s g stored at_n own up no_write =
    let events = case_events id s ++ e ∷ [] in
    let longer : length events ≡ next.version =
      length-append (case_events id s) (e ∷ [])
      ∙ (ap (λ k. k + 1) (g.counted id current stored ∙ at_n) ∙ sym up) in
    record {
      own_id = λ i x h. elim (M.get-set_cases id i next x s.cases h) [
        | inl (same, is) ↦ ap (λ (y : SemanticReviewCase). y.case_id) (sym is) ∙ (own ∙ same)
        | inr (_, old) ↦ g.own_id i x old
      ];
      counted = λ i x h. elim (M.get-set_cases id i next x s.cases h) [
        | inl (same, is) ↦
            ap (λ o. length (or_else o [])) (M.get-set_at id i events s.events same)
            ∙ (longer ∙ ap (λ (y : SemanticReviewCase). y.version) is)
        | inr (other, old) ↦
            ap (λ o. length (or_else o [])) (M.get-set_ne id i events s.events other)
            ∙ g.counted i x old
      ];
      nothing_written = λ i x h. elim (M.get-set_cases id i next x s.cases h) [
        | inl (same, is) ↦
            ap (λ (y : SemanticReviewCase). y.canonical_write_performed) (sym is) ∙ no_write
        | inr (_, old) ↦ g.nothing_written i x old
      ];
      linked = λ record_id i h. linked-set id i next s (g.linked record_id i h);
    }

pub enqueue-Governed :
    (p : Platform) (c : SemanticReviewCase) (e : SemanticReviewEvent) (s : ReviewState)
    (c' : SemanticReviewCase) (s' : ReviewState)
    → Governed s
    → enqueue p c e s ≡ ok (c', s')
    → Governed s'
enqueue-Governed p c e s c' s' g h = elim (enqueue-eq-ok p c e s c' s' h) [
  | inl same ↦ rw same g
  | inr (_, accepted, _, written) ↦ rw written (put_case-Governed c e s g accepted)
]

pub resolve-Governed :
    (p : Platform) (id : String) (expected : ℕ) (next : SemanticReviewCase)
    (e : SemanticReviewEvent) (s : ReviewState) (c : SemanticReviewCase) (s' : ReviewState)
    → Governed s
    → resolve p id expected next e s ≡ ok (c, s')
    → Governed s'
resolve-Governed p id expected next e s c s' g h =
    let done = resolve-eq-ok p id expected next e s c s' h in
    elim done.effect [
      | inl (_, same) ↦ rw same g
      | inr (at_n, accepted, _, written, _) ↦
          let (own, up, no_write) =
            resolution-parts p id expected done.current next e done.decision accepted in
          rw written (
            write_resolution-Governed id _ expected done.current next e s g done.stored at_n own up
              no_write)
    ]

-- ===== src/Candidates/Ingested.antt =====
-- What an ingested candidate is, and what its ingest writes.
use digital_life_memory_fabr.Base.{
  is_given, ℕ, ◌≤◌, true, false, String, Option, none, some, ◌≡◌, refl, arith, inl, inr,
  Option-cases, Bool-cases, eq_iff, ap, ◌∙◌, zero, suc,
}
use digital_life_memory_fabr.Domain.Platform.{
  positive_integer, Platform, Number, nat, negative, other,
}
use digital_life_memory_fabr.Domain.Memory.{
  CandidateInput, MemoryCandidate, CandidateStatus, create, same_operation,
}
use digital_life_memory_fabr.Domain.Errors.{ok, err, FabricError, Result-cases}
use digital_life_memory_fabr.Store.{InMemoryState, put_candidate, get_candidate, transaction}
use digital_life_memory_fabr.Verification.{window_intact, bound_time, is_nan, ends_before}
use digital_life_memory_fabr.Candidates.{ingest, IngestDraw, build_candidate, base_head}
use digital_life_memory_fabr.Candidates.Validation.{
  validate_input, validate_texts, validate_producer, validate_admission, validate_source_refs,
  validate_times, validate_timestamp, validate_base, or_no_refs, no_evidence, outside_unit,
  reversed,
}
use digital_life_memory_fabr.Base.JsMap as M
use digital_life_memory_fabr.History.{History, start, then_step, candidate_put}

-- A call of `ingest` that returned: what it validated, returned and wrote.
pub record Ingest (p : Platform) (draw : IngestDraw) (input : CandidateInput)
    (seen s : InMemoryState) (c : MemoryCandidate) (s' : InMemoryState) : Type 0 where
  pub base : Option ℕ
  pub valid : validate_input p input ≡ ok base
  pub built : c ≡ build_candidate p draw input base (base_head input seen)
  pub stored : s' ≡ put_candidate c s

pub ingest-eq-ok :
    (p : Platform) (draw : IngestDraw) (input : CandidateInput) (seen s : InMemoryState)
    (c : MemoryCandidate) (s' : InMemoryState)
    → ingest p draw input seen s ≡ (ok c, s')
    → Ingest p draw input seen s c s'
unfolding ingest transaction
ingest-eq-ok p draw input seen s c s' h = elim (Result-cases (validate_input p input)) [
  | inl (e, failed) ↦ absurd (ground (arith, failed))
  | inr (base, valid) ↦ record {
    base = base;
    valid = valid;
    built = ground (arith, valid);
    stored = ground (arith, valid);
  }
]

-- The parts that every valid input has passed.
pub record Valid (p : Platform) (input : CandidateInput) (base : Option ℕ) : Type 0 where
  pub texts : validate_texts input ≡ ok tt
  pub own_origin : input.origin.life_did ≡ input.scope.life_did
  pub evidence : no_evidence input.evidence_refs ≡ false
  pub confidence : outside_unit input.confidence ≡ false
  pub producer : validate_producer input.producer ≡ ok tt
  pub admission : validate_admission input input.canonical_admission ≡ ok tt
  pub source_refs : validate_source_refs (or_no_refs input.source_experience_refs) ≡ ok tt
  pub times : validate_times p input ≡ ok tt
  pub base_checked : validate_base input ≡ ok base

pub validate_input-Valid :
    (p : Platform) (input : CandidateInput) (base : Option ℕ)
    → validate_input p input ≡ ok base
    → Valid p input base
unfolding validate_input
validate_input-Valid p input base h = record {
  texts = ground arith;
  own_origin = ground (arith, eq_iff input.origin.life_did input.scope.life_did);
  evidence = ground arith;
  confidence = ground arith;
  producer = ground arith;
  admission = ground arith;
  source_refs = ground arith;
  times = ground arith;
  base_checked = ground arith;
}

window_of_times :
    (p : Platform) (f u : Option String) (from until : Option ℕ)
    → validate_timestamp p f ≡ ok from
    → validate_timestamp p u ≡ ok until
    → reversed from until ≡ false
    → window_intact (bound_time p f) (bound_time p u) ≡ true
unfolding validate_timestamp window_intact bound_time is_nan ends_before reversed
window_of_times p none none from until hf hu h = refl
window_of_times p (some f) none from until hf hu h = elim (Option-cases (p.date_parse f)) [
  | inl e ↦ absurd (ground (arith, e))
  | inr (a, e) ↦ ground (arith, e)
]
window_of_times p none (some u) from until hf hu h = elim (Option-cases (p.date_parse u)) [
  | inl e ↦ absurd (ground (arith, e))
  | inr (b, e) ↦ ground (arith, e)
]
window_of_times p (some f) (some u) from until hf hu h = elim (Option-cases (p.date_parse f)) [
  | inl e ↦ absurd (ground (arith, e))
  | inr (a, ea) ↦ elim (Option-cases (p.date_parse u)) [
    | inl e ↦ absurd (ground (arith, e))
    | inr (b, eb) ↦ ground (arith, ea, eb)
  ]
]

-- The window of a valid input is one that the verifier takes for intact.
pub validate_times-window :
    (p : Platform) (input : CandidateInput)
    → validate_times p input ≡ ok tt
    → window_intact (bound_time p input.valid_from) (bound_time p input.valid_until) ≡ true
unfolding validate_times
validate_times-window p input h = elim (Result-cases (validate_timestamp p input.observed_at)) [
  | inl (e, failed) ↦ absurd (ground (arith, failed))
  | inr (observed, eo) ↦ elim (Result-cases (validate_timestamp p input.valid_from)) [
    | inl (e, failed) ↦ absurd (ground (arith, eo, failed))
    | inr (from, ef) ↦ elim (Result-cases (validate_timestamp p input.valid_until)) [
      | inl (e, failed) ↦ absurd (ground (arith, eo, ef, failed))
      | inr (until, eu) ↦
          window_of_times p input.valid_from input.valid_until from until ef eu
            (ground (arith, eo, ef, eu))
    ]
  ]
]

-- What a candidate says of the revision that it builds on.
pub data Based : MemoryCandidate → Type 0 where
  creates :
      {c : MemoryCandidate}
      → same_operation c.proposed_operation create ≡ true
      → c.base_memory_id ≡ none
      → c.base_revision ≡ none
      → Based c
  changes :
      {c : MemoryCandidate} (id : String) (n : ℕ)
      → same_operation c.proposed_operation create ≡ false
      → c.base_memory_id ≡ some id
      → c.base_revision ≡ some n
      → 1 ≤ n
      → Based c

positive_integer-positive : (x : Number) (n : ℕ) → positive_integer x ≡ some n → 1 ≤ n
unfolding positive_integer
positive_integer-positive (nat zero) n h = absurd (ground arith)
positive_integer-positive (nat (suc m)) n h = ground arith
positive_integer-positive (negative m) n h = absurd (ground arith)
positive_integer-positive other n h = absurd (ground arith)

validate_base-Based :
    (input : CandidateInput) (base : Option ℕ) (c : MemoryCandidate)
    → validate_base input ≡ ok base
    → c.proposed_operation ≡ input.proposed_operation
    → c.base_memory_id ≡ input.base_memory_id
    → c.base_revision ≡ base
    → Based c
unfolding validate_base is_given
validate_base-Based input base c h eo ei er =
    elim (Bool-cases (same_operation input.proposed_operation create)) [
      | inl created ↦ elim (Option-cases input.base_memory_id) [
        | inl none_id ↦
            creates (ap (λ o. same_operation o create) eo ∙ created) (ei ∙ none_id)
              (er ∙ ground (arith, created, none_id))
        | inr (id, e) ↦ absurd (ground (arith, created, e))
      ]
      | inr changed ↦ elim (Option-cases input.base_memory_id) [
        | inl none_id ↦ absurd (ground (arith, changed, none_id))
        | inr (id, e) ↦ elim (Option-cases input.base_revision) [
          | inl e' ↦ absurd (ground (arith, changed, e, e'))
          | inr (given, e') ↦ elim (Option-cases (positive_integer given)) [
            | inl e'' ↦ absurd (ground (arith, changed, e, e', e''))
            | inr (n, e'') ↦
                changes id n (ap (λ o. same_operation o create) eo ∙ changed) (ei ∙ e)
                  (er ∙ ground (arith, changed, e, e', e'')) (positive_integer-positive given n e'')
          ]
        ]
      ]
    ]

-- What the authority and the verifier may rely on of a candidate that was ingested.
pub record Proposal (p : Platform) (input : CandidateInput) (c : MemoryCandidate)
    (s s' : InMemoryState) : Type 0 where
  pub written : s' ≡ record s { candidates = M.set c.candidate_id c s.candidates }
  pub kept : get_candidate c.candidate_id s' ≡ some c
  pub is_pending : c.status ≡ CandidateStatus.pending
  pub same_scope : c.scope ≡ input.scope
  pub same_content : c.proposed_content ≡ input.proposed_content
  pub own_origin : c.origin.life_did ≡ c.scope.life_did
  pub evidence : no_evidence c.evidence_refs ≡ false
  pub window : window_intact (bound_time p c.valid_from) (bound_time p c.valid_until) ≡ true
  pub based : Based c

-- An ingest that returns a candidate has written it, pending and under its id, and nothing else.
-- The candidate has the scope and the content of the input, an origin of its own life, evidence, a
-- window of validity that the verifier takes for intact, and a base revision, of at least 1, if and
-- only if it does not create a memory.
pub ingest-Proposal :
    (p : Platform) (draw : IngestDraw) (input : CandidateInput) (seen s : InMemoryState)
    (c : MemoryCandidate) (s' : InMemoryState)
    → ingest p draw input seen s ≡ (ok c, s')
    → Proposal p input c s s'
unfolding build_candidate put_candidate get_candidate
ingest-Proposal p draw input seen s c s' h =
    let done = ingest-eq-ok p draw input seen s c s' h in
    let valid = validate_input-Valid p input done.base done.valid in
    record {
      written = done.stored;
      kept = rw done.stored (M.get-set_self c.candidate_id c s.candidates);
      is_pending = rw done.built refl;
      same_scope = rw done.built refl;
      same_content = rw done.built refl;
      own_origin = rw done.built valid.own_origin;
      evidence = rw done.built valid.evidence;
      window = rw done.built (validate_times-window p input valid.times);
      based =
          validate_base-Based input done.base c valid.base_checked (rw done.built refl)
            (rw done.built refl) (rw done.built refl);
    }

-- An ingest that returns an error leaves the store as it was.
pub ingest_error_unchanged :
    (p : Platform) (draw : IngestDraw) (input : CandidateInput) (seen s : InMemoryState)
    → (e : FabricError) (s' : InMemoryState) → ingest p draw input seen s ≡ (err e, s')
    → s' ≡ s
unfolding ingest transaction
ingest_error_unchanged p draw input seen s e s' h = elim (Result-cases (validate_input p input)) [
  | inl (e', failed) ↦ ground (arith, failed)
  | inr (base, valid) ↦ absurd (ground (arith, valid))
]

-- Whatever an ingest returns, under an id that the store has not it is a step of the histories: all
-- that holds of them holds with ingests among their calls.
pub ingest-History :
    (p : Platform) (draw : IngestDraw) (input : CandidateInput) (seen s : InMemoryState)
    → get_candidate draw.candidate_id s ≡ none
    → History p s (ingest p draw input seen s).1
unfolding ingest transaction build_candidate
ingest-History p draw input seen s fresh = elim (Result-cases (validate_input p input)) [
  | inl (e, failed) ↦ rw (failed, ingest) (start s)
  | inr (base, valid) ↦
      rw (valid, ingest)
        (then_step s s _ (start s)
          (candidate_put (build_candidate p draw input base (base_head input seen)) s fresh))
]

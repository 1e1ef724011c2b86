-- ===== src/Candidates/Created.antt =====
-- The candidate that a valid input for a new memory becomes: in the words and with the parts that the
-- verifier asks of a memory.
use digital_life_memory_fabr.Base.{
  or_else, ℕ, Bool, true, false, String, Option, none, some, ◌≡◌, refl, arith, inl, inr,
  Option-cases, ◌==◌, if◌then◌else◌,
}
use digital_life_memory_fabr.Base.Text.{slice_from, is_blank, is_blank-append}
use digital_life_memory_fabr.Domain.Platform.{Platform, sha256, stable_stringify}
use digital_life_memory_fabr.Domain.Memory.{
  CandidateInput, MemoryCandidate, MemoryProducer, ProducerKind,
}
use digital_life_memory_fabr.Domain.Errors.{ok, throw_if-eq-ok}
use digital_life_memory_fabr.Authority.Plan.{CommitDraw, create_plan}
use digital_life_memory_fabr.Authority.Commit.{build_revision}
use digital_life_memory_fabr.Verification.{
  vocabulary_intact, has_text, valid_memory_types, valid_speaker_provenance,
  valid_epistemic_statuses, starts_later, ended, bound_time,
}
use digital_life_memory_fabr.Verification.Committed.{Presentable}
use digital_life_memory_fabr.Candidates.{
  IngestDraw, build_candidate, default_memory_type, default_speaker_provenance, speaker_of_kind,
  resolved_memory_type, resolved_semantic_key, candidate_semantic_fingerprint, fingerprint_json,
  ingress_producer,
}
use digital_life_memory_fabr.Candidates.Validation.{
  validate_texts, validate_producer, require_non_empty, require_if_given,
}
use digital_life_memory_fabr.Candidates.Ingested.{Valid, validate_times-window}

-- The words that the types of the input allow, where it gives them, and no fingerprint of its own.
pub record Worded (input : CandidateInput) : Type 0 where
  pub memory_type : (t : String) → input.memory_type ≡ some t → has_text valid_memory_types t ≡ true
  pub speaker :
      (t : String) → input.speaker_provenance ≡ some t → has_text valid_speaker_provenance t ≡ true
  pub epistemic :
      (t : String) → input.epistemic_status ≡ some t → has_text valid_epistemic_statuses t ≡ true
  pub no_fingerprint : input.candidate_fingerprint ≡ none

-- A value that is given, or a default, both of which pass a test.
or_else-passes {ℓ} :
    {A : Type ℓ} (test : A → Bool) (o : Option A) (d : A)
    → ((a : A) → o ≡ some a → test a ≡ true)
    → test d ≡ true
    → test (or_else o d) ≡ true
unfolding or_else
or_else-passes test none d given default = default
or_else-passes test (some a) d given default = given a refl

or_else-absent :
    (o : Option String) (d : String)
    → o ≡ none
    → is_blank d ≡ false
    → is_blank (or_else o d) ≡ false
unfolding or_else
or_else-absent none d e h = h
or_else-absent (some t) d e h = absurd (cc e)

choice-known :
    (a b c d e f : Bool)
    → has_text valid_memory_types (
        if a
        then "preference"
        else if b
        then "relationship"
        else if c
        then "project_state"
        else if d
        then "commitment"
        else if e
        then "habit"
        else if f
        then "event"
        else "general_fact")
      ≡ true
unfolding has_text
choice-known true b c d e f = refl
choice-known false true c d e f = refl
choice-known false false true d e f = refl
choice-known false false false true e f = refl
choice-known false false false false true f = refl
choice-known false false false false false true = refl
choice-known false false false false false false = refl

default_memory_type-known :
    (t : String) → has_text valid_memory_types (default_memory_type t) ≡ true
unfolding default_memory_type
default_memory_type-known t =
    choice-known (t == "preference_candidate") (t == "relationship_candidate")
      (t == "project_state_candidate") (t == "commitment_candidate") (t == "habit_candidate")
      (t == "event_candidate")

speaker_of_kind-known :
    (kind : ProducerKind) → has_text valid_speaker_provenance (speaker_of_kind kind) ≡ true
unfolding speaker_of_kind has_text
speaker_of_kind-known ProducerKind.user = refl
speaker_of_kind-known ProducerKind.system = refl
speaker_of_kind-known ProducerKind.provider = refl
speaker_of_kind-known ProducerKind.runtime = refl
speaker_of_kind-known ProducerKind.imported = refl

fingerprint-present :
    (p : Platform) (input : CandidateInput) (t v k : Option String) (e : String)
    → is_blank (candidate_semantic_fingerprint p input t v k e) ≡ false
unfolding is_blank candidate_semantic_fingerprint sha256
fingerprint-present p input t v k e =
    is_blank-append "sha256:" (p.digest (stable_stringify p (fingerprint_json input t v k e))) refl

-- A valid input names a producer, and a semantic key where it gives one.
valid_producer-present :
    (o : Option MemoryProducer)
    → validate_producer o ≡ ok tt
    → is_blank (or_else o ingress_producer).id ≡ false
unfolding validate_producer require_non_empty or_else is_blank
valid_producer-present none h = refl
valid_producer-present (some m) h = throw_if-eq-ok (is_blank m.id) _ h

valid_key-present :
    (input : CandidateInput) (fingerprint : String)
    → validate_texts input ≡ ok tt
    → is_blank (resolved_semantic_key input none fingerprint) ≡ false
unfolding validate_texts require_if_given require_non_empty resolved_semantic_key or_else is_blank
valid_key-present input fingerprint h = elim (Option-cases input.semantic_key) [
  | inl e ↦ rw (e, or_else) (is_blank-append "exact:" (slice_from 7 fingerprint) refl)
  | inr (k, e) ↦ ground (arith, e)
]

module _ (p : Platform) (draw : IngestDraw) (input : CandidateInput) (base : Option ℕ)
    (valid : Valid p input base) (worded : Worded input) where
  -- The candidate that the input of a new memory becomes.
  abbrev pub created : MemoryCandidate
  created = build_candidate p draw input none none

  created-memory_type : has_text valid_memory_types created.memory_type ≡ true
  unfolding build_candidate resolved_memory_type
  created-memory_type =
      or_else-passes (has_text valid_memory_types) input.memory_type
        (default_memory_type input.candidate_type) worded.memory_type
        (default_memory_type-known input.candidate_type)

  created-speaker : has_text valid_speaker_provenance created.speaker_provenance ≡ true
  unfolding build_candidate default_speaker_provenance
  created-speaker =
      or_else-passes (has_text valid_speaker_provenance) input.speaker_provenance
        (speaker_of_kind (or_else input.producer ingress_producer).kind) worded.speaker
        (speaker_of_kind-known (or_else input.producer ingress_producer).kind)

  created-epistemic : has_text valid_epistemic_statuses created.epistemic_status ≡ true
  unfolding build_candidate has_text
  created-epistemic =
      or_else-passes (has_text valid_epistemic_statuses) input.epistemic_status "uncertain"
        worded.epistemic refl

  created-semantic_key : is_blank created.semantic_key ≡ false
  unfolding build_candidate
  created-semantic_key = valid_key-present input _ valid.texts

  created-fingerprint : is_blank created.candidate_fingerprint ≡ false
  unfolding build_candidate or_else
  created-fingerprint =
      or_else-absent input.candidate_fingerprint _ worded.no_fingerprint
        (fingerprint-present p input _ _ _ _)

  created-producer : is_blank created.producer.id ≡ false
  unfolding build_candidate
  created-producer = valid_producer-present input.producer valid.producer

  created-vocabulary :
      (commit_draw : CommitDraw) (n : ℕ)
      → vocabulary_intact (build_revision p commit_draw created (create_plan commit_draw created) n)
        ≡ true
  unfolding vocabulary_intact build_revision create_plan
  created-vocabulary commit_draw n =
      let memory_type = created-memory_type in
      let speaker = created-speaker in
      let key = created-semantic_key in
      let epistemic = created-epistemic in
      let fingerprint = created-fingerprint in
      let producer = created-producer in
      ground (arith, memory_type, speaker, key, epistemic, fingerprint, producer)

  pub created-Presentable :
      (commit_draw : CommitDraw) (effective : ℕ)
      → starts_later (bound_time p input.valid_from) effective ≡ false
      → ended (bound_time p input.valid_until) effective ≡ false
      → Presentable p commit_draw created (create_plan commit_draw created) effective
  unfolding build_candidate create_plan
  created-Presentable commit_draw effective started lasting = record {
    live = refl;
    fingerprint = refl;
    vocabulary = created-vocabulary commit_draw;
    window = validate_times-window p input valid.times;
    started = started;
    lasting = lasting;
  }

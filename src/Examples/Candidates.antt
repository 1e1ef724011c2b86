-- ===== src/Examples/Candidates.antt =====
-- Runs of the candidate service.
use digital_life_memory_fabr.Base.{is_given, or_else, [], ◌∷◌, none, some, ◌≡◌, refl}
use digital_life_memory_fabr.Base.JsMap as M
use digital_life_memory_fabr.Base.Text.{is_blank}
use digital_life_memory_fabr.Domain.Platform.{positive_integer, nat}
use digital_life_memory_fabr.Domain.Errors.{ok, err, validation_error, bad_base_revision}
use digital_life_memory_fabr.Domain.Memory.{
  CandidateInput, MemoryCandidate, MemoryOperation, same_operation,
}
use digital_life_memory_fabr.Domain.Records.{CanonicalCommitResult}
use digital_life_memory_fabr.Store.{
  InMemoryState, empty_state, put_candidate, get_head, get_commit_result, semantic_collision,
  transaction,
}
use digital_life_memory_fabr.Store.Invariant.{empty_state-WellFormed}
use digital_life_memory_fabr.Authority.Admission.{is_provider}
use digital_life_memory_fabr.Authority.Commit.{commit}
use digital_life_memory_fabr.Verification.{
  verify_one, allow, suppress, revision_integrity, starts_later, ended, bound_time,
}
use digital_life_memory_fabr.Candidates.{ingest, IngestDraw, build_candidate, base_head}
use digital_life_memory_fabr.Candidates.Validation.{
  validate_input, require_non_empty, require_if_given, validate_texts, validate_producer,
  validate_admission, validate_source_refs, validate_times, validate_timestamp, validate_base,
  or_no_refs, no_evidence, outside_unit, reversed,
}
use digital_life_memory_fabr.Candidates.Ingested.{Proposal, ingest-Proposal}
use digital_life_memory_fabr.Candidates.Committed.{
  ingested_memory_shown, blank_fingerprint_suppressed,
}
use digital_life_memory_fabr.Examples.{platform, scope, author, user_producer, first_draw}

abbrev note : CandidateInput
note = record {
  scope = scope;
  origin = author;
  candidate_type = "preference_candidate";
  source_type = "chat";
  source_id = some "turn-7";
  memory_class = "preference";
  memory_kind = "drink";
  memory_type = none;
  speaker_provenance = none;
  semantic_key = some "drink";
  proposed_content = record { text = "likes tea"; payload = none };
  evidence_refs = record { source_type = "chat"; source_ref = "turn-7" } ∷ [];
  epistemic_status = none;
  confidence = none;
  producer = some user_producer;
  source_experience_refs = none;
  candidate_fingerprint = none;
  distillation_policy_version = none;
  provider_run_id = none;
  canonical_admission = none;
  proposed_operation = MemoryOperation.create;
  base_memory_id = none;
  base_revision = none;
  observed_at = none;
  valid_from = some "09:00";
  valid_until = some "11:00";
}

abbrev draw : IngestDraw
draw = record { candidate_id = "cand-1"; now = "09:00" }

note_valid : validate_input platform note ≡ ok none
unfolding validate_input validate_texts require_non_empty require_if_given is_blank no_evidence
    outside_unit validate_producer validate_admission validate_source_refs or_no_refs validate_times
    validate_timestamp reversed validate_base is_given same_operation
note_valid = refl

-- A base revision of zero is refused.
base_refused :
    validate_input platform (record note {
      proposed_operation = MemoryOperation.update;
      base_memory_id = some "mem-1";
      base_revision = some (nat 0);
    })
    ≡ err (validation_error bad_base_revision)
unfolding validate_input validate_texts require_non_empty require_if_given is_blank no_evidence
    outside_unit validate_producer validate_admission validate_source_refs or_no_refs validate_times
    validate_timestamp reversed validate_base is_given same_operation positive_integer
base_refused = refl

abbrev noted : MemoryCandidate
noted = build_candidate platform draw note none none

abbrev with_note : InMemoryState
with_note = put_candidate noted empty_state

note_ingested : ingest platform draw note empty_state empty_state ≡ (ok noted, with_note)
unfolding ingest base_head transaction same_operation
note_ingested = rw (note_valid, ingest) refl

ingest-Proposal_example : Proposal platform note noted empty_state with_note
ingest-Proposal_example =
    ingest-Proposal platform draw note empty_state empty_state noted with_note note_ingested

ingested_memory_shown_example :
    (result : CanonicalCommitResult) × (s'' : InMemoryState) × (commit platform none first_draw
        (record { candidate_id = "cand-1"; idempotency_key = "key-1" })
        with_note
        with_note
      ≡ (ok result, s''))
    × (result.revision.canonical_content ≡ note.proposed_content)
    × (verify_one platform scope 10000 s'' s'' s'' ("mem-1", some 1) ≡ allow result.revision)
unfolding is_blank get_head get_commit_result put_candidate M.get semantic_collision is_provider
    build_candidate or_else starts_later ended bound_time
ingested_memory_shown_example =
    ingested_memory_shown platform none draw first_draw "key-1" note empty_state empty_state
      with_note noted 10000 (empty_state-WellFormed platform) note_ingested
      (record {
        memory_type = λ t e. absurd (cc e);
        speaker = λ t e. absurd (cc e);
        epistemic = λ t e. absurd (cc e);
        no_fingerprint = refl;
      })
      refl refl refl (record { memory_id_free = refl; semantic_key_free = refl; key_free = refl })
      refl refl

abbrev blank_noted : MemoryCandidate
blank_noted =
    build_candidate platform draw (record note { candidate_fingerprint = some " " }) none none

blank_fingerprint_suppressed_example :
    (ingest platform draw (record note { candidate_fingerprint = some " " }) empty_state empty_state
      ≡ (ok blank_noted, put_candidate blank_noted empty_state))
    × (result : CanonicalCommitResult) × (s'' : InMemoryState) × (commit platform none first_draw
          (record { candidate_id = "cand-1"; idempotency_key = "key-1" })
          (put_candidate blank_noted empty_state)
          (put_candidate blank_noted empty_state)
        ≡ (ok result, s''))
    × (verify_one platform scope 10000 s'' s'' s'' ("mem-1", some 1) ≡ suppress revision_integrity)
unfolding is_blank get_head get_commit_result put_candidate M.get semantic_collision is_provider
    build_candidate or_else
blank_fingerprint_suppressed_example =
    blank_fingerprint_suppressed platform none draw first_draw "key-1" " " note empty_state
      empty_state blank_noted 10000 refl (empty_state-WellFormed platform) note_valid refl refl refl
      refl (record { memory_id_free = refl; semantic_key_free = refl; key_free = refl })

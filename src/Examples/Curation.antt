-- ===== src/Examples/Curation.antt =====
-- Runs of the curation records.
use digital_life_memory_fabr.Base.{
  String, Bool, true, arith, [], ◌∷◌, Option, none, some, ◌≡◌, refl, is_given, or_else, eq_refl,
}
use digital_life_memory_fabr.Base.JsMap as M
use digital_life_memory_fabr.Base.Text.{is_blank}
use digital_life_memory_fabr.Domain.Platform.{sha256}
use digital_life_memory_fabr.Domain.Encode.{admission_json}
use digital_life_memory_fabr.Domain.Scope.{same_scope, scope_key}
use digital_life_memory_fabr.Domain.Memory.{MemoryCandidate, same_operation}
use digital_life_memory_fabr.Domain.Records.{CanonicalCommitResult}
use digital_life_memory_fabr.Domain.Errors.{ok}
use digital_life_memory_fabr.Store.{
  InMemoryState, empty_state, get_candidate, get_commit_result, put_head, append_revision,
  append_outbox, append_change, put_commit_result, set_candidate_status, semantic_collision,
  high_watermark, next_commit_seq, transaction,
}
use digital_life_memory_fabr.Authority.Admission.{
  same_optional, is_merge_outcome, is_provider, is_pending, require_pending,
  require_provider_admission, verified_by, provider_admission_state_fingerprint, proof_fingerprint,
  base_proof_valid, create_proof_valid, merge_proof_valid, requires_review,
  require_verified_provider_admission_state,
}
use digital_life_memory_fabr.Authority.Plan.{create_plan}
use digital_life_memory_fabr.Authority.Commit.{
  committed, commit, admit, commit_admitted, commit_in_transaction, commit_fresh, resolution,
  resolve, persist, write_result, outcome_result, build_result, build_head, build_revision,
  build_change, build_outbox,
}
use digital_life_memory_fabr.Curation.{
  MemoryCurationRecord, CurationRecords, common_agrees, create_agrees, proof_agrees,
  curation_record_backs_canonical_admission, verify_canonical_admission, same_outcome, is_durable,
  is_novel, producer_name, canonical_candidate, durable, novel,
}
use digital_life_memory_fabr.Curation.Backed.{Backing, commit_provider-Backing}
use digital_life_memory_fabr.Curation.Puts.{put_all, put_all-linked, Keeps, put_all-Keeps}
use digital_life_memory_fabr.Examples.{
  platform, scope, provided, provided_proof, first_draw, provider_request,
}

-- The provided candidate, with the run that produced it.
abbrev pub curated : MemoryCandidate
curated = record provided { source_id = some "turn-9"; provider_run_id = some "run-1" }

abbrev pub curation : MemoryCurationRecord
curation = record {
  record_id = "cur_1";
  receipt_id = "receipt-1";
  scope = scope;
  source_type = "chat";
  source_id = "turn-9";
  provider_name = "user-1";
  provider_run_id = "run-1";
  provider_unit_ref = "unit-1";
  provider_unit_text = "likes tea";
  provider_unit_fingerprint = "unit-fp";
  provider_epistemic_status = "user_asserted";
  attributed_epistemic_basis = "direct_source_quote";
  memory_type = "preference";
  speaker_provenance = "user";
  semantic_key = "drink";
  semantic_policy_version = "s1";
  semantic_relation = none;
  curation_provider = "curator";
  curation_provider_version = none;
  admission_policy_version = "v1";
  outcome = canonical_candidate;
  attributed_epistemic_status = "user_asserted";
  durability = durable;
  memory_worthy = true;
  semantic_disposition = novel;
  reason_codes = "durable" ∷ [];
  target_memory_id = none;
  candidate_id = some "cand-3";
  canonical_memory_id = none;
  created_at = "09:00";
}

abbrev records : CurationRecords
records = ("cur_1", curation) ∷ []

curated_backed : verify_canonical_admission records curated ≡ true
unfolding verify_canonical_admission curation_record_backs_canonical_admission proof_agrees
    common_agrees create_agrees same_outcome is_durable is_novel producer_name same_optional
    is_merge_outcome same_operation same_scope scope_key is_given or_else M.get
curated_backed = refl

abbrev with_curated : InMemoryState
with_curated = record empty_state { candidates = ("cand-3", curated) ∷ [] }

abbrev approval : String
approval = sha256 platform (admission_json curated provided_proof)

curated_fingerprint : provider_admission_state_fingerprint platform curated ≡ ok (some approval)
unfolding provider_admission_state_fingerprint proof_fingerprint base_proof_valid create_proof_valid
    merge_proof_valid requires_review is_blank is_provider same_operation
curated_fingerprint = refl

curated_required :
    require_verified_provider_admission_state platform curated (some approval) ≡ ok tt
unfolding require_verified_provider_admission_state same_optional
curated_required = rw (curated_fingerprint, same_optional, eq_refl approval) refl

abbrev linked : MemoryCurationRecord
linked = record curation { canonical_memory_id = some "mem-1" }

-- The record names its memory, and the curation is run again.
put_all-linked_example :
    M.get "cur_1" (put_all (curation ∷ curation ∷ []) (("cur_1", linked) ∷ [])) ≡ some linked
unfolding M.get
put_all-linked_example =
    put_all-linked (curation ∷ curation ∷ []) (("cur_1", linked) ∷ []) "cur_1" "mem-1" linked refl
      refl (refl, (refl, tt))

put_all-Keeps_example :
    (e' : MemoryCurationRecord) × (M.get "cur_1" (put_all (linked ∷ curation ∷ []) records)
      ≡ some e')
    × Keeps curation e'
unfolding M.get
put_all-Keeps_example = put_all-Keeps (linked ∷ curation ∷ []) records "cur_1" curation refl

abbrev by_records : Option (MemoryCandidate → Bool)
by_records = some (verify_canonical_admission records)

curated_admitted : admit platform by_records provider_request with_curated ≡ ok (some approval)
unfolding admit get_candidate M.get is_blank require_provider_admission verified_by
curated_admitted = rw (curated_fingerprint, verified_by, curated_backed) refl

abbrev curated_result : CanonicalCommitResult
curated_result = build_result platform first_draw "key-3" curated (create_plan first_draw curated) 1

curated_persist :
    (s' : InMemoryState) × (persist platform first_draw "key-3" curated
        (create_plan first_draw curated)
        with_curated
      ≡ ok (committed curated_result, s'))
unfolding persist write_result next_commit_seq high_watermark put_head append_revision append_outbox
    append_change put_commit_result set_candidate_status semantic_collision create_plan build_result
    build_head build_revision build_change build_outbox M.get M.set
curated_persist = (_, refl)

curated_fresh :
    commit_fresh platform first_draw "key-3" curated (some approval) with_curated
    ≡ ok (committed curated_result, curated_persist.0)
unfolding commit_fresh resolution resolve require_pending is_pending same_operation
curated_fresh = ground (arith, curated_required, curated_persist.1)

curated_run :
    commit platform by_records first_draw provider_request with_curated with_curated
    ≡ (ok curated_result, curated_persist.0)
unfolding commit commit_admitted outcome_result transaction commit_in_transaction get_candidate
    get_commit_result M.get
curated_run = ground (arith, curated_admitted, curated_fresh)

commit_provider-Backing_example : Backing records curated
unfolding get_candidate get_commit_result is_provider M.get
commit_provider-Backing_example =
    commit_provider-Backing platform records first_draw provider_request with_curated _ curated
      curated_result refl refl refl curated_run

-- ===== src/Examples.antt =====
-- A small store with two memories' worth of candidates, on which the theorems are tried.
mod Start
mod Authority
mod Verification
mod Keys
mod Candidates
mod Curation
mod Review
mod Operations
mod Sync
mod Outbox
use Prim.Native.Nat.{Ordering}
use digital_life_memory_fabr.Base.{ℕ, String, [], ◌∷◌, Option, none, some, ◌==◌, if◌then◌else◌}
use digital_life_memory_fabr.Base.Text.{decimal}
use digital_life_memory_fabr.Domain.Json.{Json}
use digital_life_memory_fabr.Domain.Platform.{Platform}
use digital_life_memory_fabr.Domain.Scope.{
  MemoryScope, scope_key, revision_key, scoped_idempotency_key,
}
use digital_life_memory_fabr.Domain.Records.{CanonicalCommitResult}
use digital_life_memory_fabr.Domain.Memory.{
  MemoryCandidate, MemoryProducer, MemoryAuthor, CanonicalAdmissionProof, CandidateStatus,
  MemoryOperation, ProducerKind, canonical_candidate,
}
use digital_life_memory_fabr.Store.{InMemoryState, empty_state}
use digital_life_memory_fabr.Authority.Plan.{CommitDraw, create_plan}
use digital_life_memory_fabr.Authority.Commit.{CanonicalCommitRequest, build_result}

abbrev print_json : Json → String
print_json (Json.string s) = s
print_json _ = "{}"

-- Three times of a day; no other text is a time.
abbrev read_time : String → Option ℕ
read_time t =
    if t == "09:00"
    then some 9000
    else if t == "10:00"
    then some 10000
    else if t == "11:00"
    then some 11000
    else none

abbrev pub platform : Platform
platform = record {
  digest = λ s. s;
  json_stringify = print_json;
  date_parse = read_time;
  to_iso_string = decimal;
  locale_compare = λ a b. if a == b then Ordering.eq else Ordering.lt;
}

abbrev pub scope : MemoryScope
scope = record { tenant_id = "tenant"; life_did = "did:life"; memory_namespace = "main" }

abbrev pub author : MemoryAuthor
author = record { life_did = "did:life"; agent_id = none; runtime_id = none; device_id = none }

abbrev pub user_producer : MemoryProducer
user_producer = record {
  kind = ProducerKind.user;
  id = "user-1";
  provider_name = none;
  adapter_version = none;
  provider_version = none;
}

-- A candidate that creates a memory.
abbrev pub tea : MemoryCandidate
tea = record {
  candidate_id = "cand-1";
  scope = scope;
  origin = author;
  candidate_type = "memory";
  source_type = "chat";
  source_id = none;
  memory_class = "semantic";
  memory_kind = "preference";
  memory_type = "preference";
  speaker_provenance = "user";
  semantic_key = "drink";
  proposed_content = record { text = "likes tea"; payload = none };
  evidence_refs = [];
  epistemic_status = "user_asserted";
  confidence = none;
  producer = user_producer;
  source_experience_refs = [];
  candidate_fingerprint = "fp-tea";
  distillation_policy_version = none;
  provider_run_id = none;
  canonical_admission = none;
  proposed_operation = MemoryOperation.create;
  base_memory_id = none;
  base_revision = none;
  status = CandidateStatus.pending;
  created_at = "09:00";
  observed_at = none;
  valid_from = none;
  valid_until = none;
}

-- An update of that memory, at the revision that the candidate names.
abbrev pub coffee : ℕ → MemoryCandidate
coffee base = record tea {
  candidate_id = "cand-2";
  proposed_content = record { text = "likes coffee"; payload = none };
  candidate_fingerprint = "fp-coffee";
  proposed_operation = MemoryOperation.update;
  base_memory_id = some "mem-1";
  base_revision = some base;
}

abbrev pub provided_proof : CanonicalAdmissionProof
provided_proof = record {
  admission_policy_version = "v1";
  curation_provider = "curator";
  curation_provider_version = none;
  curation_record_id = "cur_1";
  outcome = canonical_candidate;
  semantic_policy_version = none;
  semantic_relation = none;
  target_memory_id = none;
}

-- A memory that a provider proposes, with the proof of its admission.
abbrev pub provided : MemoryCandidate
provided = record tea {
  candidate_id = "cand-3";
  candidate_fingerprint = "fp-provided";
  producer = record user_producer { kind = ProducerKind.provider };
  canonical_admission = some provided_proof;
}

abbrev pub first_draw : CommitDraw
first_draw = record {
  now = "09:00";
  memory_id = "mem-1";
  event_id = "evt-1";
  outbox_id = "out-1";
  conflict_id = "con-1";
}

abbrev pub second_draw : CommitDraw
second_draw = record {
  now = "10:00";
  memory_id = "mem-2";
  event_id = "evt-2";
  outbox_id = "out-2";
  conflict_id = "con-2";
}

abbrev pub first_request : CanonicalCommitRequest
first_request = record { candidate_id = "cand-1"; idempotency_key = "key-1" }

abbrev pub second_request : CanonicalCommitRequest
second_request = record { candidate_id = "cand-2"; idempotency_key = "key-2" }

abbrev pub provider_request : CanonicalCommitRequest
provider_request = record { candidate_id = "cand-3"; idempotency_key = "key-3" }

-- The store with the first candidate, and after its commit.
abbrev pub with_tea : InMemoryState
with_tea = record empty_state { candidates = ("cand-1", tea) ∷ [] }

abbrev pub first_result : CanonicalCommitResult
first_result = build_result platform first_draw "key-1" tea (create_plan first_draw tea) 1

abbrev pub after_tea : InMemoryState
after_tea = record {
  candidates = ("cand-1", record tea { status = CandidateStatus.accepted }) ∷ [];
  heads = ("mem-1", first_result.head) ∷ [];
  revisions = (revision_key "mem-1" 1, first_result.revision) ∷ [];
  commit_seq_by_scope = (scope_key scope, 1) ∷ [];
  changes = first_result.change ∷ [];
  outbox = first_result.outbox ∷ [];
  conflicts = [];
  device_checkpoints = [];
  provider_materializations = [];
  idempotency = (scoped_idempotency_key scope "key-1", first_result) ∷ [];
}

abbrev pub with_provided : InMemoryState
with_provided = record empty_state { candidates = ("cand-3", provided) ∷ [] }

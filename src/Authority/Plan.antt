-- ===== src/Authority/Plan.antt =====
-- The `let` variables of `commitInTransaction`: what a commit will write, for each operation.
pub mod Fits
use Prim.Native.String.{◌∷◌}
use Prim.Native.String as Str
use Prim.Native.Char.{nul}
use digital_life_memory_fabr.Base as B
use digital_life_memory_fabr.Base.{
  ℕ, ◌+◌, Bool, not, String, List, Option, none, some, ◌==◌, ◌||◌, eqb, if◌then◌else◌,
}
use digital_life_memory_fabr.Base.JsMap as M
use digital_life_memory_fabr.Base.JsMap.{JsMap}
use digital_life_memory_fabr.Domain.Scope.{same_scope}
use digital_life_memory_fabr.Domain.Memory.{
  MemoryCandidate, CanonicalMemoryHead, MemoryRevision, MemoryStatus, MemoryOperation,
  CanonicalContent, MemoryProducer, EvidenceRef, SourceExperienceRef, active, tombstoned, update,
  merge, tombstone, restore, same_status,
}
use digital_life_memory_fabr.Domain.Records.{MemoryConflict}
use digital_life_memory_fabr.Domain.Errors.{
  Result, ok, err, ◌>>=◌, ◌>>◌, throw_if, or_throw, validation_error, memory_not_found,
  scope_mismatch, unsupported_operation, base_required, identity_changed, missing_revision,
  not_active, already_tombstoned, not_tombstoned,
}
use digital_life_memory_fabr.Store.{InMemoryState, get_head, get_revision}

-- What the clock and the id factory return during one commit.
pub record CommitDraw : Type 0 where
  pub now : String
  pub memory_id : String
  pub event_id : String
  pub outbox_id : String
  pub conflict_id : String

pub record CommitPlan : Type 0 where
  pub memory_id : String
  pub base_revision : Option ℕ
  pub new_revision : ℕ
  pub status : MemoryStatus
  pub canonical_content : CanonicalContent
  pub head_created_at : String
  pub observed_at : Option String
  pub valid_from : Option String
  pub valid_until : Option String
  pub memory_class : String
  pub memory_kind : String
  pub memory_type : String
  pub speaker_provenance : String
  pub semantic_key : String
  pub epistemic_status : String
  pub producer : MemoryProducer
  pub evidence_refs : List EvidenceRef
  pub source_experience_refs : List SourceExperienceRef
  pub semantic_fingerprint : String

pub data Resolution : Type 0 where
  conflicted : MemoryConflict → Resolution
  planned : CommitPlan → Resolution

unfoldable pub evidence_map : JsMap EvidenceRef → List EvidenceRef → JsMap EvidenceRef
evidence_map m B.[] = m
evidence_map m (B.◌∷◌ r rs) =
    evidence_map (M.set (Str.◌++◌ r.source_type (nul ∷ r.source_ref)) r m) rs

unfoldable pub merge_evidence_refs : List EvidenceRef → List EvidenceRef → List EvidenceRef
unfolding evidence_map
merge_evidence_refs current incoming = M.values (evidence_map B.[] (B.◌++◌ current incoming))

-- `value ?? ""`
or_empty : Option String → String
or_empty none = ""
or_empty (some t) = t

source_ref_key : SourceExperienceRef → String
source_ref_key r = Str.◌++◌ r.source_type (
    nul
    ∷ Str.◌++◌ r.source_id (nul ∷ Str.◌++◌ (or_empty r.archive_ref) (nul ∷ or_empty r.checksum)))

unfoldable pub source_ref_map :
    JsMap SourceExperienceRef → List SourceExperienceRef → JsMap SourceExperienceRef
unfolding source_ref_key or_empty
source_ref_map m B.[] = m
source_ref_map m (B.◌∷◌ r rs) = source_ref_map (M.set (source_ref_key r) r m) rs

unfoldable pub merge_source_experience_refs :
    List SourceExperienceRef → List SourceExperienceRef → List SourceExperienceRef
unfolding source_ref_map
merge_source_experience_refs current incoming =
    M.values (source_ref_map B.[] (B.◌++◌ current incoming))

-- The branch of `create`.
unfoldable pub create_plan : CommitDraw → MemoryCandidate → CommitPlan
create_plan draw c = record {
  memory_id = draw.memory_id;
  base_revision = none;
  new_revision = 1;
  status = active;
  canonical_content = c.proposed_content;
  head_created_at = draw.now;
  observed_at = c.observed_at;
  valid_from = c.valid_from;
  valid_until = c.valid_until;
  memory_class = c.memory_class;
  memory_kind = c.memory_kind;
  memory_type = c.memory_type;
  speaker_provenance = c.speaker_provenance;
  semantic_key = c.semantic_key;
  epistemic_status = c.epistemic_status;
  producer = c.producer;
  evidence_refs = c.evidence_refs;
  source_experience_refs = c.source_experience_refs;
  semantic_fingerprint = c.candidate_fingerprint;
}

-- `case "update"`, with the identity fields of the head.
unfoldable pub update_plan : String → MemoryCandidate → CanonicalMemoryHead → ℕ → CommitPlan
update_plan base_id c head expected = record {
  memory_id = base_id;
  base_revision = some expected;
  new_revision = expected + 1;
  status = active;
  canonical_content = c.proposed_content;
  head_created_at = head.created_at;
  observed_at = c.observed_at;
  valid_from = c.valid_from;
  valid_until = c.valid_until;
  memory_class = head.memory_class;
  memory_kind = head.memory_kind;
  memory_type = head.memory_type;
  speaker_provenance = c.speaker_provenance;
  semantic_key = head.semantic_key;
  epistemic_status = c.epistemic_status;
  producer = c.producer;
  evidence_refs = c.evidence_refs;
  source_experience_refs = c.source_experience_refs;
  semantic_fingerprint = c.candidate_fingerprint;
}

-- `case "merge"`: the content stays, and the evidence of both is kept.
unfoldable pub merge_plan :
    String → MemoryCandidate → CanonicalMemoryHead → MemoryRevision → ℕ → CommitPlan
merge_plan base_id c head current expected = record (update_plan base_id c head expected) {
  canonical_content = current.canonical_content;
  observed_at = current.observed_at;
  valid_from = current.valid_from;
  valid_until = current.valid_until;
  epistemic_status = current.epistemic_status;
  speaker_provenance =
      if current.speaker_provenance == c.speaker_provenance
      then current.speaker_provenance
      else "mixed";
  evidence_refs = merge_evidence_refs current.evidence_refs c.evidence_refs;
  source_experience_refs =
      merge_source_experience_refs current.source_experience_refs c.source_experience_refs;
}

-- `case "tombstone"` and `case "restore"`: all of the current revision but its status.
unfoldable pub carry_plan :
    String → MemoryStatus → MemoryCandidate → CanonicalMemoryHead → MemoryRevision → ℕ → CommitPlan
carry_plan base_id status c head current expected = record (update_plan base_id c head expected) {
  status = status;
  canonical_content = current.canonical_content;
  observed_at = current.observed_at;
  valid_from = current.valid_from;
  valid_until = current.valid_until;
  epistemic_status = current.epistemic_status;
  producer = current.producer;
  source_experience_refs = current.source_experience_refs;
  evidence_refs = current.evidence_refs;
  speaker_provenance = current.speaker_provenance;
  memory_type = current.memory_type;
  semantic_key = current.semantic_key;
  semantic_fingerprint = current.semantic_fingerprint;
}

-- The `switch` on the proposed operation.
unfoldable pub apply_operation :
    MemoryOperation
    → String
    → MemoryCandidate
    → CanonicalMemoryHead
    → MemoryRevision
    → ℕ
    → Result CommitPlan
apply_operation update base_id c head current expected = do
  throw_if (not (same_status head.status active)) (validation_error not_active)
  ok (update_plan base_id c head expected)
apply_operation merge base_id c head current expected = do
  throw_if (not (same_status head.status active)) (validation_error not_active)
  ok (merge_plan base_id c head current expected)
apply_operation tombstone base_id c head current expected = do
  throw_if (same_status head.status tombstoned) (validation_error already_tombstoned)
  ok (carry_plan base_id tombstoned c head current expected)
apply_operation restore base_id c head current expected = do
  throw_if (not (same_status head.status tombstoned)) (validation_error not_tombstoned)
  ok (carry_plan base_id active c head current expected)
apply_operation _ base_id c head current expected = err unsupported_operation

-- Whether the candidate would change what identifies the memory.
unfoldable pub identity_differs : CanonicalMemoryHead → MemoryCandidate → Bool
identity_differs head c =
    not (head.memory_class == c.memory_class)
    || not (head.memory_kind == c.memory_kind)
    || not (head.memory_type == c.memory_type)
    || not (head.semantic_key == c.semantic_key)

-- After the check of the base revision.
unfoldable pub plan_on_head :
    InMemoryState → String → MemoryCandidate → CanonicalMemoryHead → ℕ → Result CommitPlan
plan_on_head s base_id c head expected = do
  throw_if (identity_differs head c) (validation_error identity_changed)
  current ←
      or_throw (get_revision base_id head.current_revision s) (validation_error missing_revision)
  apply_operation c.proposed_operation base_id c head current expected

abbrev pub conflict_record :
    CommitDraw → String → MemoryCandidate → CanonicalMemoryHead → ℕ → MemoryConflict
conflict_record draw base_id c head expected = record {
  conflict_id = draw.conflict_id;
  candidate_id = c.candidate_id;
  scope = c.scope;
  memory_id = base_id;
  expected_revision = expected;
  current_revision = head.current_revision;
  detected_at = draw.now;
}

-- The check of the base revision: a conflict, or a plan.
unfoldable pub plan_or_conflict :
    CommitDraw
    → InMemoryState
    → String
    → MemoryCandidate
    → CanonicalMemoryHead
    → ℕ
    → Result Resolution
plan_or_conflict draw s base_id c head expected =
    if eqb head.current_revision expected
    then (plan_on_head s base_id c head expected >>= λ plan. ok (planned plan))
    else ok (conflicted (conflict_record draw base_id c head expected))

-- The branch of every operation but `create`.
unfoldable pub plan_mutation : CommitDraw → MemoryCandidate → InMemoryState → Result Resolution
plan_mutation draw c s = do
  base_id ← or_throw c.base_memory_id (validation_error base_required)
  expected ← or_throw c.base_revision (validation_error base_required)
  head ← or_throw (get_head base_id s) (memory_not_found base_id)
  throw_if (not (same_scope head.scope c.scope)) scope_mismatch
  plan_or_conflict draw s base_id c head expected

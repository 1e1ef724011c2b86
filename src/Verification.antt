-- ===== src/Verification.antt =====
-- src/verification/canonical-verifier.ts: which memories may be shown. The verifier reads the heads,
-- then the revisions, then the heads again: each read has its own state.
pub mod Decision
pub mod Committed
use digital_life_memory_fabr.Base.{
  ℕ, Bool, true, false, not, String, List, [], ◌∷◌, map, Option, none, some, ◌==◌, ◌&&◌, ltb, eqb,
  any, if◌then◌else◌,
}
use digital_life_memory_fabr.Base.Text.{is_blank}
use digital_life_memory_fabr.Domain.Platform.{Platform, Number, safe_natural, stable_stringify}
use digital_life_memory_fabr.Domain.Encode.{
  content_hash, producer_json, source_refs_json, head_json,
}
use digital_life_memory_fabr.Domain.Scope.{MemoryScope, same_scope}
use digital_life_memory_fabr.Domain.Memory.{
  CanonicalMemoryHead, MemoryRevision, MemoryStatus, active, same_status,
}
use digital_life_memory_fabr.Domain.Errors.{
  Result, ok, ◌>>=◌, ◌>>◌, throw_if, or_throw, for_each, validation_error, bad_effective_at,
  bad_expected_revision,
}
use digital_life_memory_fabr.Store.{InMemoryState, get_head, get_revision}

pub data SuppressionReason : Type 0 where
  not_found scope_mismatch tombstoned superseded revision_missing revision_mismatch :
      SuppressionReason
  revision_integrity not_yet_valid no_longer_valid head_changed : SuppressionReason

pub data VerificationResult : Type 0 where
  allow : MemoryRevision → VerificationResult
  suppress : SuppressionReason → VerificationResult

pub record VerificationRequest : Type 0 where
  pub memory_id : String
  pub expected_revision : Option Number

abbrev pub valid_memory_types : List String
valid_memory_types =
    "preference" ∷ "technical_fact" ∷ "transient_state" ∷ "project_state" ∷ "relationship" ∷ "event"
    ∷ "commitment" ∷ "habit" ∷ "general_fact" ∷ []

abbrev pub valid_speaker_provenance : List String
valid_speaker_provenance = "user" ∷ "assistant" ∷ "system" ∷ "tool" ∷ "mixed" ∷ "unknown" ∷ []

abbrev pub valid_epistemic_statuses : List String
valid_epistemic_statuses =
    "observed" ∷ "user_asserted" ∷ "system_observed" ∷ "inferred" ∷ "synthesized" ∷ "uncertain" ∷ []

-- `set.has(value)`
unfoldable pub has_text : List String → String → Bool
has_text xs value = any (λ x. x == value) xs

-- The number that a request expects, if it gives one.
unfoldable pub expected_matches : Option ℕ → CanonicalMemoryHead → Bool
expected_matches none head = true
expected_matches (some n) head = eqb head.current_revision n

unfoldable pub suppress_live_head :
    CanonicalMemoryHead → MemoryStatus → Option ℕ → Option SuppressionReason
suppress_live_head head MemoryStatus.tombstoned expected = some SuppressionReason.tombstoned
suppress_live_head head MemoryStatus.superseded expected = some SuppressionReason.superseded
suppress_live_head head active expected =
    if expected_matches expected head then none else some revision_mismatch

unfoldable pub suppress_head :
    Option CanonicalMemoryHead → Option ℕ → MemoryScope → Option SuppressionReason
unfolding suppress_live_head
suppress_head none expected scope = some not_found
suppress_head (some head) expected scope =
    if same_scope head.scope scope
    then suppress_live_head head head.status expected
    else some scope_mismatch

-- `value === undefined ? undefined : Date.parse(value)`; the inner `none` is NaN.
unfoldable pub bound_time : Platform → Option String → Option (Option ℕ)
bound_time p none = none
bound_time p (some t) = some (p.date_parse t)

-- A bound that is absent or a time; `none` is one that does not parse.
unfoldable pub is_nan : Option (Option ℕ) → Bool
is_nan (some none) = true
is_nan _ = false

unfoldable pub ends_before : Option (Option ℕ) → Option (Option ℕ) → Bool
ends_before (some (some until)) (some (some from)) = ltb until from
ends_before _ _ = false

unfoldable pub identity_intact : CanonicalMemoryHead → MemoryRevision → MemoryScope → Bool
identity_intact head r scope =
    r.memory_id == head.memory_id
    && eqb r.revision head.current_revision
    && same_scope r.scope scope
    && same_status r.status head.status
    && r.memory_class == head.memory_class
    && r.memory_kind == head.memory_kind
    && r.memory_type == head.memory_type
    && r.semantic_key == head.semantic_key

unfoldable pub vocabulary_intact : MemoryRevision → Bool
vocabulary_intact r =
    has_text valid_memory_types r.memory_type
    && has_text valid_speaker_provenance r.speaker_provenance
    && not (is_blank r.semantic_key)
    && has_text valid_epistemic_statuses r.epistemic_status
    && not (is_blank r.semantic_fingerprint)
    && not (is_blank r.producer.id)

unfoldable pub provenance_intact : Platform → MemoryRevision → Bool
provenance_intact p r =
    r.content_hash == content_hash p r.canonical_content
    && r.provenance.candidate_fingerprint == r.semantic_fingerprint
    && stable_stringify p (producer_json r.provenance.producer)
      == stable_stringify p (producer_json r.producer)
    && stable_stringify p (source_refs_json r.provenance.source_experience_refs)
      == stable_stringify p (source_refs_json r.source_experience_refs)

unfoldable pub window_intact : Option (Option ℕ) → Option (Option ℕ) → Bool
window_intact from until = not (is_nan from) && not (is_nan until) && not (ends_before until from)

-- `from > effectiveTime`, `until < effectiveTime`
unfoldable pub starts_later : Option (Option ℕ) → ℕ → Bool
starts_later (some (some from)) effective = ltb effective from
starts_later _ effective = false

unfoldable pub ended : Option (Option ℕ) → ℕ → Bool
ended (some (some until)) effective = ltb until effective
ended _ effective = false

unfoldable pub revision_intact :
    Platform → CanonicalMemoryHead → MemoryRevision → MemoryScope → Bool
revision_intact p head r scope =
    identity_intact head r scope
    && vocabulary_intact r
    && provenance_intact p r
    && window_intact (bound_time p r.valid_from) (bound_time p r.valid_until)

unfoldable pub verify_revision :
    Platform → CanonicalMemoryHead → Option MemoryRevision → MemoryScope → ℕ → VerificationResult
verify_revision p head none scope effective = suppress revision_missing
verify_revision p head (some r) scope effective =
    if revision_intact p head r scope
    then (if starts_later (bound_time p r.valid_from) effective
        then suppress not_yet_valid
        else if ended (bound_time p r.valid_until) effective
        then suppress no_longer_valid
        else allow r)
    else suppress revision_integrity

unfoldable pub same_head : Platform → Option CanonicalMemoryHead → Option CanonicalMemoryHead → Bool
same_head p none none = true
same_head p (some left) (some right) =
    stable_stringify p (head_json left) == stable_stringify p (head_json right)
same_head p _ _ = false

-- The check of an accepted revision against the heads read last.
unfoldable pub confirm :
    Platform
    → Option CanonicalMemoryHead
    → Option CanonicalMemoryHead
    → VerificationResult
    → VerificationResult
confirm p first last (suppress reason) = suppress reason
confirm p first last (allow r) = if same_head p first last then allow r else suppress head_changed

-- What becomes of a request with the head that was read first.
unfoldable pub verify_head :
    Platform
    → Option CanonicalMemoryHead
    → Option ℕ
    → MemoryScope
    → ℕ
    → InMemoryState
    → VerificationResult
verify_head p none expected scope effective s = suppress not_found
verify_head p (some head) expected scope effective s =
    elim (suppress_head (some head) expected scope) [
      | some reason ↦ suppress reason
      | none ↦
          verify_revision p head (get_revision head.memory_id head.current_revision s) scope
            effective
    ]

-- One place of the arrays of `verifyMany`: heads from `s₁`, the revision from `s₂`, heads from `s₃`.
unfoldable pub verify_one :
    Platform
    → MemoryScope
    → ℕ
    → InMemoryState
    → InMemoryState
    → InMemoryState
    → String × Option ℕ
    → VerificationResult
verify_one p scope effective s₁ s₂ s₃ (id, expected) =
    confirm p (get_head id s₁) (get_head id s₃)
      (verify_head p (get_head id s₁) expected scope effective s₂)

-- `expectedRevision` must be a positive safe integer when present.
unfoldable pub validate_request : VerificationRequest → Result (String × Option ℕ)
validate_request request = elim request.expected_revision [
  | none ↦ ok (request.memory_id, none)
  | some number ↦ do
    n ← or_throw (safe_natural number) (validation_error bad_expected_revision)
    throw_if (ltb n 1) (validation_error bad_expected_revision)
    ok (request.memory_id, some n)
]

-- `options.effectiveAt ?? clock.now()`
unfoldable pub effective_text : Option String → String → String
effective_text none now = now
effective_text (some at) now = at

unfoldable pub verify_many :
    Platform
    → List VerificationRequest
    → MemoryScope
    → Option String
    → String
    → InMemoryState
    → InMemoryState
    → InMemoryState
    → Result (List VerificationResult)
verify_many p [] scope effective_at now s₁ s₂ s₃ = ok []
verify_many p (request ∷ requests) scope effective_at now s₁ s₂ s₃ = do
  effective ←
      or_throw (p.date_parse (effective_text effective_at now)) (validation_error bad_effective_at)
  valid ← for_each validate_request (request ∷ requests)
  ok (map (verify_one p scope effective s₁ s₂ s₃) valid)

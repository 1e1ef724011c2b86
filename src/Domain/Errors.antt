-- ===== src/Domain/Errors.antt =====
-- The error classes of src/domain/errors.ts with their public fields, and calls that may throw.
-- A message is its throw site's `Reason`; the interpolated values are not kept.
use digital_life_memory_fabr.Base.{
  ℕ, ◌≡◌, refl, ◌⊎◌, inl, inr, Bool, true, false, String, List, [], ◌∷◌, Option, none, some,
}
use digital_life_memory_fabr.Domain.Scope.{MemoryScope}

pub data Reason : Type 0 where
  empty_field bad_timestamp checkpoint_backward checkpoint_ahead bad_cursor : Reason
  missing_candidate identity_collision revision_exists : Reason
  admission_required admission_invalid review_required verifier_missing not_admitted : Reason
  admission_changed idempotency_reused base_required identity_changed missing_revision : Reason
  not_active already_tombstoned not_tombstoned : Reason
  bad_commit_seq bad_limit advance_too_large : Reason
  materialization_backward no_outcomes duplicate_provider bad_lease last_error_reserved : Reason
  retry_required retry_not_later retry_not_allowed bad_effective_at bad_expected_revision : Reason
  origin_mismatch evidence_required bad_confidence bad_record_id merge_unbound merge_unproved :
      Reason
  validity_reversed create_with_base bad_base_revision : Reason
  not_pending_review not_a_sample unknown_sample unidentified_reviewer unbound_evidence : Reason
  successor_required decision_reused already_resolved disposition_refused : Reason
  enqueue_invalid enqueue_changed missing_case decision_missing resolution_changed : Reason

pub data FabricError : Type 0 where
  validation_error : Reason → FabricError
  candidate_not_found candidate_not_pending memory_not_found : String → FabricError
  revision_conflict : String → ℕ → ℕ → FabricError
  semantic_identity_conflict : MemoryScope → String → FabricError
  change_sequence_gap : ℕ → Option ℕ → FabricError
  device_checkpoint_conflict : String → ℕ → ℕ → FabricError
  semantic_review_conflict : String → ℕ → ℕ → FabricError
  sync_revision_integrity : String → FabricError
  scope_mismatch unsupported_operation : FabricError
  outbox_claim_conflict : String → FabricError
  operations_integrity : String → FabricError

-- What a call returns, or the error that it throws.
pub data Result {ℓ} (Value : Type ℓ) : Type ℓ where
  err : FabricError → Result Value
  ok : Value → Result Value

-- `if (test) throw error`
abbrev pub throw_if : Bool → FabricError → Result (Unit {0})
throw_if false thrown = ok tt
throw_if true thrown = err thrown

-- `if (value === undefined) throw error`
abbrev pub or_throw {ℓ} : {A : Type ℓ} → Option A → FabricError → Result A
or_throw none e = err e
or_throw (some a) e = ok a

-- The rest of a call runs on what the part before returned.
infixl 5 ◌>>=◌
abbrev pub ◌>>=◌ {ℓ κ} :
    {Value : Type ℓ} {Next : Type κ} → Result Value → (Value → Result Next) → Result Next
err thrown >>= rest = err thrown
ok value >>= rest = rest value

infixl 5 ◌>>◌
abbrev pub ◌>>◌ {κ} : {Next : Type κ} → Result (Unit {0}) → Result Next → Result Next
checked >> rest = checked >>= λ passed. rest

-- A throw ends the walk of a list.
abbrev pub for_each {ℓ κ} : {A : Type ℓ} {B : Type κ} → (A → Result B) → List A → Result (List B)
for_each f [] = ok []
for_each f (x ∷ xs) = do y ← f x; ys ← for_each f xs; ok (y ∷ ys)

-- A call that returned went through each of its parts.
pub >>=-eq-ok {ℓ κ} :
    {Value : Type ℓ} {Next : Type κ} {last : Next} (part : Result Value)
    (rest : Value → Result Next)
    → part >>= rest ≡ ok last
    → (value : Value) × (part ≡ ok value) × (rest value ≡ ok last)
>>=-eq-ok (err thrown) rest returned = absurd (cc returned)
>>=-eq-ok (ok value) rest returned = (value, refl, returned)

pub throw_if-eq-ok : (b : Bool) (e : FabricError) {u : Unit {0}} → throw_if b e ≡ ok u → b ≡ false
throw_if-eq-ok true e h = cc
throw_if-eq-ok false e h = refl

pub or_throw-eq-ok {ℓ} :
    {A : Type ℓ} (o : Option A) (e : FabricError) {a : A} → or_throw o e ≡ ok a → o ≡ some a
or_throw-eq-ok none e h = cc
or_throw-eq-ok (some b) e h = cc

pub Result-cases {ℓ} :
    {A : Type ℓ} (r : Result A) → ((e : FabricError) × (r ≡ err e)) ⊎ ((a : A) × (r ≡ ok a))
Result-cases (ok a) = inr (a, refl)
Result-cases (err e) = inl (e, refl)

-- ===== src/Operations.antt =====
-- src/operations/central-operations-service.ts: the claims and settlements of the outbox.
-- `claimOutbox` reads the revisions and changes of its items after its claim; here it reads them in
-- the state that the claim leaves.
pub mod Pages
pub mod Cursor
pub mod Fleet
pub mod Inventory
use digital_life_memory_fabr.Base.{
  ℕ, ◌+◌, Bool, true, false, not, String, List, [], ◌∷◌, Option, none, some, ◌==◌, ◌&&◌, ◌||◌, ltb,
  leb, eqb, any, find, if◌then◌else◌,
}
use digital_life_memory_fabr.Base.Text.{is_blank}
use digital_life_memory_fabr.Domain.Platform.{Platform, Number, nat, safe_natural}
use digital_life_memory_fabr.Domain.Scope.{MemoryScope, scope_key, same_scope}
use digital_life_memory_fabr.Domain.Memory.{MemoryRevision, same_operation}
use digital_life_memory_fabr.Domain.Records.{MemoryOutboxRecord, MemoryChangeEnvelope}
use digital_life_memory_fabr.Domain.Errors.{
  Result, ok, err, ◌>>=◌, ◌>>◌, throw_if, or_throw, for_each, validation_error,
  operations_integrity, outbox_claim_conflict, empty_field, bad_timestamp, bad_limit, bad_lease,
  no_outcomes, duplicate_provider, last_error_reserved, retry_required, retry_not_later,
  retry_not_allowed,
}
use digital_life_memory_fabr.Store.{InMemoryState, get_revision, transaction}
use digital_life_memory_fabr.Store.Outbox.{Claim, claim_outbox_batch}
use digital_life_memory_fabr.Store.Settlement.{
  DeliveryStatus, ProviderDeliveryOutcome, SettleClaimRequest, SettledClaim, settle_outbox_claim,
}

pub record OutboxWorkItem : Type 0 where
  pub record_claimed : MemoryOutboxRecord
  pub change : MemoryChangeEnvelope
  pub revision : MemoryRevision

pub record ClaimOutboxInput : Type 0 where
  pub scope : MemoryScope
  pub worker_id : String
  pub lease_ms : Number
  pub limit : Option Number

pub record SettleOutboxInput : Type 0 where
  pub scope : MemoryScope
  pub outbox_id : String
  pub worker_id : String
  pub claim_token : String
  pub outcomes : List ProviderDeliveryOutcome
  pub last_error : Option String
  pub next_attempt_at : Option String

unfoldable pub require_non_empty : String → Result (Unit {0})
require_non_empty value = throw_if (is_blank value) (validation_error empty_field)

unfoldable pub validate_scope : MemoryScope → Result (Unit {0})
unfolding require_non_empty
validate_scope scope = do
  require_non_empty scope.tenant_id
  require_non_empty scope.life_did
  require_non_empty scope.memory_namespace

-- `limit ?? DEFAULT_OPERATIONS_PAGE_SIZE`
unfoldable pub or_default : Option Number → Number
or_default none = nat 50
or_default (some limit) = limit

unfoldable pub page_size : Option Number → ℕ → Result ℕ
unfolding or_default
page_size limit maximum = do
  n ← or_throw (safe_natural (or_default limit)) (validation_error bad_limit)
  throw_if (ltb n 1 || ltb maximum n) (validation_error bad_limit)
  ok n

unfoldable pub require_timestamp : Platform → String → Result ℕ
require_timestamp p value = or_throw (p.date_parse value) (validation_error bad_timestamp)

-- `outcome.lastError ?? ""`
or_empty : Option String → String
or_empty none = ""
or_empty (some t) = t

unfoldable pub outcome_failed : ProviderDeliveryOutcome → Bool
outcome_failed o = elim o.status [ DeliveryStatus.current ↦ false | _ ↦ true ]

-- The error that a failed outcome must carry.
unfoldable pub validate_outcome_error : ProviderDeliveryOutcome → Result (Unit {0})
unfolding or_empty require_non_empty
validate_outcome_error o =
    if outcome_failed o then require_non_empty (or_empty o.last_error) else ok tt

-- The loop of `validateOutcomes`; `seen` is the set of providers before.
unfoldable pub validate_outcome_list :
    List String → List ProviderDeliveryOutcome → Result (Unit {0})
validate_outcome_list seen [] = ok tt
validate_outcome_list seen (o ∷ os) =
    let rest = validate_outcome_list (o.provider_name ∷ seen) os in
    do
      require_non_empty o.provider_name
      throw_if (any (λ name. name == o.provider_name) seen) (validation_error duplicate_provider)
      validate_outcome_error o
      rest

unfoldable pub validate_outcomes : List ProviderDeliveryOutcome → Result (Unit {0})
validate_outcomes [] = err (validation_error no_outcomes)
validate_outcomes (o ∷ os) = validate_outcome_list [] (o ∷ os)

-- 1 000 ≤ leaseMs ≤ 300 000
unfoldable pub validate_lease : Number → Result ℕ
validate_lease lease_ms = do
  n ← or_throw (safe_natural lease_ms) (validation_error bad_lease)
  throw_if (ltb n 1000 || ltb 300000 n) (validation_error bad_lease)
  ok n

unfoldable pub revision_resolves : MemoryOutboxRecord → MemoryRevision → Bool
revision_resolves r revision =
    eqb revision.revision r.revision
    && eqb revision.commit_seq r.commit_seq
    && same_scope revision.scope r.scope

unfoldable pub change_resolves : MemoryScope → MemoryOutboxRecord → MemoryChangeEnvelope → Bool
change_resolves scope r change =
    eqb change.commit_seq r.commit_seq
    && change.memory_id == r.memory_id
    && eqb change.new_revision r.revision
    && same_operation change.operation r.operation
    && same_scope change.scope scope

-- One entry of `getChangesByCommitSeqs`.
unfoldable pub change_at : MemoryScope → ℕ → InMemoryState → Option MemoryChangeEnvelope
change_at scope n s =
    find (λ change. scope_key change.scope == scope_key scope && eqb change.commit_seq n) s.changes

unfoldable pub work_item : MemoryScope → InMemoryState → MemoryOutboxRecord → Result OutboxWorkItem
work_item scope s r = do
  revision ← or_throw (get_revision r.memory_id r.revision s) (operations_integrity r.outbox_id)
  throw_if (not (revision_resolves r revision)) (operations_integrity r.outbox_id)
  change ← or_throw (change_at scope r.commit_seq s) (operations_integrity r.outbox_id)
  throw_if (not (change_resolves scope r change)) (operations_integrity r.outbox_id)
  ok (record { record_claimed = r; change = change; revision = revision })

-- The claim that `claimOutbox` makes, and its limit, or what its validation throws.
unfoldable pub validate_claim : Platform → ClaimOutboxInput → String → String → Result (Claim × ℕ)
validate_claim p input token now = do
  validate_scope input.scope
  require_non_empty input.worker_id
  lease ← validate_lease input.lease_ms
  limit ← page_size input.limit 100
  started ← require_timestamp p now
  ok (
    record {
      worker_id = input.worker_id;
      claim_token = token;
      claimed_at = now;
      lease_expires_at = p.to_iso_string (started + lease);
    },
    limit,
  )

unfoldable pub claim_outbox :
    Platform
    → ClaimOutboxInput
    → String
    → String
    → InMemoryState
    → Result (List OutboxWorkItem) × InMemoryState
claim_outbox p input token now s = elim (validate_claim p input token now) [
  | err e ↦ (err e, s)
  | ok (claim, limit) ↦
      let (records, s') = claim_outbox_batch p input.scope claim limit s in
      (for_each (work_item input.scope s') records, s')
]

-- `settleOutbox`: either outcomes, or a last error and no outcomes.
unfoldable pub validate_result : List ProviderDeliveryOutcome → Option String → Result (Unit {0})
unfolding or_empty
validate_result [] last_error = require_non_empty (or_empty last_error)
validate_result (o ∷ os) none = validate_outcomes (o ∷ os)
validate_result (o ∷ os) (some e) = do
  validate_outcomes (o ∷ os)
  err (validation_error last_error_reserved)

unfoldable pub has_failure : List ProviderDeliveryOutcome → Bool
has_failure [] = true
has_failure (o ∷ os) = any outcome_failed (o ∷ os)

unfoldable pub validate_retry : Platform → Bool → Option String → ℕ → Result (Unit {0})
validate_retry p true none settled_at = err (validation_error retry_required)
validate_retry p true (some at) settled_at = do
  retry_at ← require_timestamp p at
  throw_if (leb retry_at settled_at) (validation_error retry_not_later)
validate_retry p false none settled_at = ok tt
validate_retry p false (some at) settled_at = err (validation_error retry_not_allowed)

unfoldable pub validate_settlement : Platform → SettleOutboxInput → String → Result (Unit {0})
validate_settlement p input now = do
  validate_scope input.scope
  require_non_empty input.worker_id
  require_non_empty input.claim_token
  validate_result input.outcomes input.last_error
  settled_at ← require_timestamp p now
  validate_retry p (has_failure input.outcomes) input.next_attempt_at settled_at

unfoldable pub settle_request : SettleOutboxInput → String → SettleClaimRequest
settle_request input now = record {
  scope = input.scope;
  outbox_id = input.outbox_id;
  worker_id = input.worker_id;
  claim_token = input.claim_token;
  settled_at = now;
  outcomes = input.outcomes;
  last_error = input.last_error;
  next_attempt_at = input.next_attempt_at;
}

unfoldable pub settlement : String → Result (Option SettledClaim) → Result SettledClaim
settlement outbox_id (err e) = err e
settlement outbox_id (ok none) = err (outbox_claim_conflict outbox_id)
settlement outbox_id (ok (some settled)) = ok settled

unfoldable pub settle_outbox :
    Platform → SettleOutboxInput → String → InMemoryState → Result SettledClaim × InMemoryState
settle_outbox p input now s = elim (validate_settlement p input now) [
  | err e ↦ (err e, s)
  | ok _ ↦
      let (settled, s') = transaction (settle_outbox_claim p (settle_request input now)) s in
      (settlement input.outbox_id settled, s')
]

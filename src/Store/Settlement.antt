-- ===== src/Store/Settlement.antt =====
-- `settleOutboxClaim` of the in-memory store: the fence around a claim, the materializations of the
-- providers, and the record afterwards.
pub mod Fence
use Prim.Native.Nat.{Ordering}
use Prim.Native.String as Str
use digital_life_memory_fabr.Base.{
  ℕ, suc, ◌+◌, Bool, true, false, not, String, List, [], ◌∷◌, ◌++◌, map, Option, none, some, ◌==◌,
  ◌&&◌, ◌||◌, ltb, leb, eqb, take, find, filter, any, sort_by, if◌then◌else◌,
}
use digital_life_memory_fabr.Base.JsMap as M
use digital_life_memory_fabr.Base.JsMap.{JsMap}
use digital_life_memory_fabr.Domain.Platform.{Platform}
use digital_life_memory_fabr.Domain.Scope.{MemoryScope, scope_key, provider_materialization_key}
use digital_life_memory_fabr.Domain.Records.{
  MemoryOutboxRecord, OutboxStatus, pending, processing, done, ProviderMaterialization,
  MaterializationStatus,
}
use digital_life_memory_fabr.Domain.Errors.{
  Result, ok, err, ◌>>=◌, validation_error, materialization_backward,
}
use digital_life_memory_fabr.Store.{InMemoryState}
use digital_life_memory_fabr.Store.Outbox.{time_le}

pub data DeliveryStatus : Type 0 where
  current failed unavailable : DeliveryStatus

pub record ProviderDeliveryOutcome : Type 0 where
  pub provider_name : String
  pub status : DeliveryStatus
  pub provider_id : Option String
  pub last_error : Option String

pub record SettleClaimRequest : Type 0 where
  pub scope : MemoryScope
  pub outbox_id : String
  pub worker_id : String
  pub claim_token : String
  pub settled_at : String
  pub outcomes : List ProviderDeliveryOutcome
  pub last_error : Option String
  pub next_attempt_at : Option String

pub record SettledClaim : Type 0 where
  pub record_after : MemoryOutboxRecord
  pub materializations : List ProviderMaterialization

-- `value === expected` for an optional text.
unfoldable pub holds_text : Option String → String → Bool
holds_text none expected = false
holds_text (some v) expected = v == expected

is_processing : OutboxStatus → Bool
is_processing processing = true
is_processing _ = false

-- `leaseExpiresAt === undefined || Date.parse(leaseExpiresAt) <= Date.parse(settledAt)`
unfoldable pub lease_lost : Platform → String → Option String → Bool
lease_lost p settled_at none = true
lease_lost p settled_at (some at) = time_le (p.date_parse at) (p.date_parse settled_at)

-- Whether the record is held by the claim that settles it.
unfoldable pub owns_claim : Platform → SettleClaimRequest → MemoryOutboxRecord → Bool
unfolding is_processing
owns_claim p request r =
    is_processing r.status
    && holds_text r.claimed_by request.worker_id
    && holds_text r.claim_token request.claim_token
    && not (lease_lost p request.settled_at r.lease_expires_at)

unfoldable pub is_requested : SettleClaimRequest → MemoryOutboxRecord → Bool
is_requested request r =
    r.outbox_id == request.outbox_id && scope_key r.scope == scope_key request.scope

is_current : DeliveryStatus → Bool
is_current current = true
is_current _ = false

materialization_status : DeliveryStatus → MaterializationStatus
materialization_status current = MaterializationStatus.current
materialization_status failed = MaterializationStatus.failed
materialization_status unavailable = MaterializationStatus.unavailable

-- `previous?.materializedRevision ?? 0`
previous_revision : Option ProviderMaterialization → ℕ
previous_revision none = 0
previous_revision (some m) = m.materialized_revision

-- `outcome.providerId`, or that of the previous materialization.
kept_provider_id : Option String → Option ProviderMaterialization → Option String
kept_provider_id (some id) previous = some id
kept_provider_id none none = none
kept_provider_id none (some m) = m.provider_id

unfoldable pub moves_backward : Option ProviderMaterialization → ℕ → Bool
moves_backward none revision = false
moves_backward (some m) revision = ltb revision m.canonical_revision

unfoldable pub materialization_of :
    String
    → MemoryOutboxRecord
    → Option ProviderMaterialization
    → ProviderDeliveryOutcome
    → ProviderMaterialization
unfolding is_current materialization_status previous_revision kept_provider_id
materialization_of settled_at r previous outcome = record {
  provider_name = outcome.provider_name;
  memory_id = r.memory_id;
  provider_id = kept_provider_id outcome.provider_id previous;
  canonical_revision = r.revision;
  materialized_revision =
      if is_current outcome.status then r.revision else previous_revision previous;
  status = materialization_status outcome.status;
  last_error = outcome.last_error;
  last_attempt = some settled_at;
}

-- The loop over the outcomes: the materializations written, and the map.
unfoldable pub write_outcomes :
    String
    → MemoryOutboxRecord
    → List ProviderDeliveryOutcome
    → JsMap ProviderMaterialization
    → Result (List ProviderMaterialization × JsMap ProviderMaterialization)
write_outcomes settled_at r [] m = ok ([], m)
write_outcomes settled_at r (outcome ∷ outcomes) m =
    let key = provider_materialization_key outcome.provider_name r.memory_id in
    let written = materialization_of settled_at r (M.get key m) outcome in
    let rest = write_outcomes settled_at r outcomes (M.set key written m) in
    if moves_backward (M.get key m) r.revision
    then err (validation_error materialization_backward)
    else (rest >>= λ (ms, m'). ok (written ∷ ms, m'))

unfoldable pub failed_outcomes : List ProviderDeliveryOutcome → List ProviderDeliveryOutcome
unfolding is_current
failed_outcomes outcomes = filter (λ o. not (is_current o.status)) outcomes

-- The text of `${outcome.providerName}: ${outcome.lastError}`.
outcome_error : ProviderDeliveryOutcome → String
outcome_error o = Str.◌++◌ o.provider_name (Str.◌++◌ ": " (error_text o.last_error))
  where
    error_text : Option String → String
    error_text none = "undefined"
    error_text (some e) = e

join_errors : List ProviderDeliveryOutcome → String
join_errors [] = ""
join_errors (o ∷ []) = outcome_error o
join_errors (o ∷ o' ∷ os) = Str.◌++◌ (outcome_error o) (Str.◌++◌ "; " (join_errors (o' ∷ os)))

-- `request.lastError ?? failed.map(…).join("; ")`
settlement_error : Option String → List ProviderDeliveryOutcome → String
settlement_error (some e) failures = e
settlement_error none failures = join_errors failures

-- `if (request.nextAttemptAt !== undefined) record.nextAttemptAt = …`
next_attempt : Option String → Option String → Option String
next_attempt none before = before
next_attempt (some at) before = some at

no_error : Option String → Bool
no_error none = true
no_error (some e) = false

is_empty : List ProviderDeliveryOutcome → Bool
is_empty [] = true
is_empty (o ∷ os) = false

unfoldable pub settles_done : SettleClaimRequest → Bool
unfolding no_error is_empty failed_outcomes
settles_done request = no_error request.last_error && is_empty (failed_outcomes request.outcomes)

unfoldable pub settled_record : SettleClaimRequest → MemoryOutboxRecord → MemoryOutboxRecord
unfolding settlement_error join_errors outcome_error next_attempt
settled_record request r =
    let freed = record r {
      updated_at = some request.settled_at;
      claimed_by = none;
      claim_token = none;
      lease_expires_at = none;
    } in
    if settles_done request
    then record freed { status = done; last_error = none; next_attempt_at = none }
    else record freed {
      status = OutboxStatus.failed;
      last_error = some (settlement_error request.last_error (failed_outcomes request.outcomes));
      next_attempt_at = next_attempt request.next_attempt_at r.next_attempt_at;
    }

-- The list with its first entry that passes the test replaced.
unfoldable pub replace_first :
    (MemoryOutboxRecord → Bool)
    → MemoryOutboxRecord
    → List MemoryOutboxRecord
    → List MemoryOutboxRecord
replace_first test r [] = []
replace_first test r (x ∷ xs) =
    let rest = replace_first test r xs in if test x then r ∷ xs else x ∷ rest

unfoldable pub settle_record :
    SettleClaimRequest
    → MemoryOutboxRecord
    → InMemoryState
    → Result (Option SettledClaim × InMemoryState)
settle_record request r s =
    write_outcomes request.settled_at r request.outcomes s.provider_materializations >>= λ (ms, m).
    ok (
      some (record { record_after = settled_record request r; materializations = ms }),
      record s {
        provider_materializations = m;
        outbox = replace_first (is_requested request) (settled_record request r) s.outbox;
      },
    )

-- The work of `settleOutboxClaim`; `none` where the claim is no longer held.
unfoldable pub settle_outbox_claim :
    Platform → SettleClaimRequest → InMemoryState → Result (Option SettledClaim × InMemoryState)
settle_outbox_claim p request s = elim (find (is_requested request) s.outbox) [
  | none ↦ ok (none, s)
  | some r ↦ if owns_claim p request r then settle_record request r s else ok (none, s)
]

-- ===== src/Store/Outbox.antt =====
-- `claimOutboxBatch` of the in-memory store: which outbox records a worker gets, and the lease.
-- The code mutates the records that it selects; here a record is selected by its place in the list.
pub mod Places
pub mod Lease
pub mod Exclusive
use Prim.Native.Nat.{Ordering}
use digital_life_memory_fabr.Base.{
  ℕ, suc, ◌+◌, Bool, true, false, not, String, List, [], ◌∷◌, map, Option, none, some, ◌==◌, ◌&&◌,
  ltb, leb, eqb, take, filter, any, sort_by, if◌then◌else◌,
}
use digital_life_memory_fabr.Domain.Platform.{Platform}
use digital_life_memory_fabr.Domain.Scope.{MemoryScope, scope_key}
use digital_life_memory_fabr.Domain.Records.{
  MemoryOutboxRecord, OutboxStatus, pending, processing, done,
}
use digital_life_memory_fabr.Store.{InMemoryState}

-- `left <= right` on results of `Date.parse`; false where one is NaN.
unfoldable pub time_le : Option ℕ → Option ℕ → Bool
time_le (some a) (some b) = leb a b
time_le _ _ = false

unfoldable pub is_done : OutboxStatus → Bool
is_done done = true
is_done _ = false

-- An earlier revision of the same memory that is not done.
unfoldable pub earlier_unfinished : MemoryOutboxRecord → List MemoryOutboxRecord → Bool
earlier_unfinished r outbox =
    any
      (λ earlier.
        earlier.memory_id == r.memory_id
        && ltb earlier.revision r.revision
        && not (is_done earlier.status))
      outbox

-- `nextAttemptAt === undefined || Date.parse(nextAttemptAt) <= now`
unfoldable pub retry_due : Platform → Option ℕ → Option String → Bool
retry_due p now none = true
retry_due p now (some at) = time_le (p.date_parse at) now

-- `leaseExpiresAt !== undefined && Date.parse(leaseExpiresAt) <= now`
unfoldable pub lease_over : Platform → Option ℕ → Option String → Bool
lease_over p now none = false
lease_over p now (some at) = time_le (p.date_parse at) now

unfoldable pub status_claimable : Platform → Option ℕ → MemoryOutboxRecord → OutboxStatus → Bool
status_claimable p now r pending = true
status_claimable p now r OutboxStatus.failed = retry_due p now r.next_attempt_at
status_claimable p now r processing = lease_over p now r.lease_expires_at
status_claimable p now r done = false

unfoldable pub is_claimable :
    Platform → String → Option ℕ → List MemoryOutboxRecord → MemoryOutboxRecord → Bool
is_claimable p key now outbox r =
    scope_key r.scope == key
    && not (earlier_unfinished r outbox)
    && status_claimable p now r r.status

abbrev pub Placed : Type 0
Placed = ℕ × MemoryOutboxRecord

unfoldable pub enumerate : ℕ → List MemoryOutboxRecord → List Placed
enumerate i [] = []
enumerate i (r ∷ rs) = (i, r) ∷ enumerate (suc i) rs

-- `left.createdAt.localeCompare(right.createdAt) || left.outboxId.localeCompare(right.outboxId)`
unfoldable pub claim_order : Platform → Placed → Placed → Bool
claim_order p (i, left) (j, right) = elim (p.locale_compare left.created_at right.created_at) [
  | Ordering.lt ↦ true
  | Ordering.gt ↦ false
  | Ordering.eq ↦ elim (p.locale_compare left.outbox_id right.outbox_id) [
    | Ordering.gt ↦ false
    | _ ↦ true
  ]
]

unfoldable pub claimable :
    Platform → MemoryScope → Option ℕ → ℕ → List MemoryOutboxRecord → List Placed
claimable p scope now limit outbox = take limit (
    sort_by (claim_order p)
      (filter (λ e. is_claimable p (scope_key scope) now outbox e.1) (enumerate 0 outbox)))

-- Who claims, until when.
pub record Claim : Type 0 where
  pub worker_id : String
  pub claim_token : String
  pub claimed_at : String
  pub lease_expires_at : String

unfoldable pub claimed_record : Claim → MemoryOutboxRecord → MemoryOutboxRecord
claimed_record claim r = record r {
  status = processing;
  attempts = r.attempts + 1;
  claimed_by = some claim.worker_id;
  claim_token = some claim.claim_token;
  lease_expires_at = some claim.lease_expires_at;
  updated_at = some claim.claimed_at;
  next_attempt_at = none;
  last_error = none;
}

unfoldable pub is_chosen : List Placed → ℕ → Bool
is_chosen chosen i = any (λ e. eqb e.0 i) chosen

-- The outbox with the chosen places claimed.
unfoldable pub claim_places :
    Claim → List Placed → ℕ → List MemoryOutboxRecord → List MemoryOutboxRecord
claim_places claim chosen i [] = []
claim_places claim chosen i (r ∷ rs) =
    (if is_chosen chosen i then claimed_record claim r else r)
    ∷ claim_places claim chosen (suc i) rs

unfoldable pub claim_outbox_batch :
    Platform → MemoryScope → Claim → ℕ → InMemoryState → List MemoryOutboxRecord × InMemoryState
claim_outbox_batch p scope claim limit s =
    let chosen = claimable p scope (p.date_parse claim.claimed_at) limit s.outbox in
    (
      map (λ e. claimed_record claim e.1) chosen,
      record s { outbox = claim_places claim chosen 0 s.outbox },
    )

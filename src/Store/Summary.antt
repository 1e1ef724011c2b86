-- ===== src/Store/Summary.antt =====
-- The summary of a namespace: its counts add up, and its lag bounds that of every device.
use digital_life_memory_fabr.Base.{All, ℕ, ◌+◌, ◌-◌, ◌≤◌, List, [], ◌∷◌, ◌≡◌, arith, length}
use digital_life_memory_fabr.Domain.Scope.{MemoryScope}
use digital_life_memory_fabr.Domain.Memory.{CanonicalMemoryHead, MemoryStatus, same_status}
use digital_life_memory_fabr.Domain.Records.{
  MemoryOutboxRecord, OutboxStatus, DeviceCheckpoint, ProviderMaterialization,
  MaterializationStatus,
}
use digital_life_memory_fabr.Store.{InMemoryState, high_watermark}
use digital_life_memory_fabr.Store.Listings.{
  NamespaceOperationsSummary, get_namespace_operations_summary, count_heads, count_outbox,
  count_materializations, max_lag, max, scope_heads, scope_outbox, scope_devices,
  scope_materializations, same_outbox_status, same_materialization_status,
}

count_heads-total :
    (heads : List CanonicalMemoryHead)
    → count_heads MemoryStatus.active heads
        + count_heads MemoryStatus.tombstoned heads
        + count_heads MemoryStatus.superseded heads
      ≡ length heads
unfolding count_heads same_status
count_heads-total [] = omega arith
count_heads-total (h ∷ hs) = ground (arith, count_heads-total hs)

count_outbox-total :
    (rs : List MemoryOutboxRecord)
    → count_outbox OutboxStatus.pending rs
        + count_outbox OutboxStatus.processing rs
        + count_outbox OutboxStatus.done rs
        + count_outbox OutboxStatus.failed rs
      ≡ length rs
unfolding count_outbox same_outbox_status
count_outbox-total [] = omega arith
count_outbox-total (r ∷ rs) = ground (arith, count_outbox-total rs)

count_materializations-total :
    (ms : List ProviderMaterialization)
    → count_materializations MaterializationStatus.current ms
        + count_materializations MaterializationStatus.lagging ms
        + count_materializations MaterializationStatus.failed ms
        + count_materializations MaterializationStatus.unavailable ms
        + count_materializations MaterializationStatus.rebuilding ms
      ≡ length ms
unfolding count_materializations same_materialization_status
count_materializations-total [] = omega arith
count_materializations-total (m ∷ ms) = ground (arith, count_materializations-total ms)

max_lag-start : (high maximum : ℕ) (cs : List DeviceCheckpoint) → maximum ≤ max_lag high maximum cs
unfolding max_lag
max_lag-start high maximum [] = omega arith
max_lag-start high maximum (c ∷ cs) =
    let lag = high - c.last_applied_commit_seq in
    let step = max_lag-start high (max maximum lag) cs in ground (arith, step)

-- The lag of each device is at most the maximum.
max_lag-bounds :
    (high maximum : ℕ) (cs : List DeviceCheckpoint)
    → All (λ c. high ≤ c.last_applied_commit_seq + max_lag high maximum cs) cs
unfolding max_lag
max_lag-bounds high maximum [] = tt
max_lag-bounds high maximum (c ∷ cs) =
    let lag = high - c.last_applied_commit_seq in
    let step = max_lag-start high (max maximum lag) cs in
    (ground (arith, step), max_lag-bounds high (max maximum lag) cs)

pub record AddsUp (scope : MemoryScope) (s : InMemoryState) (summary : NamespaceOperationsSummary)
    : Type 0 where
  pub memories :
      summary.memories.active + summary.memories.tombstoned + summary.memories.superseded
      ≡ summary.memories.total
  pub outbox :
      summary.outbox.pending + summary.outbox.processing + summary.outbox.done
        + summary.outbox.failed
      ≡ length (scope_outbox scope s)
  pub materializations :
      summary.materializations.current + summary.materializations.lagging
        + summary.materializations.failed + summary.materializations.unavailable
        + summary.materializations.rebuilding
      ≡ length (scope_materializations scope s)
  pub lag :
      All
        (λ c. high_watermark scope s ≤ c.last_applied_commit_seq + summary.devices.max_lag)
        (scope_devices scope s)

-- The counts of a summary add up: those of the memories by status to their total, those of the
-- outbox and of the materializations to the records of the scope; and no device of the scope is
-- further behind the last commit than the maximal lag.
pub get_namespace_operations_summary-AddsUp :
    (scope : MemoryScope) (s : InMemoryState)
    → AddsUp scope s (get_namespace_operations_summary scope s)
unfolding get_namespace_operations_summary
get_namespace_operations_summary-AddsUp scope s = record {
  memories = count_heads-total (scope_heads scope s);
  outbox = count_outbox-total (scope_outbox scope s);
  materializations = count_materializations-total (scope_materializations scope s);
  lag = max_lag-bounds (high_watermark scope s) 0 (scope_devices scope s);
}

-- ===== src/Store/Listings.antt =====
-- The listings of the in-memory store that the operations service pages through, and the summary
-- of a namespace.
use Prim.Native.Nat.{compare, Ordering}
use digital_life_memory_fabr.Base.{
  ℕ, ◌-◌, Bool, true, false, not, String, List, [], ◌∷◌, Option, none, some, ◌==◌, ◌&&◌, ◌||◌, leb,
  length, take, filter, any, sort_by, if◌then◌else◌,
}
use digital_life_memory_fabr.Base.JsMap as M
use digital_life_memory_fabr.Domain.Json.{text_le}
use digital_life_memory_fabr.Domain.Platform.{Platform, locale_le}
use digital_life_memory_fabr.Domain.Scope.{MemoryScope, scope_key}
use digital_life_memory_fabr.Domain.Memory.{
  CanonicalMemoryHead, MemoryStatus, MemoryRevision, same_status,
}
use digital_life_memory_fabr.Domain.Records.{
  MemoryOutboxRecord, OutboxStatus, DeviceCheckpoint, ProviderMaterialization,
  MaterializationStatus,
}
use digital_life_memory_fabr.Store.{InMemoryState, get_revision, high_watermark}

pub record CurrentHeadCursorRecord : Type 0 where
  pub head : CanonicalMemoryHead
  pub commit_seq : ℕ

-- The record of a head, unless its revision is missing or not behind the cursor.
unfoldable pub behind_cursor :
    ℕ → CanonicalMemoryHead → Option MemoryRevision → Option CurrentHeadCursorRecord
behind_cursor after head none = none
behind_cursor after head (some r) =
    if leb r.commit_seq after
    then none
    else some (record { head = head; commit_seq = r.commit_seq })

unfoldable pub cursor_record :
    MemoryScope → ℕ → InMemoryState → CanonicalMemoryHead → Option CurrentHeadCursorRecord
cursor_record scope after s head =
    if scope_key head.scope == scope_key scope
    then behind_cursor after head (get_revision head.memory_id head.current_revision s)
    else none

unfoldable pub cursor_records :
    MemoryScope → ℕ → InMemoryState → List CanonicalMemoryHead → List CurrentHeadCursorRecord
cursor_records scope after s [] = []
cursor_records scope after s (head ∷ heads) =
    let rest = cursor_records scope after s heads in
    elim (cursor_record scope after s head) [ none ↦ rest | some r ↦ r ∷ rest ]

-- `left.commitSeq - right.commitSeq || left.head.memoryId.localeCompare(right.head.memoryId)`
unfoldable pub cursor_order : Platform → CurrentHeadCursorRecord → CurrentHeadCursorRecord → Bool
cursor_order p left right = elim (compare left.commit_seq right.commit_seq) [
  | Ordering.lt ↦ true
  | Ordering.gt ↦ false
  | Ordering.eq ↦ locale_le p left.head.memory_id right.head.memory_id
]

unfoldable pub list_current_heads_after :
    Platform → MemoryScope → ℕ → ℕ → InMemoryState → List CurrentHeadCursorRecord
list_current_heads_after p scope after limit s =
    take limit (sort_by (cursor_order p) (cursor_records scope after s (M.values s.heads)))

-- `afterDeviceId === undefined || checkpoint.deviceId > afterDeviceId`
unfoldable pub text_after : Option String → String → Bool
text_after none id = true
text_after (some after) id = not (text_le id after)

unfoldable pub list_device_checkpoints_after :
    Platform → MemoryScope → Option String → ℕ → InMemoryState → List DeviceCheckpoint
list_device_checkpoints_after p scope after limit s = take limit (
    sort_by (λ left right. locale_le p left.device_id right.device_id)
      (filter (λ c. scope_key c.scope == scope_key scope && text_after after c.device_id)
        (M.values s.device_checkpoints)))

pub record ProviderMaterializationCursor : Type 0 where
  pub provider_name : String
  pub memory_id : String

unfoldable pub materialization_after :
    Option ProviderMaterializationCursor → ProviderMaterialization → Bool
materialization_after none m = true
materialization_after (some after) m =
    not (text_le m.provider_name after.provider_name)
    || m.provider_name == after.provider_name && not (text_le m.memory_id after.memory_id)

unfoldable pub head_in_scope : MemoryScope → Option CanonicalMemoryHead → Bool
head_in_scope scope none = false
head_in_scope scope (some head) = scope_key head.scope == scope_key scope

unfoldable pub materialization_order :
    Platform → ProviderMaterialization → ProviderMaterialization → Bool
materialization_order p left right =
    elim (p.locale_compare left.provider_name right.provider_name) [
      | Ordering.lt ↦ true
      | Ordering.gt ↦ false
      | Ordering.eq ↦ locale_le p left.memory_id right.memory_id
    ]

unfoldable pub list_provider_materializations_after :
    Platform
    → MemoryScope
    → Option ProviderMaterializationCursor
    → ℕ
    → InMemoryState
    → List ProviderMaterialization
list_provider_materializations_after p scope after limit s = take limit (
    sort_by (materialization_order p) (
      filter (λ m. head_in_scope scope (M.get m.memory_id s.heads) && materialization_after after m)
        (M.values s.provider_materializations)))

pub record MemoryCounts : Type 0 where
  pub total : ℕ
  pub active : ℕ
  pub tombstoned : ℕ
  pub superseded : ℕ

pub record OperationsStatusCounts : Type 0 where
  pub pending : ℕ
  pub processing : ℕ
  pub done : ℕ
  pub failed : ℕ

pub record DeviceCounts : Type 0 where
  pub total : ℕ
  pub max_lag : ℕ

pub record MaterializationStatusCounts : Type 0 where
  pub current : ℕ
  pub lagging : ℕ
  pub failed : ℕ
  pub unavailable : ℕ
  pub rebuilding : ℕ

pub record NamespaceOperationsSummary : Type 0 where
  pub scope : MemoryScope
  pub high_watermark : ℕ
  pub memories : MemoryCounts
  pub outbox : OperationsStatusCounts
  pub devices : DeviceCounts
  pub materializations : MaterializationStatusCounts

unfoldable pub same_outbox_status : OutboxStatus → OutboxStatus → Bool
same_outbox_status OutboxStatus.pending OutboxStatus.pending = true
same_outbox_status OutboxStatus.processing OutboxStatus.processing = true
same_outbox_status OutboxStatus.done OutboxStatus.done = true
same_outbox_status OutboxStatus.failed OutboxStatus.failed = true
same_outbox_status _ _ = false

unfoldable pub same_materialization_status : MaterializationStatus → MaterializationStatus → Bool
same_materialization_status MaterializationStatus.current MaterializationStatus.current = true
same_materialization_status MaterializationStatus.lagging MaterializationStatus.lagging = true
same_materialization_status MaterializationStatus.failed MaterializationStatus.failed = true
same_materialization_status MaterializationStatus.unavailable MaterializationStatus.unavailable =
    true
same_materialization_status MaterializationStatus.rebuilding MaterializationStatus.rebuilding = true
same_materialization_status _ _ = false

unfoldable pub count_heads : MemoryStatus → List CanonicalMemoryHead → ℕ
count_heads status heads = length (filter (λ h. same_status h.status status) heads)

unfoldable pub count_outbox : OutboxStatus → List MemoryOutboxRecord → ℕ
count_outbox status records = length (filter (λ r. same_outbox_status r.status status) records)

unfoldable pub count_materializations : MaterializationStatus → List ProviderMaterialization → ℕ
count_materializations status ms =
    length (filter (λ m. same_materialization_status m.status status) ms)

abbrev pub max : ℕ → ℕ → ℕ
max a b = if leb a b then b else a

-- The `reduce` over the devices. A lag below zero is no more than the maximum, which starts at 0.
unfoldable pub max_lag : ℕ → ℕ → List DeviceCheckpoint → ℕ
max_lag high maximum [] = maximum
max_lag high maximum (c ∷ cs) = max_lag high (max maximum (high - c.last_applied_commit_seq)) cs

unfoldable pub scope_heads : MemoryScope → InMemoryState → List CanonicalMemoryHead
scope_heads scope s = filter (λ h. scope_key h.scope == scope_key scope) (M.values s.heads)

unfoldable pub scope_outbox : MemoryScope → InMemoryState → List MemoryOutboxRecord
scope_outbox scope s = filter (λ r. scope_key r.scope == scope_key scope) s.outbox

unfoldable pub scope_devices : MemoryScope → InMemoryState → List DeviceCheckpoint
scope_devices scope s =
    filter (λ c. scope_key c.scope == scope_key scope) (M.values s.device_checkpoints)

unfoldable pub scope_materializations : MemoryScope → InMemoryState → List ProviderMaterialization
scope_materializations scope s =
    filter (λ m. any (λ h. h.memory_id == m.memory_id) (scope_heads scope s))
      (M.values s.provider_materializations)

unfoldable pub get_namespace_operations_summary :
    MemoryScope → InMemoryState → NamespaceOperationsSummary
get_namespace_operations_summary scope s =
    let heads = scope_heads scope s in
    let outbox = scope_outbox scope s in
    let devices = scope_devices scope s in
    let ms = scope_materializations scope s in
    record {
      scope = scope;
      high_watermark = high_watermark scope s;
      memories = record {
        total = length heads;
        active = count_heads MemoryStatus.active heads;
        tombstoned = count_heads MemoryStatus.tombstoned heads;
        superseded = count_heads MemoryStatus.superseded heads;
      };
      outbox = record {
        pending = count_outbox OutboxStatus.pending outbox;
        processing = count_outbox OutboxStatus.processing outbox;
        done = count_outbox OutboxStatus.done outbox;
        failed = count_outbox OutboxStatus.failed outbox;
      };
      devices = record {
        total = length devices;
        max_lag = max_lag (high_watermark scope s) 0 devices;
      };
      materializations = record {
        current = count_materializations MaterializationStatus.current ms;
        lagging = count_materializations MaterializationStatus.lagging ms;
        failed = count_materializations MaterializationStatus.failed ms;
        unavailable = count_materializations MaterializationStatus.unavailable ms;
        rebuilding = count_materializations MaterializationStatus.rebuilding ms;
      };
    }

-- ===== src/Operations/Pages.antt =====
-- The pages of src/operations/central-operations-service.ts: the inventory of memories, the fleet of
-- devices and the materializations of providers, with the types of src/operations/types.ts.
use digital_life_memory_fabr.Base.{
  ℕ, ◌+◌, ◌-◌, Bool, not, String, List, map, Option, none, some, ◌&&◌, ltb, eqb, length, take,
  last?,
}
use digital_life_memory_fabr.Domain.Platform.{Platform, Number, safe_natural}
use digital_life_memory_fabr.Domain.Scope.{MemoryScope, same_scope}
use digital_life_memory_fabr.Domain.Memory.{CanonicalMemoryHead, MemoryRevision}
use digital_life_memory_fabr.Domain.Records.{DeviceCheckpoint, ProviderMaterialization}
use digital_life_memory_fabr.Domain.Errors.{
  Result, ok, ◌>>=◌, ◌>>◌, throw_if, or_throw, for_each, validation_error, bad_cursor,
  operations_integrity,
}
use digital_life_memory_fabr.Store.{InMemoryState, get_revision, high_watermark}
use digital_life_memory_fabr.Store.Listings.{
  CurrentHeadCursorRecord, list_current_heads_after, list_device_checkpoints_after,
  ProviderMaterializationCursor, list_provider_materializations_after, NamespaceOperationsSummary,
  get_namespace_operations_summary,
}
use digital_life_memory_fabr.Operations.{validate_scope, require_non_empty, page_size}

pub record MemoryInventoryEntry : Type 0 where
  pub head : CanonicalMemoryHead
  pub revision : MemoryRevision

pub record MemoryInventoryPage : Type 0 where
  pub scope : MemoryScope
  pub after_commit_seq : ℕ
  pub next_commit_seq : ℕ
  pub entries : List MemoryInventoryEntry
  pub has_more : Bool

pub record DeviceOperationalState : Type 0 where
  pub checkpoint : DeviceCheckpoint
  pub high_watermark : ℕ
  pub lag : ℕ

pub record DeviceFleetPage : Type 0 where
  pub scope : MemoryScope
  pub after_device_id : Option String
  pub next_device_id : Option String
  pub devices : List DeviceOperationalState
  pub has_more : Bool

pub record ProviderMaterializationPage : Type 0 where
  pub scope : MemoryScope
  pub after : Option ProviderMaterializationCursor
  pub next : Option ProviderMaterializationCursor
  pub materializations : List ProviderMaterialization
  pub has_more : Bool

pub record ReadMemoryInventoryInput : Type 0 where
  pub scope : MemoryScope
  pub after_commit_seq : Number
  pub limit : Option Number

pub record ReadDeviceFleetInput : Type 0 where
  pub scope : MemoryScope
  pub after_device_id : Option String
  pub limit : Option Number

pub record ReadProviderMaterializationsInput : Type 0 where
  pub scope : MemoryScope
  pub after : Option ProviderMaterializationCursor
  pub limit : Option Number

unfoldable pub entry_resolves : MemoryScope → CurrentHeadCursorRecord → MemoryRevision → Bool
entry_resolves scope r revision =
    eqb revision.revision r.head.current_revision
    && eqb revision.commit_seq r.commit_seq
    && same_scope revision.scope scope

-- One entry of `entries`; its revision is read in `s`.
unfoldable pub inventory_entry :
    MemoryScope → InMemoryState → CurrentHeadCursorRecord → Result MemoryInventoryEntry
inventory_entry scope s r = do
  revision ←
      or_throw (get_revision r.head.memory_id r.head.current_revision s)
        (operations_integrity r.head.memory_id)
  throw_if (not (entry_resolves scope r revision)) (operations_integrity r.head.memory_id)
  ok (record { head = r.head; revision = revision })

-- `selected.at(-1)?.commitSeq ?? input.afterCommitSeq`
unfoldable pub next_cursor_after : ℕ → Option CurrentHeadCursorRecord → ℕ
next_cursor_after after none = after
next_cursor_after after (some r) = r.commit_seq

unfoldable pub inventory_page :
    MemoryScope → ℕ → ℕ → List CurrentHeadCursorRecord → InMemoryState → Result MemoryInventoryPage
inventory_page scope after limit fetched s = do
  entries ← for_each (inventory_entry scope s) (take limit fetched)
  ok (record {
    scope = scope;
    after_commit_seq = after;
    next_commit_seq = next_cursor_after after (last? (take limit fetched));
    entries = entries;
    has_more = ltb limit (length fetched);
  })

-- `readMemoryInventory`: the heads are read in `s₁` and their revisions in `s₂`.
unfoldable pub read_memory_inventory :
    Platform → ReadMemoryInventoryInput → InMemoryState → InMemoryState → Result MemoryInventoryPage
read_memory_inventory p input s₁ s₂ = do
  validate_scope input.scope
  after ← or_throw (safe_natural input.after_commit_seq) (validation_error bad_cursor)
  limit ← page_size input.limit 200
  inventory_page input.scope after limit
      (list_current_heads_after p input.scope after (limit + 1) s₁) s₂

unfoldable pub require_if_present : Option String → Result (Unit {0})
require_if_present none = ok tt
require_if_present (some value) = require_non_empty value

unfoldable pub operational_state : ℕ → DeviceCheckpoint → DeviceOperationalState
operational_state high c = record {
  checkpoint = c;
  high_watermark = high;
  lag = high - c.last_applied_commit_seq;
}

-- `lastDevice === undefined ? {} : { nextDeviceId: lastDevice.deviceId }`
unfoldable pub device_cursor : Option DeviceCheckpoint → Option String
device_cursor none = none
device_cursor (some c) = some c.device_id

unfoldable pub fleet_page :
    MemoryScope → Option String → ℕ → ℕ → List DeviceCheckpoint → DeviceFleetPage
fleet_page scope after limit high fetched = record {
  scope = scope;
  after_device_id = after;
  next_device_id = device_cursor (last? (take limit fetched));
  devices = map (operational_state high) (take limit fetched);
  has_more = ltb limit (length fetched);
}

-- `readDeviceFleet`: the two reads run side by side, the watermark's in `s₁` and the devices' in `s₂`.
unfoldable pub read_device_fleet :
    Platform → ReadDeviceFleetInput → InMemoryState → InMemoryState → Result DeviceFleetPage
read_device_fleet p input s₁ s₂ = do
  validate_scope input.scope
  require_if_present input.after_device_id
  limit ← page_size input.limit 200
  ok (
      fleet_page input.scope input.after_device_id limit (high_watermark input.scope s₁)
        (list_device_checkpoints_after p input.scope input.after_device_id (limit + 1) s₂))

unfoldable pub require_cursor : Option ProviderMaterializationCursor → Result (Unit {0})
require_cursor none = ok tt
require_cursor (some after) = do
  require_non_empty after.provider_name
  require_non_empty after.memory_id

unfoldable pub materialization_cursor :
    Option ProviderMaterialization → Option ProviderMaterializationCursor
materialization_cursor none = none
materialization_cursor (some m) =
    some (record { provider_name = m.provider_name; memory_id = m.memory_id })

unfoldable pub read_provider_materializations :
    Platform
    → ReadProviderMaterializationsInput
    → InMemoryState
    → Result ProviderMaterializationPage
read_provider_materializations p input s = do
  validate_scope input.scope
  require_cursor input.after
  limit ← page_size input.limit 200
  let fetched = list_provider_materializations_after p input.scope input.after (limit + 1) s in
      ok (record {
        scope = input.scope;
        after = input.after;
        next = materialization_cursor (last? (take limit fetched));
        materializations = take limit fetched;
        has_more = ltb limit (length fetched);
      })

unfoldable pub get_namespace_summary :
    MemoryScope → InMemoryState → Result NamespaceOperationsSummary
get_namespace_summary scope s = do
  validate_scope scope
  ok (get_namespace_operations_summary scope s)

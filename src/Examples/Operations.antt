-- ===== src/Examples/Operations.antt =====
-- Runs of the pages of the operations service.
use Prim.Native.Nat.{Ordering}
use digital_life_memory_fabr.Base.{
  All, ℕ, ◌≤◌, String, true, false, [], ◌∷◌, none, some, ◌≡◌, refl, ◌==◌, length, if◌then◌else◌,
}
use digital_life_memory_fabr.Base.JsMap as M
use digital_life_memory_fabr.Base.Text.{is_blank}
use digital_life_memory_fabr.Domain.Json.{text_le}
use digital_life_memory_fabr.Domain.Platform.{Platform, nat, safe_natural, locale_le}
use digital_life_memory_fabr.Domain.Errors.{ok}
use digital_life_memory_fabr.Domain.Scope.{scope_key, same_scope, revision_key}
use digital_life_memory_fabr.Domain.Records.{DeviceCheckpoint}
use digital_life_memory_fabr.Store.{InMemoryState, empty_state, get_revision}
use digital_life_memory_fabr.Store.Listings.{
  get_namespace_operations_summary, list_current_heads_after, cursor_records, cursor_record,
  behind_cursor, list_device_checkpoints_after, text_after,
}
use digital_life_memory_fabr.Store.Summary.{AddsUp, get_namespace_operations_summary-AddsUp}
use digital_life_memory_fabr.Operations.{validate_scope, require_non_empty, page_size, or_default}
use digital_life_memory_fabr.Operations.Pages.{
  ReadMemoryInventoryInput, MemoryInventoryPage, read_memory_inventory, inventory_page,
  inventory_entry, entry_resolves, ReadDeviceFleetInput, DeviceFleetPage, read_device_fleet,
  fleet_page, operational_state, require_if_present, device_cursor,
}
use digital_life_memory_fabr.Operations.Fleet.{
  next_page, read_device_fleet-skips, read_device_fleet-bounds,
}
use digital_life_memory_fabr.Operations.Inventory.{Inventory, read_memory_inventory-Inventory}
use digital_life_memory_fabr.Authority.Plan.{create_plan}
use digital_life_memory_fabr.Authority.Commit.{build_result, build_head, build_revision}
use digital_life_memory_fabr.Examples.{platform, scope, after_tea}

get_namespace_operations_summary-AddsUp_example :
    AddsUp scope after_tea (get_namespace_operations_summary scope after_tea)
get_namespace_operations_summary-AddsUp_example =
    get_namespace_operations_summary-AddsUp scope after_tea

-- Small letters stand before capital ones.
abbrev by_locale : Platform
by_locale = record platform {
  locale_compare = λ left right.
      if left == right then Ordering.eq else if left == "a" then Ordering.lt else Ordering.gt;
}

abbrev device : String → DeviceCheckpoint
device id = record {
  scope = scope;
  device_id = id;
  last_applied_commit_seq = 0;
  last_sync_at = "09:00";
}

abbrev with_devices : InMemoryState
with_devices = record empty_state {
  device_checkpoints = ("key-B", device "B") ∷ ("key-a", device "a") ∷ [];
}

fleet_first :
    (page : DeviceFleetPage) × (read_device_fleet by_locale
        (record { scope = scope; after_device_id = none; limit = some (nat 1) })
        with_devices
        with_devices
      ≡ ok page)
unfolding read_device_fleet validate_scope require_non_empty is_blank require_if_present page_size
    or_default safe_natural fleet_page device_cursor
fleet_first = (_, refl)

fleet_after_a :
    (page : DeviceFleetPage) × (read_device_fleet by_locale
        (record { scope = scope; after_device_id = some "a"; limit = some (nat 1) })
        with_devices
        with_devices
      ≡ ok page)
unfolding read_device_fleet validate_scope require_non_empty is_blank require_if_present page_size
    or_default safe_natural fleet_page device_cursor
fleet_after_a = (_, refl)

-- The first page lists "a", and "B" is below it by code units.
read_device_fleet-skips_example :
    ((fleet_first.0).has_more ≡ true)
    × All (λ d. (d.checkpoint.device_id == "B") ≡ false) (fleet_after_a.0).devices
unfolding fleet_first fleet_after_a text_le scope_key list_device_checkpoints_after text_after
    operational_state locale_le
read_device_fleet-skips_example =
    read_device_fleet-skips by_locale scope (some (nat 1)) with_devices with_devices fleet_first.0
      fleet_after_a.0 "a" (device "B") 0 fleet_first.1 refl refl refl (refl, tt) refl
      (next_page (some (nat 1)) with_devices with_devices fleet_after_a.0 fleet_after_a.1)

abbrev whole_fleet : ReadDeviceFleetInput
whole_fleet = record { scope = scope; after_device_id = none; limit = some (nat 2) }

fleet_read :
    (page : DeviceFleetPage) × (read_device_fleet by_locale whole_fleet with_devices with_devices
      ≡ ok page)
unfolding read_device_fleet validate_scope require_non_empty is_blank require_if_present page_size
    or_default safe_natural fleet_page device_cursor
fleet_read = (_, refl)

read_device_fleet-bounds_example :
    (length (fleet_read.0).devices ≤ 200)
    × ((n : ℕ) → some (nat 2) ≡ some (nat n) → length (fleet_read.0).devices ≤ n)
read_device_fleet-bounds_example =
    read_device_fleet-bounds by_locale whole_fleet with_devices with_devices fleet_read.0
      fleet_read.1

abbrev whole_inventory : ReadMemoryInventoryInput
whole_inventory = record { scope = scope; after_commit_seq = nat 0; limit = none }

inventory_read :
    (page : MemoryInventoryPage) × (read_memory_inventory platform whole_inventory after_tea
        after_tea
      ≡ ok page)
unfolding read_memory_inventory validate_scope require_non_empty is_blank safe_natural page_size
    or_default inventory_page inventory_entry entry_resolves list_current_heads_after cursor_records
    cursor_record behind_cursor get_revision same_scope M.get scope_key revision_key build_result
    build_head build_revision create_plan
inventory_read = (_, refl)

read_memory_inventory-Inventory_example :
    Inventory whole_inventory after_tea after_tea inventory_read.0
read_memory_inventory-Inventory_example =
    read_memory_inventory-Inventory platform whole_inventory after_tea after_tea inventory_read.0
      inventory_read.1

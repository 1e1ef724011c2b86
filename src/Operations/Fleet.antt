-- ===== src/Operations/Fleet.antt =====
-- Paging through the devices: the page size, and the devices that the cursors skip.
use mathlib.Core.Path.{subst}
use digital_life_memory_fabr.Base.JsMap as M
use digital_life_memory_fabr.Base.{
  All, All-map, text_cases, get_elem?, ap, sym, ℕ, ◌+◌, ◌≤◌, true, false, String, List, map, Option,
  none, some, ◌≡◌, ◌∙◌, arith, inl, inr, ◌==◌, length, take, length-take, length-map, Option-cases,
}
use digital_life_memory_fabr.Domain.Json.{text_le}
use digital_life_memory_fabr.Domain.Platform.{Platform, Number, nat, safe_natural}
use digital_life_memory_fabr.Domain.Scope.{MemoryScope, scope_key}
use digital_life_memory_fabr.Domain.Records.{DeviceCheckpoint}
use digital_life_memory_fabr.Domain.Errors.{ok, Result-cases}
use digital_life_memory_fabr.Store.{InMemoryState, high_watermark}
use digital_life_memory_fabr.Store.Listings.{list_device_checkpoints_after}
use digital_life_memory_fabr.Operations.{page_size, or_default}
use digital_life_memory_fabr.Operations.Cursor.{
  Above, text_le_refl, listed_after, fleet_page-Above, missing-has_more,
}
use digital_life_memory_fabr.Operations.Pages.{
  DeviceOperationalState, ReadDeviceFleetInput, DeviceFleetPage, read_device_fleet, fleet_page,
  operational_state,
}

pub page_size-bounds :
    (limit : Option Number) (maximum n : ℕ)
    → page_size limit maximum ≡ ok n
    → (1 ≤ n) × (n ≤ maximum)
unfolding page_size
page_size-bounds limit maximum n h = elim (Option-cases (safe_natural (or_default limit))) [
  | inl e ↦ absurd (ground (arith, e))
  | inr (m, e) ↦ (ground (arith, e), ground (arith, e))
]

read_device_fleet-eq-ok :
    (p : Platform) (input : ReadDeviceFleetInput) (s₁ s₂ : InMemoryState) (page : DeviceFleetPage)
    → read_device_fleet p input s₁ s₂ ≡ ok page
    → (n : ℕ) × (fleet_page input.scope input.after_device_id n
          (high_watermark input.scope s₁)
          (list_device_checkpoints_after p input.scope input.after_device_id (n + 1) s₂)
        ≡ page)
unfolding read_device_fleet
read_device_fleet-eq-ok p input s₁ s₂ page h = elim (Result-cases (page_size input.limit 200)) [
  | inl (e, failed) ↦ absurd (ground (arith, failed))
  | inr (n, sized) ↦ (n, ground (arith, sized))
]

-- The pages that a client reads which follows the cursors from `x` on, whatever happens to the store
-- between the reads.
pub data Following (p : Platform) (scope : MemoryScope) (x : String)
    : DeviceFleetPage → Type 0 where
  next_page :
      (limit : Option Number) (s₁ s₂ : InMemoryState) (page : DeviceFleetPage)
      → read_device_fleet p
          (record { scope = scope; after_device_id = some x; limit = limit })
          s₁
          s₂
        ≡ ok page
      → Following p scope x page
  page_after :
      (limit : Option Number) (s₁ s₂ : InMemoryState) (page page' : DeviceFleetPage) (y : String)
      → Following p scope x page
      → page.next_device_id ≡ some y
      → read_device_fleet p
          (record { scope = scope; after_device_id = some y; limit = limit })
          s₁
          s₂
        ≡ ok page'
      → Following p scope x page'

read_after-Above :
    (p : Platform) (scope : MemoryScope) (x w : String) (limit : Option Number)
    (s₁ s₂ : InMemoryState) (page : DeviceFleetPage)
    → text_le x w ≡ true
    → read_device_fleet p (record { scope = scope; after_device_id = some w; limit = limit }) s₁ s₂
      ≡ ok page
    → Above x page
read_after-Above p scope x w limit s₁ s₂ page up h =
    let (n, is) = read_device_fleet-eq-ok p _ s₁ s₂ page h in
    subst (Above x) is (fleet_page-Above p scope x w n _ _ up (listed_after p scope w (n + 1) s₂))

Following-Above :
    (p : Platform) (scope : MemoryScope) (x : String) (page : DeviceFleetPage)
    → Following p scope x page
    → Above x page
Following-Above p scope x _ (next_page limit s₁ s₂ page h) =
    read_after-Above p scope x x limit s₁ s₂ page (text_le_refl x) h
Following-Above p scope x _ (page_after limit s₁ s₂ page page' y before next h) =
    read_after-Above p scope x y limit s₁ s₂ page'
      ((Following-Above p scope x page before).onward y next) h

above_other : (id a x : String) → text_le a x ≡ true → text_le id x ≡ false → (id == a) ≡ false
above_other id a x under above = elim (text_cases id a) [
  | inl same ↦ absurd (cc (ap (λ t. text_le t x) same, under, above))
  | inr other ↦ other
]

-- A device can be left out of the fleet. Let a first page be without a stored device of the scope
-- whose id is not above the next cursor by code units, as can be since the page is sorted by
-- `localeCompare`. The page says that there are more, but no page of those that follow the cursors
-- from there, whatever happens to the store between the reads, has a device of that id.
pub read_device_fleet-skips :
    (p : Platform) (scope : MemoryScope) (limit : Option Number) (s₁ s₂ : InMemoryState)
    (first page : DeviceFleetPage) (x : String) (a : DeviceCheckpoint) (i : ℕ)
    → read_device_fleet p (record { scope = scope; after_device_id = none; limit = limit }) s₁ s₂
      ≡ ok first
    → first.next_device_id ≡ some x
    → get_elem? (M.values s₂.device_checkpoints) i ≡ some a
    → (scope_key a.scope == scope_key scope) ≡ true
    → All (λ d. (d.checkpoint.device_id == a.device_id) ≡ false) first.devices
    → text_le a.device_id x ≡ true
    → Following p scope x page
    → (first.has_more ≡ true)
      × All (λ d. (d.checkpoint.device_id == a.device_id) ≡ false) page.devices
unfolding fleet_page
read_device_fleet-skips p scope limit s₁ s₂ first page x a i h next stored within missing under
      following =
    let (n, is) = read_device_fleet-eq-ok p _ s₁ s₂ first h in
    let high = high_watermark scope s₁ in
    let not_a = λ (d : DeviceOperationalState). (d.checkpoint.device_id == a.device_id) ≡ false in
    let more =
      missing-has_more p scope n high i a s₂ stored within
        (subst (λ (y : DeviceFleetPage). All not_a y.devices) (sym is) missing) in
    (
      ap (λ (y : DeviceFleetPage). y.has_more) (sym is) ∙ more,
      All-map (λ d above. above_other d.checkpoint.device_id a.device_id x under above) _
          (Following-Above p scope x page following).listed,
    )

page_size-given :
    (limit : Option Number) (maximum n k : ℕ)
    → page_size limit maximum ≡ ok n
    → limit ≡ some (nat k)
    → n ≡ k
unfolding page_size or_default safe_natural
page_size-given limit maximum n k h e = ground arith

page_length :
    (high n : ℕ) (fetched : List DeviceCheckpoint)
    → length (map (operational_state high) (take n fetched)) ≤ n
page_length high n fetched =
    let measured = length-map (operational_state high) (take n fetched) ∙ length-take n fetched in
    omega (arith, measured)

-- A page of the fleet that is returned has at most 200 devices, and no more than the limit that the
-- caller gave.
pub read_device_fleet-bounds :
    (p : Platform) (input : ReadDeviceFleetInput) (s₁ s₂ : InMemoryState) (page : DeviceFleetPage)
    → read_device_fleet p input s₁ s₂ ≡ ok page
    → (length page.devices ≤ 200) × ((n : ℕ) → input.limit ≡ some (nat n) → length page.devices ≤ n)
unfolding read_device_fleet fleet_page
read_device_fleet-bounds p input s₁ s₂ page h = elim (Result-cases (page_size input.limit 200)) [
  | inl (e, failed) ↦ absurd (ground (arith, failed))
  | inr (n, sized) ↦
      let fetched = list_device_checkpoints_after p input.scope input.after_device_id (n + 1) s₂ in
      let high = high_watermark input.scope s₁ in
      let is : fleet_page input.scope input.after_device_id n high fetched ≡ page =
        ground (arith, sized) in
      let short : length page.devices ≤ n =
        subst (λ (x : DeviceFleetPage). length x.devices ≤ n) is (page_length high n fetched) in
      let bounds = page_size-bounds input.limit 200 n sized in
      (
        omega (arith, short, bounds.1),
        λ k e.
            (let same = page_size-given input.limit 200 n k sized e in omega (arith, short, same)),
      )
]

-- ===== src/Operations/Cursor.antt =====
-- The order of code units, in which the cursor of the devices is compared, and what a page of devices
-- lists.
use mathlib.Core.Path.{subst}
use Prim.Native.String as Str
use digital_life_memory_fabr.Base.JsMap as M
use digital_life_memory_fabr.Base.{
  All, All-map, All-mapped, All-map_back, All-take, All-sort_by, All-sort_by_back, All-filter_test,
  All-filter_at, All-last?, trivially, Bool-cases, get_elem?, last?, filter, sort_by, take_all, ltb,
  ap, sym, eq_refl, ◌&&◌, ℕ, ◌+◌, ◌≤◌, true, false, String, List, none, some, ◌≡◌, refl, ◌∙◌, arith,
  inl, inr, ◌==◌, length, take, length-take, Option-cases,
}
use digital_life_memory_fabr.Domain.Json.{text_le}
use digital_life_memory_fabr.Domain.Platform.{Platform, locale_le}
use digital_life_memory_fabr.Domain.Scope.{MemoryScope, scope_key}
use digital_life_memory_fabr.Domain.Records.{DeviceCheckpoint}
use digital_life_memory_fabr.Store.{InMemoryState}
use digital_life_memory_fabr.Store.Listings.{list_device_checkpoints_after, text_after}
use digital_life_memory_fabr.Operations.Pages.{
  DeviceOperationalState, DeviceFleetPage, fleet_page, operational_state, device_cursor,
}

pub text_le_refl : (s : String) → text_le s s ≡ true
unfolding text_le
text_le_refl Str.[] = refl
text_le_refl (Str.◌∷◌ c s) = ground (arith, text_le_refl s)

text_le_trans : (s t u : String) → text_le s t ≡ true → text_le t u ≡ true → text_le s u ≡ true
unfolding text_le
text_le_trans Str.[] t u h k = refl
text_le_trans (Str.◌∷◌ c s) Str.[] u h k = absurd (cc h)
text_le_trans (Str.◌∷◌ c s) (Str.◌∷◌ d t) Str.[] h k = absurd (cc k)
text_le_trans (Str.◌∷◌ c s) (Str.◌∷◌ d t) (Str.◌∷◌ e u) h k = ground (arith, text_le_trans s t u)

text_le_total : (s t : String) → text_le s t ≡ false → text_le t s ≡ true
unfolding text_le
text_le_total Str.[] t h = absurd (cc h)
text_le_total (Str.◌∷◌ c s) Str.[] h = refl
text_le_total (Str.◌∷◌ c s) (Str.◌∷◌ d t) h = ground (arith, text_le_total s t)

-- A text above one that is above a third.
text_le_above : (x w id : String) → text_le x w ≡ true → text_le id w ≡ false → text_le id x ≡ false
text_le_above x w id up above = elim (Bool-cases (text_le id x)) [
  | inr other ↦ other
  | inl under ↦ absurd (cc (text_le_trans id x w under up, above))
]

-- The devices that a page after a cursor lists are above it, and so is its next cursor.
pub record Above (x : String) (page : DeviceFleetPage) : Type 0 where
  pub listed : All (λ d. text_le d.checkpoint.device_id x ≡ false) page.devices
  pub onward : (y : String) → page.next_device_id ≡ some y → text_le x y ≡ true

pub listed_after :
    (p : Platform) (scope : MemoryScope) (w : String) (n : ℕ) (s : InMemoryState)
    → All
        (λ (c : DeviceCheckpoint). text_le c.device_id w ≡ false)
        (list_device_checkpoints_after p scope (some w) n s)
unfolding list_device_checkpoints_after text_after
listed_after p scope w n s =
    let test = λ (c : DeviceCheckpoint).
      scope_key c.scope == scope_key scope && text_after (some w) c.device_id in
    let le = λ (left right : DeviceCheckpoint). locale_le p left.device_id right.device_id in
    let P = λ (c : DeviceCheckpoint). text_le c.device_id w ≡ false in
    let all = M.values s.device_checkpoints in
    All-take P n _ (
      All-sort_by P le (filter test all) (
        All-map (λ c h. ground (arith, h.1)) _
          (All-filter_test (λ c. Unit {0}) test all (trivially all))))

pub fleet_page-Above :
    (p : Platform) (scope : MemoryScope) (x w : String) (n high : ℕ)
    (fetched : List DeviceCheckpoint)
    → text_le x w ≡ true
    → All (λ (c : DeviceCheckpoint). text_le c.device_id w ≡ false) fetched
    → Above x (fleet_page scope (some w) n high fetched)
unfolding fleet_page device_cursor operational_state
fleet_page-Above p scope x w n high fetched up above =
    let P = λ (c : DeviceCheckpoint). text_le c.device_id w ≡ false in
    let shown = All-take P n fetched above in
    record {
      listed =
          All-mapped (λ (d : DeviceOperationalState). text_le d.checkpoint.device_id x ≡ false)
            (operational_state high) (take n fetched)
            (All-map (λ c h. text_le_above x w c.device_id up h) _ shown);
      onward = λ y next. elim (Option-cases (last? (take n fetched))) [
        | inl e ↦ absurd (ground (arith, e))
        | inr (c, e) ↦
            let same : c.device_id ≡ y = ground (arith, e) in
            let over = text_le_total c.device_id w (All-last? P (take n fetched) c e shown) in
            text_le_trans x w y up (ap (text_le w) (sym same) ∙ over)
      ];
    }

-- A first page without a stored device of the scope is not the last one.
pub missing-has_more :
    (p : Platform) (scope : MemoryScope) (n high i : ℕ) (a : DeviceCheckpoint) (s : InMemoryState)
    → get_elem? (M.values s.device_checkpoints) i ≡ some a
    → (scope_key a.scope == scope_key scope) ≡ true
    → All
        (λ d. (d.checkpoint.device_id == a.device_id) ≡ false)
        (fleet_page scope none n high
          (list_device_checkpoints_after p scope none (n + 1) s)).devices
    → ltb n (length (list_device_checkpoints_after p scope none (n + 1) s)) ≡ true
unfolding fleet_page list_device_checkpoints_after text_after operational_state
missing-has_more p scope n high i a s stored within missing =
    let test = λ (c : DeviceCheckpoint).
      scope_key c.scope == scope_key scope && text_after none c.device_id in
    let le = λ (left right : DeviceCheckpoint). locale_le p left.device_id right.device_id in
    let P = λ (c : DeviceCheckpoint). (c.device_id == a.device_id) ≡ false in
    let all = M.values s.device_checkpoints in
    let sorted = sort_by le (filter test all) in
    elim (Bool-cases (ltb n (length (take (n + 1) sorted)))) [
      | inl more ↦ more
      | inr last ↦
          let measured = length-take (n + 1) sorted in
          let short : length sorted ≤ n = ground (arith, last, measured) in
          let whole : take n (take (n + 1) sorted) ≡ sorted =
            ap (take n) (take_all (n + 1) sorted (omega (arith, short)))
            ∙ take_all n sorted short in
          let shown =
            All-map_back
              (λ (d : DeviceOperationalState). (d.checkpoint.device_id == a.device_id) ≡ false)
              (operational_state high) (take n (take (n + 1) sorted)) missing in
          let here =
            All-filter_at P test all i a stored (ground (arith, within))
              (All-sort_by_back P le (filter test all) (subst (All P) whole shown)) in
          absurd (cc (here, eq_refl a.device_id))
    ]

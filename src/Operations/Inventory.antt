-- ===== src/Operations/Inventory.antt =====
-- What a page of the inventory shows.
use mathlib.Core.Path.{subst}
use digital_life_memory_fabr.Base.{
  All, All-take, All-places, get_elem?, All-sort_by, length-take, ltb, ltb→lt, ℕ, suc, ◌+◌, ◌≤◌,
  ◌<◌, true, List, [], ◌∷◌, some, ◌≡◌, refl, ap, sym, ◌∙◌, arith, inl, inr, eqb_iff, length, take,
  sort_by, last?, Option-cases,
}
use digital_life_memory_fabr.Base.JsMap as M
use digital_life_memory_fabr.Domain.Platform.{Platform, safe_natural}
use digital_life_memory_fabr.Domain.Scope.{MemoryScope, same_scope}
use digital_life_memory_fabr.Domain.Memory.{CanonicalMemoryHead}
use digital_life_memory_fabr.Domain.Errors.{ok, for_each, Result-cases}
use digital_life_memory_fabr.Store.{InMemoryState, get_revision}
use digital_life_memory_fabr.Store.Listings.{
  CurrentHeadCursorRecord, list_current_heads_after, cursor_records, cursor_record, cursor_order,
  behind_cursor,
}
use digital_life_memory_fabr.Operations.{page_size}
use digital_life_memory_fabr.Operations.Fleet.{page_size-bounds}
use digital_life_memory_fabr.Operations.Pages.{
  ReadMemoryInventoryInput, MemoryInventoryPage, MemoryInventoryEntry, read_memory_inventory,
  inventory_page, inventory_entry, entry_resolves, next_cursor_after,
}

-- A record of the listing: one of the heads, with a sequence number behind the cursor.
record Listed (heads : List CanonicalMemoryHead) (after : ℕ) (r : CurrentHeadCursorRecord)
    : Type 0 where
  place : (i : ℕ) × (get_elem? heads i ≡ some r.head)
  later : after < r.commit_seq

cursor_record-parts :
    (scope : MemoryScope) (after : ℕ) (s : InMemoryState) (head : CanonicalMemoryHead)
    (r : CurrentHeadCursorRecord)
    → cursor_record scope after s head ≡ some r
    → (after < r.commit_seq) × (r.head ≡ head)
unfolding cursor_record behind_cursor
cursor_record-parts scope after s head r h =
    elim (Option-cases (get_revision head.memory_id head.current_revision s)) [
      | inl e ↦ absurd (ground (arith, e))
      | inr (x, e) ↦ (ground (arith, e), ground (arith, e))
    ]

cursor_records-Listed :
    (scope : MemoryScope) (after : ℕ) (s : InMemoryState) (all heads : List CanonicalMemoryHead)
    → All (λ head. (i : ℕ) × (get_elem? all i ≡ some head)) heads
    → All (Listed all after) (cursor_records scope after s heads)
unfolding cursor_records
cursor_records-Listed scope after s all [] h = tt
cursor_records-Listed scope after s all (head ∷ heads) h =
    elim (Option-cases (cursor_record scope after s head)) [
      | inl e ↦ rw (e, cursor_records) (cursor_records-Listed scope after s all heads h.1)
      | inr (r, e) ↦
          let (later, same) = cursor_record-parts scope after s head r e in
          rw (e, cursor_records)
            (
              record { place = (h.0.0, h.0.1 ∙ ap some (sym same)); later = later },
              cursor_records-Listed scope after s all heads h.1,
            )
    ]

-- What an entry of the inventory shows.
pub record Shows (scope : MemoryScope) (heads : List CanonicalMemoryHead) (after : ℕ)
    (s : InMemoryState) (e : MemoryInventoryEntry) : Type 0 where
  pub listed : (i : ℕ) × (get_elem? heads i ≡ some e.head)
  pub stored : get_revision e.head.memory_id e.head.current_revision s ≡ some e.revision
  pub current : e.revision.revision ≡ e.head.current_revision
  pub within : same_scope e.revision.scope scope ≡ true
  pub behind : after < e.revision.commit_seq

inventory_entry-Shows :
    (scope : MemoryScope) (heads : List CanonicalMemoryHead) (after : ℕ) (s : InMemoryState)
    (r : CurrentHeadCursorRecord) (e : MemoryInventoryEntry)
    → Listed heads after r
    → inventory_entry scope s r ≡ ok e
    → Shows scope heads after s e
unfolding inventory_entry entry_resolves
inventory_entry-Shows scope heads after s r e source h =
    elim (Option-cases (get_revision r.head.memory_id r.head.current_revision s)) [
      | inl missing ↦ absurd (ground (arith, missing))
      | inr (x, found) ↦
          let is : e ≡ record { head = r.head; revision = x } = ground (arith, found) in
          let same : x.revision ≡ r.head.current_revision =
            (eqb_iff x.revision r.head.current_revision).0 (ground (arith, found)) in
          let at : x.commit_seq ≡ r.commit_seq =
            (eqb_iff x.commit_seq r.commit_seq).0 (ground (arith, found)) in
          let within : same_scope x.scope scope ≡ true = ground (arith, found) in
          subst (Shows scope heads after s) (sym is) (record {
            listed = source.place;
            stored = found;
            current = same;
            within = within;
            behind = omega (arith, at, source.later);
          })
    ]

entries-Shows :
    (scope : MemoryScope) (heads : List CanonicalMemoryHead) (after : ℕ) (s : InMemoryState)
    (rs : List CurrentHeadCursorRecord) (es : List MemoryInventoryEntry)
    → All (Listed heads after) rs
    → for_each (inventory_entry scope s) rs ≡ ok es
    → All (Shows scope heads after s) es × (length es ≡ length rs)
entries-Shows scope heads after s [] es later h = let is : es ≡ [] = cc h in (rw is tt, rw is refl)
entries-Shows scope heads after s (r ∷ rs) es later h =
    elim (Result-cases (inventory_entry scope s r)) [
      | inl (e, failed) ↦ absurd (ground (arith, failed))
      | inr (e, made) ↦ elim (Result-cases (for_each (inventory_entry scope s) rs)) [
        | inl (e', failed) ↦ absurd (ground (arith, made, failed))
        | inr (es', rest) ↦
            let is : es ≡ e ∷ es' = ground (arith, made, rest) in
            let (shown, long) = entries-Shows scope heads after s rs es' later.1 rest in
            (
              rw is (inventory_entry-Shows scope heads after s r e later.0 made, shown),
              rw is (ap suc long),
            )
      ]
    ]

last?-after :
    (heads : List CanonicalMemoryHead) (after : ℕ) (rs : List CurrentHeadCursorRecord)
    → All (Listed heads after) rs
    → (after ≤ next_cursor_after after (last? rs))
      × (1 ≤ length rs → after < next_cursor_after after (last? rs))
unfolding next_cursor_after
last?-after heads after [] h = (omega arith, λ some_left. absurd (omega (arith, some_left)))
last?-after heads after (r ∷ []) h =
    let later = (h.0).later in (omega (arith, later), λ some_left. later)
last?-after heads after (r ∷ r' ∷ rs) h =
    let rest = last?-after heads after (r' ∷ rs) h.1 in (rest.0, λ some_left. rest.1 (omega arith))

pub record Inventory (input : ReadMemoryInventoryInput) (s₁ s₂ : InMemoryState)
    (page : MemoryInventoryPage) : Type 0 where
  pub cursor : safe_natural input.after_commit_seq ≡ some page.after_commit_seq
  pub shown : All (Shows input.scope (M.values s₁.heads) page.after_commit_seq s₂) page.entries
  pub small : length page.entries ≤ 200
  pub forward : page.after_commit_seq ≤ page.next_commit_seq
  pub progress : page.has_more ≡ true → page.after_commit_seq < page.next_commit_seq

inventory_page-Inventory :
    (input : ReadMemoryInventoryInput) (after limit : ℕ) (fetched : List CurrentHeadCursorRecord)
    (s₁ s₂ : InMemoryState) (page : MemoryInventoryPage)
    → safe_natural input.after_commit_seq ≡ some after
    → 1 ≤ limit
    → limit ≤ 200
    → All (Listed (M.values s₁.heads) after) fetched
    → inventory_page input.scope after limit fetched s₂ ≡ ok page
    → Inventory input s₁ s₂ page
unfolding inventory_page
inventory_page-Inventory input after limit fetched s₁ s₂ page safe least most later h =
    elim (Result-cases (for_each (inventory_entry input.scope s₂) (take limit fetched))) [
      | inl (e, failed) ↦ absurd (ground (arith, failed))
      | inr (entries, made) ↦
          let heads = M.values s₁.heads in
          let selected = All-take (Listed heads after) limit fetched later in
          let (shown, long) =
            entries-Shows input.scope heads after s₂ (take limit fetched) entries selected made in
          let measured = length-take limit fetched in
          let ends = last?-after heads after (take limit fetched) selected in
          let is : record {
            scope = input.scope;
            after_commit_seq = after;
            next_commit_seq = next_cursor_after after (last? (take limit fetched));
            entries = entries;
            has_more = ltb limit (length fetched);
          }
              ≡ page =
            ground (arith, made) in
          subst (Inventory input s₁ s₂) is (record {
            cursor = safe;
            shown = shown;
            small = omega (arith, long, measured, most);
            forward = ends.0;
            progress = λ more.
                let beyond = ltb→lt limit (length fetched) more in
                ends.1 (omega (arith, measured, least, beyond));
          })
    ]

-- A page of the inventory that is returned shows heads of the store that was read first, with their
-- current revisions, each stored, of the scope, and committed after the cursor. It has at most 200 entries; its next cursor is not
-- before the cursor, and is after it where the page says that there are more: a client that follows
-- the cursor while there are more always moves on.
pub read_memory_inventory-Inventory :
    (p : Platform) (input : ReadMemoryInventoryInput) (s₁ s₂ : InMemoryState)
    (page : MemoryInventoryPage)
    → read_memory_inventory p input s₁ s₂ ≡ ok page
    → Inventory input s₁ s₂ page
unfolding read_memory_inventory list_current_heads_after
read_memory_inventory-Inventory p input s₁ s₂ page h =
    elim (Option-cases (safe_natural input.after_commit_seq)) [
      | inl e ↦ absurd (ground (arith, e))
      | inr (after, safe) ↦ elim (Result-cases (page_size input.limit 200)) [
        | inl (e, failed) ↦ absurd (ground (arith, safe, failed))
        | inr (limit, sized) ↦
            let bounds = page_size-bounds input.limit 200 limit sized in
            let heads = M.values s₁.heads in
            let records = cursor_records input.scope after s₁ heads in
            let P = Listed heads after in
            let later = All-take P (limit + 1) (sort_by (cursor_order p) records) (
              All-sort_by P (cursor_order p) records
                (cursor_records-Listed input.scope after s₁ heads heads (All-places heads))) in
            inventory_page-Inventory input after limit _ s₁ s₂ page safe bounds.0 bounds.1 later
              (ground (arith, safe, sized))
      ]
    ]

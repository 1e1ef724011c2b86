-- ===== src/Sync/Page.antt =====
-- What a page of the change log contains, and that the pages of a well-formed store lead to the
-- end of its log.
use digital_life_memory_fabr.Base.{
  All, All-drop, All-filter, All-map, All-take, ℕ, suc, take_all, ◌+◌, ◌-◌, ◌≤◌, String, ◌≡◌, refl,
  sym, ap, ◌∙◌, Option, some, List, [], ◌∷◌, map, false, arith, ltb, take, drop, length,
  length-take, length-drop, take-take,
}
use mathlib.Core.Path.{subst}
use Prim.Native.Nat.{min}
use digital_life_memory_fabr.Base.JsMap as M
use digital_life_memory_fabr.Base.JsMap.{JsMap}
use digital_life_memory_fabr.Domain.Platform.{Platform, Number, nat, safe_natural}
use digital_life_memory_fabr.Domain.Scope.{MemoryScope, scope_key}
use digital_life_memory_fabr.Domain.Memory.{MemoryRevision}
use digital_life_memory_fabr.Domain.Records.{
  MemoryChangeEnvelope, MemorySyncChange, MemoryChangePage, ReadChangesInput,
}
use digital_life_memory_fabr.Domain.Errors.{ok}
use digital_life_memory_fabr.Store.{InMemoryState, high_watermark, get_revision}
use digital_life_memory_fabr.Store.Queries.{changes_after, list_changes_after, positive_limit}
use digital_life_memory_fabr.Store.Invariant.{WellFormed, Resolves, scope_log}
use digital_life_memory_fabr.Sync.{
  hydrate_change, hydrate_changes, next_cursor, page_of, read_changes, validate_scope,
  validate_commit_seq, resolve_limit, max_sync_batch_size,
}
use digital_life_memory_fabr.Sync.Log.{
  Numbered-take, assert_contiguous-Numbered, next_cursor-Numbered, changes_after-drop,
  changes_after-Numbered, length-scope_log,
}

-- Every revision of `s` is still there in `later`.
abbrev pub KeepsRevisions : InMemoryState → InMemoryState → Type 0
KeepsRevisions s later =
    (key : String) (r : MemoryRevision)
    → M.get key s.revisions ≡ some r
    → M.get key later.revisions ≡ some r

hydrate_change-Resolves :
    (p : Platform) (s : InMemoryState) (ch : MemoryChangeEnvelope)
    → (h : Resolves p s.revisions ch)
    → hydrate_change p s ch ≡ ok (record { envelope = ch; revision = h.revision })
unfolding hydrate_change get_revision
hydrate_change-Resolves p s ch h = ground (arith, h.stored, h.matches)

-- The changes whose revisions are stored are hydrated, each with its envelope.
hydrate_changes-Resolves :
    (p : Platform) (s : InMemoryState) (xs : List MemoryChangeEnvelope)
    → All (Resolves p s.revisions) xs
    → (changes : List MemorySyncChange) × (hydrate_changes p s xs ≡ ok changes)
      × (map (λ ch. ch.envelope) changes ≡ xs)
unfolding hydrate_changes
hydrate_changes-Resolves p s [] h = ([], refl, refl)
hydrate_changes-Resolves p s (x ∷ xs) h =
    let (changes, e, same) = hydrate_changes-Resolves p s xs h.1 in
    let here = hydrate_change-Resolves p s x h.0 in
    (
      record { envelope = x; revision = h.0.revision } ∷ changes,
      ground (arith, here, e),
      ap (◌∷◌ x) same,
    )

-- What the page for `limit` changes after `after` has to be, given the log of the scope.
pub record IsPage (log : List MemoryChangeEnvelope) (after limit : ℕ) (page : MemoryChangePage)
    : Type 0 where
  pub envelopes : map (λ ch. ch.envelope) page.changes ≡ take limit (drop after log)
  pub cursor : page.next_commit_seq ≡ after + length page.changes
  pub more : page.has_more ≡ ltb limit (length log - after)

envelopes_length :
    (changes : List MemorySyncChange) (xs : List MemoryChangeEnvelope)
    → map (λ ch. ch.envelope) changes ≡ xs
    → length changes ≡ length xs
envelopes_length [] xs h = rw (sym h) refl
envelopes_length (c ∷ cs) xs h = rw (sym h) (ap suc (envelopes_length cs _ refl))

-- The resolved changes behind a cursor of a well-formed store.
tail_Resolves :
    (p : Platform) (scope : MemoryScope) (after : ℕ) (listed hydrated : InMemoryState)
    → WellFormed p listed
    → KeepsRevisions listed hydrated
    → All (Resolves p hydrated.revisions) (changes_after scope after listed)
tail_Resolves p scope after listed hydrated w keeps =
    rw (changes_after-drop p scope after listed w) (
      All-drop _ after _ (
        All-filter _ _ listed.changes (
          All-map
            (λ ch resolved. record {
              revision = resolved.revision;
              stored = keeps _ _ resolved.stored;
              matches = resolved.matches;
            })
            listed.changes w.changes_resolve)))

ltb-min : (k n m : ℕ) → n ≡ min (k + 1) m → ltb k n ≡ ltb k m
ltb-min k n m h = ground (arith, h)

page_of-IsPage :
    (p : Platform) (scope : MemoryScope) (after limit : ℕ) (listed hydrated : InMemoryState)
    → WellFormed p listed
    → KeepsRevisions listed hydrated
    → (page : MemoryChangePage) × (page_of p scope after limit
          (take (limit + 1) (changes_after scope after listed))
          hydrated
        ≡ ok page)
      × IsPage (scope_log (scope_key scope) listed.changes) after limit page
unfolding page_of
page_of-IsPage p scope after limit listed hydrated w keeps =
    let tail = changes_after scope after listed in
    let numbered = changes_after-Numbered p scope after listed w in
    let fetched = take (limit + 1) tail in
    let contiguous =
      assert_contiguous-Numbered after fetched (Numbered-take (limit + 1) after tail numbered) in
    let shown : take limit fetched ≡ take limit tail =
      take-take limit (limit + 1) tail (omega arith) in
    let (changes, e, same) = hydrate_changes-Resolves p hydrated (take limit fetched) (
      All-take _ limit fetched
        (All-take _ (limit + 1) tail (tail_Resolves p scope after listed hydrated w keeps))) in
    let cursor =
      next_cursor-Numbered after (take limit fetched)
        (Numbered-take limit after fetched (Numbered-take (limit + 1) after tail numbered)) in
    let tail_is = changes_after-drop p scope after listed w in
    (
      record {
        scope = scope;
        after_commit_seq = after;
        next_commit_seq = next_cursor (take limit fetched) after;
        changes = changes;
        has_more = ltb limit (length fetched);
      },
      ground (arith, contiguous, e),
      record {
        envelopes = same ∙ (shown ∙ ap (take limit) tail_is);
        cursor = cursor ∙ ap (λ n. after + n) (sym (envelopes_length changes _ same));
        more = ltb-min limit _ _ (
            length-take (limit + 1) tail
            ∙ ap (λ (n : ℕ). min (limit + 1) n) (ap length tail_is ∙ length-drop after _));
      },
    )

safe_natural_back :
    (value : Number) (n : ℕ) → validate_commit_seq value ≡ ok n → safe_natural (nat n) ≡ some n
unfolding validate_commit_seq safe_natural
safe_natural_back value n h = ground arith

resolve_limit-bounds :
    (value : Option Number) (n : ℕ)
    → resolve_limit value ≡ ok n
    → (1 ≤ n) × (n ≤ max_sync_batch_size)
unfolding resolve_limit
resolve_limit-bounds value n h = ground arith

-- `list_changes_after` with the cursor and the limit that `read_changes` gives it.
list_changes_after_page :
    (scope : MemoryScope) (value : Number) (asked : Option Number) (after limit : ℕ)
    (s : InMemoryState)
    → validate_commit_seq value ≡ ok after
    → resolve_limit asked ≡ ok limit
    → list_changes_after scope (nat after) (some (nat (limit + 1))) s
      ≡ ok (take (limit + 1) (changes_after scope after s))
unfolding list_changes_after positive_limit safe_natural
list_changes_after_page scope value asked after limit s h k =
    ground (arith, safe_natural_back value after h, resolve_limit-bounds asked limit k)

-- In a well-formed store, and if no revision is lost until the revisions are read, a request with
-- a valid scope, cursor and limit is answered by a page: it has the envelopes of the next `limit`
-- changes of the scope's log behind the cursor, its cursor is the old one and the number of its
-- changes, and it says that there is more when the log goes on behind it.
pub read_changes-IsPage :
    (p : Platform) (input : ReadChangesInput) (after limit : ℕ) (listed hydrated : InMemoryState)
    → WellFormed p listed
    → KeepsRevisions listed hydrated
    → validate_scope input.scope ≡ ok tt
    → validate_commit_seq input.after_commit_seq ≡ ok after
    → resolve_limit input.limit ≡ ok limit
    → (page : MemoryChangePage) × (read_changes p input listed hydrated ≡ ok page)
      × IsPage (scope_log (scope_key input.scope) listed.changes) after limit page
unfolding read_changes
read_changes-IsPage p input after limit listed hydrated w keeps in_scope at upto =
    let (page, e, is_page) = page_of-IsPage p input.scope after limit listed hydrated w keeps in
    let fetched =
      list_changes_after_page input.scope input.after_commit_seq input.limit after limit listed at
        upto in
    (page, ground (arith, in_scope, at, upto, fetched, e), is_page)

-- A page that says there is no more, of a cursor that is not past the log of a well-formed store,
-- has the scope's last sequence number as its cursor.
IsPage-reaches_end :
    (p : Platform) (scope : MemoryScope) (s : InMemoryState) (after limit : ℕ)
    (page : MemoryChangePage)
    → WellFormed p s
    → after ≤ high_watermark scope s
    → IsPage (scope_log (scope_key scope) s.changes) after limit page
    → page.has_more ≡ false
    → page.next_commit_seq ≡ high_watermark scope s
IsPage-reaches_end p scope s after limit page w within is_page over =
    let log = scope_log (scope_key scope) s.changes in
    let whole = length-scope_log p scope s w in
    let few : length log - after ≤ limit = ground (arith, sym is_page.more ∙ over) in
    let shown =
      envelopes_length page.changes _ is_page.envelopes
      ∙ ap length (take_all limit (drop after log) (rw (length-drop after log) few)) in
    omega (arith, is_page.cursor, shown, length-drop after log, whole, within)

-- In a well-formed store, and if no revision is lost until the revisions are read, a valid request
-- from a cursor that is not past the log, answered with a page that says there is no more, has the
-- scope's last sequence number as its next cursor.
pub last_page_reaches_end :
    (p : Platform) (input : ReadChangesInput) (after limit : ℕ) (listed hydrated : InMemoryState)
    (page : MemoryChangePage)
    → WellFormed p listed
    → KeepsRevisions listed hydrated
    → validate_scope input.scope ≡ ok tt
    → validate_commit_seq input.after_commit_seq ≡ ok after
    → resolve_limit input.limit ≡ ok limit
    → after ≤ high_watermark input.scope listed
    → read_changes p input listed hydrated ≡ ok page
    → page.has_more ≡ false
    → page.next_commit_seq ≡ high_watermark input.scope listed
last_page_reaches_end p input after limit listed hydrated page w keeps in_scope at upto within
      answered over =
    let (page', made, is_page) =
      read_changes-IsPage p input after limit listed hydrated w keeps in_scope at upto in
    let same : page' ≡ page = cc (made, answered) in
    IsPage-reaches_end p input.scope listed after limit page w within
      (subst (IsPage (scope_log (scope_key input.scope) listed.changes) after limit) same is_page)
      over

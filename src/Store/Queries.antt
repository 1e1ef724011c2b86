-- ===== src/Store/Queries.antt =====
-- The reads of the in-memory store, and the compare-and-set of a device's checkpoint. A read waits
-- for the writes before it, and so sees one state.
use digital_life_memory_fabr.Base.{
  ℕ, Bool, true, false, not, String, List, [], ◌∷◌, map, Option, none, some, ◌==◌, ◌&&◌, ◌||◌, ltb,
  leb, eqb, take, find, filter, sort_by, if◌then◌else◌,
}
use digital_life_memory_fabr.Base.JsMap as M
use digital_life_memory_fabr.Domain.Platform.{Number, safe_natural, max_safe_integer}
use digital_life_memory_fabr.Domain.Scope.{MemoryScope, scope_key, device_checkpoint_key}
use digital_life_memory_fabr.Domain.Memory.{CanonicalMemoryHead, MemoryRevision}
use digital_life_memory_fabr.Domain.Records.{
  MemoryChangeEnvelope, MemoryConflict, DeviceCheckpoint, MemoryRevisionRef,
}
use digital_life_memory_fabr.Domain.Errors.{
  Result, ok, err, ◌>>=◌, ◌>>◌, throw_if, or_throw, validation_error, bad_cursor,
  checkpoint_backward, checkpoint_ahead,
}
use digital_life_memory_fabr.Store.{InMemoryState, get_head, get_revision, high_watermark}

unfoldable pub get_heads : List String → InMemoryState → List (Option CanonicalMemoryHead)
get_heads ids s = map (λ id. get_head id s) ids

unfoldable pub get_revisions : List MemoryRevisionRef → InMemoryState → List (Option MemoryRevision)
get_revisions references s = map (λ r. get_revision r.memory_id r.revision s) references

-- The first current revision in the scope that passes the test.
pub find_current :
    (MemoryRevision → Bool)
    → MemoryScope
    → InMemoryState
    → List CanonicalMemoryHead
    → Option MemoryRevision
find_current test scope s [] = none
find_current test scope s (head ∷ heads) =
    let rest = find_current test scope s heads in
    if scope_key head.scope == scope_key scope
    then elim (get_revision head.memory_id head.current_revision s) [
      | none ↦ rest
      | some r ↦ if test r then some r else rest
    ]
    else rest

pub find_current_revision_by_semantic_fingerprint :
    MemoryScope → String → InMemoryState → Option MemoryRevision
find_current_revision_by_semantic_fingerprint scope fingerprint s =
    find_current (λ r. r.semantic_fingerprint == fingerprint) scope s (M.values s.heads)

pub find_current_revision_by_semantic_key :
    MemoryScope → String → InMemoryState → Option MemoryRevision
find_current_revision_by_semantic_key scope key s =
    find_current (λ r. r.semantic_key == key) scope s (M.values s.heads)

-- Whether a change is in the scope, behind the cursor.
abbrev pub change_after : String → ℕ → MemoryChangeEnvelope → Bool
change_after key after change = scope_key change.scope == key && ltb after change.commit_seq

abbrev pub by_commit_seq : MemoryChangeEnvelope → MemoryChangeEnvelope → Bool
by_commit_seq left right = leb left.commit_seq right.commit_seq

unfoldable pub changes_after : MemoryScope → ℕ → InMemoryState → List MemoryChangeEnvelope
changes_after scope after s =
    sort_by by_commit_seq (filter (change_after (scope_key scope) after) s.changes)

-- `limit !== undefined && (!Number.isSafeInteger(limit) || limit < 1)`, and the value.
unfoldable pub positive_limit : Number → Result ℕ
positive_limit limit = do
  n ← or_throw (safe_natural limit) (validation_error bad_cursor)
  throw_if (ltb n 1) (validation_error bad_cursor)
  ok n

unfoldable pub list_changes_after :
    MemoryScope → Number → Option Number → InMemoryState → Result (List MemoryChangeEnvelope)
list_changes_after scope after_commit_seq none s = do
  after ← or_throw (safe_natural after_commit_seq) (validation_error bad_cursor)
  ok (changes_after scope after s)
list_changes_after scope after_commit_seq (some limit) s = do
  after ← or_throw (safe_natural after_commit_seq) (validation_error bad_cursor)
  n ← positive_limit limit
  ok (take n (changes_after scope after s))

unfoldable pub get_changes_by_commit_seqs :
    MemoryScope → List ℕ → InMemoryState → List (Option MemoryChangeEnvelope)
get_changes_by_commit_seqs scope commit_seqs s =
    map
      (λ n.
        find (λ change. scope_key change.scope == scope_key scope && eqb change.commit_seq n)
          s.changes)
      commit_seqs

unfoldable pub get_device_checkpoint :
    MemoryScope → String → InMemoryState → Option DeviceCheckpoint
get_device_checkpoint scope device_id s =
    M.get (device_checkpoint_key scope device_id) s.device_checkpoints

-- `current?.lastAppliedCommitSeq ?? 0`
unfoldable pub applied_seq : Option DeviceCheckpoint → ℕ
applied_seq none = 0
applied_seq (some checkpoint) = checkpoint.last_applied_commit_seq

unfoldable pub validate_checkpoint_cas : DeviceCheckpoint → ℕ → Result (Unit {0})
validate_checkpoint_cas checkpoint expected =
    throw_if
      (not (leb expected max_safe_integer)
        || not (leb checkpoint.last_applied_commit_seq max_safe_integer)
        || ltb checkpoint.last_applied_commit_seq expected)
      (validation_error checkpoint_backward)

-- The part that holds the write barrier.
unfoldable pub swap_checkpoint : DeviceCheckpoint → ℕ → InMemoryState → Result Bool × InMemoryState
unfolding get_device_checkpoint
swap_checkpoint checkpoint expected s =
    if eqb (applied_seq (get_device_checkpoint checkpoint.scope checkpoint.device_id s)) expected
    then (if ltb (high_watermark checkpoint.scope s) checkpoint.last_applied_commit_seq
        then (err (validation_error checkpoint_ahead), s)
        else (
          ok true,
          record s {
            device_checkpoints =
                M.set (device_checkpoint_key checkpoint.scope checkpoint.device_id) checkpoint
                  s.device_checkpoints;
          },
        ))
    else (ok false, s)

unfoldable pub compare_and_set_device_checkpoint :
    DeviceCheckpoint → ℕ → InMemoryState → Result Bool × InMemoryState
compare_and_set_device_checkpoint checkpoint expected s =
    elim (validate_checkpoint_cas checkpoint expected) [
      | err e ↦ (err e, s)
      | ok _ ↦ swap_checkpoint checkpoint expected s
    ]

unfoldable pub list_conflicts : MemoryScope → InMemoryState → List MemoryConflict
list_conflicts scope s = filter (λ c. scope_key c.scope == scope_key scope) s.conflicts

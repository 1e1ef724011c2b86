-- ===== src/Sync.antt =====
-- src/sync/memory-sync-service.ts: pages of the change log, and the acknowledgement of a device.
-- A call makes several reads, between which other calls may write: each read has its own state.
pub mod Log
pub mod Page
pub mod Acknowledge
use digital_life_memory_fabr.Base.{
  ℕ, ◌+◌, ◌-◌, Bool, true, false, not, String, List, [], ◌∷◌, Option, none, some, ◌==◌, ◌&&◌, ◌||◌,
  ltb, eqb, length, take, last?, if◌then◌else◌,
}
use digital_life_memory_fabr.Base.Text.{is_blank}
use digital_life_memory_fabr.Domain.Platform.{Platform, Number, nat, safe_natural}
use digital_life_memory_fabr.Domain.Encode.{payload_hash}
use digital_life_memory_fabr.Domain.Scope.{MemoryScope, same_scope}
use digital_life_memory_fabr.Domain.Memory.{MemoryRevision}
use digital_life_memory_fabr.Domain.Records.{
  MemoryChangeEnvelope, MemorySyncChange, MemoryChangePage, DeviceSyncPull, DeviceCheckpoint,
  ReadChangesInput, PullDeviceChangesInput, AcknowledgeDeviceChangesInput,
}
use digital_life_memory_fabr.Domain.Errors.{
  Result, ok, err, ◌>>=◌, ◌>>◌, throw_if, or_throw, for_each, validation_error, change_sequence_gap,
  device_checkpoint_conflict, sync_revision_integrity, empty_field, bad_commit_seq, bad_limit,
  checkpoint_backward, advance_too_large,
}
use digital_life_memory_fabr.Store.{InMemoryState, get_revision}
use digital_life_memory_fabr.Store.Queries.{
  list_changes_after, get_device_checkpoint, applied_seq, compare_and_set_device_checkpoint,
}

abbrev pub default_sync_batch_size : ℕ
default_sync_batch_size = 100

abbrev pub max_sync_batch_size : ℕ
max_sync_batch_size = 1000

unfoldable pub require_non_empty : String → Result (Unit {0})
require_non_empty value = throw_if (is_blank value) (validation_error empty_field)

unfoldable pub validate_scope : MemoryScope → Result (Unit {0})
unfolding require_non_empty
validate_scope scope = do
  require_non_empty scope.tenant_id
  require_non_empty scope.life_did
  require_non_empty scope.memory_namespace

-- The number, if it is a natural in the safe range.
unfoldable pub validate_commit_seq : Number → Result ℕ
validate_commit_seq value = or_throw (safe_natural value) (validation_error bad_commit_seq)

-- `limit ?? DEFAULT_SYNC_BATCH_SIZE`
unfoldable pub or_default : Option Number → Number
or_default none = nat default_sync_batch_size
or_default (some limit) = limit

unfoldable pub resolve_limit : Option Number → Result ℕ
resolve_limit limit = do
  n ← or_throw (safe_natural (or_default limit)) (validation_error bad_limit)
  throw_if (ltb n 1 || ltb max_sync_batch_size n) (validation_error bad_limit)
  ok n

unfoldable pub assert_contiguous : List MemoryChangeEnvelope → ℕ → Result (Unit {0})
assert_contiguous [] after = ok tt
assert_contiguous (change ∷ rest) after =
    let others = assert_contiguous rest (after + 1) in
    if eqb change.commit_seq (after + 1)
    then others
    else err (change_sequence_gap (after + 1) (some change.commit_seq))

unfoldable pub envelope_matches : Platform → MemoryChangeEnvelope → MemoryRevision → Bool
envelope_matches p envelope r =
    r.memory_id == envelope.memory_id
    && eqb r.revision envelope.new_revision
    && eqb r.commit_seq envelope.commit_seq
    && same_scope r.scope envelope.scope
    && envelope.payload_hash == payload_hash p r

unfoldable pub hydrate_change :
    Platform → InMemoryState → MemoryChangeEnvelope → Result MemorySyncChange
hydrate_change p s envelope = do
  r ←
      or_throw (get_revision envelope.memory_id envelope.new_revision s)
        (sync_revision_integrity envelope.event_id)
  throw_if (not (envelope_matches p envelope r)) (sync_revision_integrity envelope.event_id)
  ok (record { envelope = envelope; revision = r })

unfoldable pub hydrate_changes :
    Platform → InMemoryState → List MemoryChangeEnvelope → Result (List MemorySyncChange)
hydrate_changes p s envelopes = for_each (hydrate_change p s) envelopes

-- `pageEnvelopes.at(-1)?.commitSeq ?? afterCommitSeq`
unfoldable pub next_cursor : List MemoryChangeEnvelope → ℕ → ℕ
next_cursor envelopes after = elim (last? envelopes) [ none ↦ after | some e ↦ e.commit_seq ]

-- From the fetched envelopes to the page.
unfoldable pub page_of :
    Platform
    → MemoryScope
    → ℕ
    → ℕ
    → List MemoryChangeEnvelope
    → InMemoryState
    → Result MemoryChangePage
page_of p scope after limit fetched s = do
  assert_contiguous fetched after
  changes ← hydrate_changes p s (take limit fetched)
  ok (record {
    scope = scope;
    after_commit_seq = after;
    next_commit_seq = next_cursor (take limit fetched) after;
    changes = changes;
    has_more = ltb limit (length fetched);
  })

-- `readChanges`: the log is read from `listed`, the revisions from `hydrated`.
unfoldable pub read_changes :
    Platform → ReadChangesInput → InMemoryState → InMemoryState → Result MemoryChangePage
read_changes p input listed hydrated = do
  validate_scope input.scope
  after ← validate_commit_seq input.after_commit_seq
  limit ← resolve_limit input.limit
  fetched ← list_changes_after input.scope (nat after) (some (nat (limit + 1))) listed
  page_of p input.scope after limit fetched hydrated

-- `pullForDevice`: the checkpoint is read from `s`.
unfoldable pub pull_for_device :
    Platform
    → PullDeviceChangesInput
    → InMemoryState
    → InMemoryState
    → InMemoryState
    → Result DeviceSyncPull
pull_for_device p input s listed hydrated = do
  validate_scope input.scope
  require_non_empty input.device_id
  let applied = applied_seq (get_device_checkpoint input.scope input.device_id s)
  page ←
      read_changes p
        (record { scope = input.scope; after_commit_seq = nat applied; limit = input.limit }) listed
        hydrated
  ok (record { page = page; device_id = input.device_id; last_applied_commit_seq = applied })

-- The check that all the changes up to the new checkpoint are there.
unfoldable pub applied_changes_present : MemoryScope → ℕ → ℕ → InMemoryState → Result (Unit {0})
applied_changes_present scope expected advance_by s = if eqb advance_by 0 then ok tt else (do
  applied ← list_changes_after scope (nat expected) (some (nat advance_by)) s
  assert_contiguous applied expected
  throw_if (not (eqb (length applied) advance_by))
      (change_sequence_gap (expected + length applied + 1) none))

-- The guards of `acknowledgeDeviceChanges`, with the two sequence numbers.
unfoldable pub validate_acknowledgement :
    AcknowledgeDeviceChangesInput → InMemoryState → Result (ℕ × ℕ)
validate_acknowledgement input s = do
  validate_scope input.scope
  require_non_empty input.device_id
  expected ← validate_commit_seq input.expected_last_applied_commit_seq
  through ← validate_commit_seq input.applied_through_commit_seq
  throw_if (ltb through expected) (validation_error checkpoint_backward)
  throw_if (ltb max_sync_batch_size (through - expected)) (validation_error advance_too_large)
  applied_changes_present input.scope expected (through - expected) s
  ok (expected, through)

abbrev pub checkpoint_of : AcknowledgeDeviceChangesInput → ℕ → String → DeviceCheckpoint
checkpoint_of input through now = record {
  scope = input.scope;
  device_id = input.device_id;
  last_applied_commit_seq = through;
  last_sync_at = now;
}

-- What the compare-and-set said, as the answer of the call.
unfoldable pub acknowledged :
    DeviceCheckpoint → ℕ → Result Bool → InMemoryState → Result DeviceCheckpoint
acknowledged checkpoint expected (err e) s = err e
acknowledged checkpoint expected (ok true) s = ok checkpoint
acknowledged checkpoint expected (ok false) s = err (
    device_checkpoint_conflict checkpoint.device_id expected
      (applied_seq (get_device_checkpoint checkpoint.scope checkpoint.device_id s)))

-- The number in the error of a failed swap is read in the state of the swap.
unfoldable pub acknowledge_at :
    DeviceCheckpoint → ℕ → InMemoryState → Result DeviceCheckpoint × InMemoryState
acknowledge_at checkpoint expected s =
    let (swapped, s') = compare_and_set_device_checkpoint checkpoint expected s in
    (acknowledged checkpoint expected swapped s', s')

-- `acknowledgeDeviceChanges`: the log is read from `seen`, the checkpoint is swapped in `s`.
unfoldable pub acknowledge_device_changes :
    AcknowledgeDeviceChangesInput
    → String
    → InMemoryState
    → InMemoryState
    → Result DeviceCheckpoint × InMemoryState
acknowledge_device_changes input now seen s = elim (validate_acknowledgement input seen) [
  | err e ↦ (err e, s)
  | ok (expected, through) ↦ acknowledge_at (checkpoint_of input through now) expected s
]

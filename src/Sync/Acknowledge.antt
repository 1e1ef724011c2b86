-- ===== src/Sync/Acknowledge.antt =====
-- The acknowledgement of a device: what it needs, and that it keeps the store well formed.
use digital_life_memory_fabr.Base.{
  ℕ, ◌+◌, ◌-◌, ◌≤◌, String, ◌≡◌, refl, sym, ap, ◌∙◌, true, arith, ◌⊎◌, inl, inr, ltb, eqb, length,
  take, length-take, length-drop, Bool-cases,
}
use Prim.Native.Nat.{min}
use digital_life_memory_fabr.Base.JsMap as M
use digital_life_memory_fabr.Domain.Platform.{Platform, safe_natural, max_safe_integer}
use digital_life_memory_fabr.Domain.Scope.{MemoryScope, device_checkpoint_key}
use digital_life_memory_fabr.Domain.Records.{DeviceCheckpoint, AcknowledgeDeviceChangesInput}
use digital_life_memory_fabr.Domain.Errors.{ok, err, FabricError, Result-cases}
use digital_life_memory_fabr.Store.{InMemoryState, high_watermark}
use digital_life_memory_fabr.Store.Queries.{
  get_device_checkpoint, applied_seq, compare_and_set_device_checkpoint, swap_checkpoint,
  validate_checkpoint_cas, list_changes_after, positive_limit, changes_after,
}
use digital_life_memory_fabr.Store.Invariant.{WellFormed, WellFormed-same}
use digital_life_memory_fabr.Sync.{
  validate_acknowledgement, applied_changes_present, checkpoint_of, acknowledged, acknowledge_at,
  acknowledge_device_changes, max_sync_batch_size, validate_scope, validate_commit_seq,
  require_non_empty,
}
use digital_life_memory_fabr.Sync.Log.{
  assert_contiguous-Numbered, Numbered-take, changes_after-Numbered, changes_after-drop,
  length-scope_log,
}

-- What a compare-and-set that returned true has checked.
pub record Swapped (checkpoint : DeviceCheckpoint) (expected : ℕ) (s s' : InMemoryState)
    : Type 0 where
  pub before :
      applied_seq (get_device_checkpoint checkpoint.scope checkpoint.device_id s) ≡ expected
  pub forward : expected ≤ checkpoint.last_applied_commit_seq
  pub behind_log : checkpoint.last_applied_commit_seq ≤ high_watermark checkpoint.scope s
  pub state : s' ≡ record s {
    device_checkpoints =
        M.set
          (device_checkpoint_key checkpoint.scope checkpoint.device_id)
          checkpoint
          s.device_checkpoints;
  }

compare_and_set-Swapped :
    (checkpoint : DeviceCheckpoint) (expected : ℕ) (s s' : InMemoryState)
    → compare_and_set_device_checkpoint checkpoint expected s ≡ (ok true, s')
    → Swapped checkpoint expected s s'
unfolding compare_and_set_device_checkpoint swap_checkpoint validate_checkpoint_cas
compare_and_set-Swapped checkpoint expected s s' h = record {
  before = ground arith;
  forward = ground arith;
  behind_log = ground arith;
  state = ground arith;
}

compare_and_set_otherwise :
    (checkpoint : DeviceCheckpoint) (expected : ℕ) (s : InMemoryState)
    → ((compare_and_set_device_checkpoint checkpoint expected s).0 ≡ ok true)
      ⊎ ((compare_and_set_device_checkpoint checkpoint expected s).1 ≡ s)
unfolding compare_and_set_device_checkpoint swap_checkpoint
compare_and_set_otherwise checkpoint expected s =
    elim (Bool-cases (
      eqb (applied_seq (get_device_checkpoint checkpoint.scope checkpoint.device_id s)) expected)) [
        | inl e ↦
            elim (Bool-cases
              (ltb (high_watermark checkpoint.scope s) checkpoint.last_applied_commit_seq)) [
                | inl e' ↦ inr (ground arith)
                | inr e' ↦ ground arith
              ]
        | inr e ↦ inr (ground arith)
      ]

compare_and_set-WellFormed :
    (p : Platform) (checkpoint : DeviceCheckpoint) (expected : ℕ) (s : InMemoryState)
    → WellFormed p s
    → WellFormed p (compare_and_set_device_checkpoint checkpoint expected s).1
unfolding high_watermark
compare_and_set-WellFormed p checkpoint expected s w =
    elim (compare_and_set_otherwise checkpoint expected s) [
      | inr same ↦ rw same w
      | inl done ↦
          let swapped =
            compare_and_set-Swapped checkpoint expected s
              (compare_and_set_device_checkpoint checkpoint expected s).1 (ground (arith, done)) in
          rw swapped.state (
            WellFormed-same p s _ w w.candidates_keyed refl refl refl refl (λ key c h.
              elim (M.get-set_cases (device_checkpoint_key checkpoint.scope checkpoint.device_id)
                key checkpoint c s.device_checkpoints h) [
                  | inl (_, e) ↦ rw (sym e) swapped.behind_log
                  | inr (_, old) ↦ w.checkpoints_behind key c old
                ]))
    ]

-- An acknowledgement keeps the store well formed, whatever state the check of the log read.
pub acknowledge-WellFormed :
    (p : Platform) (input : AcknowledgeDeviceChangesInput) (now : String) (seen s : InMemoryState)
    → WellFormed p s
    → WellFormed p (acknowledge_device_changes input now seen s).1
unfolding acknowledge_device_changes acknowledge_at
acknowledge-WellFormed p input now seen s w =
    elim (Result-cases (validate_acknowledgement input seen)) [
      | inl (e, refused) ↦ rw (refused, acknowledge_device_changes) w
      | inr ((expected, through), passed) ↦
          rw (passed, acknowledge_device_changes)
            (compare_and_set-WellFormed p (checkpoint_of input through now) expected s w)
    ]

-- What the guards of an acknowledgement have checked.
pub record Guarded (input : AcknowledgeDeviceChangesInput) (expected through : ℕ)
    (s : InMemoryState) : Type 0 where
  pub forward : expected ≤ through
  pub bounded : through ≤ expected + max_sync_batch_size
  pub present : applied_changes_present input.scope expected (through - expected) s ≡ ok tt

validate_acknowledgement-Guarded :
    (input : AcknowledgeDeviceChangesInput) (expected through : ℕ) (s : InMemoryState)
    → validate_acknowledgement input s ≡ ok (expected, through)
    → Guarded input expected through s
unfolding validate_acknowledgement
validate_acknowledgement-Guarded input expected through s h =
    elim (Result-cases (validate_commit_seq input.expected_last_applied_commit_seq)) [
      | inl (e, failed) ↦ absurd (ground arith)
      | inr (a, e) ↦ elim (Result-cases (validate_commit_seq input.applied_through_commit_seq)) [
        | inl (e', failed) ↦ absurd (ground arith)
        | inr (b, e') ↦ record {
          forward = ground arith;
          bounded = ground arith;
          present = ground arith;
        }
      ]
    ]

-- An acknowledgement that returns a checkpoint found the device at the expected number, moved it
-- forward by at most one full batch and not past the scope's log, found in `seen` all the changes
-- that it acknowledges, and wrote that checkpoint and nothing else.
pub acknowledge-eq-ok :
    (input : AcknowledgeDeviceChangesInput) (now : String) (seen s s' : InMemoryState)
    (checkpoint : DeviceCheckpoint)
    → acknowledge_device_changes input now seen s ≡ (ok checkpoint, s')
    → (expected through : ℕ) × (checkpoint ≡ checkpoint_of input through now)
      × Guarded input expected through seen
      × Swapped checkpoint expected s s'
unfolding acknowledge_device_changes acknowledge_at acknowledged
acknowledge-eq-ok input now seen s s' checkpoint h =
    elim (Result-cases (validate_acknowledgement input seen)) [
      | inl (e, refused) ↦ absurd (ground arith)
      | inr ((expected, through), passed) ↦
          let made : checkpoint ≡ checkpoint_of input through now = ground arith in
          (
            expected,
            through,
            made,
            validate_acknowledgement-Guarded input expected through seen passed,
            rw made (
                compare_and_set-Swapped (checkpoint_of input through now) expected s s'
                  (ground arith)),
          )
    ]

-- An acknowledgement that returns an error leaves the state as it was.
pub acknowledge_error_unchanged :
    (input : AcknowledgeDeviceChangesInput) (now : String) (seen s : InMemoryState)
    (e : FabricError)
    → (acknowledge_device_changes input now seen s).0 ≡ err e
    → (acknowledge_device_changes input now seen s).1 ≡ s
unfolding acknowledge_device_changes acknowledge_at acknowledged
acknowledge_error_unchanged input now seen s e h =
    elim (Result-cases (validate_acknowledgement input seen)) [
      | inl (e', refused) ↦ ground arith
      | inr ((expected, through), passed) ↦
          elim (compare_and_set_otherwise (checkpoint_of input through now) expected s) [
            | inl done ↦ absurd (ground arith)
            | inr same ↦ ground arith
          ]
    ]

-- The changes between two numbers of a well-formed log are there.
changes_present :
    (p : Platform) (scope : MemoryScope) (expected through : ℕ) (s : InMemoryState)
    → WellFormed p s
    → through ≤ high_watermark scope s
    → expected ≤ through
    → through ≤ max_safe_integer
    → applied_changes_present scope expected (through - expected) s ≡ ok tt
unfolding applied_changes_present list_changes_after positive_limit safe_natural
changes_present p scope expected through s w logged forward safe =
    let tail = changes_after scope expected s in
    let shown = take (through - expected) tail in
    let numbered = assert_contiguous-Numbered expected shown (
      Numbered-take (through - expected) expected tail
        (changes_after-Numbered p scope expected s w)) in
    let long =
      length-take (through - expected) tail
      ∙ ap (λ (n : ℕ). min (through - expected) n)
          (ap length (changes_after-drop p scope expected s w) ∙ length-drop expected _) in
    let whole = length-scope_log p scope s w in ground (arith, numbered, long, whole)

-- In a well-formed store an acknowledgement succeeds: of a valid request that expects the number at
-- which the device is, and goes forward by at most one full batch and not past the log.
pub acknowledge_succeeds :
    (p : Platform) (input : AcknowledgeDeviceChangesInput) (now : String) (s : InMemoryState)
    (expected through : ℕ)
    → WellFormed p s
    → validate_scope input.scope ≡ ok tt
    → require_non_empty input.device_id ≡ ok tt
    → validate_commit_seq input.expected_last_applied_commit_seq ≡ ok expected
    → validate_commit_seq input.applied_through_commit_seq ≡ ok through
    → applied_seq (get_device_checkpoint input.scope input.device_id s) ≡ expected
    → expected ≤ through
    → through ≤ expected + max_sync_batch_size
    → through ≤ high_watermark input.scope s
    → (acknowledge_device_changes input now s s).0 ≡ ok (checkpoint_of input through now)
unfolding acknowledge_device_changes acknowledge_at acknowledged validate_acknowledgement
    validate_commit_seq compare_and_set_device_checkpoint swap_checkpoint validate_checkpoint_cas
    safe_natural
acknowledge_succeeds p input now s expected through w scoped device from to at forward bounded
      logged =
    let present =
      changes_present p input.scope expected through s w logged forward (ground arith) in
    ground (arith, present)

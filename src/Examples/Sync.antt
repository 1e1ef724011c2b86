-- ===== src/Examples/Sync.antt =====
-- Runs of the synchronization of a device.
use digital_life_memory_fabr.Base.{ℕ, false, some, ◌≡◌, refl, arith}
use digital_life_memory_fabr.Base.JsMap as M
use digital_life_memory_fabr.Domain.Errors.{ok, validation_error, checkpoint_backward}
use digital_life_memory_fabr.Domain.Platform.{nat, safe_natural}
use digital_life_memory_fabr.Domain.Scope.{scope_key}
use digital_life_memory_fabr.Store.{high_watermark}
use digital_life_memory_fabr.Authority.Plan.{create_plan}
use digital_life_memory_fabr.Authority.Commit.{build_result, build_change}
use digital_life_memory_fabr.Examples.{platform, scope, after_tea}
use digital_life_memory_fabr.Base.Text.{is_blank}
use digital_life_memory_fabr.Domain.Records.{
  MemoryChangePage, ReadChangesInput, AcknowledgeDeviceChangesInput,
}
use digital_life_memory_fabr.Store.Invariant.{scope_log}
use digital_life_memory_fabr.Store.Queries.{get_device_checkpoint, applied_seq}
use digital_life_memory_fabr.Sync.{
  validate_scope, require_non_empty, validate_commit_seq, resolve_limit, or_default, read_changes,
  acknowledge_device_changes, checkpoint_of, validate_acknowledgement,
}
use digital_life_memory_fabr.Sync.Page.{IsPage, read_changes-IsPage, last_page_reaches_end}
use digital_life_memory_fabr.Sync.Acknowledge.{
  Guarded, Swapped, acknowledge-eq-ok, acknowledge_succeeds, acknowledge_error_unchanged,
}
use digital_life_memory_fabr.Examples.Start.{after_tea-WellFormed}

abbrev first_page : ReadChangesInput
first_page = record { scope = scope; after_commit_seq = nat 0; limit = some (nat 10) }

read_changes-IsPage_example :
    (page : MemoryChangePage) × (read_changes platform first_page after_tea after_tea ≡ ok page)
    × IsPage (scope_log (scope_key scope) after_tea.changes) 0 10 page
unfolding validate_scope require_non_empty is_blank validate_commit_seq resolve_limit or_default
    safe_natural
read_changes-IsPage_example =
    read_changes-IsPage platform first_page 0 10 after_tea after_tea after_tea-WellFormed
      (λ key r h. h) refl refl refl

-- The page of the one change.
one_page :
    (page : MemoryChangePage) × (read_changes platform first_page after_tea after_tea ≡ ok page)
    × IsPage (scope_log (scope_key scope) after_tea.changes) 0 10 page
unfolding validate_scope require_non_empty is_blank validate_commit_seq resolve_limit or_default
    safe_natural
one_page =
    read_changes-IsPage platform first_page 0 10 after_tea after_tea after_tea-WellFormed
      (λ key r h. h) refl refl refl

no_more : one_page.0.has_more ≡ false
unfolding scope_key build_result build_change create_plan
no_more = one_page.2.more

last_page_reaches_end_example : one_page.0.next_commit_seq ≡ high_watermark scope after_tea
unfolding validate_scope require_non_empty is_blank validate_commit_seq resolve_limit or_default
    safe_natural
last_page_reaches_end_example =
    last_page_reaches_end platform first_page 0 10 after_tea after_tea one_page.0
      after_tea-WellFormed (λ key r h. h) refl refl refl (omega arith) one_page.1 no_more

abbrev phone_ack : AcknowledgeDeviceChangesInput
phone_ack = record {
  scope = scope;
  device_id = "phone";
  expected_last_applied_commit_seq = nat 0;
  applied_through_commit_seq = nat 1;
}

acknowledge_succeeds_example :
    (acknowledge_device_changes phone_ack "10:00" after_tea after_tea).0
    ≡ ok (checkpoint_of phone_ack 1 "10:00")
unfolding validate_scope require_non_empty is_blank validate_commit_seq safe_natural
    get_device_checkpoint applied_seq high_watermark M.get scope_key
acknowledge_succeeds_example =
    acknowledge_succeeds platform phone_ack "10:00" after_tea 0 1 after_tea-WellFormed refl refl
      refl refl refl (omega arith) (omega arith) (omega arith)

acknowledge_succeeds_run :
    (acknowledge_device_changes phone_ack "10:00" after_tea after_tea).0
    ≡ ok (checkpoint_of phone_ack 1 "10:00")
unfolding validate_scope require_non_empty is_blank validate_commit_seq safe_natural
    get_device_checkpoint applied_seq high_watermark M.get scope_key
acknowledge_succeeds_run =
    acknowledge_succeeds platform phone_ack "10:00" after_tea 0 1 after_tea-WellFormed refl refl
      refl refl refl (omega arith) (omega arith) (omega arith)

acknowledge-eq-ok_example :
    (expected through : ℕ) × (checkpoint_of phone_ack 1 "10:00"
      ≡ checkpoint_of phone_ack through "10:00")
    × Guarded phone_ack expected through after_tea
    × Swapped
        (checkpoint_of phone_ack 1 "10:00")
        expected
        after_tea
        (acknowledge_device_changes phone_ack "10:00" after_tea after_tea).1
acknowledge-eq-ok_example =
    acknowledge-eq-ok phone_ack "10:00" after_tea after_tea
      (acknowledge_device_changes phone_ack "10:00" after_tea after_tea).1
      (checkpoint_of phone_ack 1 "10:00")
      (λ i. (
        acknowledge_succeeds_run i,
        (acknowledge_device_changes phone_ack "10:00" after_tea after_tea).1,
      ))

-- The device claims to be behind where it expects to be.
abbrev backward_ack : AcknowledgeDeviceChangesInput
backward_ack = record phone_ack {
  expected_last_applied_commit_seq = nat 1;
  applied_through_commit_seq = nat 0;
}

acknowledge_error_unchanged_example :
    (acknowledge_device_changes backward_ack "10:00" after_tea after_tea).1 ≡ after_tea
unfolding acknowledge_device_changes validate_acknowledgement validate_scope require_non_empty
    is_blank validate_commit_seq safe_natural
acknowledge_error_unchanged_example =
    acknowledge_error_unchanged backward_ack "10:00" after_tea after_tea
      (validation_error checkpoint_backward) refl

-- ===== src/Examples/Verification.antt =====
-- Runs of the verifier.
use digital_life_memory_fabr.Base.{[], ◌∷◌, some, ◌≡◌, refl}
use digital_life_memory_fabr.Base.JsMap as M
use digital_life_memory_fabr.Domain.Errors.{ok}
use digital_life_memory_fabr.Domain.Memory.{
  MemoryCandidate, CanonicalMemoryHead, MemoryStatus, MemoryOperation, CandidateStatus, same_status,
}
use digital_life_memory_fabr.Domain.Scope.{scope_key, revision_key}
use digital_life_memory_fabr.Store.{
  InMemoryState, put_head, append_revision, append_outbox, append_change, put_commit_result,
  set_candidate_status, semantic_collision, high_watermark, next_commit_seq,
}
use digital_life_memory_fabr.Authority.Plan.{
  CommitPlan, create_plan, apply_operation, update_plan, carry_plan,
}
use digital_life_memory_fabr.Authority.Commit.{
  committed, persist, write_result, build_result, build_head, build_revision, build_change,
  build_outbox,
}
use digital_life_memory_fabr.Examples.{
  platform, scope, tea, coffee, first_draw, second_draw, with_tea, first_result, after_tea,
}
use digital_life_memory_fabr.Base.Text.{is_blank}
use digital_life_memory_fabr.Verification.{
  verify_one, verify_revision, allow, suppress, revision_integrity, expected_matches,
  vocabulary_intact, has_text, window_intact, starts_later, ended, bound_time, is_nan, ends_before,
}
use digital_life_memory_fabr.Verification.Decision.{Shown, verify_one-allow}
use digital_life_memory_fabr.Verification.Committed.{
  Presentable, persist-verified, restore_suppressed,
}
use digital_life_memory_fabr.Examples.Start.{first_persist}

tea-Presentable : Presentable platform first_draw tea (create_plan first_draw tea) 10000
unfolding create_plan build_revision vocabulary_intact has_text is_blank window_intact starts_later
    ended bound_time is_nan ends_before
tea-Presentable = record {
  live = refl;
  fingerprint = refl;
  vocabulary = λ n. refl;
  window = refl;
  started = refl;
  lasting = refl;
}

persist-verified_example :
    verify_one platform scope 10000 after_tea after_tea after_tea ("mem-1", some 1)
    ≡ allow first_result.revision
unfolding expected_matches build_head create_plan
persist-verified_example =
    persist-verified platform first_draw "key-1" tea (create_plan first_draw tea) 10000 (some 1)
      with_tea after_tea first_result tea-Presentable refl first_persist

tea_allowed :
    verify_one platform scope 10000 after_tea after_tea after_tea ("mem-1", some 1)
    ≡ allow first_result.revision
unfolding expected_matches build_head create_plan
tea_allowed =
    persist-verified platform first_draw "key-1" tea (create_plan first_draw tea) 10000 (some 1)
      with_tea after_tea first_result tea-Presentable refl first_persist

verify_one-allow_example :
    Shown platform scope 10000 after_tea after_tea after_tea "mem-1" (some 1) first_result.revision
verify_one-allow_example =
    verify_one-allow platform scope 10000 after_tea after_tea after_tea "mem-1" (some 1)
      first_result.revision tea_allowed

-- The memory is tombstoned, and a candidate with its own fingerprint restores it.
abbrev dead_head : CanonicalMemoryHead
dead_head = record first_result.head { status = MemoryStatus.tombstoned }

abbrev revival : MemoryCandidate
revival = record (coffee 1) {
  candidate_fingerprint = "fp-revival";
  proposed_operation = MemoryOperation.restore;
}

abbrev revival_plan : CommitPlan
revival_plan = carry_plan "mem-1" MemoryStatus.active revival dead_head first_result.revision 1

abbrev dead : InMemoryState
dead = record after_tea {
  candidates =
      ("cand-1", record tea { status = CandidateStatus.accepted }) ∷ ("cand-2", revival) ∷ [];
  heads = ("mem-1", dead_head) ∷ [];
}

revival_run :
    (s' : InMemoryState) × (persist platform second_draw "key-2" revival revival_plan dead
      ≡ ok (committed (build_result platform second_draw "key-2" revival revival_plan 2), s'))
unfolding persist write_result put_head append_revision append_change append_outbox
    set_candidate_status put_commit_result semantic_collision next_commit_seq high_watermark
    carry_plan update_plan create_plan build_result build_head build_revision build_change
    build_outbox M.get M.set revision_key scope_key
revival_run = (_, refl)

restore_suppressed_example :
    verify_revision platform
      (build_result platform second_draw "key-2" revival revival_plan 2).head
      (some (build_result platform second_draw "key-2" revival revival_plan 2).revision)
      scope
      10000
    ≡ suppress revision_integrity
unfolding apply_operation same_status build_result build_revision create_plan
restore_suppressed_example =
    restore_suppressed platform second_draw "key-2" "mem-1" revival dead_head _
      first_result.revision revival_plan 1 10000 scope dead revival_run.0
      (build_result platform second_draw "key-2" revival revival_plan 2) refl refl revival_run.1

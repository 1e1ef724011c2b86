-- ===== src/Examples/Start.antt =====
-- The runs that the examples start from.
use mathlib.Core.Path.{subst}
use digital_life_memory_fabr.Base.{none, ◌≡◌, refl, ap}
use digital_life_memory_fabr.Base.JsMap as M
use digital_life_memory_fabr.Base.Text.{is_blank}
use digital_life_memory_fabr.Domain.Errors.{ok}
use digital_life_memory_fabr.Domain.Memory.{same_operation}
use digital_life_memory_fabr.Store.{
  empty_state, put_candidate, get_candidate, get_commit_result, put_head, append_revision,
  append_outbox, append_change, put_commit_result, set_candidate_status, semantic_collision,
  high_watermark, next_commit_seq, transaction,
}
use digital_life_memory_fabr.Store.Invariant.{WellFormed, empty_state-WellFormed}
use digital_life_memory_fabr.Authority.Admission.{
  require_verified_provider_admission_state, provider_admission_state_fingerprint, is_provider,
  is_pending, require_pending, same_optional, require_provider_admission, verified_by,
}
use digital_life_memory_fabr.Authority.Plan.{create_plan}
use digital_life_memory_fabr.Authority.Commit.{
  committed, commit, admit, commit_admitted, commit_in_transaction, commit_fresh, resolution,
  resolve, persist, write_result, outcome_result, build_result, build_head, build_revision,
  build_change, build_outbox,
}
use digital_life_memory_fabr.Examples.{
  platform, tea, coffee, first_draw, first_request, with_tea, first_result, after_tea,
}
use digital_life_memory_fabr.Authority.Commit.Guarantees.{commit_admitted-WellFormed}
use digital_life_memory_fabr.History.Always.{put_candidate-WellFormed}
use digital_life_memory_fabr.History.{History, start, then_step, candidate_put}

pub first_commit :
    commit_admitted platform first_draw first_request none with_tea ≡ (ok first_result, after_tea)
unfolding commit_admitted commit_in_transaction commit_fresh resolution resolve persist write_result
    outcome_result transaction get_candidate get_commit_result require_pending is_pending
    require_verified_provider_admission_state provider_admission_state_fingerprint is_provider
    same_optional same_operation next_commit_seq high_watermark put_head append_revision
    append_outbox append_change put_commit_result set_candidate_status semantic_collision
    create_plan build_result build_head build_revision build_change build_outbox M.get M.set
first_commit = refl

pub first_call :
    commit platform none first_draw first_request with_tea with_tea ≡ (ok first_result, after_tea)
unfolding commit admit is_blank get_candidate require_provider_admission
    provider_admission_state_fingerprint is_provider verified_by M.get
first_call = first_commit

pub first_persist :
    persist platform first_draw "key-1" tea (create_plan first_draw tea) with_tea
    ≡ ok (committed first_result, after_tea)
unfolding commit_admitted commit_in_transaction commit_fresh resolution resolve persist write_result
    outcome_result transaction get_candidate get_commit_result require_pending is_pending
    require_verified_provider_admission_state provider_admission_state_fingerprint is_provider
    same_optional same_operation next_commit_seq high_watermark put_head append_revision
    append_outbox append_change put_commit_result set_candidate_status semantic_collision
    create_plan build_result build_head build_revision build_change build_outbox M.get M.set
first_persist = refl

pub with_tea-WellFormed : WellFormed platform with_tea
unfolding put_candidate M.set
with_tea-WellFormed =
    put_candidate-WellFormed platform tea empty_state (empty_state-WellFormed platform)

pub after_tea-WellFormed : WellFormed platform after_tea
after_tea-WellFormed =
    subst (WellFormed platform) (ap (λ x. x.1) first_commit) (
      commit_admitted-WellFormed platform first_draw first_request none with_tea
        with_tea-WellFormed)

-- A candidate is put after the commit.
pub coffee_put : History platform after_tea (put_candidate (coffee 1) after_tea)
unfolding get_candidate M.get
coffee_put =
    then_step after_tea after_tea _ (start after_tea) (candidate_put (coffee 1) after_tea refl)

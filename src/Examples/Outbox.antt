-- ===== src/Examples/Outbox.antt =====
-- Runs of the outbox.
use digital_life_memory_fabr.Base.{
  All, ◌≤◌, true, get_elem?, false, [], ◌∷◌, none, some, ◌≡◌, refl, length,
}
use digital_life_memory_fabr.Base.JsMap as M
use digital_life_memory_fabr.Domain.Errors.{ok}
use digital_life_memory_fabr.Domain.Scope.{scope_key, provider_materialization_key}
use digital_life_memory_fabr.Store.{InMemoryState, append_outbox}
use digital_life_memory_fabr.Domain.Records.{MemoryOutboxRecord}
use digital_life_memory_fabr.Authority.Plan.{create_plan}
use digital_life_memory_fabr.Authority.Commit.{build_result, build_outbox}
use digital_life_memory_fabr.Examples.{platform, scope, first_result, after_tea}
use digital_life_memory_fabr.Store.Outbox.{
  Claim, claim_outbox_batch, claimable, claimed_record, lease_over, is_chosen, time_le, enumerate,
  is_claimable, earlier_unfinished, status_claimable,
}
use digital_life_memory_fabr.Store.Outbox.Lease.{
  LeaseHistory, leased, rival_claimed, record_appended,
}
use digital_life_memory_fabr.Store.Outbox.Exclusive.{
  Handed, claim_outbox_batch-Free, claim_outbox_batch-exclusive,
}
use digital_life_memory_fabr.Store.Settlement.{
  SettleClaimRequest, SettledClaim, DeliveryStatus, settle_outbox_claim, settle_record,
  settled_record, settles_done, failed_outcomes, write_outcomes, materialization_of, moves_backward,
  is_requested, owns_claim, holds_text, lease_lost, replace_first,
}
use digital_life_memory_fabr.Store.Settlement.Fence.{
  Settled, settle_outbox_claim-Settled, settle_outbox_claim_once,
}

abbrev claim : Claim
claim = record {
  worker_id = "worker";
  claim_token = "token";
  claimed_at = "09:00";
  lease_expires_at = "11:00";
}

abbrev rival : Claim
rival = record {
  worker_id = "rival";
  claim_token = "token-2";
  claimed_at = "10:00";
  lease_expires_at = "11:00";
}

claim_outbox_batch-Free_example :
    (length (claim_outbox_batch platform scope claim 5 after_tea).0 ≤ 5)
    × All
        (Handed platform scope claim after_tea
          (claim_outbox_batch platform scope claim 5 after_tea).1)
        (claim_outbox_batch platform scope claim 5 after_tea).0
claim_outbox_batch-Free_example = claim_outbox_batch-Free platform scope claim 5 after_tea

-- Another record is appended after the claim, and the rival claims it.
abbrev with_rival : InMemoryState
with_rival =
    (claim_outbox_batch platform scope rival 5 (
      append_outbox (record first_result.outbox { outbox_id = "out-2" })
        (claim_outbox_batch platform scope claim 5 after_tea).1)).1

rival_history :
    LeaseHistory platform claim (claim_outbox_batch platform scope claim 5 after_tea).1 with_rival
unfolding lease_over time_le
rival_history = rival_claimed scope rival 5 _ refl (record_appended _ _ leased)

tea_chosen : is_chosen (claimable platform scope (some 9000) 5 after_tea.outbox) 0 ≡ true
unfolding is_chosen claimable enumerate is_claimable earlier_unfinished status_claimable scope_key
    build_result build_outbox create_plan
tea_chosen = refl

claim_outbox_batch-exclusive_example :
    (r : MemoryOutboxRecord) × (get_elem? after_tea.outbox 0 ≡ some r)
    × (get_elem? with_rival.outbox 0 ≡ some (claimed_record claim r))
    × (is_chosen (claimable platform scope (some 10000) 5 with_rival.outbox) 0 ≡ false)
unfolding lease_over time_le
claim_outbox_batch-exclusive_example =
    claim_outbox_batch-exclusive platform scope scope claim rival 5 5 0 after_tea with_rival
      tea_chosen rival_history refl

abbrev claimed_tea : InMemoryState
claimed_tea = record after_tea { outbox = claimed_record claim first_result.outbox ∷ [] }

abbrev delivered : SettleClaimRequest
delivered = record {
  scope = scope;
  outbox_id = "out-1";
  worker_id = "worker";
  claim_token = "token";
  settled_at = "10:00";
  outcomes =
      record {
        provider_name = "vectors";
        status = DeliveryStatus.current;
        provider_id = none;
        last_error = none;
      }
      ∷ [];
  last_error = none;
  next_attempt_at = none;
}

delivery_run :
    (settled : SettledClaim) × (s' : InMemoryState) × (settle_outbox_claim platform delivered
        claimed_tea
      ≡ ok (some settled, s'))
unfolding settle_outbox_claim settle_record settled_record settles_done failed_outcomes
    write_outcomes materialization_of moves_backward is_requested owns_claim holds_text lease_lost
    replace_first claimed_record time_le scope_key provider_materialization_key create_plan
    build_result build_outbox M.get M.set
delivery_run = (_, _, refl)

settle_outbox_claim-Settled_example :
    Settled platform delivered delivery_run.0 claimed_tea delivery_run.1
settle_outbox_claim-Settled_example =
    settle_outbox_claim-Settled platform delivered delivery_run.0 claimed_tea delivery_run.1
      delivery_run.2

settle_outbox_claim_once_example :
    settle_outbox_claim platform (record delivered { settled_at = "11:00" }) delivery_run.1
    ≡ ok (none, delivery_run.1)
settle_outbox_claim_once_example =
    settle_outbox_claim_once platform delivered (record delivered { settled_at = "11:00" })
      delivery_run.0 claimed_tea delivery_run.1 delivery_run.2 refl refl

-- ===== src/History/Keeps/Calls.antt =====
-- The calls besides a commit take nothing away.
use digital_life_memory_fabr.Base.{
  ℕ, String, ◌≡◌, refl, ◌∙◌, none, [], arith, inl, inr, ◌==◌, Bool-cases, eq_iff,
}
use digital_life_memory_fabr.Base.JsMap as M
use digital_life_memory_fabr.Base.JsMap.{JsMap}
use digital_life_memory_fabr.Domain.Scope.{device_checkpoint_key}
use digital_life_memory_fabr.Domain.Memory.{MemoryCandidate}
use digital_life_memory_fabr.Domain.Records.{DeviceCheckpoint, AcknowledgeDeviceChangesInput}
use digital_life_memory_fabr.Domain.Errors.{Result-cases}
use digital_life_memory_fabr.Store.{InMemoryState, get_candidate, put_candidate}
use digital_life_memory_fabr.Store.Queries.{get_device_checkpoint, applied_seq}
use digital_life_memory_fabr.Sync.{acknowledge_device_changes}
use digital_life_memory_fabr.Sync.Acknowledge.{
  Swapped, acknowledge-eq-ok, acknowledge_error_unchanged,
}
use digital_life_memory_fabr.History.Keeps.{Extends, Extends-refl, append_nil}

pub put_candidate-Extends :
    (c : MemoryCandidate) (s : InMemoryState)
    → get_candidate c.candidate_id s ≡ none
    → Extends s (put_candidate c s)
unfolding get_candidate put_candidate
put_candidate-Extends c s fresh = record {
  revisions_kept = λ key r h. h;
  appended = [];
  log_kept = append_nil s.changes;
  results_kept = λ key r h. h;
  candidates_kept =
      λ id x h. (x, M.get-set_fresh c.candidate_id id c x s.candidates fresh h, (refl, refl));
  devices_forward = λ key d h. (d, h, omega arith);
}

-- A state in which only the outbox and the materializations are different.
pub outbox-Extends :
    (s s' : InMemoryState)
    → s' ≡ record s { outbox = s'.outbox; provider_materializations = s'.provider_materializations }
    → Extends s s'
outbox-Extends s s' e = rw e (record {
  revisions_kept = λ key r h. h;
  appended = [];
  log_kept = append_nil s.changes;
  results_kept = λ key r h. h;
  candidates_kept = λ id x h. (x, h, (refl, refl));
  devices_forward = λ key d h. (d, h, omega arith);
})

Swapped-Extends :
    (checkpoint : DeviceCheckpoint) (expected : ℕ) (s s' : InMemoryState)
    → Swapped checkpoint expected s s'
    → Extends s s'
unfolding get_device_checkpoint applied_seq
Swapped-Extends checkpoint expected s s' swapped =
    let own = device_checkpoint_key checkpoint.scope checkpoint.device_id in
    rw swapped.state (record {
      revisions_kept = λ key r h. h;
      appended = [];
      log_kept = append_nil s.changes;
      results_kept = λ key r h. h;
      candidates_kept = λ id x h. (x, h, (refl, refl));
      devices_forward = λ key d h. elim (Bool-cases (own == key)) [
        | inl e ↦
            let same : own ≡ key = ground (arith, eq_iff own key, e) in
            (
              checkpoint,
              M.get-set_at own key checkpoint s.device_checkpoints same,
              ground (arith, swapped.before, swapped.forward, h, same),
            )
        | inr e ↦ (d, M.get-set_ne own key checkpoint s.device_checkpoints e ∙ h, omega arith)
      ];
    })

pub acknowledge-Extends :
    (input : AcknowledgeDeviceChangesInput) (now : String) (seen s : InMemoryState)
    → Extends s (acknowledge_device_changes input now seen s).1
acknowledge-Extends input now seen s =
    elim (Result-cases (acknowledge_device_changes input now seen s).0) [
      | inl (e, refused) ↦
          rw (acknowledge_error_unchanged input now seen s e refused) (Extends-refl s)
      | inr (checkpoint, done) ↦
          let (expected, through, _, _, swapped) =
            acknowledge-eq-ok input now seen s (acknowledge_device_changes input now seen s).1
              checkpoint (ground (arith, done)) in
          Swapped-Extends checkpoint expected s _ swapped
    ]

-- ===== src/History.antt =====
-- The calls that change the store, as steps, and the histories of a store. Between two steps of a
-- history any other call may have run: a step takes the states that the call read before as given.
pub mod Keeps
pub mod Always
use digital_life_memory_fabr.Base.{ℕ, String, List, Option, Bool, ◌≡◌, none, some}
use digital_life_memory_fabr.Domain.Platform.{Platform}
use digital_life_memory_fabr.Domain.Scope.{MemoryScope}
use digital_life_memory_fabr.Domain.Memory.{MemoryCandidate}
use digital_life_memory_fabr.Domain.Records.{AcknowledgeDeviceChangesInput}
use digital_life_memory_fabr.Domain.Errors.{Result, ok}
use digital_life_memory_fabr.Store.{InMemoryState, get_candidate, put_candidate}
use digital_life_memory_fabr.Authority.Plan.{CommitDraw}
use digital_life_memory_fabr.Authority.Commit.{CanonicalCommitRequest, commit}
use digital_life_memory_fabr.Sync.{acknowledge_device_changes}
use digital_life_memory_fabr.Operations.{
  ClaimOutboxInput, claim_outbox, SettleOutboxInput, settle_outbox,
}

-- One call, from the state before to the state after. A candidate is put under an id that the
-- store has not: the code draws it with `randomUUID`.
pub data Step (p : Platform) : InMemoryState → InMemoryState → Type 0 where
  candidate_put :
      (c : MemoryCandidate) (s : InMemoryState)
      → get_candidate c.candidate_id s ≡ none
      → Step p s (put_candidate c s)
  committed_memory :
      (verifier : Option (MemoryCandidate → Bool)) (draw : CommitDraw)
      (request : CanonicalCommitRequest) (seen s : InMemoryState)
      → Step p s (commit p verifier draw request seen s).1
  acknowledged_changes :
      (input : AcknowledgeDeviceChangesInput) (now : String) (seen s : InMemoryState)
      → Step p s (acknowledge_device_changes input now seen s).1
  claimed_outbox :
      (input : ClaimOutboxInput) (token now : String) (s : InMemoryState)
      → Step p s (claim_outbox p input token now s).1
  settled_outbox :
      (input : SettleOutboxInput) (now : String) (s : InMemoryState)
      → Step p s (settle_outbox p input now s).1

-- Any number of calls, one after the other.
pub data History (p : Platform) : InMemoryState → InMemoryState → Type 0 where
  start : (s : InMemoryState) → History p s s
  then_step : (s s' s'' : InMemoryState) → History p s s' → Step p s' s'' → History p s s''

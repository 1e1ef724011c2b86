-- ===== src/Domain/Records.antt =====
-- Changes, outbox records, checkpoints, conflicts and materializations (src/domain/types.ts).
use digital_life_memory_fabr.Base.{ℕ, String, List, Option, Bool}
use digital_life_memory_fabr.Domain.Scope.{MemoryScope}
use digital_life_memory_fabr.Domain.Platform.{Number}
use digital_life_memory_fabr.Domain.Memory.{
  MemoryAuthor, MemoryOperation, CanonicalMemoryHead, MemoryRevision,
}

pub record MemoryRevisionRef : Type 0 where
  pub memory_id : String
  pub revision : ℕ

pub record MemoryChangeEnvelope : Type 0 where
  pub event_id : String
  pub scope : MemoryScope
  pub commit_seq : ℕ
  pub memory_id : String
  pub operation : MemoryOperation
  pub base_revision : Option ℕ
  pub new_revision : ℕ
  pub idempotency_key : String
  pub author : MemoryAuthor
  pub committed_at : String
  pub payload_hash : String

pub data OutboxStatus : Type 0 where
  pending processing done failed : OutboxStatus

pub record MemoryOutboxRecord : Type 0 where
  pub outbox_id : String
  pub scope : MemoryScope
  pub commit_seq : ℕ
  pub memory_id : String
  pub revision : ℕ
  pub operation : MemoryOperation
  pub status : OutboxStatus
  pub attempts : ℕ
  pub created_at : String
  pub claimed_by : Option String
  pub claim_token : Option String
  pub lease_expires_at : Option String
  pub next_attempt_at : Option String
  pub last_error : Option String
  pub updated_at : Option String

pub data MaterializationStatus : Type 0 where
  current lagging failed unavailable rebuilding : MaterializationStatus

pub record ProviderMaterialization : Type 0 where
  pub provider_name : String
  pub memory_id : String
  pub provider_id : Option String
  pub canonical_revision : ℕ
  pub materialized_revision : ℕ
  pub status : MaterializationStatus
  pub last_error : Option String
  pub last_attempt : Option String

pub record DeviceCheckpoint : Type 0 where
  pub scope : MemoryScope
  pub device_id : String
  pub last_applied_commit_seq : ℕ
  pub last_sync_at : String

pub record MemorySyncChange : Type 0 where
  pub envelope : MemoryChangeEnvelope
  pub revision : MemoryRevision

pub record MemoryChangePage : Type 0 where
  pub scope : MemoryScope
  pub after_commit_seq : ℕ
  pub next_commit_seq : ℕ
  pub changes : List MemorySyncChange
  pub has_more : Bool

pub record DeviceSyncPull : Type 0 where
  pub page : MemoryChangePage
  pub device_id : String
  pub last_applied_commit_seq : ℕ

pub record ReadChangesInput : Type 0 where
  pub scope : MemoryScope
  pub after_commit_seq : Number
  pub limit : Option Number

pub record PullDeviceChangesInput : Type 0 where
  pub scope : MemoryScope
  pub device_id : String
  pub limit : Option Number

pub record AcknowledgeDeviceChangesInput : Type 0 where
  pub scope : MemoryScope
  pub device_id : String
  pub expected_last_applied_commit_seq : Number
  pub applied_through_commit_seq : Number

pub record MemoryConflict : Type 0 where
  pub conflict_id : String
  pub candidate_id : String
  pub scope : MemoryScope
  pub memory_id : String
  pub expected_revision : ℕ
  pub current_revision : ℕ
  pub detected_at : String

pub record CanonicalCommitResult : Type 0 where
  pub head : CanonicalMemoryHead
  pub revision : MemoryRevision
  pub change : MemoryChangeEnvelope
  pub outbox : MemoryOutboxRecord

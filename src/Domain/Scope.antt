-- ===== src/Domain/Scope.antt =====
-- Scopes and the keys built from them (src/domain/utils.ts and the key helpers of
-- src/store/in-memory-canonical-memory-store.ts).
pub mod Keys
use Prim.Native.String.{◌++◌, ◌∷◌}
use digital_life_memory_fabr.Base.{ℕ, Bool, String, ◌==◌}
use digital_life_memory_fabr.Base.Text.{unit_separator, decimal}

pub record MemoryScope : Type 0 where
  pub tenant_id : String
  pub life_did : String
  pub memory_namespace : String

unfoldable pub scope_key : MemoryScope → String
scope_key s =
    s.tenant_id ++ (unit_separator ∷ (s.life_did ++ (unit_separator ∷ s.memory_namespace)))

unfoldable pub same_scope : MemoryScope → MemoryScope → Bool
same_scope left right = scope_key left == scope_key right

-- `${memoryId}:${revision}`
unfoldable pub revision_key : String → ℕ → String
unfolding decimal
revision_key memory_id revision = memory_id ++ (":" ++ decimal revision)

unfoldable pub scoped_idempotency_key : MemoryScope → String → String
scoped_idempotency_key scope key = scope_key scope ++ (unit_separator ∷ key)

unfoldable pub device_checkpoint_key : MemoryScope → String → String
device_checkpoint_key scope device_id = scope_key scope ++ (unit_separator ∷ device_id)

unfoldable pub provider_materialization_key : String → String → String
provider_materialization_key provider_name memory_id = provider_name ++ (unit_separator ∷ memory_id)

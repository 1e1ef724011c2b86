-- ===== src/Examples/Keys.antt =====
-- Keys of scopes and revisions.
use digital_life_memory_fabr.Base.{ℕ, true, String, ◌≡◌, refl, ◌==◌, ◌&&◌}
use digital_life_memory_fabr.Domain.Scope.{MemoryScope, same_scope}
use digital_life_memory_fabr.Domain.Scope.Keys.{
  revision_key-injective, IsSeparated, same_scope-eq, same_scope-shifted,
}

revision_key-injective_example : (◌≡◌ {A = String} "mem-1" "mem-1") × (◌≡◌ {A = ℕ} 12 12)
revision_key-injective_example = revision_key-injective "mem-1" "mem-1" 12 12 refl

abbrev short : MemoryScope
short = record { tenant_id = "t"; life_did = "d"; memory_namespace = "n" }

short-IsSeparated : IsSeparated short
short-IsSeparated = record { tenant = ((λ h. cc h), tt); life = ((λ h. cc h), tt) }

same_scope-eq_example : same_scope short short ≡ (
    short.tenant_id == short.tenant_id
    && short.life_did == short.life_did
    && short.memory_namespace == short.memory_namespace)
same_scope-eq_example = same_scope-eq short short short-IsSeparated short-IsSeparated

same_scope-shifted_example :
    same_scope
      (record { tenant_id = "a\u{1f}b"; life_did = "c"; memory_namespace = "d" })
      (record { tenant_id = "a"; life_did = "b\u{1f}c"; memory_namespace = "d" })
    ≡ true
same_scope-shifted_example = same_scope-shifted "a" "b" "c" "d"

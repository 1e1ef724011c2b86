-- ===== src/Domain/Scope/Keys.antt =====
-- Which keys determine their parts: the joined texts of src/domain/utils.ts and of the store.
use Prim.Native.String.{String, ◌∷◌, ◌++◌}
use text.Mathlib.TextLemmas.{append_assoc, cons-append, nil-append}
use digital_life_memory_fabr.Base.{
  ℕ, ◌≡◌, ap, true, eq_iff, ◌==◌, ◌&&◌, Bool-cases, inl, inr, arith,
}
use digital_life_memory_fabr.Base.Text.{unit_separator}
use digital_life_memory_fabr.Base.Text.Decimal.{Lacks, decimal-injective, decimal-Lacks}
use digital_life_memory_fabr.Base.Text.Split.{split_left, split_right}
use digital_life_memory_fabr.Domain.Scope.{MemoryScope, scope_key, same_scope, revision_key}

-- A memory's id and a revision number have a key of their own: no two pairs share one.
pub revision_key-injective :
    (id id' : String) (n n' : ℕ) → revision_key id n ≡ revision_key id' n' → (id ≡ id') × (n ≡ n')
unfolding revision_key
revision_key-injective id id' n n' e =
    let parts =
      split_right ":" id id' _ _ (decimal-Lacks n) (decimal-Lacks n')
        (rw (cons-append, nil-append, cons-append, nil-append) at e) in
    (parts.0, decimal-injective n n' parts.1)

pub record IsSeparated (s : MemoryScope) : Type 0 where
  pub tenant : Lacks unit_separator s.tenant_id
  pub life : Lacks unit_separator s.life_did

same_scope-equal :
    (left right : MemoryScope)
    → IsSeparated left
    → IsSeparated right
    → same_scope left right ≡ true
    → left ≡ right
unfolding same_scope scope_key
same_scope-equal left right hl hr e =
    let outer = split_left unit_separator _ _ _ _ hl.tenant hr.tenant ((eq_iff _ _).0 e) in
    let inner = split_left unit_separator _ _ _ _ hl.life hr.life outer.1 in
    λ i. record { tenant_id = outer.0 i; life_did = inner.0 i; memory_namespace = inner.1 i }

-- `sameScope` compares the tenant, the life and the namespace, each with its counterpart, and
-- nothing else, on scopes whose tenant and life have no U+001F.
pub same_scope-eq :
    (left right : MemoryScope)
    → IsSeparated left
    → IsSeparated right
    → same_scope left right ≡ (
        left.tenant_id == right.tenant_id
        && left.life_did == right.life_did
        && left.memory_namespace == right.memory_namespace)
unfolding same_scope scope_key
same_scope-eq left right hl hr =
    let tenant = eq_iff left.tenant_id right.tenant_id in
    let life = eq_iff left.life_did right.life_did in
    let namespace = eq_iff left.memory_namespace right.memory_namespace in
    elim (Bool-cases (same_scope left right)) [
      | inl same ↦
          let e = same_scope-equal left right hl hr same in
          let tenants = tenant.1 (ap (λ (x : MemoryScope). x.tenant_id) e) in
          let lives = life.1 (ap (λ (x : MemoryScope). x.life_did) e) in
          let namespaces = namespace.1 (ap (λ (x : MemoryScope). x.memory_namespace) e) in
          ground (arith, same, tenants, lives, namespaces)
      | inr other ↦
          ground (arith, other, tenant, life, namespace, eq_iff (scope_key left) (scope_key right))
    ]

-- Two different scopes can count as the same: a separator inside the tenant can be moved into the
-- life.
pub same_scope-shifted :
    (a b c d : String)
    → same_scope
        (record { tenant_id = a ++ (unit_separator ∷ b); life_did = c; memory_namespace = d })
        (record { tenant_id = a; life_did = b ++ (unit_separator ∷ c); memory_namespace = d })
      ≡ true
unfolding same_scope scope_key
same_scope-shifted a b c d = (eq_iff _ _).1 (simp (append_assoc, cons-append))

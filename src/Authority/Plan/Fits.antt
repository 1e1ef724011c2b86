-- ===== src/Authority/Plan/Fits.antt =====
-- How a plan stands to the state that it was made from.
use digital_life_memory_fabr.Base.{ℕ, ◌+◌, ◌≡◌, String, some, true, arith, eq_iff}
use digital_life_memory_fabr.Base.JsMap as M
use digital_life_memory_fabr.Domain.Platform.{Platform}
use digital_life_memory_fabr.Domain.Scope.{same_scope}
use digital_life_memory_fabr.Domain.Memory.{
  MemoryCandidate, CanonicalMemoryHead, MemoryRevision, MemoryOperation, create,
}
use digital_life_memory_fabr.Domain.Errors.{ok}
use digital_life_memory_fabr.Store.{InMemoryState, get_head, get_revision}
use digital_life_memory_fabr.Store.Invariant.{WellFormed}
use digital_life_memory_fabr.Verification.{identity_intact}
use digital_life_memory_fabr.Authority.Plan.{
  CommitDraw, CommitPlan, Resolution, planned, plan_mutation, plan_or_conflict, plan_on_head,
  apply_operation, update_plan, merge_plan, carry_plan,
}

-- The next revision of the head under the plan's id, with the same scope and semantic key.
pub record Continues (c : MemoryCandidate) (plan : CommitPlan) (s : InMemoryState) : Type 0 where
  pub head : CanonicalMemoryHead
  pub stored : M.get plan.memory_id s.heads ≡ some head
  pub base : plan.base_revision ≡ some head.current_revision
  pub next : plan.new_revision ≡ head.current_revision + 1
  pub scope : same_scope head.scope c.scope ≡ true
  pub semantic_key : plan.semantic_key ≡ head.semantic_key

-- The fields that every operation's plan takes from the call.
pub record PlansOn (base_id : String) (head : CanonicalMemoryHead) (current : MemoryRevision)
    (expected : ℕ) (plan : CommitPlan) : Type 0 where
  pub own_id : plan.memory_id ≡ base_id
  pub base : plan.base_revision ≡ some expected
  pub next : plan.new_revision ≡ expected + 1
  pub semantic_key :
      current.semantic_key ≡ head.semantic_key → plan.semantic_key ≡ head.semantic_key

apply_operation-PlansOn :
    (op : MemoryOperation) (base_id : String) (c : MemoryCandidate) (head : CanonicalMemoryHead)
    (current : MemoryRevision) (expected : ℕ) (plan : CommitPlan)
    → apply_operation op base_id c head current expected ≡ ok plan
    → PlansOn base_id head current expected plan
unfolding apply_operation update_plan merge_plan carry_plan
apply_operation-PlansOn create base_id c head current expected plan h = cc
apply_operation-PlansOn _ base_id c head current expected plan h = ground arith

-- The head whose key names a revision of its own semantic key.
agrees-semantic_key :
    (head : CanonicalMemoryHead) (r : MemoryRevision)
    → identity_intact head r head.scope ≡ true
    → r.semantic_key ≡ head.semantic_key
unfolding identity_intact
agrees-semantic_key head r h = ground (arith, eq_iff r.semantic_key head.semantic_key)

-- What a plan on a head was made from.
plan_on_head-eq-ok :
    (s : InMemoryState) (base_id : String) (c : MemoryCandidate) (head : CanonicalMemoryHead)
    (expected : ℕ) (plan : CommitPlan)
    → plan_on_head s base_id c head expected ≡ ok plan
    → (current : MemoryRevision) × (get_revision base_id head.current_revision s ≡ some current)
      × (apply_operation c.proposed_operation base_id c head current expected ≡ ok plan)
unfolding plan_on_head
plan_on_head-eq-ok s base_id c head expected plan h = ground arith

plan_on_head-Continues :
    (p : Platform) (s : InMemoryState) (base_id : String) (c : MemoryCandidate)
    (head : CanonicalMemoryHead) (plan : CommitPlan)
    → WellFormed p s
    → M.get base_id s.heads ≡ some head
    → same_scope head.scope c.scope ≡ true
    → plan_on_head s base_id c head head.current_revision ≡ ok plan
    → Continues c plan s
unfolding get_revision
plan_on_head-Continues p s base_id c head plan w found scope h =
    let (current, here, made) = plan_on_head-eq-ok s base_id c head head.current_revision plan h in
    let on = apply_operation-PlansOn c.proposed_operation base_id c head current _ plan made in
    let known = w.heads_resolve base_id head found in
    let agrees = agrees-semantic_key head known.revision known.agrees in
    record {
      head = head;
      stored = rw on.own_id found;
      base = on.base;
      next = on.next;
      scope = scope;
      semantic_key = on.semantic_key (cc (agrees, known.stored, here));
    }

plan_or_conflict-planned :
    (draw : CommitDraw) (s : InMemoryState) (base_id : String) (c : MemoryCandidate)
    (head : CanonicalMemoryHead) (expected : ℕ) (plan : CommitPlan)
    → plan_or_conflict draw s base_id c head expected ≡ ok (planned plan)
    → (head.current_revision ≡ expected) × (plan_on_head s base_id c head expected ≡ ok plan)
unfolding plan_or_conflict
plan_or_conflict-planned draw s base_id c head expected plan h = (ground arith, ground arith)

plan_mutation-eq-ok :
    (draw : CommitDraw) (c : MemoryCandidate) (s : InMemoryState) (r : Resolution)
    → plan_mutation draw c s ≡ ok r
    → (base_id : String) × (expected : ℕ) × (head : CanonicalMemoryHead) × (c.base_memory_id
        ≡ some base_id)
      × (c.base_revision ≡ some expected)
      × (get_head base_id s ≡ some head)
      × (same_scope head.scope c.scope ≡ true)
      × (plan_or_conflict draw s base_id c head expected ≡ ok r)
unfolding plan_mutation
plan_mutation-eq-ok draw c s r h = ground arith

pub plan_mutation-Continues :
    (p : Platform) (draw : CommitDraw) (c : MemoryCandidate) (s : InMemoryState) (plan : CommitPlan)
    → WellFormed p s
    → plan_mutation draw c s ≡ ok (planned plan)
    → Continues c plan s
unfolding get_head
plan_mutation-Continues p draw c s plan w h =
    let (base_id, expected, head, _, _, found, scope, made) =
      plan_mutation-eq-ok draw c s (planned plan) h in
    let (e, k) = plan_or_conflict-planned draw s base_id c head expected plan made in
    plan_on_head-Continues p s base_id c head plan w found scope (rw e k)

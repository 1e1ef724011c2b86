-- ===== src/Store/Settlement/Fence.antt =====
-- The fence around the settlement of a claim, and the order of the materializations.
use digital_life_memory_fabr.Base.{
  ◌≤◌, Bool, true, false, String, List, [], ◌∷◌, none, some, ◌==◌, ◌≡◌, refl, sym, ◌∙◌, arith, find,
  Bool-cases, Option-cases, inl, inr, eq_iff,
}
use digital_life_memory_fabr.Base.JsMap as M
use digital_life_memory_fabr.Base.JsMap.{JsMap}
use digital_life_memory_fabr.Domain.Platform.{Platform}
use digital_life_memory_fabr.Domain.Scope.{provider_materialization_key}
use digital_life_memory_fabr.Domain.Records.{MemoryOutboxRecord, ProviderMaterialization}
use digital_life_memory_fabr.Domain.Errors.{ok, Result-cases}
use digital_life_memory_fabr.Store.{InMemoryState}
use digital_life_memory_fabr.Store.Settlement.{
  SettleClaimRequest, SettledClaim, ProviderDeliveryOutcome, owns_claim, is_requested,
  moves_backward, materialization_of, write_outcomes, settles_done, settled_record, replace_first,
  settle_record, settle_outbox_claim,
}

-- No materialization moves back to an earlier canonical revision, and none is lost.
pub NoneBackward : JsMap ProviderMaterialization → JsMap ProviderMaterialization → Type 0
NoneBackward before after =
    (key : String) (m : ProviderMaterialization)
    → M.get key before ≡ some m
    → (m' : ProviderMaterialization) × (M.get key after ≡ some m')
      × (m.canonical_revision ≤ m'.canonical_revision)

written_forward :
    (at key : String) (r : MemoryOutboxRecord) (outcome : ProviderDeliveryOutcome)
    (m : JsMap ProviderMaterialization)
    → moves_backward (M.get key m) r.revision ≡ false
    → NoneBackward m (M.set key (materialization_of at r (M.get key m) outcome) m)
unfolding NoneBackward moves_backward materialization_of
written_forward at key r outcome m forward other before stored = elim (Bool-cases (key == other)) [
  | inl e ↦
      let same : key ≡ other = ground (arith, eq_iff key other, e) in
      (
        materialization_of at r (M.get key m) outcome,
        M.get-set_at key other _ m same,
        ground (arith, stored, same, forward),
      )
  | inr e ↦ (before, M.get-set_ne key other _ m e ∙ stored, omega arith)
]

write_outcomes-NoneBackward :
    (at : String) (r : MemoryOutboxRecord) (outcomes : List ProviderDeliveryOutcome)
    (m m' : JsMap ProviderMaterialization) (ms : List ProviderMaterialization)
    → write_outcomes at r outcomes m ≡ ok (ms, m')
    → NoneBackward m m'
unfolding NoneBackward write_outcomes
write_outcomes-NoneBackward at r [] m m' ms h key before stored =
    (before, ground (arith, h, stored), omega arith)
write_outcomes-NoneBackward at r (outcome ∷ outcomes) m m' ms h key before stored =
    let own = provider_materialization_key outcome.provider_name r.memory_id in
    let m₁ = M.set own (materialization_of at r (M.get own m) outcome) m in
    elim (Result-cases (write_outcomes at r outcomes m₁)) [
      | inl (e, failed) ↦ absurd (ground (arith, h, failed))
      | inr ((ms₁, m₂), written) ↦
          let forward = written_forward at own r outcome m (ground (arith, h)) key before stored in
          let further =
            write_outcomes-NoneBackward at r outcomes m₁ m₂ ms₁ written key forward.0 forward.1 in
          let same : m₂ ≡ m' = ground (arith, h, written) in
          (further.0, rw (sym same) further.1, omega (arith, forward.2, further.2))
    ]

-- A settlement that was accepted.
pub record Settled (p : Platform) (request : SettleClaimRequest) (settled : SettledClaim)
    (s s' : InMemoryState) : Type 0 where
  pub held : MemoryOutboxRecord
  pub found : find (is_requested request) s.outbox ≡ some held
  pub owned : owns_claim p request held ≡ true
  pub recorded : settled.record_after ≡ settled_record request held
  pub outbox_after :
      s'.outbox ≡ replace_first (is_requested request) (settled_record request held) s.outbox
  pub forward : NoneBackward s.provider_materializations s'.provider_materializations
  pub others :
      s' ≡ record s { outbox = s'.outbox; provider_materializations = s'.provider_materializations }

-- A settlement that is accepted was made by the holder of a running claim on the record; it
-- records the outcome, moves no materialization backward, and writes nothing but the outbox and
-- the materializations.
pub settle_outbox_claim-Settled :
    (p : Platform) (request : SettleClaimRequest) (settled : SettledClaim) (s s' : InMemoryState)
    → settle_outbox_claim p request s ≡ ok (some settled, s')
    → Settled p request settled s s'
unfolding settle_outbox_claim settle_record
settle_outbox_claim-Settled p request settled s s' h =
    elim (Option-cases (find (is_requested request) s.outbox)) [
      | inl e ↦ absurd (ground (arith, h, e))
      | inr (r, e) ↦
          elim (Result-cases
            (write_outcomes request.settled_at r request.outcomes s.provider_materializations)) [
              | inl (e', failed) ↦ absurd (ground (arith, h, e, failed))
              | inr ((ms, m), written) ↦
                  let state : s' ≡ record s {
                    provider_materializations = m;
                    outbox =
                        replace_first (is_requested request) (settled_record request r) s.outbox;
                  } =
                    ground (arith, h, e, written) in
                  record {
                    held = r;
                    found = e;
                    owned = ground (arith, h, e);
                    recorded = ground (arith, h, e, written);
                    outbox_after = rw state refl;
                    forward = rw state (
                        write_outcomes-NoneBackward request.settled_at r request.outcomes _ m ms
                          written);
                    others = rw state refl;
                  }
            ]
    ]

find-replace_first :
    (test test' : MemoryOutboxRecord → Bool) (r r' : MemoryOutboxRecord)
    (xs : List MemoryOutboxRecord)
    → ((x : MemoryOutboxRecord) → test' x ≡ test x)
    → test r' ≡ true
    → find test xs ≡ some r
    → find test' (replace_first test r' xs) ≡ some r'
unfolding replace_first
find-replace_first test test' r r' [] same is h = absurd (cc h)
find-replace_first test test' r r' (x ∷ xs) same is h = elim (Bool-cases (test x)) [
  | inl e ↦ ground (arith, e, same r', is)
  | inr e ↦
      ground
        (arith, e, same x, find-replace_first test test' r r' xs same is (ground (arith, h, e)))
]

find_passes_test :
    (test : MemoryOutboxRecord → Bool) (r : MemoryOutboxRecord) (xs : List MemoryOutboxRecord)
    → find test xs ≡ some r
    → test r ≡ true
find_passes_test test r [] h = absurd (cc h)
find_passes_test test r (x ∷ xs) h = elim (Bool-cases (test x)) [
  | inl e ↦ ground (arith, h, e)
  | inr e ↦ find_passes_test test r xs (ground (arith, h, e))
]

settled_record-freed :
    (p : Platform) (request request' : SettleClaimRequest) (r : MemoryOutboxRecord)
    → owns_claim p request' (settled_record request r) ≡ false
unfolding owns_claim settled_record
settled_record-freed p request request' r = elim (Bool-cases (settles_done request)) [
  | inl e ↦ ground (arith, e)
  | inr e ↦ ground (arith, e)
]

settled_record-requested :
    (request : SettleClaimRequest) (r : MemoryOutboxRecord)
    → is_requested request (settled_record request r) ≡ is_requested request r
unfolding is_requested settled_record
settled_record-requested request r = elim (Bool-cases (settles_done request)) [
  | inl e ↦ ground (arith, e)
  | inr e ↦ ground (arith, e)
]

same_request :
    (request request' : SettleClaimRequest)
    → request'.outbox_id ≡ request.outbox_id
    → request'.scope ≡ request.scope
    → (x : MemoryOutboxRecord) → is_requested request' x ≡ is_requested request x
unfolding is_requested
same_request request request' same_id same_scope x = ground (arith, same_id, same_scope)

-- In the state that a settlement of a record leaves, every further settlement of it is refused and
-- changes nothing, whatever worker, token and outcomes it names.
pub settle_outbox_claim_once :
    (p : Platform) (request request' : SettleClaimRequest) (settled : SettledClaim)
    (s s' : InMemoryState)
    → settle_outbox_claim p request s ≡ ok (some settled, s')
    → request'.outbox_id ≡ request.outbox_id
    → request'.scope ≡ request.scope
    → settle_outbox_claim p request' s' ≡ ok (none, s')
unfolding settle_outbox_claim
settle_outbox_claim_once p request request' settled s s' h same_id same_scope =
    let was = settle_outbox_claim-Settled p request settled s s' h in
    let again =
      find-replace_first (is_requested request) (is_requested request') was.held _ s.outbox
        (same_request request request' same_id same_scope)
        (settled_record-requested request was.held ∙ find_passes_test _ was.held s.outbox was.found)
        was.found in
    ground (arith, was.outbox_after, again, settled_record-freed p request request' was.held)

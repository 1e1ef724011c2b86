-- ===== src/Store/Outbox/Lease.antt =====
-- What runs while the lease of a claim lasts, and that it leaves the records of the claim as they are.
use digital_life_memory_fabr.Base.{
  ℕ, false, String, List, Option, some, ◌==◌, ◌≡◌, sym, ap, ◌∙◌, arith, find, get_elem?, Bool-cases,
  Option-cases, inl, inr, some-injective, if◌then◌else◌,
}
use digital_life_memory_fabr.Domain.Platform.{Platform}
use digital_life_memory_fabr.Domain.Scope.{MemoryScope, scope_key}
use digital_life_memory_fabr.Domain.Records.{MemoryOutboxRecord}
use digital_life_memory_fabr.Domain.Errors.{ok, Result-cases}
use digital_life_memory_fabr.Store.{InMemoryState, append_outbox}
use digital_life_memory_fabr.Store.Outbox.{
  lease_over, status_claimable, is_claimable, claimable, Claim, claimed_record, is_chosen,
  claim_outbox_batch,
}
use digital_life_memory_fabr.Store.Outbox.Places.{
  claimable-Standing, claim_places-at, is_chosen-All, get_elem?-append, get_elem?-replace_first,
}
use digital_life_memory_fabr.Store.Settlement.{
  SettleClaimRequest, SettledClaim, settle_outbox_claim, settle_record, settled_record,
  write_outcomes, owns_claim, holds_text, is_requested, replace_first,
}

-- A record of a running lease is not claimable.
held-is_claimable :
    (p : Platform) (key : String) (claim : Claim) (now : Option ℕ)
    (outbox : List MemoryOutboxRecord) (r : MemoryOutboxRecord)
    → lease_over p now (some claim.lease_expires_at) ≡ false
    → is_claimable p key now outbox (claimed_record claim r) ≡ false
unfolding is_claimable status_claimable claimed_record
held-is_claimable p key claim now outbox r held = ground (arith, held)

pub held-is_chosen :
    (p : Platform) (scope : MemoryScope) (claim : Claim) (now : Option ℕ) (limit i : ℕ)
    (outbox : List MemoryOutboxRecord) (r : MemoryOutboxRecord)
    → lease_over p now (some claim.lease_expires_at) ≡ false
    → get_elem? outbox i ≡ some (claimed_record claim r)
    → is_chosen (claimable p scope now limit outbox) i ≡ false
held-is_chosen p scope claim now limit i outbox r held here =
    elim (Bool-cases (is_chosen (claimable p scope now limit outbox) i)) [
      | inr other ↦ other
      | inl twice ↦
          let (x, (stands, free)) =
            is_chosen-All _ _ i (claimable-Standing p scope now limit outbox) twice in
          let same : x ≡ claimed_record claim r = some-injective (sym stands ∙ here) in
          let not_free = held-is_claimable p (scope_key scope) claim now outbox r held in
          absurd (cc (free, same, not_free))
    ]

-- What runs while a lease lasts: claims of any worker in any scope, settlements with any other
-- token, and new records.
pub data LeaseHistory (p : Platform) (holder : Claim) (s : InMemoryState)
    : InMemoryState → Type 0 where
  leased : LeaseHistory p holder s s
  rival_claimed :
      (scope : MemoryScope) (claim : Claim) (limit : ℕ) (s' : InMemoryState)
      → lease_over p (p.date_parse claim.claimed_at) (some holder.lease_expires_at) ≡ false
      → LeaseHistory p holder s s'
      → LeaseHistory p holder s (claim_outbox_batch p scope claim limit s').1
  other_settled :
      (request : SettleClaimRequest) (settled : Option SettledClaim) (s' s'' : InMemoryState)
      → (holder.claim_token == request.claim_token) ≡ false
      → settle_outbox_claim p request s' ≡ ok (settled, s'')
      → LeaseHistory p holder s s'
      → LeaseHistory p holder s s''
  record_appended :
      (r : MemoryOutboxRecord) (s' : InMemoryState)
      → LeaseHistory p holder s s'
      → LeaseHistory p holder s (append_outbox r s')

claim_outbox_batch-keeps :
    (p : Platform) (scope : MemoryScope) (claim holder : Claim) (limit i : ℕ) (s : InMemoryState)
    (r : MemoryOutboxRecord)
    → lease_over p (p.date_parse claim.claimed_at) (some holder.lease_expires_at) ≡ false
    → get_elem? s.outbox i ≡ some (claimed_record holder r)
    → get_elem? (claim_outbox_batch p scope claim limit s).1.outbox i
      ≡ some (claimed_record holder r)
unfolding claim_outbox_batch
claim_outbox_batch-keeps p scope claim holder limit i s r held here =
    let now = p.date_parse claim.claimed_at in
    let kept = claimed_record holder r in
    claim_places-at claim (claimable p scope now limit s.outbox) 0 i i s.outbox kept (omega arith)
      here
    ∙ ap (λ b. some (if b then claimed_record claim kept else kept))
        (held-is_chosen p scope holder now limit i s.outbox r held here)

not_owner :
    (p : Platform) (request : SettleClaimRequest) (holder : Claim) (r : MemoryOutboxRecord)
    → (holder.claim_token == request.claim_token) ≡ false
    → owns_claim p request (claimed_record holder r) ≡ false
unfolding owns_claim holds_text claimed_record
not_owner p request holder r other = ground (arith, other)

settle_outbox_claim-keeps :
    (p : Platform) (request : SettleClaimRequest) (settled : Option SettledClaim) (holder : Claim)
    (i : ℕ) (s s' : InMemoryState) (r : MemoryOutboxRecord)
    → (holder.claim_token == request.claim_token) ≡ false
    → settle_outbox_claim p request s ≡ ok (settled, s')
    → get_elem? s.outbox i ≡ some (claimed_record holder r)
    → get_elem? s'.outbox i ≡ some (claimed_record holder r)
unfolding settle_outbox_claim settle_record
settle_outbox_claim-keeps p request settled holder i s s' r other h here =
    elim (Option-cases (find (is_requested request) s.outbox)) [
      | inl missing ↦
          let same : s ≡ s' = ground (arith, missing) in
          ap (λ (x : InMemoryState). get_elem? x.outbox i) (sym same) ∙ here
      | inr (x, found) ↦ elim (Bool-cases (owns_claim p request x)) [
        | inr lost ↦
            let same : s ≡ s' = ground (arith, found, lost) in
            ap (λ (x : InMemoryState). get_elem? x.outbox i) (sym same) ∙ here
        | inl owned ↦
            elim (Result-cases
              (write_outcomes request.settled_at x request.outcomes s.provider_materializations)) [
                | inl (e, failed) ↦ absurd (ground (arith, found, owned, failed))
                | inr ((ms, m), written) ↦
                    let outbox : replace_first (is_requested request) (settled_record request x)
                          s.outbox
                        ≡ s'.outbox =
                      ground (arith, found, owned, written) in
                    ap (λ xs. get_elem? xs i) (sym outbox)
                    ∙ get_elem?-replace_first (is_requested request) (owns_claim p request) s.outbox
                        i (claimed_record holder r) x (settled_record request x) found owned
                        (not_owner p request holder r other) here
              ]
      ]
    ]

pub LeaseHistory-keeps :
    (p : Platform) (holder : Claim) (i : ℕ) (s s' : InMemoryState) (r : MemoryOutboxRecord)
    → LeaseHistory p holder s s'
    → get_elem? s.outbox i ≡ some (claimed_record holder r)
    → get_elem? s'.outbox i ≡ some (claimed_record holder r)
unfolding append_outbox
LeaseHistory-keeps p holder i s _ r leased here = here
LeaseHistory-keeps p holder i s _ r (rival_claimed scope claim limit s' held history) here =
    claim_outbox_batch-keeps p scope claim holder limit i s' r held
      (LeaseHistory-keeps p holder i s s' r history here)
LeaseHistory-keeps p holder i s _ r (other_settled request settled s' s'' other h history) here =
    settle_outbox_claim-keeps p request settled holder i s' s'' r other h
      (LeaseHistory-keeps p holder i s s' r history here)
LeaseHistory-keeps p holder i s _ r (record_appended new s' history) here =
    get_elem?-append s'.outbox i (claimed_record holder r) new
      (LeaseHistory-keeps p holder i s s' r history here)

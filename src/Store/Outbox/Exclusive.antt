-- ===== src/Store/Outbox/Exclusive.antt =====
-- What a worker that claims outbox records can rely on: each record is free, no earlier revision
-- of its memory is open, and it stays with the worker while the lease lasts.
use digital_life_memory_fabr.Base.{
  All, All-map, All-mapped, All-zip, ℕ, ◌≤◌, ◌<◌, true, false, List, [], ◌∷◌, Option, some, ◌==◌,
  ◌≡◌, refl, ap, ◌∙◌, ◌⊎◌, arith, filter, sort_by, get_elem?, length, length-take, length-map, inl,
  inr, eq_iff, if◌then◌else◌,
}
use digital_life_memory_fabr.Domain.Platform.{Platform}
use digital_life_memory_fabr.Domain.Scope.{MemoryScope, scope_key}
use digital_life_memory_fabr.Domain.Records.{
  MemoryOutboxRecord, OutboxStatus, done, pending, processing,
}
use digital_life_memory_fabr.Store.{InMemoryState}
use digital_life_memory_fabr.Store.Outbox.{
  is_done, earlier_unfinished, lease_over, retry_due, status_claimable, is_claimable, Placed,
  enumerate, claim_order, claimable, Claim, claimed_record, is_chosen, claim_outbox_batch,
}
use digital_life_memory_fabr.Store.Outbox.Lease.{LeaseHistory, LeaseHistory-keeps, held-is_chosen}
use digital_life_memory_fabr.Store.Outbox.Places.{
  claimable-Standing, claim_places-at, chosen_self, is_chosen-All,
}

-- Every other record of the memory with an earlier revision is done.
abbrev pub EarlierDone : MemoryOutboxRecord → List MemoryOutboxRecord → Type 0
EarlierDone r outbox =
    All
      (λ earlier.
        earlier.memory_id ≡ r.memory_id → earlier.revision < r.revision → earlier.status ≡ done)
      outbox

is_done-done : (status : OutboxStatus) → is_done status ≡ true → status ≡ done
unfolding is_done
is_done-done status h = ground arith

earlier_unfinished-EarlierDone :
    (r : MemoryOutboxRecord) (outbox : List MemoryOutboxRecord)
    → earlier_unfinished r outbox ≡ false
    → EarlierDone r outbox
unfolding earlier_unfinished is_done
earlier_unfinished-EarlierDone r [] h = tt
earlier_unfinished-EarlierDone r (x ∷ xs) h = (
  (λ same earlier.
      is_done-done x.status (ground (arith, h, same, earlier, eq_iff x.memory_id r.memory_id))),
  earlier_unfinished-EarlierDone r xs (ground (arith, h)),
)

-- A record that may be handed to a worker at `now`.
pub record Free (p : Platform) (scope : MemoryScope) (now : Option ℕ)
    (outbox : List MemoryOutboxRecord) (r : MemoryOutboxRecord) : Type 0 where
  pub in_scope : (scope_key r.scope == scope_key scope) ≡ true
  pub in_order : EarlierDone r outbox
  pub claimable_now :
      (r.status ≡ pending)
      ⊎ ((r.status ≡ OutboxStatus.failed) × (retry_due p now r.next_attempt_at ≡ true))
      ⊎ ((r.status ≡ processing) × (lease_over p now r.lease_expires_at ≡ true))

status_claimable-cases :
    (p : Platform) (now : Option ℕ) (r : MemoryOutboxRecord) (status : OutboxStatus)
    → status_claimable p now r status ≡ true
    → (status ≡ pending)
      ⊎ ((status ≡ OutboxStatus.failed) × (retry_due p now r.next_attempt_at ≡ true))
      ⊎ ((status ≡ processing) × (lease_over p now r.lease_expires_at ≡ true))
unfolding status_claimable
status_claimable-cases p now r pending h = inl refl
status_claimable-cases p now r OutboxStatus.failed h = inr (inl (refl, h))
status_claimable-cases p now r processing h = inr (inr (refl, h))
status_claimable-cases p now r done h = absurd (cc h)

is_claimable-Free :
    (p : Platform) (scope : MemoryScope) (now : Option ℕ) (outbox : List MemoryOutboxRecord)
    (r : MemoryOutboxRecord)
    → is_claimable p (scope_key scope) now outbox r ≡ true
    → Free p scope now outbox r
unfolding is_claimable
is_claimable-Free p scope now outbox r h = record {
  in_scope = ground arith;
  in_order = earlier_unfinished-EarlierDone r outbox (ground arith);
  claimable_now = status_claimable-cases p now r r.status (ground arith);
}

length-claimable :
    (p : Platform) (scope : MemoryScope) (now : Option ℕ) (limit : ℕ)
    (outbox : List MemoryOutboxRecord)
    → length (claimable p scope now limit outbox) ≤ limit
unfolding claimable
length-claimable p scope now limit outbox = omega (
  arith,
  length-take limit (
      sort_by (claim_order p) (
        filter (λ (e : Placed). is_claimable p (scope_key scope) now outbox e.1)
          (enumerate 0 outbox))),
)

-- A record that a claim returns: where it stood, free, and that the store has it as it is returned.
pub record Handed (p : Platform) (scope : MemoryScope) (claim : Claim) (s s' : InMemoryState)
    (handed : MemoryOutboxRecord) : Type 0 where
  pub place : ℕ
  pub before : MemoryOutboxRecord
  pub stood : get_elem? s.outbox place ≡ some before
  pub free : Free p scope (p.date_parse claim.claimed_at) s.outbox before
  pub is_claimed : handed ≡ claimed_record claim before
  pub stored : get_elem? s'.outbox place ≡ some handed

-- A batch has at most `limit` records. Each stood in the outbox, free for a claim at that time and
-- with every earlier revision of its memory done; it comes back with the claim's lease, and stands
-- at its place in the outbox as it comes back.
pub claim_outbox_batch-Free :
    (p : Platform) (scope : MemoryScope) (claim : Claim) (limit : ℕ) (s : InMemoryState)
    → (length (claim_outbox_batch p scope claim limit s).0 ≤ limit)
      × All
          (Handed p scope claim s (claim_outbox_batch p scope claim limit s).1)
          (claim_outbox_batch p scope claim limit s).0
unfolding claim_outbox_batch
claim_outbox_batch-Free p scope claim limit s =
    let now = p.date_parse claim.claimed_at in
    let chosen = claimable p scope now limit s.outbox in
    let short = length-claimable p scope now limit s.outbox in
    let measured = length-map (λ (e : Placed). claimed_record claim e.1) chosen in
    (
      omega (arith, short, measured),
      All-mapped (Handed p scope claim s (claim_outbox_batch p scope claim limit s).1)
          (λ (e : Placed). claimed_record claim e.1) chosen
          (All-map
            (λ e h. record {
              place = e.0;
              before = e.1;
              stood = h.0.0;
              free = is_claimable-Free p scope now s.outbox e.1 h.0.1;
              is_claimed = refl;
              stored =
                  claim_places-at claim chosen 0 e.0 e.0 s.outbox e.1 (omega arith) h.0.0
                  ∙ ap (λ b. some (if b then claimed_record claim e.1 else e.1)) h.1;
            })
            chosen
            (All-zip _ _ chosen (claimable-Standing p scope now limit s.outbox)
              (chosen_self chosen))),
    )

-- A record of a batch stays claimed as it was handed out, while claims are made by whomever and in
-- whichever scope before the lease of the batch has ended, settlements are tried with other tokens
-- and records are appended; and no such claim hands it out again.
pub claim_outbox_batch-exclusive :
    (p : Platform) (scope scope' : MemoryScope) (claim claim' : Claim) (limit limit' i : ℕ)
    (s s' : InMemoryState)
    → is_chosen (claimable p scope (p.date_parse claim.claimed_at) limit s.outbox) i ≡ true
    → LeaseHistory p claim (claim_outbox_batch p scope claim limit s).1 s'
    → lease_over p (p.date_parse claim'.claimed_at) (some claim.lease_expires_at) ≡ false
    → (r : MemoryOutboxRecord) × (get_elem? s.outbox i ≡ some r)
      × (get_elem? s'.outbox i ≡ some (claimed_record claim r))
      × (is_chosen (claimable p scope' (p.date_parse claim'.claimed_at) limit' s'.outbox) i ≡ false)
unfolding claim_outbox_batch
claim_outbox_batch-exclusive p scope scope' claim claim' limit limit' i s s' mine history held =
    let now = p.date_parse claim.claimed_at in
    let chosen = claimable p scope now limit s.outbox in
    let (r, (stood, _)) =
      is_chosen-All _ chosen i (claimable-Standing p scope now limit s.outbox) mine in
    let first =
      claim_places-at claim chosen 0 i i s.outbox r (omega arith) stood
      ∙ ap (λ b. some (if b then claimed_record claim r else r)) mine in
    let kept = LeaseHistory-keeps p claim i _ s' r history first in
    (
      r,
      stood,
      kept,
      held-is_chosen p scope' claim (p.date_parse claim'.claimed_at) limit' i s'.outbox r held kept,
    )

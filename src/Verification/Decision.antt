-- ===== src/Verification/Decision.antt =====
-- What the verifier has checked of a memory that it allows.
use digital_life_memory_fabr.Base.{
  ℕ, true, false, String, Option, none, some, ◌≡◌, refl, ap, arith, Option-cases, inl, inr,
  Bool-cases,
}
use digital_life_memory_fabr.Domain.Platform.{Platform}
use digital_life_memory_fabr.Domain.Scope.{MemoryScope, same_scope}
use digital_life_memory_fabr.Domain.Memory.{CanonicalMemoryHead, MemoryRevision, active}
use digital_life_memory_fabr.Store.{InMemoryState, get_head, get_revision}
use digital_life_memory_fabr.Verification.{
  VerificationResult, allow, suppress, verify_one, verify_head, verify_revision, confirm,
  suppress_head, suppress_live_head, expected_matches, revision_intact, starts_later, ended,
  bound_time, same_head,
}

-- The grounds on which a revision is shown.
pub record Shown (p : Platform) (scope : MemoryScope) (effective : ℕ) (s₁ s₂ s₃ : InMemoryState)
    (id : String) (expected : Option ℕ) (r : MemoryRevision) : Type 0 where
  pub head : CanonicalMemoryHead
  pub current : get_head id s₁ ≡ some head
  pub unchanged : same_head p (get_head id s₁) (get_head id s₃) ≡ true
  pub live : head.status ≡ active
  pub in_scope : same_scope head.scope scope ≡ true
  pub as_expected : expected_matches expected head ≡ true
  pub stored : get_revision head.memory_id head.current_revision s₂ ≡ some r
  pub intact : revision_intact p head r scope ≡ true
  pub started : starts_later (bound_time p r.valid_from) effective ≡ false
  pub lasting : ended (bound_time p r.valid_until) effective ≡ false

confirm-allow :
    (p : Platform) (first last : Option CanonicalMemoryHead) (v : VerificationResult)
    (r : MemoryRevision)
    → confirm p first last v ≡ allow r
    → (v ≡ allow r) × (same_head p first last ≡ true)
unfolding confirm
confirm-allow p first last (suppress reason) r h = absurd (cc h)
confirm-allow p first last (allow found) r h = elim (Bool-cases (same_head p first last)) [
  | inl e ↦ (ground (arith, h, e), e)
  | inr e ↦ absurd (ground (arith, h, e))
]

suppress_head-none :
    (head : CanonicalMemoryHead) (expected : Option ℕ) (scope : MemoryScope)
    → suppress_head (some head) expected scope ≡ none
    → (head.status ≡ active)
      × (same_scope head.scope scope ≡ true)
      × (expected_matches expected head ≡ true)
unfolding suppress_head suppress_live_head
suppress_head-none head expected scope h = (ground (arith, h), ground (arith, h), ground (arith, h))

verify_revision-allow :
    (p : Platform) (head : CanonicalMemoryHead) (found : Option MemoryRevision)
    (scope : MemoryScope) (effective : ℕ) (r : MemoryRevision)
    → verify_revision p head found scope effective ≡ allow r
    → (found ≡ some r)
      × (revision_intact p head r scope ≡ true)
      × (starts_later (bound_time p r.valid_from) effective ≡ false)
      × (ended (bound_time p r.valid_until) effective ≡ false)
unfolding verify_revision
verify_revision-allow p head none scope effective r h = absurd (cc h)
verify_revision-allow p head (some x) scope effective r h =
    elim (Bool-cases (revision_intact p head x scope)) [
      | inr e ↦ absurd (ground (arith, h, e))
      | inl e ↦ elim (Bool-cases (starts_later (bound_time p x.valid_from) effective)) [
        | inl e₁ ↦ absurd (ground (arith, h, e, e₁))
        | inr e₁ ↦ elim (Bool-cases (ended (bound_time p x.valid_until) effective)) [
          | inl e₂ ↦ absurd (ground (arith, h, e, e₁, e₂))
          | inr e₂ ↦
              let shown : allow x ≡ allow r = rw (e, e₁, e₂) at h in
              let one : x ≡ r = cc shown in
              (ap some one, rw (← one) e, rw (← one) e₁, rw (← one) e₂)
        ]
      ]
    ]

verify_head-allow :
    (p : Platform) (first : Option CanonicalMemoryHead) (expected : Option ℕ) (scope : MemoryScope)
    (effective : ℕ) (s : InMemoryState) (r : MemoryRevision)
    → verify_head p first expected scope effective s ≡ allow r
    → (head : CanonicalMemoryHead) × (first ≡ some head)
      × (suppress_head (some head) expected scope ≡ none)
      × (verify_revision p head
            (get_revision head.memory_id head.current_revision s)
            scope
            effective
          ≡ allow r)
unfolding verify_head
verify_head-allow p none expected scope effective s r h = absurd (cc h)
verify_head-allow p (some head) expected scope effective s r h =
    elim (Option-cases (suppress_head (some head) expected scope)) [
      | inl e ↦ (head, refl, e, ground (arith, h, e))
      | inr (reason, e) ↦ absurd (ground (arith, h, e))
    ]

-- The verifier allows a revision only if it is the current revision of a live head of the scope,
-- with the number that the caller expects, intact, inside its window of validity, and the head
-- was still the same after the revision was read.
pub verify_one-allow :
    (p : Platform) (scope : MemoryScope) (effective : ℕ) (s₁ s₂ s₃ : InMemoryState) (id : String)
    (expected : Option ℕ) (r : MemoryRevision)
    → verify_one p scope effective s₁ s₂ s₃ (id, expected) ≡ allow r
    → Shown p scope effective s₁ s₂ s₃ id expected r
unfolding verify_one
verify_one-allow p scope effective s₁ s₂ s₃ id expected r h =
    let (shown, unchanged) = confirm-allow p (get_head id s₁) (get_head id s₃) _ r h in
    let (head, current, passed, accepted) =
      verify_head-allow p (get_head id s₁) expected scope effective s₂ r shown in
    let (live, in_scope, as_expected) = suppress_head-none head expected scope passed in
    let (stored, intact, started, lasting) =
      verify_revision-allow p head _ scope effective r accepted in
    record {
      head = head;
      current = current;
      unchanged = unchanged;
      live = live;
      in_scope = in_scope;
      as_expected = as_expected;
      stored = stored;
      intact = intact;
      started = started;
      lasting = lasting;
    }

-- ===== src/Store/Outbox/Places.antt =====
-- The places of the outbox: what stands at a place that a claim has chosen, and what a claim, a
-- settlement and a new record leave there.
use mathlib.Core.Path.{subst}
use digital_life_memory_fabr.Base.{
  All, All-filter_test, All-map, All-sort_by, All-take, ℕ, zero, suc, ◌+◌, Bool, true, false,
  String, List, [], ◌∷◌, ◌++◌, Option, some, ◌≡◌, refl, ap, ◌∙◌, arith, find, get_elem?, Bool-cases,
  inl, inr, eqb, eqb_iff, eqb_refl, some-injective, if◌then◌else◌,
}
use digital_life_memory_fabr.Domain.Platform.{Platform}
use digital_life_memory_fabr.Domain.Scope.{MemoryScope, scope_key}
use digital_life_memory_fabr.Domain.Records.{MemoryOutboxRecord}
use digital_life_memory_fabr.Store.Outbox.{
  is_claimable, Placed, enumerate, claim_order, claimable, Claim, claimed_record, is_chosen,
  claim_places,
}
use digital_life_memory_fabr.Store.Settlement.{replace_first}

-- A placed record stands at its place, and is claimable.
abbrev pub Standing : Platform → String → Option ℕ → List MemoryOutboxRecord → Placed → Type 0
Standing p key now outbox e =
    (get_elem? outbox e.0 ≡ some e.1) × (is_claimable p key now outbox e.1 ≡ true)

enumerate-places :
    (k : ℕ) (outbox : List MemoryOutboxRecord)
    → All (λ e. (j : ℕ) × (e.0 ≡ k + j) × (get_elem? outbox j ≡ some e.1)) (enumerate k outbox)
unfolding enumerate
enumerate-places k [] = tt
enumerate-places k (r ∷ rs) = (
  (0, omega arith, refl),
  All-map (λ e h. (suc h.0, (let at = h.1 in omega (arith, at)), h.2)) _
      (enumerate-places (suc k) rs),
)

pub claimable-Standing :
    (p : Platform) (scope : MemoryScope) (now : Option ℕ) (limit : ℕ)
    (outbox : List MemoryOutboxRecord)
    → All (Standing p (scope_key scope) now outbox) (claimable p scope now limit outbox)
unfolding claimable
claimable-Standing p scope now limit outbox =
    let key = scope_key scope in
    let free : Placed → Bool = λ e. is_claimable p key now outbox e.1 in
    let at : Placed → Type 0 = λ e. get_elem? outbox e.0 ≡ some e.1 in
    let Q : Placed → Type 0 = Standing p key now outbox in
    let placed : All at (enumerate 0 outbox) =
      All-map (λ e h. (let at = h.1 in ap (get_elem? outbox) (omega (arith, at)) ∙ h.2)) _
        (enumerate-places 0 outbox) in
    All-take Q limit _
      (All-sort_by Q (claim_order p) _ (All-filter_test at free (enumerate 0 outbox) placed))

-- The record at a place is claimed if the place is chosen, and is otherwise as it was.
pub claim_places-at :
    (claim : Claim) (chosen : List Placed) (k j n : ℕ) (outbox : List MemoryOutboxRecord)
    (r : MemoryOutboxRecord)
    → n ≡ k + j
    → get_elem? outbox j ≡ some r
    → get_elem? (claim_places claim chosen k outbox) j
      ≡ some (if is_chosen chosen n then claimed_record claim r else r)
unfolding claim_places
claim_places-at claim chosen k j n [] r at here = absurd (cc here)
claim_places-at claim chosen k zero n (x ∷ xs) r at here =
    let first : n ≡ k = omega (arith, at) in rw first (ground (arith, here))
claim_places-at claim chosen k (suc j) n (x ∷ xs) r at here =
    claim_places-at claim chosen (suc k) j n xs r (omega (arith, at)) here

pub chosen_self : (chosen : List Placed) → All (λ e. is_chosen chosen e.0 ≡ true) chosen
unfolding is_chosen
chosen_self [] = tt
chosen_self ((i, r) ∷ es) =
    (ground (arith, eqb_refl i), All-map (λ e h. ground (arith, h)) es (chosen_self es))

-- A chosen place is that of one of the placed records.
pub is_chosen-All :
    (P : Placed → Type 0) (chosen : List Placed) (i : ℕ)
    → All P chosen
    → is_chosen chosen i ≡ true
    → (r : MemoryOutboxRecord) × P (i, r)
unfolding is_chosen
is_chosen-All P [] i h mine = absurd (cc mine)
is_chosen-All P ((j, r) ∷ es) i h mine = elim (Bool-cases (eqb j i)) [
  | inl same ↦ (r, subst (λ k. P (k, r)) ((eqb_iff j i).0 same) h.0)
  | inr other ↦ is_chosen-All P es i h.1 (ground (arith, other, mine))
]

pub get_elem?-append :
    (xs : List MemoryOutboxRecord) (i : ℕ) (x y : MemoryOutboxRecord)
    → get_elem? xs i ≡ some x
    → get_elem? (xs ++ y ∷ []) i ≡ some x
get_elem?-append [] i x y here = absurd (cc here)
get_elem?-append (z ∷ zs) zero x y here = here
get_elem?-append (z ∷ zs) (suc i) x y here = get_elem?-append zs i x y here

-- A record other than the first that passes the test stays.
pub get_elem?-replace_first :
    (test mine : MemoryOutboxRecord → Bool) (xs : List MemoryOutboxRecord) (i : ℕ)
    (x y new : MemoryOutboxRecord)
    → find test xs ≡ some y
    → mine y ≡ true
    → mine x ≡ false
    → get_elem? xs i ≡ some x
    → get_elem? (replace_first test new xs) i ≡ some x
unfolding replace_first
get_elem?-replace_first test mine [] i x y new found its not_its here = absurd (cc here)
get_elem?-replace_first test mine (z ∷ zs) zero x y new found its not_its here =
    elim (Bool-cases (test z)) [
      | inl passes ↦
          let same : z ≡ y = ground (arith, passes, found) in
          absurd (cc (some-injective here, same, its, not_its))
      | inr fails ↦ rw (fails, replace_first) here
    ]
get_elem?-replace_first test mine (z ∷ zs) (suc i) x y new found its not_its here =
    elim (Bool-cases (test z)) [
      | inl passes ↦ rw (passes, replace_first) here
      | inr fails ↦
          rw (fails, replace_first)
            (get_elem?-replace_first test mine zs i x y new (ground (arith, fails, found)) its
              not_its here)
    ]

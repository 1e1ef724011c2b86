-- ===== src/Sync/Log.antt =====
-- The log of a scope in a well-formed store: numbered from one without gaps, so that the changes
-- behind a cursor are the tail of the log.
use digital_life_memory_fabr.Base.{
  ℕ, zero, suc, ◌+◌, ◌-◌, ◌≤◌, ◌<◌, ◌≡◌, refl, sym, ap, ◌∙◌, List, [], ◌∷◌, arith, ◌==◌, ltb, leb,
  filter, take, drop, length, sort_by, filter-filter, leb→le, Bool-cases, ◌⊎◌, inl, inr,
}
use digital_life_memory_fabr.Domain.Platform.{Platform}
use digital_life_memory_fabr.Domain.Scope.{MemoryScope, scope_key}
use digital_life_memory_fabr.Domain.Records.{MemoryChangeEnvelope}
use digital_life_memory_fabr.Domain.Errors.{ok}
use digital_life_memory_fabr.Store.{InMemoryState, high_watermark}
use digital_life_memory_fabr.Store.Queries.{changes_after, by_commit_seq}
use digital_life_memory_fabr.Store.Invariant.{WellFormed, seqs, scope_log, count_up}
use digital_life_memory_fabr.Sync.{assert_contiguous, next_cursor}

-- The changes have the numbers a + 1, a + 2, ….
abbrev pub Numbered : ℕ → List MemoryChangeEnvelope → Type 0
Numbered a [] = Unit {0}
Numbered a (x ∷ xs) = (x.commit_seq ≡ a + 1) × Numbered (a + 1) xs

seqs-Numbered :
    (a n : ℕ) (xs : List MemoryChangeEnvelope)
    → seqs xs ≡ count_up a n
    → Numbered a xs × (length xs ≡ n)
seqs-Numbered a zero [] h = (tt, refl)
seqs-Numbered a zero (x ∷ xs) h = absurd (cc h)
seqs-Numbered a (suc n) [] h = absurd (cc h)
seqs-Numbered a (suc n) (x ∷ xs) h =
    let rest = seqs-Numbered (a + 1) n xs (ground (arith, h)) in
    ((ground (arith, h), rest.0), ap suc rest.1)

pub Numbered-take :
    (k a : ℕ) (xs : List MemoryChangeEnvelope) → Numbered a xs → Numbered a (take k xs)
Numbered-take zero a xs h = tt
Numbered-take (suc k) a [] h = tt
Numbered-take (suc k) a (x ∷ xs) h = (h.0, Numbered-take k (a + 1) xs h.1)

Numbered-drop :
    (k a b : ℕ) (xs : List MemoryChangeEnvelope)
    → b ≡ a + k
    → Numbered a xs
    → Numbered b (drop k xs)
Numbered-drop zero a b xs e h = rw (let same : b ≡ a = omega arith in same) h
Numbered-drop (suc k) a b [] e h = tt
Numbered-drop (suc k) a b (x ∷ xs) e h = Numbered-drop k (a + 1) b xs (omega arith) h.1

sort_by-Numbered :
    (a : ℕ) (xs : List MemoryChangeEnvelope) → Numbered a xs → sort_by by_commit_seq xs ≡ xs
sort_by-Numbered a [] h = refl
sort_by-Numbered a (x ∷ []) h = refl
sort_by-Numbered a (x ∷ y ∷ ys) h =
    rw (sort_by-Numbered (a + 1) (y ∷ ys) h.1) (ground (arith, h.0, h.1.0))

split_at : (a b : ℕ) → ((b ≤ a) × (b - a ≡ 0)) ⊎ ((a < b) × (b - a ≡ suc (b - (a + 1))))
split_at a b = elim (Bool-cases (leb b a)) [
  | inl e ↦ inl (omega (arith, leb→le b a e), omega (arith, leb→le b a e))
  | inr e ↦ let above : a < b = ground (arith, e) in inr (above, omega (arith, above))
]

drop_nil : (n : ℕ) → drop {A = MemoryChangeEnvelope} n [] ≡ []
drop_nil zero = refl
drop_nil (suc n) = refl

-- A cursor at `b` leaves the changes from `b + 1` on.
filter-Numbered :
    (a b : ℕ) (xs : List MemoryChangeEnvelope)
    → Numbered a xs
    → filter (λ ch. ltb b ch.commit_seq) xs ≡ drop (b - a) xs
filter-Numbered a b [] h = sym (drop_nil (b - a))
filter-Numbered a b (x ∷ xs) h =
    let rest = filter-Numbered (a + 1) b xs h.1 in
    elim (split_at a b) [
      | inl (within, one_less) ↦ ground (arith, h.0, rest, one_less)
      | inr (beyond, e) ↦ ground (arith, h.0, rest)
    ]

pub assert_contiguous-Numbered :
    (a : ℕ) (xs : List MemoryChangeEnvelope) → Numbered a xs → assert_contiguous xs a ≡ ok tt
unfolding assert_contiguous
assert_contiguous-Numbered a [] h = refl
assert_contiguous-Numbered a (x ∷ xs) h =
    ground (arith, h.0, assert_contiguous-Numbered (a + 1) xs h.1)

-- The check passes on nothing else.
pub assert_contiguous-eq-ok :
    (a : ℕ) (xs : List MemoryChangeEnvelope) → assert_contiguous xs a ≡ ok tt → Numbered a xs
unfolding assert_contiguous
assert_contiguous-eq-ok a [] h = tt
assert_contiguous-eq-ok a (x ∷ xs) h =
    (ground arith, assert_contiguous-eq-ok (a + 1) xs (ground arith))

pub next_cursor-Numbered :
    (a : ℕ) (xs : List MemoryChangeEnvelope) → Numbered a xs → next_cursor xs a ≡ a + length xs
unfolding next_cursor
next_cursor-Numbered a [] h = omega arith
next_cursor-Numbered a (x ∷ []) h = omega (arith, h.0)
next_cursor-Numbered a (x ∷ y ∷ ys) h = ground (arith, next_cursor-Numbered (a + 1) (y ∷ ys) h.1)

-- In a well-formed store the changes behind a cursor are the log of the scope without its first
-- `after` changes.
pub changes_after-drop :
    (p : Platform) (scope : MemoryScope) (after : ℕ) (s : InMemoryState)
    → WellFormed p s
    → changes_after scope after s ≡ drop after (scope_log (scope_key scope) s.changes)
unfolding changes_after
changes_after-drop p scope after s w =
    let numbered = seqs-Numbered 0 _ _ (w.contiguous (scope_key scope)) in
    let log = scope_log (scope_key scope) s.changes in
    let cut =
      filter-Numbered 0 after log numbered.0
      ∙ ap (λ n. drop n log) (let same : after - 0 ≡ after = omega arith in same) in
    let sorted =
      sort_by-Numbered after _ (Numbered-drop after 0 after _ (omega arith) numbered.0) in
    ap (sort_by by_commit_seq) (
      filter-filter (λ ch. scope_key ch.scope == scope_key scope) (λ ch. ltb after ch.commit_seq)
        s.changes)
    ∙ (ap (sort_by by_commit_seq) cut ∙ sorted)

pub changes_after-Numbered :
    (p : Platform) (scope : MemoryScope) (after : ℕ) (s : InMemoryState)
    → WellFormed p s
    → Numbered after (changes_after scope after s)
changes_after-Numbered p scope after s w = rw (changes_after-drop p scope after s w) (
    Numbered-drop after 0 after _ (omega arith)
      (seqs-Numbered 0 _ _ (w.contiguous (scope_key scope))).0)

-- The log of a scope is as long as the scope's last sequence number says.
pub length-scope_log :
    (p : Platform) (scope : MemoryScope) (s : InMemoryState)
    → WellFormed p s
    → length (scope_log (scope_key scope) s.changes) ≡ high_watermark scope s
unfolding high_watermark
length-scope_log p scope s w = (seqs-Numbered 0 _ _ (w.contiguous (scope_key scope))).1

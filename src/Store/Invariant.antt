-- ===== src/Store/Invariant.antt =====
-- What holds of the store between two transactions: the log of a scope is numbered without gaps,
-- every change and every head leads to an immutable revision, and no device is ahead of the log.
use digital_life_memory_fabr.Base.{
  All, ℕ, zero, suc, ◌+◌, ◌≤◌, String, ◌≡◌, refl, ap, ◌∙◌, sym, some, List, [], ◌∷◌, ◌++◌, map,
  true, arith, ◌==◌, filter, inl, inr, if◌then◌else◌,
}
use digital_life_memory_fabr.Base.JsMap as M
use digital_life_memory_fabr.Base.JsMap.{JsMap}
use digital_life_memory_fabr.Domain.Platform.{Platform}
use digital_life_memory_fabr.Domain.Scope.{scope_key, revision_key}
use digital_life_memory_fabr.Domain.Memory.{MemoryCandidate, CanonicalMemoryHead, MemoryRevision}
use digital_life_memory_fabr.Domain.Records.{MemoryChangeEnvelope, DeviceCheckpoint}
use digital_life_memory_fabr.Store.{InMemoryState, or_zero, empty_state}
use digital_life_memory_fabr.Sync.{envelope_matches}
use digital_life_memory_fabr.Verification.{identity_intact}

-- a + 1, …, a + n
abbrev pub count_up : ℕ → ℕ → List ℕ
count_up a zero = []
count_up a (suc n) = (a + 1) ∷ count_up (a + 1) n

-- The changes of a scope, in the order of the log.
abbrev pub scope_log : String → List MemoryChangeEnvelope → List MemoryChangeEnvelope
scope_log key = filter (λ ch. scope_key ch.scope == key)

abbrev pub seqs : List MemoryChangeEnvelope → List ℕ
seqs = map (λ ch. ch.commit_seq)

-- The immutable revision behind a change.
pub record Resolves (p : Platform) (revisions : JsMap MemoryRevision) (ch : MemoryChangeEnvelope)
    : Type 0 where
  pub revision : MemoryRevision
  pub stored : M.get (revision_key ch.memory_id ch.new_revision) revisions ≡ some revision
  pub matches : envelope_matches p ch revision ≡ true

-- The immutable revision behind a head.
pub record HeadResolves (id : String) (head : CanonicalMemoryHead)
    (revisions : JsMap MemoryRevision) : Type 0 where
  pub own_id : head.memory_id ≡ id
  pub positive : 1 ≤ head.current_revision
  pub revision : MemoryRevision
  pub stored : M.get (revision_key id head.current_revision) revisions ≡ some revision
  pub agrees : identity_intact head revision head.scope ≡ true

pub record RevisionHasHead (id : String) (n : ℕ) (heads : JsMap CanonicalMemoryHead) : Type 0 where
  pub head : CanonicalMemoryHead
  pub stored : M.get id heads ≡ some head
  pub within : n ≤ head.current_revision

pub record WellFormed (p : Platform) (s : InMemoryState) : Type 0 where
  pub candidates_keyed :
      (id : String) (c : MemoryCandidate) → M.get id s.candidates ≡ some c → c.candidate_id ≡ id
  pub contiguous :
      (key : String)
      → seqs (scope_log key s.changes) ≡ count_up 0 (or_zero (M.get key s.commit_seq_by_scope))
  pub changes_resolve : All (Resolves p s.revisions) s.changes
  pub heads_resolve :
      (id : String) (head : CanonicalMemoryHead)
      → M.get id s.heads ≡ some head
      → HeadResolves id head s.revisions
  pub revisions_have_head :
      (id : String) (n : ℕ) (r : MemoryRevision)
      → M.get (revision_key id n) s.revisions ≡ some r
      → RevisionHasHead id n s.heads
  pub semantic_unique :
      (id id' : String) (head head' : CanonicalMemoryHead)
      → M.get id s.heads ≡ some head
      → M.get id' s.heads ≡ some head'
      → scope_key head.scope ≡ scope_key head'.scope
      → head.semantic_key ≡ head'.semantic_key
      → id ≡ id'
  pub checkpoints_behind :
      (key : String) (c : DeviceCheckpoint)
      → M.get key s.device_checkpoints ≡ some c
      → c.last_applied_commit_seq ≤ or_zero (M.get (scope_key c.scope) s.commit_seq_by_scope)

pub empty_state-WellFormed : (p : Platform) → WellFormed p empty_state
unfolding M.get
empty_state-WellFormed p = record {
  candidates_keyed = λ id c h. absurd (ground arith);
  contiguous = λ key. refl;
  changes_resolve = tt;
  heads_resolve = λ id head h. absurd (ground arith);
  revisions_have_head = λ id n r h. absurd (ground arith);
  semantic_unique = λ id id' head head' h. absurd (ground arith);
  checkpoints_behind = λ key c h. absurd (ground arith);
}

pub count_up-suc : (a n : ℕ) → count_up a n ++ (a + n + 1) ∷ [] ≡ count_up a (suc n)
count_up-suc a zero = ap (λ k. k ∷ []) (omega arith)
count_up-suc a (suc n) =
    ap (◌∷◌ (a + 1)) (ap (λ k. count_up (a + 1) n ++ k ∷ []) (omega arith) ∙ count_up-suc (a + 1) n)

pub seqs-append :
    (key : String) (xs : List MemoryChangeEnvelope) (ch : MemoryChangeEnvelope)
    → seqs (scope_log key (xs ++ ch ∷ [])) ≡ (
        if scope_key ch.scope == key
        then seqs (scope_log key xs) ++ ch.commit_seq ∷ []
        else seqs (scope_log key xs))
seqs-append key [] ch = ground arith
seqs-append key (x ∷ xs) ch = ground (arith, seqs-append key xs ch)

-- The invariant reads these parts of the state alone.
pub WellFormed-same :
    (p : Platform) (s s' : InMemoryState)
    → WellFormed p s
    → ((id : String) (c : MemoryCandidate) → M.get id s'.candidates ≡ some c → c.candidate_id ≡ id)
    → s'.heads ≡ s.heads
    → s'.revisions ≡ s.revisions
    → s'.commit_seq_by_scope ≡ s.commit_seq_by_scope
    → s'.changes ≡ s.changes
    → ((key : String) (c : DeviceCheckpoint)
        → M.get key s'.device_checkpoints ≡ some c
        → c.last_applied_commit_seq ≤ or_zero (M.get (scope_key c.scope) s.commit_seq_by_scope))
    → WellFormed p s'
WellFormed-same p s s' w keyed heads revisions sequence changes behind = record {
  candidates_keyed = keyed;
  contiguous = λ key. rw (changes, sequence) (w.contiguous key);
  changes_resolve = rw (changes, revisions) w.changes_resolve;
  heads_resolve = λ id head h. rw revisions (w.heads_resolve id head (rw heads at h));
  revisions_have_head = λ id n r h. rw heads (w.revisions_have_head id n r (rw revisions at h));
  semantic_unique = λ id id' head head' h h'.
      w.semantic_unique id id' head head' (rw heads at h) (rw heads at h');
  checkpoints_behind = λ key c h. rw sequence (behind key c h);
}

-- A new status keeps a candidate under its own id.
pub candidates_keyed-set :
    (id : String) (new : MemoryCandidate) (m : JsMap MemoryCandidate)
    → ((k : String) (c : MemoryCandidate) → M.get k m ≡ some c → c.candidate_id ≡ k)
    → new.candidate_id ≡ id
    → (k : String) (c : MemoryCandidate) → M.get k (M.set id new m) ≡ some c
    → c.candidate_id ≡ k
candidates_keyed-set id new m keyed e k c h = elim (M.get-set_cases id k new c m h) [
  | inl (same, new_c) ↦ ap (λ (x : MemoryCandidate). x.candidate_id) (sym new_c) ∙ (e ∙ same)
  | inr (_, old) ↦ keyed k c old
]

-- ===== src/Authority/Commit/Invariant.antt =====
-- A written commit keeps the store well formed.
use digital_life_memory_fabr.Base.{
  All, All-append, All-map, ℕ, suc, ◌+◌, ◌≤◌, ◌≡◌, refl, sym, ap, ◌∙◌, String, some, List, [], ◌∷◌,
  ◌++◌, true, false, arith, ◌⊎◌, inl, inr, ◌==◌, eq_iff, eq_refl, eqb_refl, text_cases,
}
use mathlib.Core.Path.{subst, subst₂}
use digital_life_memory_fabr.Base.JsMap as M
use digital_life_memory_fabr.Base.JsMap.{JsMap}
use digital_life_memory_fabr.Domain.Platform.{Platform}
use digital_life_memory_fabr.Domain.Encode.{payload_hash}
use digital_life_memory_fabr.Domain.Scope.{scope_key, same_scope, revision_key}
use digital_life_memory_fabr.Domain.Scope.Keys.{revision_key-injective}
use digital_life_memory_fabr.Domain.Memory.{
  MemoryCandidate, CanonicalMemoryHead, MemoryRevision, MemoryStatus, same_status,
}
use digital_life_memory_fabr.Domain.Records.{MemoryChangeEnvelope, DeviceCheckpoint}
use digital_life_memory_fabr.Store.{
  InMemoryState, next_commit_seq, high_watermark, or_zero, semantic_collision,
}
use digital_life_memory_fabr.Store.Invariant.{
  WellFormed, Resolves, HeadResolves, RevisionHasHead, seqs, scope_log, seqs-append, count_up,
  count_up-suc, candidates_keyed-set,
}
use digital_life_memory_fabr.Sync.{envelope_matches}
use digital_life_memory_fabr.Verification.{identity_intact}
use digital_life_memory_fabr.Authority.Plan.{CommitDraw, CommitPlan}
use digital_life_memory_fabr.Authority.Plan.Fits.{Continues}
use digital_life_memory_fabr.Authority.Commit.{
  build_result, build_revision, build_head, build_change,
}
use digital_life_memory_fabr.Authority.Commit.Effect.{Wrote, result_of}

same_status_refl : (s : MemoryStatus) → same_status s s ≡ true
unfolding same_status
same_status_refl s = ground arith

built_head-agrees :
    (p : Platform) (draw : CommitDraw) (c : MemoryCandidate) (plan : CommitPlan) (n : ℕ)
    → identity_intact (build_head draw c plan) (build_revision p draw c plan n) c.scope ≡ true
unfolding identity_intact build_head build_revision same_scope
built_head-agrees p draw c plan n = simp (eq_refl, eqb_refl, same_status_refl)

built_change-matches :
    (p : Platform) (draw : CommitDraw) (key : String) (c : MemoryCandidate) (plan : CommitPlan)
    (n : ℕ)
    → let r = build_revision p draw c plan n in
      envelope_matches p (build_change draw key c plan n (payload_hash p r)) r ≡ true
unfolding envelope_matches build_change build_revision same_scope
built_change-matches p draw key c plan n = simp (eq_refl, eqb_refl)

seqs-append_same :
    (k : String) (n : ℕ) (changes : List MemoryChangeEnvelope) (ch : MemoryChangeEnvelope)
    → seqs (scope_log k changes) ≡ count_up 0 n
    → ch.commit_seq ≡ n + 1
    → (scope_key ch.scope == k) ≡ true
    → seqs (scope_log k (changes ++ ch ∷ [])) ≡ count_up 0 (n + 1)
seqs-append_same k n changes ch h e same =
    rw (seqs-append k changes ch, same, h, e)
      (let shift : n + 1 ≡ 0 + n + 1 = omega arith in
        let last : suc n ≡ n + 1 = omega arith in
        ap (λ (j : ℕ). count_up 0 n ++ j ∷ []) shift ∙ (count_up-suc 0 n ∙ ap (count_up 0) last))

numbered-append :
    (k : String) (changes : List MemoryChangeEnvelope) (ch : MemoryChangeEnvelope) (m : JsMap ℕ)
    → ch.commit_seq ≡ or_zero (M.get (scope_key ch.scope) m) + 1
    → seqs (scope_log k changes) ≡ count_up 0 (or_zero (M.get k m))
    → seqs (scope_log k (changes ++ ch ∷ []))
      ≡ count_up 0 (
          or_zero
            (M.get k (M.set (scope_key ch.scope) (or_zero (M.get (scope_key ch.scope) m) + 1) m)))
numbered-append k changes ch m e h = elim (text_cases (scope_key ch.scope) k) [
  | inl same ↦
      rw (M.get-set, (eq_iff _ _).1 same)
        (seqs-append_same k _ changes ch (h ∙ ap (λ j. count_up 0 (or_zero (M.get j m))) (sym same))
          e ((eq_iff _ _).1 same))
  | inr other ↦ rw (M.get-set, other, seqs-append k changes ch, other) h
]

behind-set :
    (k j : String) (n : ℕ) (m : JsMap ℕ)
    → n ≤ or_zero (M.get j m)
    → n ≤ or_zero (M.get j (M.set k (or_zero (M.get k m) + 1) m))
behind-set k j n m h = ground (arith, M.get-set k j (or_zero (M.get k m) + 1) m, eq_iff k j)

module _ (p : Platform) (draw : CommitDraw) (key : String) (c : MemoryCandidate) (plan : CommitPlan)
    (s s' : InMemoryState) (w : WellFormed p s)
    (stands : (plan.new_revision ≡ 1) ⊎ Continues c plan s)
    (wrote : Wrote key c (result_of p draw key c plan s) (next_commit_seq c.scope s).1 s') where
  written_contiguous :
      (k : String)
      → seqs (scope_log k s'.changes) ≡ count_up 0 (or_zero (M.get k s'.commit_seq_by_scope))
  unfolding next_commit_seq high_watermark build_result build_change
  written_contiguous k =
      rw (wrote.changes, wrote.commit_seq_by_scope)
        (numbered-append k s.changes _ s.commit_seq_by_scope refl (w.contiguous k))

  old_revision :
      (k : String) (r : MemoryRevision)
      → M.get k s.revisions ≡ some r
      → M.get k s'.revisions ≡ some r
  unfolding next_commit_seq
  old_revision k r h = rw wrote.revisions (M.get-set_fresh _ k _ r s.revisions wrote.revision_new h)

  written_changes_resolve : All (Resolves p s'.revisions) s'.changes
  unfolding next_commit_seq build_result build_change build_revision
  written_changes_resolve = rw wrote.changes (
      All-append _ s.changes _
        (All-map
          (λ ch h. record {
            revision = h.revision;
            stored = old_revision _ h.revision h.stored;
            matches = h.matches;
          })
          s.changes w.changes_resolve)
        (
          record {
            revision = _;
            stored = rw wrote.revisions (M.get-set_self _ _ s.revisions);
            matches = built_change-matches p draw key c plan _;
          },
          tt,
        ))

  written_checkpoints_behind :
      (k : String) (d : DeviceCheckpoint)
      → M.get k s'.device_checkpoints ≡ some d
      → d.last_applied_commit_seq ≤ or_zero (M.get (scope_key d.scope) s'.commit_seq_by_scope)
  unfolding next_commit_seq high_watermark
  written_checkpoints_behind k d h = rw wrote.commit_seq_by_scope (
      behind-set (scope_key c.scope) (scope_key d.scope) _ s.commit_seq_by_scope
        (w.checkpoints_behind k d (rw wrote.device_checkpoints at h)))

  built_positive : 1 ≤ plan.new_revision
  built_positive = elim stands [ inl e ↦ omega arith | inr f ↦ omega (arith, f.next) ]

  built_resolves : HeadResolves plan.memory_id (build_head draw c plan) s'.revisions
  unfolding next_commit_seq build_result build_head build_revision
  built_resolves = record {
    own_id = refl;
    positive = built_positive;
    revision = build_revision p draw c plan (high_watermark c.scope s + 1);
    stored = rw wrote.revisions (M.get-set_self _ _ s.revisions);
    agrees = built_head-agrees p draw c plan _;
  }

  -- A head of `s'` is the one that was written, or an old one under another id.
  head_cases :
      (id : String) (head : CanonicalMemoryHead)
      → M.get id s'.heads ≡ some head
      → ((plan.memory_id ≡ id) × (build_head draw c plan ≡ head))
        ⊎ (((plan.memory_id == id) ≡ false) × (M.get id s.heads ≡ some head))
  unfolding next_commit_seq build_result build_head
  head_cases id head h = M.get-set_cases _ id _ head s.heads (rw wrote.heads at h)

  written_heads_resolve :
      (id : String) (head : CanonicalMemoryHead)
      → M.get id s'.heads ≡ some head
      → HeadResolves id head s'.revisions
  written_heads_resolve id head h = elim (head_cases id head h) [
    | inl (e, b) ↦ subst₂ (λ i k. HeadResolves i k s'.revisions) e b built_resolves
    | inr (ne, old) ↦
        let known = w.heads_resolve id head old in
        record {
          own_id = known.own_id;
          positive = known.positive;
          revision = known.revision;
          stored = old_revision _ known.revision known.stored;
          agrees = known.agrees;
        }
  ]

  -- An old head under the plan's id stands one revision below the plan.
  old_head_below :
      (head : CanonicalMemoryHead)
      → M.get plan.memory_id s.heads ≡ some head
      → head.current_revision + 1 ≡ plan.new_revision
  unfolding next_commit_seq build_result build_head
  old_head_below head h = elim stands [
    | inl e ↦ absurd (ground (arith, (wrote.head_new e).0))
    | inr f ↦ ground (arith, f.stored, f.next)
  ]

  built_stored : M.get plan.memory_id s'.heads ≡ some (build_head draw c plan)
  unfolding next_commit_seq build_result build_head
  built_stored = rw wrote.heads (M.get-set_self _ _ s.heads)

  old_stays :
      (id : String) (head : CanonicalMemoryHead)
      → (plan.memory_id == id) ≡ false
      → M.get id s.heads ≡ some head
      → M.get id s'.heads ≡ some head
  unfolding next_commit_seq build_result build_head
  old_stays id head ne h = rw wrote.heads (M.get-set_ne _ id _ s.heads ne ∙ h)

  built_has : (n : ℕ) → n ≤ plan.new_revision → RevisionHasHead plan.memory_id n s'.heads
  unfolding build_head
  built_has n h = record { head = build_head draw c plan; stored = built_stored; within = h }

  old_has : (id : String) (n : ℕ) → RevisionHasHead id n s.heads → RevisionHasHead id n s'.heads
  old_has id n old = elim (text_cases plan.memory_id id) [
    | inl e ↦
        subst (λ i. RevisionHasHead i n s'.heads) e
          (built_has n (omega (arith, old.within, old_head_below old.head (rw e old.stored))))
    | inr ne ↦ record {
      head = old.head;
      stored = old_stays id old.head ne old.stored;
      within = old.within;
    }
  ]

  written_revisions_have_head :
      (id : String) (n : ℕ) (r : MemoryRevision)
      → M.get (revision_key id n) s'.revisions ≡ some r
      → RevisionHasHead id n s'.heads
  unfolding next_commit_seq build_result build_revision
  written_revisions_have_head id n r h =
      elim (M.get-set_cases _ (revision_key id n) _ r s.revisions (rw wrote.revisions at h)) [
        | inl (e, b) ↦
            let (same, number) = revision_key-injective _ id _ n e in
            subst (λ i. RevisionHasHead i n s'.heads) same (built_has n (omega (arith, number)))
        | inr (ne, old) ↦ old_has id n (w.revisions_have_head id n r old)
      ]

  -- An old head with the scope and the semantic key of the written one has its id.
  built_unique :
      (id : String) (head : CanonicalMemoryHead)
      → M.get id s.heads ≡ some head
      → scope_key c.scope ≡ scope_key head.scope
      → plan.semantic_key ≡ head.semantic_key
      → plan.memory_id ≡ id
  unfolding next_commit_seq build_result build_head semantic_collision same_scope
  built_unique id head h same key_same = elim stands [
    | inl e ↦ absurd (
        ground (
          arith,
          M.find-none-get _ id head s.heads (wrote.head_new e).1 h,
          eq_iff (scope_key head.scope) (scope_key c.scope),
          eq_iff head.semantic_key plan.semantic_key,
        ))
    | inr f ↦
        w.semantic_unique _ id f.head head f.stored h ((eq_iff _ _).0 f.scope ∙ same)
          (sym f.semantic_key ∙ key_same)
  ]

  written_semantic_unique :
      (id id' : String) (head head' : CanonicalMemoryHead)
      → M.get id s'.heads ≡ some head
      → M.get id' s'.heads ≡ some head'
      → scope_key head.scope ≡ scope_key head'.scope
      → head.semantic_key ≡ head'.semantic_key
      → id ≡ id'
  unfolding build_head
  written_semantic_unique id id' head head' h h' same key_same = elim (head_cases id head h) [
    | inl (e, b) ↦ elim (head_cases id' head' h') [
      | inl (e', b') ↦ sym e ∙ e'
      | inr (ne', old') ↦ sym e ∙ built_unique id' head' old' (cc (b, same)) (cc (b, key_same))
    ]
    | inr (ne, old) ↦ elim (head_cases id' head' h') [
      | inl (e', b') ↦ sym (built_unique id head old (cc (b', same)) (cc (b', key_same))) ∙ e'
      | inr (ne', old') ↦ w.semantic_unique id id' head head' old old' same key_same
    ]
  ]

  written_candidates_keyed :
      (k : String) (x : MemoryCandidate) → M.get k s'.candidates ≡ some x → x.candidate_id ≡ k
  unfolding next_commit_seq
  written_candidates_keyed =
      let (old, found, set) = wrote.accepted in
      rw set (
        candidates_keyed-set c.candidate_id _ s.candidates w.candidates_keyed
          (w.candidates_keyed c.candidate_id old found))

  pub written-WellFormed : WellFormed p s'
  written-WellFormed = record {
    candidates_keyed = written_candidates_keyed;
    contiguous = written_contiguous;
    changes_resolve = written_changes_resolve;
    heads_resolve = written_heads_resolve;
    revisions_have_head = written_revisions_have_head;
    semantic_unique = written_semantic_unique;
    checkpoints_behind = written_checkpoints_behind;
  }

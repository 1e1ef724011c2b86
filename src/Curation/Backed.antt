-- ===== src/Curation/Backed.antt =====
-- What a record that backs a candidate says.
use digital_life_memory_fabr.Base.{
  some-injective, true, none, some, ◌≡◌, ap, sym, ◌∙◌, arith, ◌⊎◌, inl, inr, eq_iff, Option-cases,
  Bool-cases, if◌then◌else◌,
}
use digital_life_memory_fabr.Base.JsMap as M
use digital_life_memory_fabr.Base.JsMap.{JsMap}
use digital_life_memory_fabr.Domain.Platform.{Platform}
use digital_life_memory_fabr.Domain.Scope.{same_scope}
use digital_life_memory_fabr.Domain.Memory.{
  MemoryCandidate, CanonicalAdmissionProof, create, merge, same_operation,
}
use digital_life_memory_fabr.Domain.Records.{CanonicalCommitResult}
use digital_life_memory_fabr.Domain.Errors.{ok}
use digital_life_memory_fabr.Store.{InMemoryState, get_candidate, get_commit_result}
use digital_life_memory_fabr.Authority.Admission.{same_optional, is_merge_outcome, is_provider}
use digital_life_memory_fabr.Authority.Plan.{CommitDraw}
use digital_life_memory_fabr.Authority.Commit.{CanonicalCommitRequest, commit}
use digital_life_memory_fabr.Authority.Commit.Provider.{commit_provider-Approved}
use digital_life_memory_fabr.Curation.{
  MemoryCurationRecord, CurationRecords, common_agrees, merge_agrees, create_agrees, proof_agrees,
  curation_record_backs_canonical_admission, verify_canonical_admission, same_outcome, is_durable,
  is_novel, is_duplicate, canonical_candidate, canonical_merge,
}

-- A record that admits the memory which the candidate proposes.
pub record Backing (records : CurationRecords) (c : MemoryCandidate) : Type 0 where
  pub proof : CanonicalAdmissionProof
  pub proved : c.canonical_admission ≡ some proof
  pub backer : MemoryCurationRecord
  pub stored : M.get proof.curation_record_id records ≡ some backer
  pub same_id : backer.record_id ≡ proof.curation_record_id
  pub same_scope_as : same_scope backer.scope c.scope ≡ true
  pub same_key : backer.semantic_key ≡ c.semantic_key
  pub worthy : backer.memory_worthy ≡ true
  pub durable : is_durable backer.durability ≡ true
  pub admitted :
      ((same_operation c.proposed_operation create ≡ true)
        × (backer.provider_unit_text ≡ c.proposed_content.text)
        × (same_outcome backer.outcome canonical_candidate ≡ true)
        × (is_novel backer.semantic_disposition ≡ true))
      ⊎ ((same_operation c.proposed_operation merge ≡ true)
          × (same_optional c.base_memory_id backer.target_memory_id ≡ true)
          × (same_outcome backer.outcome canonical_merge ≡ true)
          × (is_duplicate backer.semantic_disposition ≡ true))

module _ (r : MemoryCurationRecord) (proof : CanonicalAdmissionProof) (c : MemoryCandidate) where
  common_agrees-keys :
      common_agrees r proof c ≡ true
      → (r.record_id ≡ proof.curation_record_id)
        × (r.semantic_key ≡ c.semantic_key)
        × (same_scope r.scope c.scope ≡ true)
  unfolding common_agrees
  common_agrees-keys h = (
    (eq_iff r.record_id proof.curation_record_id).0 (ground arith),
    (eq_iff r.semantic_key c.semantic_key).0 (ground arith),
    ground arith,
  )

  create_agrees-parts :
      create_agrees r c ≡ true
      → (same_operation c.proposed_operation create ≡ true)
        × (r.provider_unit_text ≡ c.proposed_content.text)
        × (same_outcome r.outcome canonical_candidate ≡ true)
        × (is_novel r.semantic_disposition ≡ true)
        × (r.memory_worthy ≡ true)
        × (is_durable r.durability ≡ true)
  unfolding create_agrees
  create_agrees-parts h = (
    ground arith,
    (eq_iff r.provider_unit_text c.proposed_content.text).0 (ground arith),
    ground arith,
    ground arith,
    ground arith,
    ground arith,
  )

  merge_agrees-parts :
      merge_agrees r proof c ≡ true
      → (same_operation c.proposed_operation merge ≡ true)
        × (same_optional c.base_memory_id r.target_memory_id ≡ true)
        × (same_outcome r.outcome canonical_merge ≡ true)
        × (is_duplicate r.semantic_disposition ≡ true)
        × (r.memory_worthy ≡ true)
        × (is_durable r.durability ≡ true)
  unfolding merge_agrees
  merge_agrees-parts h =
      (ground arith, ground arith, ground arith, ground arith, ground arith, ground arith)

  proof_agrees-parts :
      proof_agrees r proof c ≡ true
      → (common_agrees r proof c ≡ true)
        × ((if is_merge_outcome proof.outcome then merge_agrees r proof c else create_agrees r c)
            ≡ true)
  unfolding proof_agrees
  proof_agrees-parts h = (ground arith, ground arith)

proof_agrees-Backing :
    (records : CurationRecords) (c : MemoryCandidate) (proof : CanonicalAdmissionProof)
    (r : MemoryCurationRecord)
    → c.canonical_admission ≡ some proof
    → M.get proof.curation_record_id records ≡ some r
    → proof_agrees r proof c ≡ true
    → Backing records c
proof_agrees-Backing records c proof r proved stored h =
    let (common, branch) = proof_agrees-parts r proof c h in
    let (same_id, same_key, same_scope_as) = common_agrees-keys r proof c common in
    elim (Bool-cases (is_merge_outcome proof.outcome)) [
      | inl merging ↦
          let (op, target, outcome, duplicate, worthy, lasting) =
            merge_agrees-parts r proof c (rw merging at branch) in
          record {
            proof = proof;
            proved = proved;
            backer = r;
            stored = stored;
            same_id = same_id;
            same_scope_as = same_scope_as;
            same_key = same_key;
            worthy = worthy;
            durable = lasting;
            admitted = inr (op, target, outcome, duplicate);
          }
      | inr creating ↦
          let (op, text, outcome, novel, worthy, lasting) =
            create_agrees-parts r proof c (rw creating at branch) in
          record {
            proof = proof;
            proved = proved;
            backer = r;
            stored = stored;
            same_id = same_id;
            same_scope_as = same_scope_as;
            same_key = same_key;
            worthy = worthy;
            durable = lasting;
            admitted = inl (op, text, outcome, novel);
          }
    ]

-- The records as the admission verifier: what they approve, one of them backs.
pub verify_canonical_admission-Backing :
    (records : CurationRecords) (c : MemoryCandidate)
    → verify_canonical_admission records c ≡ true
    → Backing records c
unfolding verify_canonical_admission curation_record_backs_canonical_admission
verify_canonical_admission-Backing records c h = elim (Option-cases c.canonical_admission) [
  | inl e ↦ absurd (ground (arith, e))
  | inr (proof, e) ↦ elim (Option-cases (M.get proof.curation_record_id records)) [
    | inl missing ↦ absurd (ground (arith, e, missing))
    | inr (r, stored) ↦ proof_agrees-Backing records c proof r e stored (ground (arith, e, stored))
  ]
]

-- Where the curation records are the admission verifier of the authority, a provider's candidate
-- that a commit wrote, and that no other call changed meanwhile, is backed by a stored record: one of
-- a durable memory that is worth keeping, in the scope and under the semantic key of the candidate,
-- which either admits a new memory with the very text of the candidate, or admits its merge into the
-- memory that the candidate names.
pub commit_provider-Backing :
    (p : Platform) (records : CurationRecords) (draw : CommitDraw)
    (request : CanonicalCommitRequest) (s s' : InMemoryState) (c : MemoryCandidate)
    (result : CanonicalCommitResult)
    → get_candidate request.candidate_id s ≡ some c
    → get_commit_result c.scope request.idempotency_key s ≡ none
    → is_provider c.producer.kind ≡ true
    → commit p (some (verify_canonical_admission records)) draw request s s ≡ (ok result, s')
    → Backing records c
commit_provider-Backing p records draw request s s' c result here new provider h =
    let (fingerprint, proven, found) =
      commit_provider-Approved p (some (verify_canonical_admission records)) draw request s s s' c
        result here new provider h in
    let same : found.candidate ≡ c = cc (found.stored, here) in
    let approved : verify_canonical_admission records found.candidate ≡ true =
      (λ i. some-injective found.configured i found.candidate) ∙ found.approved in
    verify_canonical_admission-Backing records c
      (ap (verify_canonical_admission records) (sym same) ∙ approved)

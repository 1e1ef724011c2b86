-- ===== src/Curation/Puts.antt =====
-- What `put` keeps of the curation records.
use digital_life_memory_fabr.Base.{
  All, Bool, List, Option, String, text_cases, true, false, not, ◌&&◌, none, some, ◌≡◌, refl, ap,
  ◌∙◌, arith, ◌⊎◌, inl, inr, is_given, Option-cases, Bool-cases, [], ◌∷◌,
}
use digital_life_memory_fabr.Base.JsMap as M
use digital_life_memory_fabr.Base.JsMap.{JsMap}
use digital_life_memory_fabr.Curation.{
  MemoryCurationRecord, CurationRecords, put, replaced, or_existing,
}

put_new :
    (r : MemoryCurationRecord) (records : CurationRecords)
    → M.get r.record_id records ≡ none
    → put r records ≡ M.set r.record_id r records
unfolding put
put_new r records new = ground (arith, new)

put_old :
    (r e : MemoryCurationRecord) (records : CurationRecords)
    → M.get r.record_id records ≡ some e
    → put r records ≡ M.set r.record_id (replaced e r) records
unfolding put
put_old r e records old = ground (arith, old)

-- The records after some puts, one after the other.
abbrev pub put_all : List MemoryCurationRecord → CurationRecords → CurationRecords
put_all [] records = records
put_all (r ∷ rs) records = put_all rs (put r records)

-- The ids that a stored record has, the later one has too.
pub record Keeps (before after : MemoryCurationRecord) : Type 0 where
  pub candidate : (is_given before.candidate_id ≡ false) ⊎ (is_given after.candidate_id ≡ true)
  pub memory :
      (is_given before.canonical_memory_id ≡ false) ⊎ (is_given after.canonical_memory_id ≡ true)

or_given : (a b : Bool) → (a ≡ true → b ≡ true) → (a ≡ false) ⊎ (b ≡ true)
or_given false b h = inl refl
or_given true b h = inr (h refl)

Keeps-refl : (e : MemoryCurationRecord) → Keeps e e
Keeps-refl e = record {
  candidate = or_given (is_given e.candidate_id) _ (λ h. h);
  memory = or_given (is_given e.canonical_memory_id) _ (λ h. h);
}

Keeps-trans : (a b c : MemoryCurationRecord) → Keeps a b → Keeps b c → Keeps a c
Keeps-trans a b c ab bc = record {
  candidate =
      or_given (is_given a.candidate_id) _ (λ h. ground (arith, h, ab.candidate, bc.candidate));
  memory =
      or_given (is_given a.canonical_memory_id) _ (λ h. ground (arith, h, ab.memory, bc.memory));
}

or_existing-given :
    (new old : Option String) → (is_given old ≡ false) ⊎ (is_given (or_existing new old) ≡ true)
unfolding or_existing is_given
or_existing-given (some x) old = inr refl
or_existing-given none none = inl refl
or_existing-given none (some x) = inr refl

replaced-Keeps : (e r : MemoryCurationRecord) → Keeps e (replaced e r)
unfolding replaced
replaced-Keeps e r =
    elim (Bool-cases (is_given e.canonical_memory_id && not (is_given r.canonical_memory_id))) [
      | inl guarded ↦ rw (guarded, replaced) (Keeps-refl e)
      | inr open_record ↦
          rw (open_record, replaced)
            (record {
              candidate = or_existing-given r.candidate_id e.candidate_id;
              memory = or_existing-given r.canonical_memory_id e.canonical_memory_id;
            })
    ]

put-at :
    (k : String) (r e : MemoryCurationRecord) (records : CurationRecords)
    → M.get k records ≡ some e
    → ((r.record_id ≡ k) × (M.get k (put r records) ≡ some (replaced e r)))
      ⊎ (M.get k (put r records) ≡ some e)
put-at k r e records here = elim (text_cases r.record_id k) [
  | inl same ↦ inl (
    same,
    ap (M.get k) (put_old r e records (ap (λ x. M.get x records) same ∙ here))
        ∙ M.get-set_at r.record_id k (replaced e r) records same,
  )
  | inr other ↦ elim (Option-cases (M.get r.record_id records)) [
    | inl new ↦
        inr (
          ap (M.get k) (put_new r records new)
          ∙ (M.get-set_ne r.record_id k r records other ∙ here))
    | inr (old, found) ↦ inr (
        ap (M.get k) (put_old r old records found)
        ∙ (M.get-set_ne r.record_id k (replaced old r) records other ∙ here))
  ]
]

replaced-linked :
    (e r : MemoryCurationRecord) (m : String)
    → e.canonical_memory_id ≡ some m
    → r.canonical_memory_id ≡ none
    → replaced e r ≡ e
unfolding replaced is_given
replaced-linked e r m linked unlinked = ground (arith, linked, unlinked)

-- A stored record that names a canonical memory is not changed by any puts of records that do not
-- name one.
pub put_all-linked :
    (rs : List MemoryCurationRecord) (records : CurationRecords) (k m : String)
    (e : MemoryCurationRecord)
    → M.get k records ≡ some e
    → e.canonical_memory_id ≡ some m
    → All (λ r. r.canonical_memory_id ≡ none) rs
    → M.get k (put_all rs records) ≡ some e
put_all-linked [] records k m e here linked unlinked = here
put_all-linked (r ∷ rs) records k m e here linked unlinked =
    let next : M.get k (put r records) ≡ some e = elim (put-at k r e records here) [
      | inl (_, there) ↦ there ∙ ap some (replaced-linked e r m linked unlinked.0)
      | inr there ↦ there
    ] in
    put_all-linked rs (put r records) k m e next linked unlinked.1

-- Whatever records are put, and in whatever order, a stored record stays under its id; once it names
-- a candidate it always names one, and once it names a canonical memory it always names one.
pub put_all-Keeps :
    (rs : List MemoryCurationRecord) (records : CurationRecords) (k : String)
    (e : MemoryCurationRecord)
    → M.get k records ≡ some e
    → (e' : MemoryCurationRecord) × (M.get k (put_all rs records) ≡ some e') × Keeps e e'
put_all-Keeps [] records k e here = (e, here, Keeps-refl e)
put_all-Keeps (r ∷ rs) records k e here = elim (put-at k r e records here) [
  | inl (_, there) ↦
      let (e', last, kept) = put_all-Keeps rs (put r records) k (replaced e r) there in
      (e', last, Keeps-trans e (replaced e r) e' (replaced-Keeps e r) kept)
  | inr there ↦ put_all-Keeps rs (put r records) k e there
]

-- ===== src/Memory/Lineage.antt =====
-- crates/kernel-core/src/memory.rs: the mappings made from a memory object.
use mathlib.Core.List.{append_assoc, append-nil}
use gaxera.Prelude.{
  ℕ, zero, suc, ◌<◌, ◌≡◌, refl, sym, ap, ◌∙◌, not, none, some, List, [], ◌∷◌, ◌++◌, length,
  length-append, get_elem?, get_elem?-length, retain, Bool-cases, inl, inr, arith, if◌then◌else◌,
}
use gaxera.Prelude.Slices.{remove_at, remove_at-append, get_elem?-append_at}
use gaxera.Abi.Ids.{ObjectId}
use gaxera.Memory.{
  MappingLineageRecord, MappingLineageTable, is_from, sweep, find_mappings_by_memory_object,
  remove_mappings_by_memory_object,
}

sweep-none :
    (fuel : ℕ) (source : ObjectId) (i : ℕ) (records matching : List MappingLineageRecord)
    → get_elem? records i ≡ none
    → sweep (suc fuel) source i records matching ≡ some (matching, records)
unfolding sweep
sweep-none fuel source i records matching h = rw (h, sweep) refl

sweep-some :
    (fuel : ℕ) (source : ObjectId) (i : ℕ) (records matching : List MappingLineageRecord)
    (r : MappingLineageRecord)
    → get_elem? records i ≡ some r
    → sweep (suc fuel) source i records matching ≡ (
        if is_from source r
        then sweep fuel source i (remove_at records i) (matching ++ r ∷ [])
        else sweep fuel source (suc i) records matching)
unfolding sweep
sweep-some fuel source i records matching r h = rw (h, sweep) refl

sweep-append :
    (fuel : ℕ) (source : ObjectId) (before after matching : List MappingLineageRecord)
    → length after < fuel
    → sweep fuel source (length before) (before ++ after) matching
      ≡ some (
        matching ++ retain (is_from source) after,
        before ++ retain (λ r. not (is_from source r)) after,
      )
unfolding retain
sweep-append zero source before after matching h = absurd (omega (arith, h))
sweep-append (suc fuel) source before [] matching h =
    let past : get_elem? (before ++ []) (length before) ≡ none =
      ap (λ (rs : List MappingLineageRecord). get_elem? rs (length before)) (append-nil before)
      ∙ get_elem?-length before in
    sweep-none fuel source (length before) (before ++ []) matching past
    ∙ ap (λ (ms : List MappingLineageRecord). some (ms, before ++ [])) (sym (append-nil matching))
sweep-append (suc fuel) source before (r ∷ after) matching h =
    let at = get_elem?-append_at before after r in
    let step = sweep-some fuel source (length before) (before ++ r ∷ after) matching r at in
    elim (Bool-cases (is_from source r)) [
      | inl hit ↦
          let rest =
            sweep-append fuel source before after (matching ++ r ∷ []) (omega (arith, h)) in
          step
          ∙ rw hit (
              ap
                (λ (rs : List MappingLineageRecord).
                  sweep fuel source (length before) rs (matching ++ r ∷ []))
                (remove_at-append before after r)
              ∙ rest
              ∙ ap
                  (λ (ms : List MappingLineageRecord).
                    some (ms, before ++ retain (λ r'. not (is_from source r')) after))
                  (append_assoc matching (r ∷ []) (retain (is_from source) after)))
      | inr miss ↦
          let rest =
            sweep-append fuel source (before ++ r ∷ []) after matching (omega (arith, h)) in
          let longer : suc (length before) ≡ length (before ++ r ∷ []) =
            omega (arith, length-append before (r ∷ [])) in
          step
          ∙ rw miss (
              ap (λ (i : ℕ). sweep fuel source i (before ++ r ∷ after) matching) longer
              ∙ ap
                  (λ (rs : List MappingLineageRecord).
                    sweep fuel source (length (before ++ r ∷ [])) rs matching)
                  (sym (append_assoc before (r ∷ []) after))
              ∙ rest
              ∙ ap
                  (λ (rs : List MappingLineageRecord).
                    some (matching ++ retain (is_from source) after, rs))
                  (append_assoc before (r ∷ []) (retain (λ r'. not (is_from source r')) after)))
    ]

-- The loop ends: removing the mappings of a memory object returns those that looking them up would have
-- found, in their order, and keeps all others in theirs, so that none of it is found again.
pub remove_mappings_lem :
    (t : MappingLineageTable) (source : ObjectId)
    → let kept : MappingLineageTable = record {
      records = retain (λ r. not (is_from source r)) t.records;
    } in
      (remove_mappings_by_memory_object t source
        ≡ some (find_mappings_by_memory_object t source, kept))
      × (find_mappings_by_memory_object kept source ≡ [])
unfolding remove_mappings_by_memory_object find_mappings_by_memory_object retain
remove_mappings_lem t source = (
  rw
      (
        sweep-append (suc (length t.records)) source [] t.records [] (omega arith),
        remove_mappings_by_memory_object,
      )
      refl,
  gone t.records,
)
  where
    gone :
        (rs : List MappingLineageRecord)
        → retain (is_from source) (retain (λ r. not (is_from source r)) rs) ≡ []
    gone [] = refl
    gone (r ∷ rs) = elim (Bool-cases (is_from source r)) [
      | inl hit ↦ rw hit (gone rs)
      | inr miss ↦ rw miss (rw miss (gone rs))
    ]

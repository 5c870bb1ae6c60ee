-- ===== src/Collection/Search/Answer.antt =====
-- The hits of a search, `finalize` of crates/hamane/src/collection.rs.
use hamane_db.Base.{
  ℕ, zero, suc, ◌≡◌, ◌≤◌, refl, ap, true, ◌||◌, Option, none, some, List, [], ◌∷◌, map, take,
  length, length-take, All, if_either, arith,
}
use hamane_db.Core.Record.{InternalId, Metadata, Metric, l2, cosine, dot}
use hamane_db.Core.Metric.{F32Ops}
use hamane_db.Core.Filter.{FloatOps}
use hamane_db.Memtable.{StoredRecord}
use hamane_db.Store.State.{get}
use hamane_db.Index.Flat.{passes}
use hamane_db.Collection.Search.{
  SegmentSearch, SearchHit, below, insert_candidate, sort_candidates, retain, within, to_search_hit,
  finalize,
}
use hamane_db.Collection.Search.Live.{is_found}

-- The metadata of a record, where there is one.
abbrev pub metadata_of : Option StoredRecord → Option Metadata
metadata_of none = none
metadata_of (some rec) = some rec.metadata

-- A reader finds the hit's id with the hit's metadata, and they pass the filter.
abbrev pub IsAnswer : F32Ops → FloatOps → SegmentSearch → SearchHit → Type 0
IsAnswer fo fl s h =
    (metadata_of (get s.view h.id) ≡ some h.metadata) × (passes fo fl s.filter h.metadata ≡ true)

length-map_lem : {A B : Type 0} (f : A → B) (xs : List A) → length (map f xs) ≡ length xs
length-map_lem f [] = refl
length-map_lem f (x ∷ xs) = ap suc (length-map_lem f xs)

module _ {A : Type 0} (P : A → Type 0) where
  All-take : (n : ℕ) (xs : List A) → All P xs → All P (take n xs)
  All-take zero xs a = tt
  All-take (suc n) [] a = tt
  All-take (suc n) (x ∷ xs) a = (a.0, All-take n xs a.1)

  pub All-map :
      {B : Type 0} (Q : B → Type 0) (f : A → B) (xs : List A)
      → ((x : A) → P x → Q (f x))
      → All P xs
      → All Q (map f xs)
  All-map Q f [] h a = tt
  All-map Q f (x ∷ xs) h a = (h x a.0, All-map Q f xs h a.1)

module _ (fo : F32Ops) (P : ℕ × InternalId → Type 0) where
  insert_candidate-All :
      (c : ℕ × InternalId) (cs : List (ℕ × InternalId))
      → P c
      → All P cs
      → All P (insert_candidate fo c cs)
  unfolding insert_candidate
  insert_candidate-All c [] h a = (h, tt)
  insert_candidate-All c (d ∷ ds) h a =
      if_either (All P) (below fo d c) (a.0, insert_candidate-All c ds h a.1) (h, a)

  sort_candidates-All : (cs : List (ℕ × InternalId)) → All P cs → All P (sort_candidates fo cs)
  unfolding sort_candidates
  sort_candidates-All [] a = tt
  sort_candidates-All (c ∷ cs) a =
      insert_candidate-All c (sort_candidates fo cs) a.0 (sort_candidates-All cs a.1)

  retain-All : (bound : ℕ) (cs : List (ℕ × InternalId)) → All P cs → All P (retain fo bound cs)
  unfolding retain
  retain-All bound [] a = tt
  retain-All bound ((key, id) ∷ cs) a =
      let rest = retain-All bound cs a.1 in
      if_either (All P) (fo.lt key bound || fo.eq key bound) (a.0, rest) rest

  within-All :
      (metric : Metric) (threshold : Option ℕ) (cs : List (ℕ × InternalId))
      → All P cs
      → All P (within fo metric threshold cs)
  unfolding within
  within-All metric none cs a = a
  within-All l2 (some t) cs a = if_either (All P) (fo.lt t 0) tt (retain-All _ cs a)
  within-All cosine (some t) cs a = retain-All _ cs a
  within-All dot (some t) cs a = retain-All _ cs a

module _ (fo : F32Ops) (fl : FloatOps) (s : SegmentSearch) where
  to_search_hit-IsAnswer :
      (c : ℕ × InternalId)
      → is_found fo fl s.filter (get s.view c.1) ≡ true
      → IsAnswer fo fl s (to_search_hit fo s c)
  unfolding to_search_hit
  to_search_hit-IsAnswer (key, id) h = at (get s.view id) h
    where
      at :
          (o : Option StoredRecord)
          → is_found fo fl s.filter o ≡ true
          → (metadata_of o ≡ some (elim o [ none ↦ [] | some rec ↦ rec.metadata ]))
            × (passes fo fl s.filter (elim o [ none ↦ [] | some rec ↦ rec.metadata ]) ≡ true)
      at none e = cc
      at (some rec) e = (refl, e)

  pub finalize-All :
      (cs : List (ℕ × InternalId)) (threshold : Option ℕ)
      → All (λ (c : ℕ × InternalId). is_found fo fl s.filter (get s.view c.1) ≡ true) cs
      → All (IsAnswer fo fl s) (finalize fo s cs threshold)
  unfolding finalize
  finalize-All cs threshold a =
      let P = λ (c : ℕ × InternalId). is_found fo fl s.filter (get s.view c.1) ≡ true in
      All-map P (IsAnswer fo fl s) (to_search_hit fo s) _ to_search_hit-IsAnswer
        (All-take P s.k _ (sort_candidates-All fo P _ (within-All fo P s.metric threshold cs a)))

  pub length-finalize :
      (cs : List (ℕ × InternalId)) (threshold : Option ℕ)
      → length (finalize fo s cs threshold) ≤ s.k
  unfolding finalize
  length-finalize cs threshold =
      let sorted = sort_candidates fo (within fo s.metric threshold cs) in
      omega (arith, length-map_lem (to_search_hit fo s) (take s.k sorted), length-take s.k sorted)

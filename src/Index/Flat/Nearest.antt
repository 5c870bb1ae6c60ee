-- ===== src/Index/Flat/Nearest.antt =====
-- The exact search against a reference: all candidates sorted, and the first k of them.
use hamane_db.Base.{
  ℕ, zero, suc, ◌≡◌, refl, ◌∙◌, ap, Option, List, [], ◌∷◌, map, take, All, if◌then◌else◌,
  Bool-cases, inl, inr,
}
use hamane_db.Core.Record.{Metric}
use hamane_db.Core.Filter.{FloatOps, Filter}
use hamane_db.Core.Metric.{F32Ops, distance_key}
use hamane_db.Index.Flat.{
  HeapEntry, Candidate, push, passes, entry_of, search_loop, to_hit, search_flat,
}
use hamane_db.Index.Flat.Heap.{IsLine, IsSorted, offer-take, push-All, push-IsSorted}

module _ (fo : F32Ops) (fl : FloatOps) where
  -- The reference: every candidate that passes the filter, sorted.
  unfoldable pub ranking :
      List Candidate → List ℕ → Metric → Option Filter → List HeapEntry → List HeapEntry
  ranking [] query metric filter l = l
  ranking (c ∷ cs) query metric filter l =
      ranking cs query metric filter
        (if passes fo fl filter c.metadata then push fo (entry_of fo fl query metric c) l else l)

  module _ (IsNumber : ℕ → Type 0) (line : IsLine fo IsNumber) where
    abbrev pub HaveKeys : List ℕ → Metric → List Candidate → Type 0
    HaveKeys query metric cs =
        All (λ (c : Candidate). IsNumber (distance_key fo metric query c.vector)) cs

    search_loop-take :
        (cs : List Candidate) (query : List ℕ) (k : ℕ) (metric : Metric) (filter : Option Filter)
        (l : List HeapEntry)
        → HaveKeys query metric cs
        → All (λ (e : HeapEntry). IsNumber e.key) l
        → IsSorted fo IsNumber line l
        → search_loop fo fl cs query (suc k) metric filter (take (suc k) l)
          ≡ take (suc k) (ranking cs query metric filter l)
    unfolding search_loop ranking entry_of
    search_loop-take [] query k metric filter l h a s = refl
    search_loop-take (c ∷ cs) query k metric filter l h a s =
        elim (Bool-cases (passes fo fl filter c.metadata)) [
          | inl passed ↦
              let e = entry_of fo fl query metric c in
              rw (search_loop, ranking, passed)
                (ap (search_loop fo fl cs query (suc k) metric filter)
                    (offer-take fo IsNumber line e k l h.0 a s)
                  ∙ search_loop-take cs query k metric filter (push fo e l) h.1
                      (push-All fo IsNumber line (λ x. IsNumber x.key) e l h.0 a)
                      (push-IsSorted fo IsNumber line e l h.0 a s))
          | inr skipped ↦
              rw (search_loop, ranking, skipped)
                (search_loop-take cs query k metric filter l h.1 a s)
        ]

    ranking-IsSorted :
        (cs : List Candidate) (query : List ℕ) (metric : Metric) (filter : Option Filter)
        (l : List HeapEntry)
        → HaveKeys query metric cs
        → All (λ (e : HeapEntry). IsNumber e.key) l
        → IsSorted fo IsNumber line l
        → IsSorted fo IsNumber line (ranking cs query metric filter l)
    unfolding ranking entry_of
    ranking-IsSorted [] query metric filter l h a s = s
    ranking-IsSorted (c ∷ cs) query metric filter l h a s =
        elim (Bool-cases (passes fo fl filter c.metadata)) [
          | inl passed ↦
              let e = entry_of fo fl query metric c in
              rw (ranking, passed)
                (ranking-IsSorted cs query metric filter (push fo e l) h.1
                  (push-All fo IsNumber line (λ x. IsNumber x.key) e l h.0 a)
                  (push-IsSorted fo IsNumber line e l h.0 a s))
          | inr skipped ↦ rw (ranking, skipped) (ranking-IsSorted cs query metric filter l h.1 a s)
        ]

    -- The exact search returns the first k of the ranking of all candidates that pass the filter,
    -- in that order and with their scores, and all of them where they are fewer; in the ranking no
    -- entry is nearer than one before it, where equal distance keys leave it to the ids. No
    -- distance key is NaN: the comparisons of the keys are those of their places in a line.
    pub search_flat-take :
        (cs : List Candidate) (query : List ℕ) (k : ℕ) (metric : Metric) (filter : Option Filter)
        → HaveKeys query metric cs
        → IsSorted fo IsNumber line (ranking cs query metric filter [])
          × (search_flat fo fl cs query k metric filter
              ≡ map (to_hit fo fl metric) (take k (ranking cs query metric filter [])))
    search_flat-take cs query k metric filter h =
        (ranking-IsSorted cs query metric filter [] h tt tt, go k)
      where
        go :
            (n : ℕ)
            → search_flat fo fl cs query n metric filter
              ≡ map (to_hit fo fl metric) (take n (ranking cs query metric filter []))
        go zero = unfold search_flat in refl
        go (suc n) =
            unfold search_flat in
            ap (map (to_hit fo fl metric)) (search_loop-take cs query n metric filter [] h tt tt)

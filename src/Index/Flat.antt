-- ===== src/Index/Flat.antt =====
-- crates/hamane-index/src/flat.rs: the exact search. A distance key is an f32, and how it is
-- computed and compared is a parameter. The binary heap is the list of its entries in ascending
-- order: its greatest entry is the last, and `into_sorted_vec` is the list.
pub mod Heap
pub mod Nearest
use hamane_db.Base.{
  ℕ, zero, suc, Bool, true, false, ◌&&◌, ◌||◌, Option, none, some, List, [], ◌∷◌, map, length, ltb,
  if◌then◌else◌,
}
use hamane_db.Core.Record.{InternalId, Metadata, Metric}
use hamane_db.Core.Metric.{F32Ops, distance_key, score_from_key}
use hamane_db.Core.Filter.{FloatOps, Filter, matches}

pub record HeapEntry : Type 0 where
  pub key : ℕ
  pub id : InternalId

pub record Hit : Type 0 where
  pub id : InternalId
  pub score : ℕ

pub record Candidate : Type 0 where
  pub id : InternalId
  pub vector : List ℕ
  pub metadata : Metadata

-- `heap.peek`
unfoldable pub peek : List HeapEntry → Option HeapEntry
peek [] = none
peek (x ∷ []) = some x
peek (x ∷ y ∷ heap) = peek (y ∷ heap)

-- `heap.pop`
unfoldable pub pop : List HeapEntry → List HeapEntry
pop [] = []
pop (x ∷ []) = []
pop (x ∷ y ∷ heap) = x ∷ pop (y ∷ heap)

module _ (fo : F32Ops) where
  -- `Ord::cmp` is `Less`: keys that do not compare are taken as equal, and then the ids decide.
  unfoldable pub less : HeapEntry → HeapEntry → Bool
  less a b = if fo.lt a.key b.key then true else if fo.lt b.key a.key then false else ltb a.id b.id

  -- `heap.push`
  unfoldable pub push : HeapEntry → List HeapEntry → List HeapEntry
  unfolding less
  push e [] = e ∷ []
  push e (x ∷ heap) = if less e x then e ∷ x ∷ heap else x ∷ push e heap

  -- The test for a nearer entry, on the top of a heap that is full.
  unfoldable pub is_nearer : HeapEntry → HeapEntry → Bool
  is_nearer e top = fo.lt e.key top.key || (fo.eq e.key top.key && ltb e.id top.id)

  -- One round of the loop, for a candidate that passes the filter.
  unfoldable pub offer : ℕ → HeapEntry → List HeapEntry → List HeapEntry
  unfolding push peek pop is_nearer
  offer k e heap = if ltb (length heap) k then push e heap else elim (peek heap) [
    | none ↦ heap
    | some top ↦ if is_nearer e top then push e (pop heap) else heap
  ]

  module _ (fl : FloatOps) where
    abbrev pub passes : Option Filter → Metadata → Bool
    passes none metadata = true
    passes (some f) metadata = matches fl f metadata

    unfoldable pub entry_of : List ℕ → Metric → Candidate → HeapEntry
    entry_of query metric c = record { key = distance_key fo metric query c.vector; id = c.id }

    unfoldable pub search_loop :
        List Candidate → List ℕ → ℕ → Metric → Option Filter → List HeapEntry → List HeapEntry
    unfolding offer entry_of
    search_loop [] query k metric filter heap = heap
    search_loop (c ∷ cs) query k metric filter heap =
        search_loop cs query k metric filter
          (if passes filter c.metadata then offer k (entry_of query metric c) heap else heap)

    unfoldable pub to_hit : Metric → HeapEntry → Hit
    to_hit metric e = record { id = e.id; score = score_from_key fo metric e.key }

    unfoldable pub search_flat : List Candidate → List ℕ → ℕ → Metric → Option Filter → List Hit
    unfolding search_loop to_hit
    search_flat cs query zero metric filter = []
    search_flat cs query (suc k) metric filter =
        map (to_hit metric) (search_loop cs query (suc k) metric filter [])

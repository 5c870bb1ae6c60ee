-- ===== src/Collection/Search.antt =====
-- `SegmentSearch` of crates/hamane/src/collection.rs: the candidates of the memtables, and the hits
-- that are made of all candidates. The candidates of segments are in Collection/Search/Plain, for
-- segments without indexes; the plans that use an index are not modelled.
pub mod Live
pub mod Answer
pub mod Plain
pub mod Whole
use hamane_db.Base.{
  ℕ, zero, suc, ◌+◌, Bool, true, false, not, ◌&&◌, ◌||◌, Option, none, some, List, [], ◌∷◌, ◌++◌,
  map, take, Map, ltb, ◌==◌, if◌then◌else◌,
}
use hamane_db.Core.Record.{InternalId, Metadata, Metric, l2, cosine, dot}
use hamane_db.Core.Metric.{F32Ops, key_from_score, score_from_key}
use hamane_db.Core.Filter.{FloatOps, Filter}
use hamane_db.Memtable.{StoredRecord, Memtable}
use hamane_db.Store.State.{LiveView, get}
use hamane_db.Store.Open.{is_live}
use hamane_db.Index.Flat.{Hit, Candidate, search_flat}

-- `Memtable::iter`
unfoldable pub candidates_of : Map InternalId StoredRecord → List Candidate
candidates_of [] = []
candidates_of ((id, rec) ∷ m) =
    record { id = id; vector = rec.vector; metadata = rec.metadata } ∷ candidates_of m

-- The snapshot, the query and its settings; those for the indexes of segments are left out.
pub record SegmentSearch : Type 0 where
  pub view : LiveView
  pub query : List ℕ
  pub k : ℕ
  pub metric : Metric
  pub filter : Option Filter

pub record SearchHit : Type 0 where
  pub id : InternalId
  pub score : ℕ
  pub metadata : Metadata

-- `partial_cmp` of pairs is `Less`, where keys that do not compare would panic.
abbrev pub below : F32Ops → ℕ × InternalId → ℕ × InternalId → Bool
below fo a b = if fo.lt a.0 b.0 then true else if fo.lt b.0 a.0 then false else ltb a.1 b.1

module _ (fo : F32Ops) where
  -- The hits of a memtable that no newer one overrides. The active memtable is the newest.
  unfoldable pub keep_live : LiveView → Metric → ℕ → List Hit → List (ℕ × InternalId)
  keep_live v metric rank [] = []
  keep_live v metric rank (h ∷ hs) =
      let rest = keep_live v metric rank hs in
      if rank == 0 || is_live v h.id rank
      then (key_from_score fo metric h.score, h.id) ∷ rest
      else rest

  -- The sort of `finalize`: stable, by key and id.
  unfoldable pub insert_candidate : ℕ × InternalId → List (ℕ × InternalId) → List (ℕ × InternalId)
  insert_candidate c [] = c ∷ []
  insert_candidate c (d ∷ ds) = if below fo d c then d ∷ insert_candidate c ds else c ∷ d ∷ ds

  unfoldable pub sort_candidates : List (ℕ × InternalId) → List (ℕ × InternalId)
  unfolding insert_candidate
  sort_candidates [] = []
  sort_candidates (c ∷ cs) = insert_candidate c (sort_candidates cs)

  -- `candidates.retain(|(key, _)| *key <= bound)`
  unfoldable pub retain : ℕ → List (ℕ × InternalId) → List (ℕ × InternalId)
  retain bound [] = []
  retain bound ((key, id) ∷ cs) =
      let rest = retain bound cs in
      if fo.lt key bound || fo.eq key bound then (key, id) ∷ rest else rest

  -- The threshold. No distance is below 0.0, whose bits are 0.
  unfoldable pub within : Metric → Option ℕ → List (ℕ × InternalId) → List (ℕ × InternalId)
  unfolding retain
  within metric none cs = cs
  within l2 (some t) cs = if fo.lt t 0 then [] else retain (key_from_score fo l2 t) cs
  within cosine (some t) cs = retain (key_from_score fo cosine t) cs
  within dot (some t) cs = retain (key_from_score fo dot t) cs

  unfoldable pub to_search_hit : SegmentSearch → ℕ × InternalId → SearchHit
  to_search_hit s (key, id) = record {
    id = id;
    score = score_from_key fo s.metric key;
    metadata = elim (get s.view id) [ none ↦ [] | some rec ↦ rec.metadata ];
  }

  unfoldable pub finalize : SegmentSearch → List (ℕ × InternalId) → Option ℕ → List SearchHit
  unfolding within sort_candidates to_search_hit
  finalize s candidates threshold =
      map (to_search_hit s) (take s.k (sort_candidates (within s.metric threshold candidates)))

  module _ (fl : FloatOps) where
    unfoldable pub candidates_from : SegmentSearch → ℕ → List Memtable → List (ℕ × InternalId)
    unfolding keep_live candidates_of
    candidates_from s rank [] = []
    candidates_from s rank (mt ∷ mts) =
        keep_live s.view s.metric rank
          (search_flat fo fl (candidates_of mt.upserts) s.query s.k s.metric s.filter)
        ++ candidates_from s (rank + 1) mts

    unfoldable pub memtable_candidates : SegmentSearch → List (ℕ × InternalId)
    unfolding candidates_from
    memtable_candidates s = candidates_from s 0 s.view.memtables

-- ===== src/Collection.antt =====
-- crates/hamane/src/collection.rs: the records of a collection in the order of their ids (`walk`),
-- and what stands on it: `scan`, `count`, `get` and the update of metadata. Vectors and search are
-- not modelled.
pub mod Merge
pub mod Order
pub mod Sources
pub mod Scan
pub mod Api
pub mod Search
use hamane_db.Base.{
  ℕ, zero, suc, ◌+◌, Bool, true, false, Option, none, some, List, [], ◌∷◌, ◌++◌, map, keys, lookup,
  length, leb, ◌==◌, if◌then◌else◌, bytes_eq, nat_eq,
}
use hamane_db.Core.Record.{InternalId, RecordId, MetaValue, Metadata, Record, ext_id_meta_key}
use hamane_db.Core.Filter.{FloatOps, Filter, matches}
use hamane_db.Memtable.{StoredRecord, Memtable}
use hamane_db.Segment.{Segment, sort_ids, row_ids}
use hamane_db.Store.State.{LiveView, get}

unfoldable pub id_of_value : InternalId → Option MetaValue → RecordId
id_of_value id (some (MetaValue.str s)) = RecordId.str s
id_of_value id _ = RecordId.num id

-- `record_id_of`
unfoldable pub record_id_of : InternalId → Metadata → RecordId
unfolding id_of_value
record_id_of id metadata = id_of_value id (lookup ext_id_meta_key metadata)

-- The ids of each source, ascending: memtables are sorted here, segments are written so.
unfoldable pub memtable_sources : List Memtable → List (List InternalId)
memtable_sources [] = []
memtable_sources (mt ∷ mts) = sort_ids (keys mt.upserts) ∷ memtable_sources mts

unfoldable pub segment_sources : List Segment → List (List InternalId)
segment_sources [] = []
segment_sources (seg ∷ segs) = row_ids seg.rows ∷ segment_sources segs

unfoldable pub sources : LiveView → List (List InternalId)
unfolding memtable_sources segment_sources
sources v = memtable_sources v.memtables ++ segment_sources v.segments

-- `partition_point(|id| *id <= a)`, as what is left of the source from there.
unfoldable pub skip_past : InternalId → List InternalId → List InternalId
skip_past a [] = []
skip_past a (x ∷ xs) = if leb x a then skip_past a xs else x ∷ xs

unfoldable pub from_cursor : Option InternalId → List (List InternalId) → List (List InternalId)
from_cursor none ss = ss
from_cursor (some a) ss = map (skip_past a) ss

-- `heap.pop()` and the refill from the same source. Each source is what is left of it from its
-- cursor on; its first id is its entry of the heap. The least id comes out, of the newest source
-- that has it.
unfoldable pub pop : List (List InternalId) → Option (InternalId × List (List InternalId))
pop [] = none
pop ([] ∷ ss) = elim (pop ss) [ none ↦ none | some (y, ss') ↦ some (y, [] ∷ ss') ]
pop ((x ∷ xs) ∷ ss) = elim (pop ss) [
  | none ↦ some (x, xs ∷ ss)
  | some (y, ss') ↦ if leb x y then some (x, xs ∷ ss) else some (y, (x ∷ xs) ∷ ss')
]

abbrev pub is_last : Option InternalId → InternalId → Bool
is_last none id = false
is_last (some l) id = l == id

-- `Some(emitted) == limit`
abbrev pub is_reached : ℕ → Option ℕ → Bool
is_reached emitted none = false
is_reached emitted (some n) = emitted == n

unfoldable pub total : List (List InternalId) → ℕ
total [] = 0
total (s ∷ ss) = length s + total ss

module _ (fl : FloatOps) where
  abbrev pub passes : Option Filter → Metadata → Bool
  passes none metadata = true
  passes (some f) metadata = matches fl f metadata

  unfoldable pub record_of : Option Filter → InternalId → Option StoredRecord → Option Record
  record_of filter id none = none
  record_of filter id (some stored) =
      if passes filter stored.metadata
      then some (record {
        id = record_id_of id stored.metadata;
        vector = stored.vector;
        metadata = stored.metadata;
      })
      else none

  -- The record that is visited for an id, none where the loop goes on.
  unfoldable pub visited : LiveView → Option Filter → Option InternalId → InternalId → Option Record
  unfolding record_of
  visited v filter last id = if is_last last id then none else record_of filter id (get v id)

  -- The loop of `walk`, with the records that are visited. Each round takes one id from a source:
  -- as many rounds as there are ids are enough.
  unfoldable pub walk_loop :
      LiveView
      → Option Filter
      → Option ℕ
      → ℕ
      → List (List InternalId)
      → Option InternalId
      → ℕ
      → List Record
  unfolding visited pop
  walk_loop v filter limit zero ss last emitted = []
  walk_loop v filter limit (suc fuel) ss last emitted = elim (pop ss) [
    | none ↦ []
    | some (id, ss') ↦ elim (visited v filter last id) [
      | none ↦ walk_loop v filter limit fuel ss' (some id) emitted
      | some rec ↦ rec ∷ elim (is_reached (emitted + 1) limit) [
        | true ↦ []
        | false ↦ walk_loop v filter limit fuel ss' (some id) (emitted + 1)
      ]
    ]
  ]

  -- `walk`, for callers that want every record: `visit` always returns true.
  unfoldable pub walk : LiveView → Option Filter → Option ℕ → Option InternalId → List Record
  unfolding walk_loop sources from_cursor total
  walk v filter limit after =
      let ss = from_cursor after (sources v) in walk_loop v filter limit (total ss) ss none 0

  -- `count`
  unfoldable pub count : LiveView → Option Filter → ℕ
  unfolding walk
  count v none = v.live_len
  count v (some f) = length (walk v (some f) none none)

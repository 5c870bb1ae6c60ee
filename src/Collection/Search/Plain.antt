-- ===== src/Collection/Search/Plain.antt =====
-- `SegmentSearch::segment` of crates/hamane/src/collection.rs for a segment without indexes, the
-- plan of segments that are too small for one, and `run_sequential` where all segments are such.
use hamane_db.Base.{ℕ, ◌+◌, Option, none, some, List, [], ◌∷◌, ◌++◌, map, length, if◌then◌else◌}
use hamane_db.Base.Outcome.{Result, ok, ◌>>=◌}
use hamane_db.Core.Record.{InternalId, Metadata, Metric}
use hamane_db.Core.Metric.{F32Ops, key_from_score}
use hamane_db.Core.Filter.{FloatOps, Filter}
use hamane_db.Segment.{Segment, Row, row_metadata}
use hamane_db.Store.State.{LiveView}
use hamane_db.Store.Open.{is_live}
use hamane_db.Index.Flat.{Hit, Candidate, search_flat}
use hamane_db.Collection.Search.{SegmentSearch, memtable_candidates}

-- `Segment::decode_all_metadata`
unfoldable pub decode_all_metadata : List Row → Result (List Metadata)
decode_all_metadata [] = ok []
decode_all_metadata (row ∷ rows) = do
  metadata ← row_metadata row
  rest ← decode_all_metadata rows
  ok (metadata ∷ rest)

-- The metadata is decoded where there is a filter; else it is empty.
unfoldable pub metadata_for : Option Filter → List Row → Result (List Metadata)
unfolding decode_all_metadata
metadata_for none rows = ok (map (λ (row : Row). []) rows)
metadata_for (some f) rows = decode_all_metadata rows

-- `live`, and the rows of `flat_over`.
unfoldable pub flat_rows : LiveView → ℕ → List Row → List Metadata → List Candidate
flat_rows v rank [] metas = []
flat_rows v rank (row ∷ rows) [] = []
flat_rows v rank (row ∷ rows) (metadata ∷ metas) =
    let rest = flat_rows v rank rows metas in
    if is_live v row.id rank
    then record { id = row.id; vector = row.vector; metadata = metadata } ∷ rest
    else rest

module _ (fo : F32Ops) where
  abbrev pub hit_candidate : Metric → Hit → ℕ × InternalId
  hit_candidate metric h = (key_from_score fo metric h.score, h.id)

  module _ (fl : FloatOps) where
    unfoldable pub flat_over : SegmentSearch → ℕ → List Row → List Metadata → List (ℕ × InternalId)
    unfolding flat_rows
    flat_over s rank rows metas =
        map (hit_candidate s.metric)
          (search_flat fo fl (flat_rows s.view rank rows metas) s.query s.k s.metric s.filter)

    -- The segment of this index.
    unfoldable pub segment : SegmentSearch → ℕ → Segment → Result (List (ℕ × InternalId))
    unfolding metadata_for flat_over
    segment s index seg = do
      metas ← metadata_for s.filter seg.rows
      ok (flat_over s (length s.view.memtables + index) seg.rows metas)

    -- The loop of `run_sequential`, from this index on.
    unfoldable pub segments_from : SegmentSearch → ℕ → List Segment → Result (List (ℕ × InternalId))
    unfolding segment
    segments_from s index [] = ok []
    segments_from s index (seg ∷ segs) = do
      found ← segment s index seg
      rest ← segments_from s (index + 1) segs
      ok (found ++ rest)

    unfoldable pub run_sequential : SegmentSearch → Result (List (ℕ × InternalId))
    unfolding segments_from
    run_sequential s = do
      rest ← segments_from s 0 s.view.segments
      ok (memtable_candidates fo fl s ++ rest)

-- ===== src/Segment.antt =====
-- crates/hamane-storage/src/segment.rs: immutable segments. A segment is its rows in the order of
-- vectors.bin, ids.bin and meta.bin, and the ids of tombstones.bin; each row keeps the bytes of its
-- metadata. Segment/Vectors has the bytes of vectors.bin; the byte offsets of the other files, the
-- indexes and the quantised codes are not modelled.
pub mod Search
pub mod Written
pub mod Vectors
use hamane_db.Base.{
  ℕ, zero, suc, ◌+◌, ◌/◌, ◌<◌, Bool, true, false, Option, none, some, List, [], ◌∷◌, map, length,
  get_elem?, ltb, leb, compare, Ordering, if◌then◌else◌, is_some,
}
use hamane_db.Base.Outcome.{Result, ok, err}
use hamane_db.Core.Record.{InternalId, Metadata}
use hamane_db.Format.Reader.{Reader, reader}
use hamane_db.Format.Meta.{put_metadata, read_metadata}
use hamane_db.Memtable
use hamane_db.Memtable.{StoredRecord, Memtable}

pub record Row : Type 0 where
  pub id : InternalId
  pub vector : List ℕ
  pub blob : List ℕ

pub record Segment : Type 0 where
  pub seg_id : ℕ
  pub rows : List Row
  pub tombstones : List InternalId

-- `rows.sort_by_key(|(id, _, _)| *id)`: a stable sort by id.
unfoldable pub insert_row :
    InternalId × StoredRecord → List (InternalId × StoredRecord) → List (InternalId × StoredRecord)
insert_row r [] = r ∷ []
insert_row r (s ∷ rows) = if leb r.0 s.0 then r ∷ s ∷ rows else s ∷ insert_row r rows

unfoldable pub sort_rows : List (InternalId × StoredRecord) → List (InternalId × StoredRecord)
unfolding insert_row
sort_rows [] = []
sort_rows (r ∷ rows) = insert_row r (sort_rows rows)

-- `tombstones.sort_unstable()`
unfoldable pub insert_id : InternalId → List InternalId → List InternalId
insert_id x [] = x ∷ []
insert_id x (y ∷ l) = if leb x y then x ∷ y ∷ l else y ∷ insert_id x l

unfoldable pub sort_ids : List InternalId → List InternalId
unfolding insert_id
sort_ids [] = []
sort_ids (x ∷ l) = insert_id x (sort_ids l)

-- Empty metadata takes no bytes.
unfoldable pub meta_blob : Metadata → List ℕ
meta_blob [] = []
meta_blob (e ∷ m) = put_metadata [] (e ∷ m)

unfoldable pub to_row : InternalId × StoredRecord → Row
to_row (id, rec) = record { id = id; vector = rec.vector; blob = meta_blob rec.metadata }

-- `SegmentWriter::write`, as the segment that `Segment::open` finds afterwards. The vectors of a
-- collection all have its dimension, so that each row has its own vector here; the bytes of
-- vectors.bin, which has one dimension for all rows, are in Segment/Vectors.
unfoldable pub write : ℕ → Memtable → Segment
write seg_id mt = record {
  seg_id = seg_id;
  rows = map to_row (sort_rows mt.upserts);
  tombstones = sort_ids mt.deletes;
}

unfoldable pub row_ids : List Row → List InternalId
row_ids [] = []
row_ids (r ∷ rows) = r.id ∷ row_ids rows

-- The loop of `row_of` and of `is_tombstoned`, over the half-open range from `lo` to `hi` of an
-- ascending list. Half of the range is left after a round; `hi - lo` rounds are enough.
unfoldable pub binary_search : ℕ → List InternalId → InternalId → ℕ → ℕ → Option ℕ
binary_search zero ids id lo hi = none
binary_search (suc fuel) ids id lo hi =
    if ltb lo hi
    then (elim (get_elem? ids ((lo + hi) / 2)) [
      | none ↦ none
      | some mid_id ↦ elim (compare mid_id id) [
        | Ordering.lt ↦ binary_search fuel ids id ((lo + hi) / 2 + 1) hi
        | Ordering.gt ↦ binary_search fuel ids id lo ((lo + hi) / 2)
        | Ordering.eq ↦ some ((lo + hi) / 2)
      ]
    ])
    else none

-- The index of ids.bin pairs each id with its row number, in the order of the rows.
unfoldable pub row_of : Segment → InternalId → Option ℕ
row_of seg id = binary_search (suc (length seg.rows)) (row_ids seg.rows) id 0 (length seg.rows)

unfoldable pub contains : Segment → InternalId → Bool
contains seg id = is_some (row_of seg id)

unfoldable pub is_tombstoned : Segment → InternalId → Bool
is_tombstoned seg id =
    is_some
      (binary_search (suc (length seg.tombstones)) seg.tombstones id 0 (length seg.tombstones))

unfoldable pub parsed : Result (Metadata × Reader) → Result Metadata
parsed (ok (m, rest)) = ok m
parsed (err e) = err e

-- `metadata`: an empty range stands for no metadata.
unfoldable pub row_metadata : Row → Result Metadata
unfolding parsed
row_metadata r = if Memtable.is_nil r.blob then ok [] else parsed (read_metadata (reader r.blob))

-- The vector and metadata of a row, `none` where the metadata is corrupt (`.ok()?`).
unfoldable pub stored : Segment → ℕ → Option StoredRecord
stored seg row = elim (get_elem? seg.rows row) [
  | none ↦ none
  | some r ↦ elim (row_metadata r) [
    | err e ↦ none
    | ok metadata ↦ some (record { vector = r.vector; metadata = metadata })
  ]
]

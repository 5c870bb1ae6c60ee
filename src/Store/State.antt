-- ===== src/Store/State.antt =====
-- The state of store.rs behind its mutex, and the reads that need no other state.
-- A hash map is an association list (`Map`), and the files of the store are values in `Disk`:
-- what `Manifest::store` wrote last, the records of each WAL file, and the segments of each
-- collection. Calls of the file system succeed.
pub mod View
use hamane_db.Base.{
  ℕ, suc, ◌+◌, ◌%◌, ◌^◌, ◌≤◌, Bool, true, false, Option, none, some, List, [], ◌∷◌, Map, lookup,
  insert, max, nat_eq, bytes_eq, if◌then◌else◌, is_some,
}
use hamane_db.Base.Outcome.{Result, ok, err, collection_not_found}
use hamane_db.Core.Record.{
  InternalId, Text, Metadata, MetaValue, Metric, ext_id_base, ext_id_meta_key,
}
use hamane_db.Memtable
use hamane_db.Memtable.{StoredRecord, Memtable}
use hamane_db.Segment.{Segment, row_of, contains, is_tombstoned, stored}
use hamane_db.Manifest
use hamane_db.Manifest.{Manifest}
use hamane_db.Wal.Record.{WalRecord}

pub record CollectionState : Type 0 where
  pub name : Text
  pub dim : ℕ
  pub metric : Metric
  pub memtable : Memtable
  -- newest first
  pub segments : List Segment
  pub live_len : ℕ
  pub ext_ids : Map Text InternalId
  pub next_ext_id : InternalId

-- `CollectionState::new`
abbrev pub new_collection : Text → ℕ → Metric → CollectionState
new_collection name dim metric = record {
  name = name;
  dim = dim;
  metric = metric;
  memtable = Memtable.empty;
  segments = [];
  live_len = 0;
  ext_ids = [];
  next_ext_id = ext_id_base;
}

unfoldable pub track : InternalId → Option MetaValue → CollectionState → CollectionState
track id (some (MetaValue.str ext)) col = record col {
  ext_ids = insert ext id col.ext_ids;
  next_ext_id = max col.next_ext_id ((id + 1) % 2 ^ 64);
}
track id _ col = col

-- `track_ext_id`
unfoldable pub track_ext_id : InternalId → Metadata → CollectionState → CollectionState
track_ext_id id metadata col = track id (lookup ext_id_meta_key metadata) col

pub record PendingFlush : Type 0 where
  pub wal_seq : ℕ
  pub memtables : Map ℕ Memtable

pub record StoreState : Type 0 where
  pub manifest : Manifest
  -- the active WAL's sequence number; `none` in memory
  pub wal : Option ℕ
  pub collections : Map ℕ CollectionState
  pub names : Map Text ℕ
  pub pending_flush : Option PendingFlush
  pub maint_error : Bool

-- The files: the manifest that CURRENT points to, WAL files by sequence number, segments by
-- collection.
pub record Disk : Type 0 where
  pub manifest : Manifest
  pub wal_files : Map ℕ (List WalRecord)
  pub segments : Map ℕ (List Segment)

abbrev pub pending_memtable : Option PendingFlush → ℕ → Option Memtable
pending_memtable none cid = none
pending_memtable (some p) cid = lookup cid p.memtables

-- The loop over the segments, newest first, of `get` and `current_record`.
unfoldable pub get_in_segments : List Segment → InternalId → Option StoredRecord
get_in_segments [] id = none
get_in_segments (seg ∷ segs) id =
    if is_tombstoned seg id
    then none
    else elim (row_of seg id) [ some row ↦ stored seg row | none ↦ get_in_segments segs id ]

-- The loop over the segments of `is_id_live`.
unfoldable pub live_in_segments : List Segment → InternalId → Bool
live_in_segments [] id = false
live_in_segments (seg ∷ segs) id =
    if is_tombstoned seg id
    then false
    else if contains seg id
    then true
    else live_in_segments segs id

-- A memtable decides an id that it deletes or holds; else `rest` goes on.
abbrev pub get_in_memtable : Memtable → InternalId → Option StoredRecord → Option StoredRecord
get_in_memtable mt id rest =
    if Memtable.is_deleted mt id
    then none
    else elim (Memtable.get mt id) [ some rec ↦ some rec | none ↦ rest ]

abbrev pub live_in_memtable : Memtable → InternalId → Bool → Bool
live_in_memtable mt id rest =
    if Memtable.is_deleted mt id then false else if is_some (Memtable.get mt id) then true else rest

unfoldable pub get_in_pending :
    Option Memtable → InternalId → Option StoredRecord → Option StoredRecord
get_in_pending none id rest = rest
get_in_pending (some mt) id rest = get_in_memtable mt id rest

unfoldable pub live_in_pending : Option Memtable → InternalId → Bool → Bool
live_in_pending none id rest = rest
live_in_pending (some mt) id rest = live_in_memtable mt id rest

unfoldable pub current_in : CollectionState → Option Memtable → InternalId → Option StoredRecord
current_in col pending id =
    get_in_memtable col.memtable id (get_in_pending pending id (get_in_segments col.segments id))

unfoldable pub current_record : StoreState → ℕ → InternalId → Option StoredRecord
current_record s cid id = elim (lookup cid s.collections) [
  | none ↦ none
  | some col ↦ current_in col (pending_memtable s.pending_flush cid) id
]

unfoldable pub live_in : CollectionState → Option Memtable → InternalId → Bool
live_in col pending id =
    live_in_memtable col.memtable id (live_in_pending pending id (live_in_segments col.segments id))

-- Its callers have checked that the collection is there.
unfoldable pub is_id_live : StoreState → ℕ → InternalId → Bool
is_id_live s cid id = elim (lookup cid s.collections) [
  | none ↦ false
  | some col ↦ live_in col (pending_memtable s.pending_flush cid) id
]

-- A snapshot for readers: memtables and segments, newest first.
pub record LiveView : Type 0 where
  pub memtables : List Memtable
  pub segments : List Segment
  pub live_len : ℕ

-- The snapshot of a collection and its memtable that waits for a flush.
unfoldable pub snapshot : CollectionState → Option Memtable → LiveView
snapshot col none = record {
  memtables = col.memtable ∷ [];
  segments = col.segments;
  live_len = col.live_len;
}
snapshot col (some mt) = record {
  memtables = col.memtable ∷ mt ∷ [];
  segments = col.segments;
  live_len = col.live_len;
}

-- `Store::view`
unfoldable pub view : ℕ → StoreState → Result LiveView
unfolding snapshot
view cid s = elim (lookup cid s.collections) [
  | none ↦ err collection_not_found
  | some col ↦ ok (snapshot col (pending_memtable s.pending_flush cid))
]

-- `LiveView::get`
unfoldable pub get_in_memtables :
    List Memtable → InternalId → Option StoredRecord → Option StoredRecord
get_in_memtables [] id rest = rest
get_in_memtables (mt ∷ mts) id rest = get_in_memtable mt id (get_in_memtables mts id rest)

unfoldable pub get : LiveView → InternalId → Option StoredRecord
get v id = get_in_memtables v.memtables id (get_in_segments v.segments id)

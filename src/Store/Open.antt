-- ===== src/Store/Open.antt =====
-- The start of the store and the switch of a follower's generation, of store.rs: `scan_segments`,
-- `LiveView::is_live`, `load_state`, `open`, `open_follower` and `switch_generation`; and the
-- getters. A WAL file is here the list of the records that `WalReader::read_all` finds in it. The
-- lock file and the maintenance thread, and the check of the options, are not modelled.
pub mod Sees
pub mod Files
pub mod Survives
pub mod Writes
pub mod Tidy
pub mod Fresh
use mathlib.Core.List.{reverse}
use hamane_db.Base.{
  ℕ, zero, suc, ◌+◌, ◌-◌, ◌%◌, ◌^◌, Bool, true, false, not, Option, none, some, List, [], ◌∷◌, Map,
  lookup, insert, min, max, nat_eq, bytes_eq, if◌then◌else◌, is_some, length, take, leb, ltb, ◌==◌,
  keys, ◌||◌,
}
use hamane_db.Base.Outcome.{
  Result, ok, err, ◌>>=◌, ◌>>◌, ensure, io, invalid_config, collection_not_found,
}
use hamane_db.Core.Record.{
  InternalId, Text, MetaValue, Metadata, Metric, ext_id_base, ext_id_meta_key, compare_bytes,
}
use hamane_db.Memtable
use hamane_db.Memtable.{Memtable}
use hamane_db.Segment.{Segment, Row, contains, is_tombstoned, row_metadata}
use hamane_db.Manifest
use hamane_db.Manifest.{SegmentEntry, CollectionEntry, Manifest}
use hamane_db.Wal.Record.{WalRecord}
use hamane_db.Wal.Commit.{idle_batch}
use hamane_db.Store.State.{CollectionState, new_collection, StoreState, Disk, LiveView}
use hamane_db.Store.Apply.{replay}
use hamane_db.Store.Maintain.{World, Shared, segments_of, newer_files, cleanup}
use hamane_db.Store.Api.{with_state, check_collection, find_name, get_or_zero}

-- The two loops of `is_live`: no source on the list holds or deletes the id.
unfoldable pub memtables_silent : List Memtable → InternalId → Bool
memtables_silent [] id = true
memtables_silent (mt ∷ mts) id =
    if is_some (Memtable.get mt id) || Memtable.is_deleted mt id
    then false
    else memtables_silent mts id

unfoldable pub segments_silent : List Segment → InternalId → Bool
segments_silent [] id = true
segments_silent (seg ∷ segs) id =
    if contains seg id || is_tombstoned seg id then false else segments_silent segs id

-- `LiveView::is_live`: whether no source newer than the one of this rank knows the id.
unfoldable pub is_live : LiveView → InternalId → ℕ → Bool
unfolding memtables_silent segments_silent
is_live v id rank =
    let mt_count = length v.memtables in
    if memtables_silent (take (min rank mt_count) v.memtables) id
    then (if ltb mt_count rank
        then segments_silent (take (rank - mt_count) v.segments) id
        else true)
    else false

-- The variables of the scan: the count of live rows, the string ids, the next number of one.
pub record Scan : Type 0 where
  pub live_len : ℕ
  pub ext_ids : Map Text InternalId
  pub next_ext_id : InternalId

abbrev pub scan_start : Scan
scan_start = record { live_len = 0; ext_ids = []; next_ext_id = ext_id_base }

unfoldable pub track_row : InternalId → Option MetaValue → Scan → Scan
track_row id (some (MetaValue.str ext)) acc = record acc {
  ext_ids = insert ext id acc.ext_ids;
  next_ext_id = max acc.next_ext_id ((id + 1) % 2 ^ 64);
}
track_row id _ acc = acc

-- One row: metadata is decoded only for ids of the range that string ids get.
unfoldable pub scan_row : LiveView → ℕ → Row → Scan → Result Scan
unfolding is_live track_row
scan_row v rank row acc =
    let counted = record acc { live_len = acc.live_len + 1 } in
    if not (is_live v row.id rank)
    then ok acc
    else if leb ext_id_base row.id
    then (do
      metadata ← row_metadata row
      ok (track_row row.id (lookup ext_id_meta_key metadata) counted))
    else ok counted

unfoldable pub scan_rows : LiveView → ℕ → List Row → Scan → Result Scan
scan_rows v rank [] acc = ok acc
scan_rows v rank (row ∷ rows) acc = do acc' ← scan_row v rank row acc; scan_rows v rank rows acc'

-- The segments from the one of this rank on.
unfoldable pub scan_from : LiveView → ℕ → List Segment → Scan → Result Scan
unfolding scan_rows
scan_from v rank [] acc = ok acc
scan_from v rank (seg ∷ segs) acc = do
  acc' ← scan_rows v rank seg.rows acc
  scan_from v (rank + 1) segs acc'

unfoldable pub scan_segments : List Segment → Result Scan
unfolding scan_from
scan_segments segs =
    scan_from (record { memtables = []; segments = segs; live_len = 0 }) 0 segs scan_start

-- `Segment::open` in the directory of a collection.
unfoldable pub open_segment : List Segment → ℕ → Result Segment
open_segment [] seg_id = err io
open_segment (seg ∷ segs) seg_id = if seg.seg_id == seg_id then ok seg else open_segment segs seg_id

unfoldable pub open_segments : List Segment → List SegmentEntry → Result (List Segment)
unfolding open_segment
open_segments dir [] = ok []
open_segments dir (e ∷ es) = do
  seg ← open_segment dir e.seg_id
  segs ← open_segments dir es
  ok (seg ∷ segs)

-- The collection of one entry of the manifest. The manifest has the oldest segment first.
unfoldable pub load_collection : List Segment → CollectionEntry → Result CollectionState
unfolding open_segments scan_segments
load_collection dir entry = do
  segments ← open_segments dir entry.segments
  scan ← scan_segments (reverse segments)
  ok (record (new_collection entry.name entry.dim entry.metric) {
    segments = reverse segments;
    live_len = scan.live_len;
    ext_ids = scan.ext_ids;
    next_ext_id = scan.next_ext_id;
  })

pub record Loaded : Type 0 where
  pub collections : Map ℕ CollectionState
  pub names : Map Text ℕ

unfoldable pub load_collections :
    Map ℕ (List Segment) → List CollectionEntry → Loaded → Result Loaded
unfolding load_collection
load_collections dirs [] acc = ok acc
load_collections dirs (entry ∷ entries) acc = do
  col ← load_collection (segments_of dirs entry.collection_id) entry
  load_collections dirs entries (record {
    collections = insert entry.collection_id col acc.collections;
    names = insert entry.name entry.collection_id acc.names;
  })

-- The state before the logs are replayed.
unfoldable pub load_base : Disk → Result StoreState
unfolding load_collections
load_base d = do
  loaded ←
      load_collections d.segments d.manifest.collections (record { collections = []; names = [] })
  ok (record {
    manifest = d.manifest;
    wal = none;
    collections = loaded.collections;
    names = loaded.names;
    pending_flush = none;
    maint_error = false;
  })

-- `list_wal_files`: by ascending number.
unfoldable pub insert_file : ℕ × List WalRecord → Map ℕ (List WalRecord) → Map ℕ (List WalRecord)
insert_file f [] = f ∷ []
insert_file f (g ∷ files) = if leb f.0 g.0 then f ∷ g ∷ files else g ∷ insert_file f files

unfoldable pub list_wal_files : Map ℕ (List WalRecord) → Map ℕ (List WalRecord)
unfolding insert_file
list_wal_files [] = []
list_wal_files (f ∷ files) = insert_file f (list_wal_files files)

-- The replay: the state, and the greatest number of a log.
unfoldable pub replay_files : Map ℕ (List WalRecord) → StoreState × ℕ → Result (StoreState × ℕ)
replay_files [] acc = ok acc
replay_files ((seq, recs) ∷ files) (s, max_seq) =
    if leb seq s.manifest.wal_seq
    then replay_files files (s, max_seq)
    else (do s' ← replay s recs; replay_files files (s', max max_seq seq))

-- What a crash leaves of the logs: of the records at the end of a log that no `sync_data` has put on
-- the disk, as many are lost as `loss` says.
unfoldable pub kept_files : (ℕ → ℕ) → Map ℕ ℕ → Map ℕ (List WalRecord) → Map ℕ (List WalRecord)
kept_files loss unflushed [] = []
kept_files loss unflushed ((seq, recs) ∷ files) =
    (seq, take (length recs - min (loss seq) (get_or_zero seq unflushed)) recs)
    ∷ kept_files loss unflushed files

unfoldable pub crash : (ℕ → ℕ) → World → Disk
unfolding kept_files
crash loss w = record w.disk { wal_files = kept_files loss w.unflushed w.disk.wal_files }

-- What the start removes: logs that the manifest covers, and segments that it does not name.
unfoldable pub tidied : Manifest → Disk → Disk
tidied m d = record d {
  wal_files = newer_files m.wal_seq d.wal_files;
  segments = cleanup m d.segments;
}

unfoldable pub load_state : Disk → Result ((StoreState × ℕ) × Disk)
unfolding load_base list_wal_files replay_files tidied
load_state d = do
  base ← load_base d
  (s, max_seq) ← replay_files (list_wal_files d.wal_files) (base, base.manifest.wal_seq)
  ok ((s, max_seq), tidied s.manifest d)

-- `Manifest::default().store` where there is no CURRENT.
unfoldable pub initialised : Option Disk → Disk
initialised none = record { manifest = Manifest.empty; wal_files = []; segments = [] }
initialised (some d) = d

-- `Store::open`: the new log is the active one; the old ones stay until the next flush. What the
-- start has read is taken to be on the disk.
unfoldable pub open_store : Option Disk → Result World
unfolding load_state initialised
open_store dir = do
  ((s, max_seq), d) ← load_state (initialised dir)
  ok (record {
    state = record s { wal = some (max_seq + 1) };
    disk = record d { wal_files = insert (max_seq + 1) [] d.wal_files };
    batch_state = idle_batch;
    unsynced = 0;
    unflushed = [];
  })

-- `open_follower`: a follower writes no log, and has no writer.
unfoldable pub open_follower : Option Disk → Result World
open_follower dir = do
  ((s, max_seq), d) ← load_state (initialised dir)
  ok (record { state = s; disk = d; batch_state = idle_batch; unsynced = 0; unflushed = [] })

-- `switch_generation`: whether the state was replaced.
unfoldable pub switch_generation : Shared → World → Result (Bool × World)
switch_generation sh w = do
  ensure sh.follower invalid_config
  if w.disk.manifest.gen == w.state.manifest.gen
      then ok (false, w)
      else (do ((s, max_seq), d) ← load_state w.disk; ok (true, record w { state = s; disk = d }))

pub record CollectionInfo : Type 0 where
  pub collection_id : ℕ
  pub dim : ℕ
  pub metric : Metric

-- `state.collections[&id]` would panic where a name points to no collection; the error here stands
-- for that.
unfoldable pub collection_info : Text → StoreState → Result CollectionInfo
collection_info name s = elim (lookup name s.names) [
  | none ↦ err collection_not_found
  | some cid ↦ elim (lookup cid s.collections) [
    | none ↦ err collection_not_found
    | some col ↦ ok (record { collection_id = cid; dim = col.dim; metric = col.metric })
  ]
]

unfoldable pub resolve_ext_id : ℕ → Text → World → Result (Option InternalId)
resolve_ext_id cid ext w = do
  check_collection cid w
  elim (lookup cid w.state.collections) [
    | none ↦ err collection_not_found
    | some col ↦ ok (lookup ext col.ext_ids)
  ]

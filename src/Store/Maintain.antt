-- ===== src/Store/Maintain.antt =====
-- Rotation and flushing of store.rs. `flush_pending` holds the lock in its first and its last
-- part only, so these are functions of their own, and the state may change in between.
-- The index files that a segment gets are not modelled.
pub mod Rotate
pub mod Flush
use mathlib.Core.List.{reverse}
use hamane_db.Base.{
  ℕ, zero, suc, ◌+◌, ◌*◌, Bool, true, false, not, ◌&&◌, ◌||◌, Option, none, some, List, [], ◌∷◌,
  ◌++◌, map, Map, lookup, insert, keys, max, nat_eq, ltb, leb, length, if◌then◌else◌, is_some, ◌==◌,
}
use hamane_db.Core.Record.{InternalId}
use hamane_db.Memtable
use hamane_db.Memtable.{Memtable}
use hamane_db.Segment.{Segment, write, sort_ids}
use hamane_db.Manifest.{SegmentEntry, CollectionEntry, Manifest}
use hamane_db.Wal.Commit.{SyncPolicy, BatchState, idle_batch}
use hamane_db.Store.State.{CollectionState, PendingFlush, StoreState, Disk}

pub record World : Type 0 where
  pub state : StoreState
  pub disk : Disk
  -- The `WalWriter` of the active log, of which `state.wal` has the number.
  pub batch_state : BatchState
  pub unsynced : ℕ
  -- How many of the last records of a log no `sync_data` has put on the disk; none without an entry.
  pub unflushed : Map ℕ ℕ

-- `Shared`: the options, whether there is a directory, whether the store is a follower. `await` is
-- the world in which a wait on `flush_done` ends, which other threads decide.
pub record Shared : Type 0 where
  pub durable : Bool
  pub sync : SyncPolicy
  pub follower : Bool
  pub flush_threshold_bytes : ℕ
  pub compaction_threshold : ℕ
  pub await : World → World

-- `any(|c| c.memtable.approx_bytes() >= limit)`
unfoldable pub any_over : ℕ → Map ℕ CollectionState → Bool
any_over limit [] = false
any_over limit ((cid, col) ∷ cols) = leb limit col.memtable.bytes || any_over limit cols

-- `all(|c| c.memtable.is_empty())`
unfoldable pub all_empty : Map ℕ CollectionState → Bool
all_empty [] = true
all_empty ((cid, col) ∷ cols) = Memtable.is_empty col.memtable && all_empty cols

-- The memtables that are not empty, and the collections without them.
unfoldable pub taken : Map ℕ CollectionState → Map ℕ Memtable
taken [] = []
taken ((cid, col) ∷ cols) =
    if Memtable.is_empty col.memtable then taken cols else (cid, col.memtable) ∷ taken cols

unfoldable pub emptied : Map ℕ CollectionState → Map ℕ CollectionState
emptied [] = []
emptied ((cid, col) ∷ cols) =
    (
      cid,
      (if Memtable.is_empty col.memtable then col else record col { memtable = Memtable.empty }),
    )
    ∷ emptied cols

abbrev pub seq_or_zero : Option ℕ → ℕ
seq_or_zero none = 0
seq_or_zero (some seq) = seq

unfoldable pub rotated : World → World
unfolding taken emptied
rotated w =
    let old_seq = seq_or_zero w.state.wal in
    record w {
      state = record w.state {
        collections = emptied w.state.collections;
        wal = some (old_seq + 1);
        pending_flush = some (record { wal_seq = old_seq; memtables = taken w.state.collections });
      };
      disk = record w.disk { wal_files = insert (old_seq + 1) [] w.disk.wal_files };
      batch_state = idle_batch;
      unsynced = 0;
    }

-- Whether it rotated, and the world after.
unfoldable pub rotate : Shared → World → Bool × World
unfolding all_empty
rotate sh w =
    if not sh.durable
    then (false, w)
    else if is_some w.state.pending_flush
    then (false, w)
    else if all_empty w.state.collections
    then (false, w)
    else (true, rotated w)

-- The loop that waits on `flush_done` is left at once after an error of the maintenance thread.
unfoldable pub waited : Shared → World → World
waited sh w = if w.state.maint_error then w else sh.await w

unfoldable pub maybe_flush : Shared → World → World
unfolding any_over waited
maybe_flush sh w =
    if not sh.durable || not (any_over sh.flush_threshold_bytes w.state.collections)
    then w
    else if is_some w.state.pending_flush
    then (if any_over (sh.flush_threshold_bytes * 4) w.state.collections
        then (rotate sh (waited sh w)).1
        else w)
    else (rotate sh w).1

-- One memtable that is to become a segment.
pub record FlushJob : Type 0 where
  pub cid : ℕ
  pub memtable : Memtable
  pub seg_id : ℕ

pub record FlushPlan : Type 0 where
  pub wal_seq : ℕ
  pub work : List FlushJob

-- `for cid in cids`: a collection that was dropped is left out and takes no number.
unfoldable pub plan_work : Map ℕ CollectionState → Map ℕ Memtable → List ℕ → ℕ → List FlushJob
plan_work cols mts [] next = []
plan_work cols mts (cid ∷ cids) next = elim (lookup cid cols) [
  | none ↦ plan_work cols mts cids next
  | some col ↦ elim (lookup cid mts) [
    | none ↦ plan_work cols mts cids next
    | some mt ↦
        record { cid = cid; memtable = mt; seg_id = next } ∷ plan_work cols mts cids (next + 1)
  ]
]

-- Part 1, under the lock.
unfoldable pub plan_flush : StoreState → Option FlushPlan
unfolding plan_work
plan_flush s = elim s.pending_flush [
  | none ↦ none
  | some pending ↦ some (record {
    wal_seq = pending.wal_seq;
    work =
        plan_work s.collections pending.memtables (sort_ids (keys pending.memtables))
          s.manifest.next_seg_id;
  })
]

unfoldable pub segment_of : FlushJob → Segment
segment_of job = write job.seg_id job.memtable

abbrev pub segments_of : Map ℕ (List Segment) → ℕ → List Segment
segments_of m cid = elim (lookup cid m) [ none ↦ [] | some segs ↦ segs ]

-- Part 2, without the lock: the segments are written.
unfoldable pub write_segments : List FlushJob → Disk → Disk
unfolding segment_of
write_segments [] d = d
write_segments (job ∷ work) d = write_segments work (record d {
  segments = insert job.cid (segment_of job ∷ segments_of d.segments job.cid) d.segments;
})

unfoldable pub entry_of : Segment → SegmentEntry
entry_of seg = record {
  seg_id = seg.seg_id;
  record_count = length seg.rows;
  tombstone_count = length seg.tombstones;
}

unfoldable pub new_entries : ℕ → List FlushJob → List SegmentEntry
new_entries cid [] = []
new_entries cid (job ∷ work) =
    if cid == job.cid then entry_of (segment_of job) ∷ [] else new_entries cid work

unfoldable pub collection_entries :
    Map ℕ CollectionState → List FlushJob → List ℕ → List CollectionEntry
unfolding new_entries
collection_entries cols work [] = []
collection_entries cols work (cid ∷ cids) = elim (lookup cid cols) [
  | none ↦ collection_entries cols work cids
  | some col ↦
      record {
        collection_id = cid;
        name = col.name;
        dim = col.dim;
        metric = col.metric;
        segments = reverse (map entry_of col.segments) ++ new_entries cid work;
      }
      ∷ collection_entries cols work cids
]

-- The greatest `seg_id + 1`, or what the manifest has where there is no work.
unfoldable pub next_seg_id : List FlushJob → ℕ → ℕ
next_seg_id [] old = old
next_seg_id (job ∷ []) old = job.seg_id + 1
next_seg_id (job ∷ job' ∷ work) old = max (job.seg_id + 1) (next_seg_id (job' ∷ work) old)

unfoldable pub flushed_manifest : FlushPlan → StoreState → Manifest
unfolding collection_entries next_seg_id
flushed_manifest plan s = record {
  gen = s.manifest.gen + 1;
  next_collection_id = s.manifest.next_collection_id;
  next_seg_id = next_seg_id plan.work s.manifest.next_seg_id;
  wal_seq = plan.wal_seq;
  collections = collection_entries s.collections plan.work (sort_ids (keys s.collections));
}

-- Each new segment becomes the newest of its collection, if that is still there.
unfoldable pub add_segments : List FlushJob → Map ℕ CollectionState → Map ℕ CollectionState
add_segments [] cols = cols
add_segments (job ∷ work) cols = add_segments work (elim (lookup job.cid cols) [
  | none ↦ cols
  | some col ↦ insert job.cid (record col { segments = segment_of job ∷ col.segments }) cols
])

unfoldable pub newer_files : {A : Type 0} → ℕ → Map ℕ A → Map ℕ A
newer_files seq [] = []
newer_files seq ((n, file) ∷ files) =
    if leb n seq then newer_files seq files else (n, file) ∷ newer_files seq files

-- `cleanup_collection_dirs`: what the manifest does not name is removed.
unfoldable pub find_entry : ℕ → List CollectionEntry → Option CollectionEntry
find_entry cid [] = none
find_entry cid (c ∷ cs) = if c.collection_id == cid then some c else find_entry cid cs

unfoldable pub is_referenced : ℕ → List SegmentEntry → Bool
is_referenced seg_id [] = false
is_referenced seg_id (e ∷ es) = e.seg_id == seg_id || is_referenced seg_id es

unfoldable pub referenced : List SegmentEntry → List Segment → List Segment
unfolding is_referenced
referenced es [] = []
referenced es (seg ∷ segs) =
    let rest = referenced es segs in if is_referenced seg.seg_id es then seg ∷ rest else rest

unfoldable pub cleanup : Manifest → Map ℕ (List Segment) → Map ℕ (List Segment)
unfolding find_entry referenced
cleanup m [] = []
cleanup m ((cid, segs) ∷ dirs) = elim (find_entry cid m.collections) [
  | none ↦ cleanup m dirs
  | some c ↦ (cid, referenced c.segments segs) ∷ cleanup m dirs
]

-- Part 3, under the lock.
unfoldable pub install_flush : FlushPlan → World → World
unfolding flushed_manifest add_segments newer_files cleanup
install_flush plan w =
    let manifest = flushed_manifest plan w.state in
    record w {
      state = record w.state {
        manifest = manifest;
        collections = add_segments plan.work w.state.collections;
        pending_flush = none;
      };
      disk = record w.disk {
        manifest = manifest;
        wal_files = newer_files plan.wal_seq w.disk.wal_files;
        segments = cleanup manifest w.disk.segments;
      };
    }

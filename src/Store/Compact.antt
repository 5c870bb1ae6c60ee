-- ===== src/Store/Compact.antt =====
-- `compact_collection` of store.rs: the choice of a run of segments, their merge, newest wins, and
-- the replacement of the run by its merge.
pub mod Merge
pub mod Keeps
use mathlib.Core.List.{reverse}
use hamane_db.Base.{
  ℕ, zero, suc, ◌+◌, ◌*◌, Bool, true, false, not, ◌&&◌, Option, none, some, List, [], ◌∷◌, ◌++◌,
  map, Map, lookup, insert, member, add, max, nat_eq, ltb, leb, ◌==◌, length, take, drop,
  if◌then◌else◌, is_some,
}
use hamane_db.Base.Outcome.{Result, ok, err, ◌>>=◌}
use hamane_db.Core.Record.{InternalId, Metadata}
use hamane_db.Memtable
use hamane_db.Memtable.{StoredRecord, Memtable}
use hamane_db.Segment.{Row, Segment, write, row_metadata}
use hamane_db.Manifest.{SegmentEntry, CollectionEntry, Manifest}
use hamane_db.Store.State.{CollectionState, StoreState, Disk}
use hamane_db.Store.Maintain.{World, Shared, entry_of, segments_of}

pub data CompactMode : Type 0 where
  full partial : CompactMode

-- How many segments after the first, which hold `total` rows, join the run: each may have four
-- times the rows of the run so far, and four in any case.
unfoldable pub run_more : ℕ → List Segment → ℕ
run_more total [] = 0
run_more total (seg ∷ segs) =
    let rest = run_more (total + length seg.rows) segs in
    if leb (length seg.rows) (max (total * 4) 4) then suc rest else 0

unfoldable pub run_length : CompactMode → ℕ → List Segment → Option ℕ
unfolding run_more
run_length mode threshold [] = none
run_length mode threshold (seg ∷ []) = none
run_length full threshold (seg ∷ seg' ∷ segs) = some (length (seg ∷ seg' ∷ segs))
run_length partial threshold (seg ∷ seg' ∷ segs) =
    let len = suc (run_more (length seg.rows) (seg' ∷ segs)) in
    if ltb len (max threshold 2) then none else some len

-- Part 1, under the lock: the run, whether older segments remain, and the new number.
pub record CompactPlan : Type 0 where
  pub run : List Segment
  pub older_remains : Bool
  pub seg_id : ℕ

unfoldable pub plan_compact : Shared → ℕ → CompactMode → StoreState → Option CompactPlan
unfolding run_length
plan_compact sh cid mode s = elim (lookup cid s.collections) [
  | none ↦ none
  | some col ↦ elim (run_length mode sh.compaction_threshold col.segments) [
    | none ↦ none
    | some n ↦ some (record {
      run = take n col.segments;
      older_remains = ltb n (length col.segments);
      seg_id = s.manifest.next_seg_id;
    })
  ]
]

pub record MergeState : Type 0 where
  pub merged : Memtable
  pub seen : List InternalId
  pub deleted : List InternalId

abbrev pub start : MergeState
start = record { merged = Memtable.empty; seen = []; deleted = [] }

-- `if seen.insert(id) && !deleted.contains(&id)`
unfoldable pub merge_row : Row → MergeState → Result MergeState
merge_row r m =
    if not (member r.id m.seen) && not (member r.id m.deleted)
    then (do
      metadata ← row_metadata r
      ok (record m {
        merged = Memtable.upsert r.id (record { vector = r.vector; metadata = metadata }) m.merged;
        seen = add r.id m.seen;
      }))
    else ok (record m { seen = add r.id m.seen })

unfoldable pub merge_rows : List Row → MergeState → Result MergeState
merge_rows [] m = ok m
merge_rows (r ∷ rows) m = do m' ← merge_row r m; merge_rows rows m'

-- `for_each_tombstone`
unfoldable pub add_tombstones : List InternalId → List InternalId → List InternalId
add_tombstones [] deleted = deleted
add_tombstones (id ∷ ids) deleted = add_tombstones ids (add id deleted)

unfoldable pub merge_segment : Segment → MergeState → Result MergeState
merge_segment seg m = do
  m' ← merge_rows seg.rows m
  ok (record m' { deleted = add_tombstones seg.tombstones m'.deleted })

unfoldable pub merge_run : List Segment → MergeState → Result MergeState
merge_run [] m = ok m
merge_run (seg ∷ segs) m = do m' ← merge_segment seg m; merge_run segs m'

-- A tombstone is handed on, unless the run holds a newer record.
unfoldable pub hand_on : List InternalId → Memtable → Memtable
hand_on [] mt = mt
hand_on (id ∷ ids) mt =
    hand_on ids (if is_some (Memtable.get mt id) then mt else Memtable.delete id mt)

unfoldable pub merged_memtable : Bool → MergeState → Memtable
unfolding hand_on
merged_memtable older_remains m = if older_remains then hand_on m.deleted m.merged else m.merged

-- Part 2, without the lock. An empty merge leaves no segment.
unfoldable pub merge_to_segments : CompactPlan → Result (List Segment)
merge_to_segments plan = do
  m ← merge_run plan.run start
  (let mt = merged_memtable plan.older_remains m in
      ok (if Memtable.is_empty mt then [] else write plan.seg_id mt ∷ []))

unfoldable pub replace_entry : ℕ → List SegmentEntry → List CollectionEntry → List CollectionEntry
replace_entry cid segs [] = []
replace_entry cid segs (c ∷ cs) =
    if c.collection_id == cid
    then record c { segments = segs } ∷ cs
    else c ∷ replace_entry cid segs cs

unfoldable pub compacted_manifest :
    ℕ → CompactPlan → List Segment → CollectionState → Manifest → Manifest
unfolding replace_entry
compacted_manifest cid plan new col m = record m {
  gen = m.gen + 1;
  next_seg_id = max m.next_seg_id (plan.seg_id + 1);
  collections =
      replace_entry cid
        (reverse (map entry_of (drop (length plan.run) col.segments)) ++ map entry_of new)
        m.collections;
}

unfoldable pub without_run : List Segment → List Segment → List Segment
without_run run [] = []
without_run run (seg ∷ segs) =
    let rest = without_run run segs in
    if member seg.seg_id (map (λ (r : Segment). r.seg_id) run) then rest else seg ∷ rest

-- Part 3, under the lock; a collection that was dropped meanwhile is left alone.
unfoldable pub install_compact : ℕ → CompactPlan → List Segment → World → World
unfolding compacted_manifest without_run
install_compact cid plan new w = elim (lookup cid w.state.collections) [
  | none ↦ w
  | some col ↦
      (let manifest = compacted_manifest cid plan new col w.state.manifest in
        record w {
          state = record w.state {
            manifest = manifest;
            collections =
                insert cid (record col { segments = new ++ drop (length plan.run) col.segments })
                  w.state.collections;
          };
          disk = record w.disk {
            manifest = manifest;
            segments =
                insert cid (new ++ without_run plan.run (segments_of w.disk.segments cid))
                  w.disk.segments;
          };
        })
]

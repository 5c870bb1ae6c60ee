-- ===== src/Store/Api.antt =====
-- The write methods of `Store`: each checks, logs, syncs the log, applies and may rotate.
pub mod Names
pub mod Logged
use hamane_db.Base.{
  ℕ, ◌+◌, ◌%◌, ◌^◌, Bool, true, false, Option, none, some, List, [], ◌∷◌, ◌++◌, map, Map, lookup,
  insert, contains_key, nat_eq, bytes_eq, eq_bytes, ◌==◌, length, if◌then◌else◌, is_some, not,
  remove,
}
use hamane_db.Base.Outcome.{
  Result, ok, err, ◌>>=◌, ◌>>◌, ensure, read_only_replica, collection_exists, collection_not_found,
}
use hamane_db.Core.Record.{
  InternalId, Text, Metadata, MetaValue, Metric, RecordId, insert_meta, ext_id_meta_key,
}
use hamane_db.Memtable.{StoredRecord}
use hamane_db.Wal.Record.{
  WalRecord, upsert, delete, create_collection, drop_collection, rename_collection,
  swap_collection_names, update_meta,
}
use hamane_db.Wal.Commit.{BatchState, sync, after_fsync, is_settled}
use hamane_db.Store.State.{
  CollectionState, PendingFlush, StoreState, Disk, current_record, is_id_live,
}
use hamane_db.Store.Apply.{set_collection, upsert_into, apply_record, replay}
use hamane_db.Store.Maintain.{World, Shared, maybe_flush}

abbrev pub with_state : World → StoreState → World
with_state w s = record w { state = s }

-- `ensure_writable`
unfoldable pub ensure_writable : Shared → Result (Unit {0})
ensure_writable sh = ensure (not sh.follower) read_only_replica

unfoldable pub check_collection : ℕ → World → Result (Unit {0})
check_collection cid w = ensure (contains_key cid w.state.collections) collection_not_found

abbrev pub file_of : Map ℕ (List WalRecord) → ℕ → List WalRecord
file_of files seq = elim (lookup seq files) [ none ↦ [] | some recs ↦ recs ]

abbrev pub get_or_zero : ℕ → Map ℕ ℕ → ℕ
get_or_zero seq m = elim (lookup seq m) [ none ↦ 0 | some n ↦ n ]

-- `wal.append` for each record.
abbrev pub append_records : ℕ → List WalRecord → World → World
append_records seq recs w = record w {
  disk = record w.disk {
    wal_files = insert seq (file_of w.disk.wal_files seq ++ recs) w.disk.wal_files;
  };
  batch_state = record w.batch_state { appended = w.batch_state.appended + length recs };
  unflushed = insert seq (get_or_zero seq w.unflushed + length recs) w.unflushed;
}

-- `wal.sync()` under the policy of the options. The methods wait for the token after they have
-- released the lock; nothing that comes before reads what the wait changes, which is done here.
unfoldable pub sync_log : Shared → ℕ → World → World
unfolding sync
sync_log sh seq w =
    let outcome =
      sync true (record { batch_state = w.batch_state; policy = sh.sync; unsynced = w.unsynced }) in
    record w {
      batch_state = elim outcome.result [
        | err e ↦ outcome.writer.batch_state
        | ok none ↦ outcome.writer.batch_state
        | ok (some token) ↦ after_fsync true token outcome.writer.batch_state
      ];
      unsynced = outcome.writer.unsynced;
      unflushed = if is_settled outcome then remove seq w.unflushed else w.unflushed;
    }

-- `wal.append` for each record and `wal.sync`, where there is an active WAL.
unfoldable pub log_records : Shared → List WalRecord → World → World
unfolding sync_log
log_records sh recs w = elim w.state.wal [
  | none ↦ w
  | some seq ↦ sync_log sh seq (append_records seq recs w)
]

unfoldable pub log_and_apply : Shared → WalRecord → World → Result World
unfolding log_records
log_and_apply sh rec w = do
  s ← apply_record w.state rec
  ok (with_state (log_records sh (rec ∷ []) w) s)

unfoldable pub create_collection_op : Shared → Text → ℕ → Metric → World → Result (ℕ × World)
create_collection_op sh name dim metric w = do
  ensure_writable sh
  ensure (not (contains_key name w.state.names)) collection_exists
  w' ← log_and_apply sh (create_collection w.state.manifest.next_collection_id name dim metric) w
  ok (w.state.manifest.next_collection_id, w')

-- `state.names.get(name)`
unfoldable pub find_name : Text → World → Result ℕ
find_name name w = elim (lookup name w.state.names) [
  | none ↦ err collection_not_found
  | some cid ↦ ok cid
]

unfoldable pub forget_pending : ℕ → Option PendingFlush → Option PendingFlush
forget_pending cid none = none
forget_pending cid (some p) = some (record p { memtables = remove cid p.memtables })

unfoldable pub drop_collection_op : Shared → Text → World → Result World
unfolding forget_pending
drop_collection_op sh name w = do
  ensure_writable sh
  cid ← find_name name w
  w' ← log_and_apply sh (drop_collection cid) w
  ok (with_state w' (record w'.state { pending_flush = forget_pending cid w'.state.pending_flush }))

unfoldable pub rename_collection_op : Shared → Text → Text → World → Result World
rename_collection_op sh from to w = do
  ensure_writable sh
  cid ← find_name from w
  if eq_bytes from to then ok w else (do
    ensure (not (contains_key to w.state.names)) collection_exists
    log_and_apply sh (rename_collection cid to) w)

unfoldable pub swap_collection_names_op : Shared → Text → Text → World → Result World
swap_collection_names_op sh a b w = do
  ensure_writable sh
  id_a ← find_name a w
  id_b ← find_name b w
  if id_a == id_b then ok w else log_and_apply sh (swap_collection_names id_a id_b) w

unfoldable pub upsert_record : ℕ → InternalId × StoredRecord → WalRecord
upsert_record cid (id, rec) = upsert cid id rec.vector rec.metadata

-- The loop of `upsert_batch` over the records, for a collection that is there.
unfoldable pub put_records : ℕ → List (InternalId × StoredRecord) → StoreState → StoreState
put_records cid [] s = s
put_records cid ((id, rec) ∷ records) s = put_records cid records (elim (lookup cid s.collections) [
  | none ↦ s
  | some col ↦ set_collection cid (upsert_into (is_id_live s cid id) id rec col) s
])

unfoldable pub upsert_batch : Shared → ℕ → List (InternalId × StoredRecord) → World → Result World
unfolding put_records upsert_record
upsert_batch sh cid records w = do
  ensure_writable sh
  check_collection cid w
  (let logged = log_records sh (map (upsert_record cid) records) w in
      ok (maybe_flush sh (with_state logged (put_records cid records logged.state))))

-- Returns whether the id was live.
unfoldable pub delete_op : Shared → ℕ → InternalId → World → Result (Bool × World)
delete_op sh cid id w = do
  ensure_writable sh
  check_collection cid w
  w' ← log_and_apply sh (delete cid id) w
  ok (is_id_live w.state cid id, maybe_flush sh w')

-- `upsert`
unfoldable pub upsert_op : Shared → ℕ → InternalId → StoredRecord → World → Result World
upsert_op sh cid id rec w = upsert_batch sh cid ((id, rec) ∷ []) w

-- The id that `delete_record` deletes: an unknown string id has none.
unfoldable pub known_id : RecordId → CollectionState → Option InternalId
known_id (RecordId.num n) col = some n
known_id (RecordId.str s) col = lookup s col.ext_ids

unfoldable pub delete_record_op : Shared → ℕ → RecordId → World → Result (Bool × World)
unfolding known_id
delete_record_op sh cid rid w = do
  ensure_writable sh
  elim (lookup cid w.state.collections) [
    | none ↦ err collection_not_found
    | some col ↦ elim (known_id rid col) [ none ↦ ok (false, w) | some id ↦ delete_op sh cid id w ]
  ]

-- The loop of `delete_batch`, with the count so far.
unfoldable pub delete_ids : ℕ → List InternalId → ℕ → StoreState → Result (ℕ × StoreState)
delete_ids cid [] deleted s = ok (deleted, s)
delete_ids cid (id ∷ ids) deleted s = do
  s' ← apply_record s (delete cid id)
  delete_ids cid ids (if is_id_live s cid id then deleted + 1 else deleted) s'

unfoldable pub delete_batch : Shared → ℕ → List InternalId → World → Result (ℕ × World)
unfolding delete_ids
delete_batch sh cid [] w = do ensure_writable sh; ok (0, w)
delete_batch sh cid (id ∷ ids) w = do
  ensure_writable sh
  check_collection cid w
  (let logged = log_records sh (map (delete cid) (id ∷ ids)) w in
      (do
        (deleted, s) ← delete_ids cid (id ∷ ids) 0 logged.state
        ok (deleted, maybe_flush sh (with_state logged s))))

-- The updates whose record is there.
unfoldable pub targets :
    ℕ → StoreState → List (InternalId × Metadata) → List (InternalId × Metadata)
targets cid s [] = []
targets cid s ((id, metadata) ∷ updates) =
    let rest = targets cid s updates in
    if is_some (current_record s cid id) then (id, metadata) ∷ rest else rest

unfoldable pub meta_record : ℕ → InternalId × Metadata → WalRecord
meta_record cid (id, metadata) = update_meta cid id metadata

unfoldable pub update_targets :
    Shared → ℕ → List (InternalId × Metadata) → World → Result (ℕ × World)
unfolding meta_record
update_targets sh cid [] w = ok (0, w)
update_targets sh cid (u ∷ us) w =
    let recs = map (meta_record cid) (u ∷ us) in
    let logged = log_records sh recs w in
    (do s ← replay logged.state recs; ok (length (u ∷ us), maybe_flush sh (with_state logged s)))

unfoldable pub update_metadata_batch :
    Shared → ℕ → List (InternalId × Metadata) → World → Result (ℕ × World)
unfolding update_targets targets
update_metadata_batch sh cid [] w = do ensure_writable sh; ok (0, w)
update_metadata_batch sh cid (u ∷ us) w = do
  ensure_writable sh
  check_collection cid w
  update_targets sh cid (targets cid w.state (u ∷ us)) w

-- `update_metadata`: whether the record is there.
unfoldable pub update_metadata_op :
    Shared → ℕ → InternalId → Metadata → World → Result (Bool × World)
update_metadata_op sh cid id metadata w = do
  (n, w') ← update_metadata_batch sh cid ((id, metadata) ∷ []) w
  ok (n == 1, w')

-- `col.ext_ids.entry(s).or_insert_with(...)`: a known string id keeps its number.
unfoldable pub resolve :
    RecordId × StoredRecord → CollectionState → (InternalId × StoredRecord) × CollectionState
resolve (RecordId.num n, rec) col = ((n, rec), col)
resolve (RecordId.str s, rec) col =
    let tagged = record rec {
      metadata = insert_meta ext_id_meta_key (MetaValue.str s) rec.metadata;
    } in
    elim (lookup s col.ext_ids) [
      | some id ↦ ((id, tagged), col)
      | none ↦ (
        (col.next_ext_id, tagged),
        record col {
          ext_ids = insert s col.next_ext_id col.ext_ids;
          next_ext_id = (col.next_ext_id + 1) % 2 ^ 64;
        },
      )
    ]

unfoldable pub resolve_all :
    List (RecordId × StoredRecord)
    → CollectionState
    → List (InternalId × StoredRecord) × CollectionState
unfolding resolve
resolve_all [] col = ([], col)
resolve_all (r ∷ rs) col =
    let (x, col') = resolve r col in let (xs, col'') = resolve_all rs col' in (x ∷ xs, col'')

unfoldable pub upsert_batch_records :
    Shared → ℕ → List (RecordId × StoredRecord) → World → Result World
unfolding resolve_all
upsert_batch_records sh cid records w = do
  ensure_writable sh
  elim (lookup cid w.state.collections) [
    | none ↦ err collection_not_found
    | some col ↦
        (let (resolved, col') = resolve_all records col in
          upsert_batch sh cid resolved (with_state w (set_collection cid col' w.state)))
  ]

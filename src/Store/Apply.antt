-- ===== src/Store/Apply.antt =====
-- `apply_record` of store.rs: one WAL record's effect on the state.
pub mod Live
pub mod Count
pub mod Names
use hamane_db.Base.{
  ℕ, suc, ◌+◌, ◌%◌, ◌^◌, ◌-◌, Bool, true, false, Option, none, some, List, [], ◌∷◌, Map, lookup,
  insert, remove, contains_key, max, nat_eq, bytes_eq, if◌then◌else◌, ◌&&◌,
}
use hamane_db.Base.Outcome.{Result, ok, err, corrupted, ◌>>=◌, ◌>>◌, ensure}
use hamane_db.Core.Record.{InternalId, Text, Metadata, Metric}
use hamane_db.Memtable
use hamane_db.Memtable.{StoredRecord, Memtable}
use hamane_db.Wal.Record.{
  WalRecord, upsert, delete, create_collection, drop_collection, rename_collection,
  swap_collection_names, update_meta,
}
use hamane_db.Store.State.{
  CollectionState, new_collection, track_ext_id, StoreState, current_record, is_id_live,
}

abbrev pub set_collection : ℕ → CollectionState → StoreState → StoreState
set_collection cid col s = record s { collections = insert cid col s.collections }

-- The lines that every write of a record shares: count it if it was not live, track its string
-- id, and put it into the memtable.
unfoldable pub upsert_into : Bool → InternalId → StoredRecord → CollectionState → CollectionState
upsert_into was_live id rec col =
    let col' =
      track_ext_id id rec.metadata
        (record col { live_len = if was_live then col.live_len else col.live_len + 1 }) in
    record col' { memtable = Memtable.upsert id rec col'.memtable }

unfoldable pub delete_from : Bool → InternalId → CollectionState → CollectionState
delete_from was_live id col = record col {
  live_len = if was_live then col.live_len - 1 else col.live_len;
  memtable = Memtable.delete id col.memtable;
}

unfoldable pub apply_create : ℕ → Text → ℕ → Metric → StoreState → StoreState
apply_create cid name dim metric s = record s {
  names = insert name cid s.names;
  collections = insert cid (new_collection name dim metric) s.collections;
  manifest = record s.manifest {
    next_collection_id = max s.manifest.next_collection_id ((cid + 1) % 2 ^ 32);
  };
}

unfoldable pub apply_drop : ℕ → StoreState → StoreState
apply_drop cid s = elim (lookup cid s.collections) [
  | none ↦ s
  | some col ↦ record s { collections = remove cid s.collections; names = remove col.name s.names }
]

unfoldable pub apply_upsert : ℕ → InternalId → StoredRecord → StoreState → Result StoreState
apply_upsert cid id rec s = elim (lookup cid s.collections) [
  | none ↦ err corrupted
  | some col ↦ ok (set_collection cid (upsert_into (is_id_live s cid id) id rec col) s)
]

unfoldable pub apply_delete : ℕ → InternalId → StoreState → Result StoreState
apply_delete cid id s = elim (lookup cid s.collections) [
  | none ↦ err corrupted
  | some col ↦ ok (set_collection cid (delete_from (is_id_live s cid id) id col) s)
]

-- The vector stays as it is; a record that is gone stays gone.
unfoldable pub apply_update_meta : ℕ → InternalId → Metadata → StoreState → Result StoreState
apply_update_meta cid id metadata s = elim (lookup cid s.collections) [
  | none ↦ err corrupted
  | some col ↦ elim (current_record s cid id) [
    | none ↦ ok s
    | some current ↦ ok (
        set_collection cid
          (upsert_into (is_id_live s cid id) id
            (record { vector = current.vector; metadata = metadata }) col)
          s)
  ]
]

unfoldable pub apply_rename : ℕ → Text → StoreState → Result StoreState
apply_rename cid new_name s = elim (lookup cid s.collections) [
  | none ↦ err corrupted
  | some col ↦ ok (record s {
    collections = insert cid (record col { name = new_name }) s.collections;
    names = insert new_name cid (remove col.name s.names);
  })
]

unfoldable pub swap_names : ℕ → CollectionState → ℕ → CollectionState → StoreState → StoreState
swap_names a col_a b col_b s = record s {
  collections =
      insert b (record col_b { name = col_a.name })
        (insert a (record col_a { name = col_b.name }) s.collections);
  names = insert col_a.name b (insert col_b.name a s.names);
}

unfoldable pub apply_swap : ℕ → ℕ → StoreState → Result StoreState
apply_swap a b s = elim (lookup a s.collections) [
  | none ↦ err corrupted
  | some col_a ↦ elim (lookup b s.collections) [
    | none ↦ err corrupted
    | some col_b ↦ ok (swap_names a col_a b col_b s)
  ]
]

unfoldable pub apply_record : StoreState → WalRecord → Result StoreState
apply_record s (create_collection cid name dim metric) = ok (apply_create cid name dim metric s)
apply_record s (drop_collection cid) = ok (apply_drop cid s)
apply_record s (update_meta cid id metadata) = apply_update_meta cid id metadata s
apply_record s (rename_collection cid new_name) = apply_rename cid new_name s
apply_record s (swap_collection_names a b) = apply_swap a b s
apply_record s (upsert cid id vector metadata) =
    apply_upsert cid id (record { vector = vector; metadata = metadata }) s
apply_record s (delete cid id) = apply_delete cid id s

-- `for record in replay.records`
unfoldable pub replay : StoreState → List WalRecord → Result StoreState
replay s [] = ok s
replay s (rec ∷ recs) = do s' ← apply_record s rec; replay s' recs

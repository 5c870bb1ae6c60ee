-- ===== src/Collection/Api.antt =====
-- The methods of `Collection` that stand on the store: ids are resolved, and metadata is patched.
pub mod Patch
pub mod Update
use hamane_db.Base.{
  ℕ, Bool, false, not, ◌&&◌, ◌||◌, Option, none, some, List, [], ◌∷◌, lookup, eq_bytes,
  if◌then◌else◌, bytes_eq, nat_eq, contains_key,
}
use hamane_db.Base.Outcome.{Result, ok, err, ◌>>=◌, ◌>>◌, ensure, invalid_config}
use hamane_db.Core.Record.{
  InternalId, Text, RecordId, Metadata, Record, ext_id_meta_key, insert_meta,
}
use hamane_db.Memtable
use hamane_db.Memtable.{StoredRecord}
use hamane_db.Store.State.{LiveView, pending_memtable, view, get}
use hamane_db.Store.Maintain.{World, Shared}
use hamane_db.Store.Api.{update_metadata_batch, delete_batch}
use hamane_db.Store.Open.{resolve_ext_id}

-- `Store::view`, none where it fails: the collection is gone.
unfoldable pub view_of : ℕ → World → Option LiveView
unfolding view
view_of cid w = elim (view cid w.state) [ err e ↦ none | ok v ↦ some v ]

unfoldable pub resolve_id : ℕ → RecordId → World → Result (Option InternalId)
resolve_id cid (RecordId.num n) w = ok (some n)
resolve_id cid (RecordId.str s) w = resolve_ext_id cid s w

abbrev pub to_record : RecordId → Option StoredRecord → Option Record
to_record rid none = none
to_record rid (some stored) =
    some (record { id = rid; vector = stored.vector; metadata = stored.metadata })

-- `Collection::get`: an error or an unknown id is no record.
unfoldable pub get_record : ℕ → RecordId → World → Option Record
unfolding resolve_id view_of
get_record cid rid w = elim (resolve_id cid rid w) [
  | err e ↦ none
  | ok none ↦ none
  | ok (some id) ↦ elim (view_of cid w) [ none ↦ none | some v ↦ to_record rid (get v id) ]
]

-- `BTreeMap::remove`
unfoldable pub remove_meta : Text → Metadata → Metadata
remove_meta k [] = []
remove_meta k ((j, x) ∷ m) = if eq_bytes j k then m else (j, x) ∷ remove_meta k m

unfoldable pub remove_all : List Text → Metadata → Metadata
remove_all [] m = m
remove_all (k ∷ ks) m = remove_all ks (remove_meta k m)

unfoldable pub set_all : Metadata → Metadata → Metadata
set_all [] m = m
set_all ((k, x) ∷ set) m = set_all set (insert_meta k x m)

-- The patch of `MetaUpdate`: the removals first, then the new values.
unfoldable pub patched : Metadata → List Text → Metadata → Metadata
unfolding remove_all set_all
patched set remove m = set_all set (remove_all remove m)

-- `apply_meta_patch`
unfoldable pub apply_meta_patch : ℕ → RecordId → Metadata → List Text → World → Option Record
unfolding get_record patched
apply_meta_patch cid rid set remove w = elim (get_record cid rid w) [
  | none ↦ none
  | some rec ↦ some (record rec { metadata = patched set remove rec.metadata })
]

-- `write_metadata_batch`: an id that cannot be resolved is left out.
unfoldable pub resolve_updates :
    ℕ → List (RecordId × Metadata) → World → Result (List (InternalId × Metadata))
resolve_updates cid [] w = ok []
resolve_updates cid ((rid, metadata) ∷ updates) w = do
  internal ← resolve_id cid rid w
  rest ← resolve_updates cid updates w
  ok (elim internal [ none ↦ rest | some id ↦ (id, metadata) ∷ rest ])

unfoldable pub write_metadata_batch :
    Shared → ℕ → List (RecordId × Metadata) → World → Result (ℕ × World)
unfolding resolve_updates
write_metadata_batch sh cid updates w = do
  resolved ← resolve_updates cid updates w
  update_metadata_batch sh cid resolved w

abbrev pub any_key : Text → List Text → Bool
any_key k [] = false
any_key k (j ∷ js) = eq_bytes j k || any_key k js

-- Whether a patch would change what the engine keeps under `_ext_id`.
unfoldable pub touches_ext_id : Metadata → List Text → Bool
touches_ext_id set remove = contains_key ext_id_meta_key set || any_key ext_id_meta_key remove

-- The patched record is written, if there is one.
unfoldable pub write_patched : Shared → ℕ → Option Record → World → Result (ℕ × World)
unfolding write_metadata_batch
write_patched sh cid none w = ok (0, w)
write_patched sh cid (some rec) w = write_metadata_batch sh cid ((rec.id, rec.metadata) ∷ []) w

-- `MetaUpdate::run` for one record.
unfoldable pub run_update_one :
    Shared → ℕ → RecordId → Metadata → List Text → World → Result (ℕ × World)
unfolding apply_meta_patch write_patched touches_ext_id
run_update_one sh cid rid set remove w = do
  ensure (not (touches_ext_id set remove)) invalid_config
  (if Memtable.is_nil set && Memtable.is_nil remove
      then ok (0, w)
      else write_patched sh cid (apply_meta_patch cid rid set remove w) w)

-- `Collection::delete_batch`: an unknown string id is left out.
unfoldable pub resolve_ids : ℕ → List RecordId → World → Result (List InternalId)
resolve_ids cid [] w = ok []
resolve_ids cid (rid ∷ rids) w = do
  internal ← resolve_id cid rid w
  rest ← resolve_ids cid rids w
  ok (elim internal [ none ↦ rest | some id ↦ id ∷ rest ])

unfoldable pub delete_records : Shared → ℕ → List RecordId → World → Result (ℕ × World)
unfolding resolve_ids
delete_records sh cid rids w = do ids ← resolve_ids cid rids w; delete_batch sh cid ids w

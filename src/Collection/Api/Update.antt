-- ===== src/Collection/Api/Update.antt =====
-- An update of the metadata of one record: what it does to the reads.
use hamane_db.Base.{
  ℕ, ◌≡◌, refl, sym, ◌∙◌, ap, subst, true, false, ◌&&◌, Option, none, some, List, [], ◌∷◌, lookup,
  IsUnique, Option-cases, inl, inr, nat_eq, bytes_eq, is_some,
}
use hamane_db.Base.Outcome.{ok}
use hamane_db.Core.Record.{InternalId, Text, RecordId, Metadata, Record}
use hamane_db.Memtable
use hamane_db.Memtable.{StoredRecord}
use hamane_db.Wal.Record.{update_meta}
use hamane_db.Store.State.{CollectionState, StoreState, pending_memtable, current_record}
use hamane_db.Store.State.View.{get-snapshot}
use hamane_db.Store.Apply.{replay}
use hamane_db.Store.Apply.Live.{
  with_metadata, override, write_reads, is_write_in, apply_record-write_reads,
}
use hamane_db.Store.Maintain.{World, Shared, maybe_flush}
use hamane_db.Store.Maintain.Rotate.{maybe_flush-current_record}
use hamane_db.Store.Api.{
  with_state, ensure_writable, check_collection, log_records, targets, meta_record, update_targets,
  update_metadata_batch,
}
use hamane_db.Store.Api.Logged.{IsQuiet, log_records-state, waited-IsUnique, waited-current_record}
use hamane_db.Store.Open.Sees.{apply_record-IsUnique}
use hamane_db.Collection.Api.Patch.{patched_value, lookup-patched}
use hamane_db.Collection.Api.{
  view_of, resolve_id, to_record, get_record, patched, apply_meta_patch, resolve_updates,
  write_metadata_batch, write_patched, touches_ext_id, run_update_one,
}

-- `get` of a numeric id gives its current record.
pub get_record-current_record :
    (cid : ℕ) (n : InternalId) (w : World)
    → get_record cid (RecordId.num n) w ≡ to_record (RecordId.num n) (current_record w.state cid n)
unfolding get_record resolve_id view_of current_record
get_record-current_record cid n w = elim (Option-cases (lookup cid w.state.collections)) [
  | inl e ↦ rw (get_record, e, current_record) refl
  | inr (col, e) ↦
      rw (get_record, e, current_record)
        (ap (to_record (RecordId.num n))
          (get-snapshot col (pending_memtable w.state.pending_flush cid) n))
]

-- A batch of one update, of a record that is there.
update_one :
    (sh : Shared) (cid : ℕ) (n : InternalId) (metadata : Metadata) (w : World)
    (col : CollectionState) (cur : StoredRecord)
    → sh.follower ≡ false
    → lookup cid w.state.collections ≡ some col
    → IsUnique w.state.collections
    → IsQuiet sh
    → current_record w.state cid n ≡ some cur
    → (w' : World) × (update_metadata_batch sh cid ((n, metadata) ∷ []) w ≡ ok (1, w'))
      × ((k : ℕ) (j : InternalId)
          → current_record w'.state k j
            ≡ write_reads (update_meta cid n metadata) (current_record w.state) k j)
unfolding update_metadata_batch ensure_writable check_collection targets update_targets meta_record
    replay is_write_in
update_one sh cid n metadata w col cur f e u q c =
    let rec = update_meta cid n metadata in
    let logged = log_records sh (rec ∷ []) w in
    let same : logged.state ≡ w.state = log_records-state sh (rec ∷ []) w in
    let there : is_write_in logged.state rec ≡ true =
      ap (λ (s : StoreState). is_some (lookup cid s.collections)) same
      ∙ ap (λ (o : Option CollectionState). is_some o) e in
    let (s', done, reads) = apply_record-write_reads logged.state rec there in
    let unique : IsUnique s'.collections =
      apply_record-IsUnique logged.state rec done
        (subst (λ (s : StoreState). IsUnique s.collections) (sym same) u) in
    let put = with_state logged s' in
    let the_targets : update_targets sh cid ((n, metadata) ∷ []) w ≡ ok (1, maybe_flush sh put) =
      rw done refl in
    (
      maybe_flush sh put,
      rw (update_metadata_batch, f, e, c) refl ∙ the_targets,
      λ k j.
          maybe_flush-current_record sh put k j unique (waited-IsUnique sh put q unique)
            (waited-current_record sh put k j q)
          ∙ reads k j
          ∙ ap (λ s. write_reads rec (current_record s) k j) same,
    )

apply_meta_patch_there :
    (cid : ℕ) (n : InternalId) (set : Metadata) (remove : List Text) (w : World)
    (cur : StoredRecord)
    → current_record w.state cid n ≡ some cur
    → apply_meta_patch cid (RecordId.num n) set remove w
      ≡ some (record {
        id = RecordId.num n;
        vector = cur.vector;
        metadata = patched set remove cur.metadata;
      })
unfolding apply_meta_patch
apply_meta_patch_there cid n set remove w cur c =
    ap
      (λ (o : Option Record). elim o [
        | none ↦ none
        | some rec ↦ some (record rec { metadata = patched set remove rec.metadata })
      ])
      (get_record-current_record cid n w ∙ ap (to_record (RecordId.num n)) c)

run_patch :
    (sh : Shared) (cid : ℕ) (n : InternalId) (set : Metadata) (remove : List Text) (w : World)
    (cur : StoredRecord)
    → touches_ext_id set remove ≡ false
    → (Memtable.is_nil set && Memtable.is_nil remove) ≡ false
    → current_record w.state cid n ≡ some cur
    → run_update_one sh cid (RecordId.num n) set remove w
      ≡ update_metadata_batch sh cid ((n, patched set remove cur.metadata) ∷ []) w
unfolding run_update_one write_patched write_metadata_batch resolve_updates resolve_id
run_patch sh cid n set remove w cur t p c =
    rw (run_update_one, t, p)
      (ap (λ o. write_patched sh cid o w) (apply_meta_patch_there cid n set remove w cur c))

-- An update of the metadata of a record with a numeric id that is there, which does not touch
-- `_ext_id` and is not empty, succeeds with the count one in a store that is not a follower.
-- Afterwards that record has its vector and metadata in which each key has the value that is set for
-- it, else nothing where the key is to be removed, else the value that it had; and each other id of
-- each collection has the record that it had. The values to set and the old metadata have each key
-- once, each collection has one entry, and other threads change no answer while the writer waits.
pub run_update_one-current_record :
    (sh : Shared) (cid : ℕ) (n : InternalId) (set : Metadata) (remove : List Text) (w : World)
    (col : CollectionState) (cur : StoredRecord)
    → sh.follower ≡ false
    → lookup cid w.state.collections ≡ some col
    → IsUnique w.state.collections
    → IsQuiet sh
    → touches_ext_id set remove ≡ false
    → (Memtable.is_nil set && Memtable.is_nil remove) ≡ false
    → current_record w.state cid n ≡ some cur
    → IsUnique set
    → IsUnique cur.metadata
    → (metadata : Metadata) × ((key : Text)
        → lookup key metadata ≡ patched_value set remove cur.metadata key)
      × (w' : World) × (run_update_one sh cid (RecordId.num n) set remove w ≡ ok (1, w'))
      × ((k : ℕ) (j : InternalId)
          → current_record w'.state k j
            ≡ override cid n
                (some (record { vector = cur.vector; metadata = metadata }))
                (current_record w.state)
                k
                j)
run_update_one-current_record sh cid n set remove w col cur f e u q t p c us uc =
    let metadata = patched set remove cur.metadata in
    let (w', done, reads) = update_one sh cid n metadata w col cur f e u q c in
    (
      metadata,
      λ key. lookup-patched set remove cur.metadata key us uc,
      w',
      run_patch sh cid n set remove w cur t p c ∙ done,
      λ k j.
          reads k j
          ∙ unfold write_reads in
            ap (λ o. override cid n (with_metadata metadata o) (current_record w.state) k j) c,
    )

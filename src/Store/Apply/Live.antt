-- ===== src/Store/Apply/Live.antt =====
-- What a record does to the reads, and the count of live ids.
use hamane_db.Base.{
  ℕ, ◌≡◌, refl, sym, ◌∙◌, ap, subst, Bool, true, false, ◌&&◌, Option, none, some, lookup,
  lookup-insert, nat_eq, bytes_eq, is_some, if◌then◌else◌, Bool-cases, Option-cases, inl, inr, ◌==◌,
  ==_iff, arith,
}
use hamane_db.Base.Outcome.{ok}
use hamane_db.Core.Record.{InternalId, Metadata, MetaValue, ext_id_meta_key}
use hamane_db.Memtable
use hamane_db.Memtable.{StoredRecord, Memtable}
use hamane_db.Memtable.Laws.{mt_verdict, mt_verdict-upsert, mt_verdict-delete}
use hamane_db.Wal.Record.{
  WalRecord, upsert, delete, update_meta, create_collection, drop_collection, rename_collection,
  swap_collection_names,
}
use hamane_db.Store.State.{
  CollectionState, track, track_ext_id, StoreState, get_in_segments, pending_memtable, current_in,
  current_record, is_id_live,
}
use hamane_db.Store.State.View.{newer, pending_verdict, current_in-newer, current_record_at}
use hamane_db.Store.Apply.{
  set_collection, upsert_into, delete_from, apply_upsert, apply_delete, apply_update_meta,
  apply_record,
}

track-memtable :
    (id : InternalId) (o : Option MetaValue) (col : CollectionState)
    → (track id o col).memtable ≡ col.memtable
unfolding track
track-memtable id none col = refl
track-memtable id (some (MetaValue.str s)) col = refl
track-memtable id (some (MetaValue.int i)) col = refl
track-memtable id (some (MetaValue.float f)) col = refl
track-memtable id (some (MetaValue.bool b)) col = refl

pub track-segments :
    (id : InternalId) (o : Option MetaValue) (col : CollectionState)
    → (track id o col).segments ≡ col.segments
unfolding track
track-segments id none col = refl
track-segments id (some (MetaValue.str s)) col = refl
track-segments id (some (MetaValue.int i)) col = refl
track-segments id (some (MetaValue.float f)) col = refl
track-segments id (some (MetaValue.bool b)) col = refl

pub track-live_len :
    (id : InternalId) (o : Option MetaValue) (col : CollectionState)
    → (track id o col).live_len ≡ col.live_len
unfolding track
track-live_len id none col = refl
track-live_len id (some (MetaValue.str s)) col = refl
track-live_len id (some (MetaValue.int i)) col = refl
track-live_len id (some (MetaValue.float f)) col = refl
track-live_len id (some (MetaValue.bool b)) col = refl

-- A read of a collection whose memtable was written.
current_in_written :
    (new col : CollectionState) (mt : Memtable) (pending : Option Memtable) (id : InternalId)
    → new.memtable ≡ mt
    → new.segments ≡ col.segments
    → current_in new pending id
      ≡ newer
          (mt_verdict mt id)
          (newer (pending_verdict pending id) (get_in_segments col.segments id))
current_in_written new col mt pending id e f =
    current_in-newer new pending id
    ∙ ap
        (λ (m : Memtable).
          newer (mt_verdict m id)
            (newer (pending_verdict pending id) (get_in_segments new.segments id)))
        e
    ∙ ap
        (λ segs.
          newer (mt_verdict mt id) (newer (pending_verdict pending id) (get_in_segments segs id)))
        f

pub current_in-upsert_into :
    (live : Bool) (id j : InternalId) (rec : StoredRecord) (col : CollectionState)
    (pending : Option Memtable)
    → current_in (upsert_into live id rec col) pending j
      ≡ (if id == j then some rec else current_in col pending j)
unfolding upsert_into track_ext_id
current_in-upsert_into live id j rec col pending =
    current_in_written (upsert_into live id rec col) col (Memtable.upsert id rec col.memtable)
      pending j
      (ap (Memtable.upsert id rec) (track-memtable id (lookup ext_id_meta_key rec.metadata) _))
      (track-segments id (lookup ext_id_meta_key rec.metadata) _)
    ∙ rw (mt_verdict-upsert id j rec col.memtable, current_in-newer col pending j) (ground arith)

pub current_in-delete_from :
    (live : Bool) (id j : InternalId) (col : CollectionState) (pending : Option Memtable)
    → current_in (delete_from live id col) pending j
      ≡ (if id == j then none else current_in col pending j)
unfolding delete_from
current_in-delete_from live id j col pending =
    current_in_written (delete_from live id col) col (Memtable.delete id col.memtable) pending j
      refl refl
    ∙ rw (mt_verdict-delete id j col.memtable, current_in-newer col pending j) (ground arith)

current_record-set_collection :
    (cid k : ℕ) (new : CollectionState) (s : StoreState) (id : InternalId)
    → current_record (set_collection cid new s) k id ≡ (
        if cid == k
        then current_in new (pending_memtable s.pending_flush k) id
        else current_record s k id)
unfolding current_record
current_record-set_collection cid k new s id = elim (Bool-cases (cid == k)) [
  | inl same ↦ rw (current_record, lookup-insert, same) refl
  | inr other ↦ rw (current_record, lookup-insert, other) refl
]

-- Whether two keys are the ones of a write.
abbrev pub is_at : ℕ → InternalId → ℕ → InternalId → Bool
is_at cid id k j = (cid == k) && (id == j)

written_at :
    (cid k : ℕ) (id j : InternalId) (s : StoreState) (col new : CollectionState)
    (o : Option StoredRecord)
    → lookup cid s.collections ≡ some col
    → ((pending : Option Memtable)
        → current_in new pending j ≡ (if id == j then o else current_in col pending j))
    → current_record (set_collection cid new s) k j
      ≡ (if is_at cid id k j then o else current_record s k j)
written_at cid k id j s col new o e h =
    current_record-set_collection cid k new s j ∙ elim (Bool-cases (cid == k)) [
      | inl same ↦ rw same (
          h (pending_memtable s.pending_flush k)
          ∙ rw
              (current_record_at s k j col
                (subst (λ x. lookup x s.collections ≡ some col) ((==_iff cid k).0 same) e))
              refl)
      | inr other ↦ rw other refl
    ]

-- The records that a reader can see, by collection and id.
abbrev pub Reads : Type 0
Reads = ℕ → InternalId → Option StoredRecord

abbrev pub override : ℕ → InternalId → Option StoredRecord → Reads → Reads
override cid id o reads k j = if is_at cid id k j then o else reads k j

abbrev pub with_metadata : Metadata → Option StoredRecord → Option StoredRecord
with_metadata metadata none = none
with_metadata metadata (some rec) = some (record { vector = rec.vector; metadata = metadata })

-- What a write promises a reader.
unfoldable pub write_reads : WalRecord → Reads → Reads
write_reads (upsert cid id vector metadata) reads =
    override cid id (some (record { vector = vector; metadata = metadata })) reads
write_reads (delete cid id) reads = override cid id none reads
write_reads (update_meta cid id metadata) reads =
    override cid id (with_metadata metadata (reads cid id)) reads
write_reads _ reads = reads

-- Whether it is a write of a record of a collection that is there.
unfoldable pub is_write_in : StoreState → WalRecord → Bool
is_write_in s (upsert cid id vector metadata) = is_some (lookup cid s.collections)
is_write_in s (delete cid id) = is_some (lookup cid s.collections)
is_write_in s (update_meta cid id metadata) = is_some (lookup cid s.collections)
is_write_in s _ = false

pub is_some-eq : {A : Type 0} (o : Option A) → is_some o ≡ true → (a : A) × (o ≡ some a)
is_some-eq none h = cc
is_some-eq (some a) h = (a, refl)

-- The new state after a write: its collection, and the reads.
pub upsert_reads :
    (s : StoreState) (cid : ℕ) (id : InternalId) (rec : StoredRecord) (live : Bool)
    (col : CollectionState) (k : ℕ) (j : InternalId)
    → lookup cid s.collections ≡ some col
    → current_record (set_collection cid (upsert_into live id rec col) s) k j
      ≡ override cid id (some rec) (current_record s) k j
upsert_reads s cid id rec live col k j e =
    written_at cid k id j s col (upsert_into live id rec col) (some rec) e
      (current_in-upsert_into live id j rec col)

pub delete_reads :
    (s : StoreState) (cid : ℕ) (id : InternalId) (live : Bool) (col : CollectionState) (k : ℕ)
    (j : InternalId)
    → lookup cid s.collections ≡ some col
    → current_record (set_collection cid (delete_from live id col) s) k j
      ≡ override cid id none (current_record s) k j
delete_reads s cid id live col k j e =
    written_at cid k id j s col (delete_from live id col) none e
      (current_in-delete_from live id j col)

-- What an override by the value that is there already is.
pub override_same :
    (s : StoreState) (cid : ℕ) (id : InternalId) (k : ℕ) (j : InternalId) (o : Option StoredRecord)
    → current_record s cid id ≡ o
    → override cid id o (current_record s) k j ≡ current_record s k j
override_same s cid id k j o e = elim (Bool-cases (cid == k)) [
  | inl same ↦ elim (Bool-cases (id == j)) [
    | inl same' ↦
        rw (same, same')
          (sym e
            ∙ ap (λ x. current_record s x id) ((==_iff cid k).0 same)
            ∙ ap (current_record s k) ((==_iff id j).0 same'))
    | inr other ↦ rw (same, other) refl
  ]
  | inr other ↦ rw other refl
]

-- A write of a record succeeds where its collection is there, and afterwards every read of every
-- collection answers as the write promises: an upsert gives the id its record, a delete takes it
-- away, and an update of metadata keeps the vector and gives nothing to an id that has no record.
pub apply_record-write_reads :
    (s : StoreState) (rec : WalRecord)
    → is_write_in s rec ≡ true
    → (s' : StoreState) × (apply_record s rec ≡ ok s')
      × ((k : ℕ) (j : InternalId) → current_record s' k j ≡ write_reads rec (current_record s) k j)
unfolding apply_record write_reads is_write_in apply_upsert apply_delete apply_update_meta
apply_record-write_reads s (upsert cid id vector metadata) h =
    let (col, e) = is_some-eq (lookup cid s.collections) h in
    let rec : StoredRecord = record { vector = vector; metadata = metadata } in
    (
      set_collection cid (upsert_into (is_id_live s cid id) id rec col) s,
      rw (apply_upsert, e) refl,
      λ k j. upsert_reads s cid id rec (is_id_live s cid id) col k j e,
    )
apply_record-write_reads s (delete cid id) h =
    let (col, e) = is_some-eq (lookup cid s.collections) h in
    (
      set_collection cid (delete_from (is_id_live s cid id) id col) s,
      rw (apply_delete, e) refl,
      λ k j. delete_reads s cid id (is_id_live s cid id) col k j e,
    )
apply_record-write_reads s (update_meta cid id metadata) h =
    let (col, e) = is_some-eq (lookup cid s.collections) h in
    elim (Option-cases (current_record s cid id)) [
      | inl f ↦ (
        s,
        rw (apply_update_meta, e, f) refl,
        λ k j.
            sym (override_same s cid id k j none f)
            ∙ ap (λ o. override cid id (with_metadata metadata o) (current_record s) k j) (sym f),
      )
      | inr (cur, f) ↦
          let rec : StoredRecord = record { vector = cur.vector; metadata = metadata } in
          (
            set_collection cid (upsert_into (is_id_live s cid id) id rec col) s,
            rw (apply_update_meta, e, f) refl,
            λ k j.
                upsert_reads s cid id rec (is_id_live s cid id) col k j e
                ∙ ap (λ o. override cid id (with_metadata metadata o) (current_record s) k j)
                    (sym f),
          )
    ]
apply_record-write_reads s (create_collection cid name dim metric) h = cc
apply_record-write_reads s (drop_collection cid) h = cc
apply_record-write_reads s (rename_collection cid name) h = cc
apply_record-write_reads s (swap_collection_names a b) h = cc

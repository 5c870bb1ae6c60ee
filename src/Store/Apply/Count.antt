-- ===== src/Store/Apply/Count.antt =====
-- `live_len` of a collection, which no operation computes afresh.
use hamane_db.Base.{
  ℕ, suc, ◌+◌, ◌-◌, ◌≡◌, refl, sym, ◌∙◌, ap, subst, Bool, true, false, Option, none, some, List, [],
  ◌∷◌, length, lookup, lookup-insert, member, add, discard, member-add, member-discard, IsDistinct,
  add-IsDistinct, discard-IsDistinct, nat_eq, bytes_eq, is_some, if◌then◌else◌, Bool-cases,
  Option-cases, inl, inr, ◌==◌, ==_iff, ==_refl, arith,
}
use mathlib.Core.Option.{some-injective}
use hamane_db.Base.Outcome.{ok, ok-injective}
use hamane_db.Core.Record.{InternalId, Metadata, ext_id_meta_key}
use hamane_db.Memtable.{StoredRecord}
use hamane_db.Wal.Record.{
  WalRecord, upsert, delete, update_meta, create_collection, drop_collection, rename_collection,
  swap_collection_names,
}
use hamane_db.Store.State.{CollectionState, track_ext_id, StoreState, current_record, is_id_live}
use hamane_db.Store.State.View.{IsReadable, is_id_live-current_record}
use hamane_db.Store.Apply.{
  set_collection, upsert_into, delete_from, apply_record, apply_upsert, apply_delete,
  apply_update_meta,
}
use hamane_db.Store.Apply.Live.{track-segments, track-live_len, upsert_reads, delete_reads}

length-add :
    (x : InternalId) (l : List InternalId)
    → length (add x l) ≡ (if member x l then length l else length l + 1)
unfolding add
length-add x l = ground arith

discard_absent : (x : InternalId) (l : List InternalId) → member x l ≡ false → discard x l ≡ l
unfolding discard member
discard_absent x [] h = refl
discard_absent x (y ∷ l) h = ground (arith, discard_absent x l)

member-length :
    (x : InternalId) (l : List InternalId) → member x l ≡ true → length l ≡ suc (length l - 1)
unfolding member
member-length x [] h = cc
member-length x (y ∷ l) h = omega arith

length-discard :
    (x : InternalId) (l : List InternalId)
    → IsDistinct l
    → length (discard x l) ≡ (if member x l then length l - 1 else length l)
unfolding discard member
length-discard x [] d = refl
length-discard x (y ∷ l) d = elim (Bool-cases (y == x)) [
  | inl same ↦
      let absent : member x l ≡ false = subst (λ z. member z l ≡ false) ((==_iff y x).0 same) d.0 in
      rw (discard, same, discard_absent x l absent) (omega arith)
  | inr other ↦ rw (discard, other) (ground (arith, length-discard x l d.1, member-length x l))
]

-- `live_len` is the number of ids that have a record.
pub record IsCounted (s : StoreState) (cid : ℕ) : Type 0 where
  pub col : CollectionState
  pub there : lookup cid s.collections ≡ some col
  pub readable : IsReadable col.segments
  pub live : List InternalId
  pub distinct : IsDistinct live
  pub members : (id : InternalId) → member id live ≡ is_some (current_record s cid id)
  pub count : col.live_len ≡ length live

live_len-upsert_into :
    (live : Bool) (id : InternalId) (rec : StoredRecord) (col : CollectionState)
    → (upsert_into live id rec col).live_len ≡ (if live then col.live_len else col.live_len + 1)
unfolding upsert_into track_ext_id
live_len-upsert_into live id rec col = track-live_len id (lookup ext_id_meta_key rec.metadata) _

segments-upsert_into :
    (live : Bool) (id : InternalId) (rec : StoredRecord) (col : CollectionState)
    → (upsert_into live id rec col).segments ≡ col.segments
unfolding upsert_into track_ext_id
segments-upsert_into live id rec col = track-segments id (lookup ext_id_meta_key rec.metadata) _

lookup-set_collection :
    (cid : ℕ) (new : CollectionState) (s : StoreState)
    → lookup cid (set_collection cid new s).collections ≡ some new
lookup-set_collection cid new s = lookup-insert cid cid new s.collections ∙ rw (==_refl cid) refl

live-member :
    (s : StoreState) (cid : ℕ) (id : InternalId) (c : IsCounted s cid)
    → is_id_live s cid id ≡ member id c.live
live-member s cid id c =
    is_id_live-current_record s cid id c.col c.there c.readable ∙ sym (c.members id)

is_some-if :
    (b : Bool) (o u : Option StoredRecord)
    → is_some (if b then o else u) ≡ (if b then is_some o else is_some u)
is_some-if true o u = refl
is_some-if false o u = refl

upsert-IsCounted :
    (s : StoreState) (cid : ℕ) (id : InternalId) (rec : StoredRecord) (c : IsCounted s cid)
    → IsCounted (set_collection cid (upsert_into (is_id_live s cid id) id rec c.col) s) cid
upsert-IsCounted s cid id rec c = record {
  col = upsert_into (is_id_live s cid id) id rec c.col;
  there = lookup-set_collection cid _ s;
  readable =
      subst IsReadable (sym (segments-upsert_into (is_id_live s cid id) id rec c.col)) c.readable;
  live = add id c.live;
  distinct = add-IsDistinct id c.live c.distinct;
  members = λ j.
      member-add id j c.live
      ∙ sym (
          ap (λ (o : Option StoredRecord). is_some o)
            (upsert_reads s cid id rec (is_id_live s cid id) c.col cid j c.there)
          ∙ rw (==_refl cid)
              (is_some-if (id == j) (some rec) (current_record s cid j) ∙ rw (← c.members j) refl));
  count =
      live_len-upsert_into (is_id_live s cid id) id rec c.col
      ∙ rw (live-member s cid id c, length-add, c.count) refl;
}

delete-IsCounted :
    (s : StoreState) (cid : ℕ) (id : InternalId) (c : IsCounted s cid)
    → IsCounted (set_collection cid (delete_from (is_id_live s cid id) id c.col) s) cid
unfolding delete_from
delete-IsCounted s cid id c = record {
  col = delete_from (is_id_live s cid id) id c.col;
  there = lookup-set_collection cid _ s;
  readable = c.readable;
  live = discard id c.live;
  distinct = discard-IsDistinct id c.live c.distinct;
  members = λ j.
      member-discard id j c.live
      ∙ sym (
          ap (λ (o : Option StoredRecord). is_some o)
            (delete_reads s cid id (is_id_live s cid id) c.col cid j c.there)
          ∙ rw (==_refl cid)
              (is_some-if (id == j) none (current_record s cid j) ∙ rw (← c.members j) refl));
  count = rw (live-member s cid id c, length-discard id c.live c.distinct, c.count) refl;
}

-- The collection whose records a write changes.
unfoldable pub collection_of : WalRecord → Option ℕ
collection_of (upsert cid id vector metadata) = some cid
collection_of (delete cid id) = some cid
collection_of (update_meta cid id metadata) = some cid
collection_of _ = none

upsert_result :
    (s s' : StoreState) (cid : ℕ) (id : InternalId) (rec : StoredRecord)
    → IsCounted s cid
    → apply_upsert cid id rec s ≡ ok s'
    → IsCounted s' cid
unfolding apply_upsert
upsert_result s s' cid id rec c done =
    let is : set_collection cid (upsert_into (is_id_live s cid id) id rec c.col) s ≡ s' =
      ok-injective (rw (apply_upsert, c.there) at done) in
    subst (λ x. IsCounted x cid) is (upsert-IsCounted s cid id rec c)

delete_result :
    (s s' : StoreState) (cid : ℕ) (id : InternalId)
    → IsCounted s cid
    → apply_delete cid id s ≡ ok s'
    → IsCounted s' cid
unfolding apply_delete
delete_result s s' cid id c done =
    let is : set_collection cid (delete_from (is_id_live s cid id) id c.col) s ≡ s' =
      ok-injective (rw (apply_delete, c.there) at done) in
    subst (λ x. IsCounted x cid) is (delete-IsCounted s cid id c)

update_result :
    (s s' : StoreState) (cid : ℕ) (id : InternalId) (metadata : Metadata)
    → IsCounted s cid
    → apply_update_meta cid id metadata s ≡ ok s'
    → IsCounted s' cid
unfolding apply_update_meta
update_result s s' cid id metadata c done = elim (Option-cases (current_record s cid id)) [
  | inl e ↦
      subst (λ x. IsCounted x cid) (ok-injective (rw (apply_update_meta, c.there, e) at done)) c
  | inr (cur, e) ↦
      let is : set_collection cid
            (upsert_into (is_id_live s cid id) id
              (record { vector = cur.vector; metadata = metadata }) c.col)
            s
          ≡ s' =
        ok-injective (rw (apply_update_meta, c.there, e) at done) in
      subst (λ x. IsCounted x cid) is (upsert-IsCounted s cid id _ c)
]

-- A write of a record that succeeds keeps `live_len` of the record's collection the number of
-- the ids that have a current record, where the rows of its segments decode.
pub apply_record-IsCounted :
    (s s' : StoreState) (cid : ℕ) (rec : WalRecord)
    → collection_of rec ≡ some cid
    → IsCounted s cid
    → apply_record s rec ≡ ok s'
    → IsCounted s' cid
unfolding apply_record collection_of
apply_record-IsCounted s s' cid (upsert k id vector metadata) h c done =
    let same : k ≡ cid = some-injective _ _ h in
    upsert_result s s' cid id _ c (
      subst (λ x. apply_upsert x id (record { vector = vector; metadata = metadata }) s ≡ ok s')
        same done)
apply_record-IsCounted s s' cid (delete k id) h c done =
    let same : k ≡ cid = some-injective _ _ h in
    delete_result s s' cid id c (subst (λ x. apply_delete x id s ≡ ok s') same done)
apply_record-IsCounted s s' cid (update_meta k id metadata) h c done =
    let same : k ≡ cid = some-injective _ _ h in
    update_result s s' cid id metadata c
      (subst (λ x. apply_update_meta x id metadata s ≡ ok s') same done)
apply_record-IsCounted s s' cid (create_collection k name dim metric) h c done = cc
apply_record-IsCounted s s' cid (drop_collection k) h c done = cc
apply_record-IsCounted s s' cid (rename_collection k name) h c done = cc
apply_record-IsCounted s s' cid (swap_collection_names a b) h c done = cc

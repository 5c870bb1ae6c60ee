-- ===== src/Store/Api/Logged.antt =====
-- A batch of upserts: what it does to the reads, and what its log replays to.
use hamane_db.Base.{
  false, ℕ, ◌≡◌, refl, sym, ◌∙◌, ap, false, Option, none, some, List, [], ◌∷◌, map, lookup,
  lookup-insert, insert-IsUnique, IsUnique, nat_eq, if◌then◌else◌, if_either, Option-cases, inl,
  inr, ◌==◌, ==_refl, arith,
}
use hamane_db.Base.Outcome.{ok}
use hamane_db.Core.Record.{InternalId}
use hamane_db.Memtable.{StoredRecord}
use hamane_db.Wal.Record.{WalRecord}
use hamane_db.Store.State.{CollectionState, StoreState, current_record, is_id_live}
use hamane_db.Store.Apply.{set_collection, upsert_into, apply_record, apply_upsert, replay}
use hamane_db.Store.Apply.Live.{upsert_reads}
use hamane_db.Store.Maintain.{World, Shared, waited, maybe_flush}
use hamane_db.Store.Maintain.Rotate.{maybe_flush-current_record}
use hamane_db.Store.Api.{
  with_state, ensure_writable, check_collection, log_records, upsert_record, put_records,
  upsert_batch,
}

-- The last record that a batch has for an id.
unfoldable pub last_of : InternalId → List (InternalId × StoredRecord) → Option StoredRecord
last_of j [] = none
last_of j ((id, rec) ∷ records) =
    let later = last_of j records in
    elim later [ some r ↦ some r | none ↦ if id == j then some rec else none ]

abbrev pub or_else : Option StoredRecord → Option StoredRecord → Option StoredRecord
or_else none o = o
or_else (some rec) o = some rec

abbrev one_put : ℕ → InternalId × StoredRecord → CollectionState → StoreState → StoreState
one_put cid (id, rec) col s = set_collection cid (upsert_into (is_id_live s cid id) id rec col) s

put_records-step :
    (cid : ℕ) (id : InternalId) (rec : StoredRecord) (records : List (InternalId × StoredRecord))
    (s : StoreState) (col : CollectionState)
    → lookup cid s.collections ≡ some col
    → put_records cid ((id, rec) ∷ records) s
      ≡ put_records cid records (one_put cid (id, rec) col s)
unfolding put_records
put_records-step cid id rec records s col e = rw (put_records, e) refl

there_still :
    (cid : ℕ) (new : CollectionState) (s : StoreState)
    → lookup cid (set_collection cid new s).collections ≡ some new
there_still cid new s = lookup-insert cid cid new s.collections ∙ rw (==_refl cid) refl

put_records-current_record :
    (cid : ℕ) (records : List (InternalId × StoredRecord)) (s : StoreState) (col : CollectionState)
    (k : ℕ) (j : InternalId)
    → lookup cid s.collections ≡ some col
    → current_record (put_records cid records s) k j ≡ (
        if cid == k
        then or_else (last_of j records) (current_record s k j)
        else current_record s k j)
unfolding put_records last_of
put_records-current_record cid [] s col k j e = ground arith
put_records-current_record cid ((id, rec) ∷ records) s col k j e =
    let new = upsert_into (is_id_live s cid id) id rec col in
    ap (λ x. current_record x k j) (put_records-step cid id rec records s col e)
    ∙ put_records-current_record cid records (set_collection cid new s) new k j
        (there_still cid new s)
    ∙ rw (upsert_reads s cid id rec (is_id_live s cid id) col k j e) (ground arith)

put_records-IsUnique :
    (cid : ℕ) (records : List (InternalId × StoredRecord)) (s : StoreState)
    → IsUnique s.collections
    → IsUnique (put_records cid records s).collections
unfolding put_records
put_records-IsUnique cid [] s u = u
put_records-IsUnique cid ((id, rec) ∷ records) s u =
    elim (Option-cases (lookup cid s.collections)) [
      | inl e ↦ rw (put_records, e) (put_records-IsUnique cid records s u)
      | inr (col, e) ↦
          rw (put_records, e)
            (put_records-IsUnique cid records (one_put cid (id, rec) col s)
              (insert-IsUnique cid _ s.collections u))
    ]

-- What a batch of upserts puts into memory is what a replay of its log records gives, where the
-- collection is there.
pub replay-put_records :
    (cid : ℕ) (records : List (InternalId × StoredRecord)) (s : StoreState) (col : CollectionState)
    → lookup cid s.collections ≡ some col
    → replay s (map (upsert_record cid) records) ≡ ok (put_records cid records s)
unfolding replay upsert_record apply_record apply_upsert
replay-put_records cid [] s col e = unfold put_records in refl
replay-put_records cid ((id, rec) ∷ records) s col e =
    let new = upsert_into (is_id_live s cid id) id rec col in
    rw (replay, apply_upsert, e)
      (replay-put_records cid records (set_collection cid new s) new (there_still cid new s)
        ∙ ap ok (sym (put_records-step cid id rec records s col e)))

-- Other threads, while a writer waits, change no answer and keep the collections a map.
pub record IsQuiet (sh : Shared) : Type 0 where
  pub reads :
      (w : World) (cid : ℕ) (id : InternalId)
      → current_record (sh.await w).state cid id ≡ current_record w.state cid id
  pub unique : (w : World) → IsUnique w.state.collections → IsUnique (sh.await w).state.collections

pub log_records-state :
    (sh : Shared) (recs : List WalRecord) (w : World) → (log_records sh recs w).state ≡ w.state
unfolding log_records
log_records-state sh recs w = ground arith

pub waited-current_record :
    (sh : Shared) (w : World) (cid : ℕ) (id : InternalId)
    → IsQuiet sh
    → current_record (waited sh w).state cid id ≡ current_record w.state cid id
unfolding waited
waited-current_record sh w cid id q =
    if_either (λ (x : World). current_record x.state cid id ≡ current_record w.state cid id)
      w.state.maint_error refl (q.reads w cid id)

pub waited-IsUnique :
    (sh : Shared) (w : World)
    → IsQuiet sh
    → IsUnique w.state.collections
    → IsUnique (waited sh w).state.collections
unfolding waited
waited-IsUnique sh w q u =
    if_either (λ (x : World). IsUnique x.state.collections) w.state.maint_error u (q.unique w u)

-- A batch of upserts into a collection that is there, in a store that is not a follower, succeeds,
-- with or without a rotation. Afterwards each id of the batch has the last record that the batch
-- has for it, and each other id of each collection has the record it had. Each collection has one
-- entry, and other threads change no answer while the writer waits.
pub upsert_batch-current_record :
    (sh : Shared) (cid : ℕ) (records : List (InternalId × StoredRecord)) (w : World)
    (col : CollectionState)
    → sh.follower ≡ false
    → lookup cid w.state.collections ≡ some col
    → IsUnique w.state.collections
    → IsQuiet sh
    → (w' : World) × (upsert_batch sh cid records w ≡ ok w')
      × ((k : ℕ) (j : InternalId)
          → current_record w'.state k j ≡ (
              if cid == k
              then or_else (last_of j records) (current_record w.state k j)
              else current_record w.state k j))
unfolding upsert_batch ensure_writable check_collection
upsert_batch-current_record sh cid records w col f e u q =
    let logged = log_records sh (map (upsert_record cid) records) w in
    let s = put_records cid records logged.state in
    let same : logged.state ≡ w.state = log_records-state sh (map (upsert_record cid) records) w in
    let unique : IsUnique s.collections =
      put_records-IsUnique cid records logged.state (rw same u) in
    let put = with_state logged s in
    (
      maybe_flush sh put,
      rw (upsert_batch, f, e) refl,
      λ k j.
          maybe_flush-current_record sh put k j unique (waited-IsUnique sh put q unique)
            (waited-current_record sh put k j q)
          ∙ ap (λ x. current_record (put_records cid records x) k j) same
          ∙ put_records-current_record cid records w.state col k j e,
    )

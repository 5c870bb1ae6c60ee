-- ===== src/Store/Open/Writes.antt =====
-- The writes and the rotation keep what a restart would read up to date.
use hamane_db.Base.{
  ℕ, ◌+◌, max, ◌<◌, ◌≡◌, refl, sym, ◌∙◌, ap, subst, true, false, Option, none, some, List, [], ◌∷◌,
  Map, map, lookup, lookup-insert, insert, insert-IsUnique, IsUnique, nat_eq, is_some, if_either,
  ◌==◌, if◌then◌else◌, ==_refl, inl, inr, arith, not, ◌||◌, ◌*◌,
}
use hamane_db.Base.Outcome.{Result, ok, ◌>>=◌, ok-injective, >>=-eq-ok}
use hamane_db.Core.Record.{InternalId}
use hamane_db.Memtable.{StoredRecord}
use hamane_db.Manifest.{Manifest}
use hamane_db.Wal.Record.{WalRecord, delete}
use hamane_db.Wal.Commit.{is_flushing}
use hamane_db.Store.State.{CollectionState, Disk, StoreState, current_record, is_id_live}
use hamane_db.Store.Apply.{apply_record, replay}
use hamane_db.Store.Apply.Live.{is_write_in, override, write_reads, apply_record-write_reads}
use hamane_db.Store.Maintain.{
  World, Shared, any_over, emptied, seq_or_zero, rotate, rotated, maybe_flush, waited,
}
use hamane_db.Store.Maintain.Rotate.{
  all_emptied, lookup-emptied, rotate-cases, rotate-current_record, maybe_flush-current_record,
}
use hamane_db.Store.Api.{
  with_state, ensure_writable, check_collection, log_records, log_and_apply, upsert_record,
  put_records, upsert_batch, delete_op,
}
use hamane_db.Store.Api.Logged.{
  IsQuiet, waited-IsUnique, waited-current_record, last_of, or_else, log_records-state,
  replay-put_records, upsert_batch-current_record,
}
use hamane_db.Store.Open.{crash, load_base, load_state, tidied}
use hamane_db.Store.Open.Sees.{AreWrites}
use hamane_db.Store.Open.Files.{Logs, AreUpTo, replay_files_rotated}
use hamane_db.Store.Open.Survives.{
  load_base-manifest, crash-flushed, Restarts, Restarts-load_state, Recovers, insert-AreUpTo,
  raise-AreUpTo, logged-Recovers,
}

pub above-AreUpTo : (n : ℕ) (m : Logs) → AreUpTo n m → lookup (n + 1) m ≡ none
unfolding lookup
above-AreUpTo n [] a = refl
above-AreUpTo n ((k, recs) ∷ m) a = ground (arith, above-AreUpTo n m a.1, a.0)

emptied-IsUnique : (cols : Map ℕ CollectionState) → IsUnique cols → IsUnique (emptied cols)
unfolding emptied
emptied-IsUnique [] u = tt
emptied-IsUnique ((k, col) ∷ cols) u =
    (lookup-emptied k cols ∙ ap all_emptied u.0, emptied-IsUnique cols u.1)

there_emptied : (o : Option CollectionState) → is_some (all_emptied o) ≡ is_some o
there_emptied none = refl
there_emptied (some col) = refl

-- The world that a rotation makes, where the active log has this number.
rotated_files-Restarts :
    (w : World) (r : Recovers w)
    → Restarts
        (record w.disk { wal_files = insert (r.seq + 1) [] w.disk.wal_files })
        r.state
        (max r.last (r.seq + 1))
unfolding load_base
rotated_files-Restarts w r =
    let h : r.restarts.base.manifest.wal_seq < r.seq + 1 =
      subst (λ (m : Manifest). m.wal_seq < r.seq + 1)
        (sym (load_base-manifest w.disk r.restarts.based)) (omega (arith, r.uncovered)) in
    record {
      base = r.restarts.base;
      based = r.restarts.based;
      replayed =
          replay_files_rotated (r.seq + 1) w.disk.wal_files r.restarts.base r.state
            r.restarts.base.manifest.wal_seq r.last (raise-AreUpTo r.seq w.disk.wal_files r.newest)
            r.unique (above-AreUpTo r.seq w.disk.wal_files r.newest) h r.restarts.replayed;
    }

rotated-Recovers :
    (w : World) (r : Recovers w)
    → ((k : ℕ) (j : InternalId) → current_record (rotated w).state k j ≡ current_record w.state k j)
    → Recovers (rotated w)
unfolding rotated
rotated-Recovers w r reads =
    let seq : seq_or_zero w.state.wal ≡ r.seq = ap seq_or_zero r.active in
    record {
      seq = r.seq + 1;
      log = [];
      active = ap (λ n. some (n + 1)) seq;
      logged =
          ap (λ n. lookup (r.seq + 1) (insert (n + 1) [] w.disk.wal_files)) seq
          ∙ lookup-insert (r.seq + 1) (r.seq + 1) [] w.disk.wal_files
          ∙ rw (==_refl (r.seq + 1)) refl;
      newest =
          subst (λ n. AreUpTo (r.seq + 1) (insert (n + 1) [] w.disk.wal_files)) (sym seq)
            (insert-AreUpTo (r.seq + 1) (r.seq + 1) [] w.disk.wal_files (omega arith)
              (raise-AreUpTo r.seq w.disk.wal_files r.newest));
      unique = insert-IsUnique _ [] w.disk.wal_files r.unique;
      uncovered = omega (arith, r.uncovered);
      flushed = r.flushed;
      one_each = emptied-IsUnique w.state.collections r.one_each;
      state = r.state;
      last = max r.last (r.seq + 1);
      restarts =
          subst
            (λ n.
              Restarts (record w.disk { wal_files = insert (n + 1) [] w.disk.wal_files }) r.state
                (max r.last (r.seq + 1)))
            (sym seq) (rotated_files-Restarts w r);
      same = record {
        reads = λ k j. r.same.reads k j ∙ sym (reads k j);
        there = λ k.
            r.same.there k
            ∙ sym (
                ap (λ (o : Option CollectionState). is_some o)
                  (lookup-emptied k w.state.collections)
                ∙ there_emptied (lookup k w.state.collections));
      };
    }

pub rotate-Recovers : (sh : Shared) (w : World) → Recovers w → Recovers (rotate sh w).1
rotate-Recovers sh w r = elim (rotate-cases sh w) [
  | inl e ↦ subst Recovers (sym e) r
  | inr (p, e) ↦ subst Recovers (sym e) (
      rotated-Recovers w r (λ k j.
        ap (λ (x : World). current_record x.state k j) (sym e)
        ∙ rotate-current_record sh w k j r.one_each))
]

-- Other threads, while a writer waits, leave a store that a restart finds again.
abbrev pub IsSafe : Shared → Type 0
IsSafe sh = (w : World) → Recovers w → Recovers (sh.await w)

waited-Recovers : (sh : Shared) (w : World) → IsSafe sh → Recovers w → Recovers (waited sh w)
unfolding waited
waited-Recovers sh w q r = if_either Recovers w.state.maint_error r (q w r)

pub maybe_flush-Recovers :
    (sh : Shared) (w : World) → IsSafe sh → Recovers w → Recovers (maybe_flush sh w)
unfolding maybe_flush
maybe_flush-Recovers sh w q r =
    if_either Recovers
      (not sh.durable || not (any_over sh.flush_threshold_bytes w.state.collections)) r
      (if_either Recovers (is_some w.state.pending_flush)
        (if_either Recovers (any_over (sh.flush_threshold_bytes * 4) w.state.collections)
          (rotate-Recovers sh (waited sh w) (waited-Recovers sh w q r)) r)
        (rotate-Recovers sh w r))

upserts-AreWrites :
    (cid : ℕ) (records : List (InternalId × StoredRecord)) (s : StoreState) (col : CollectionState)
    → lookup cid s.collections ≡ some col
    → AreWrites s (map (upsert_record cid) records)
unfolding is_write_in upsert_record
upserts-AreWrites cid [] s col e = tt
upserts-AreWrites cid ((id, rec) ∷ records) s col e =
    (ap (λ (o : Option CollectionState). is_some o) e, upserts-AreWrites cid records s col e)

-- In a store that is not a follower, that syncs under `Always` or `Batch`, and that a restart would
-- find as it is, a batch of upserts into a collection that is there succeeds and leaves such a store again, whether it rotates or
-- not: after a crash, the start replays the logs to a state with the same collections and the same
-- current record for each id. What other threads do while the writer waits keeps this as well.
pub upsert_batch-Recovers :
    (sh : Shared) (cid : ℕ) (records : List (InternalId × StoredRecord)) (w : World)
    (col : CollectionState)
    → sh.follower ≡ false
    → lookup cid w.state.collections ≡ some col
    → IsSafe sh
    → is_flushing sh.sync ≡ true
    → Recovers w
    → (w' : World) × (upsert_batch sh cid records w ≡ ok w') × Recovers w'
unfolding upsert_batch ensure_writable check_collection
upsert_batch-Recovers sh cid records w col f e q p r =
    let recs = map (upsert_record cid) records in
    let (t, done, r') =
      logged-Recovers sh recs w p r (upserts-AreWrites cid records w.state col e) in
    let put = put_records cid records (log_records sh recs w).state in
    let same : put ≡ t =
      ap (put_records cid records) (log_records-state sh recs w)
      ∙ ok-injective (sym (replay-put_records cid records w.state col e) ∙ done) in
    (
      maybe_flush sh (with_state (log_records sh recs w) put),
      rw (upsert_batch, f, e) refl,
      maybe_flush-Recovers sh (with_state (log_records sh recs w) put) q
          (subst (λ x. Recovers (with_state (log_records sh recs w) x)) (sym same) r'),
    )

replay_one :
    (s : StoreState) (rec : WalRecord) {t : StoreState}
    → replay s (rec ∷ []) ≡ ok t
    → apply_record s rec ≡ ok t
unfolding replay
replay_one s rec done =
    let (s1, one, rest) = >>=-eq-ok (apply_record s rec) (λ x. replay x []) done in one ∙ rest

-- Whatever a crash takes of the records that no `sync_data` has put on the disk, the start succeeds,
-- and each id of each collection has the record that is named.
abbrev pub SurvivesAs : World → (ℕ → InternalId → Option StoredRecord) → Type 0
SurvivesAs w reads =
    (loss : ℕ → ℕ)
    → (s : StoreState) × (last : ℕ) × (d : Disk) × (load_state (crash loss w) ≡ ok ((s, last), d))
      × ((k : ℕ) (j : InternalId) → current_record s k j ≡ reads k j)

Recovers-SurvivesAs :
    (w : World) (reads : ℕ → InternalId → Option StoredRecord)
    → Recovers w
    → ((k : ℕ) (j : InternalId) → current_record w.state k j ≡ reads k j)
    → SurvivesAs w reads
Recovers-SurvivesAs w reads r e loss = (
  r.state,
  r.last,
  tidied r.state.manifest w.disk,
  ap load_state (crash-flushed loss w r.flushed)
      ∙ Restarts-load_state w.disk r.state r.last r.restarts,
  λ k j. r.same.reads k j ∙ e k j,
)

-- A delete in a store that is not a follower, that syncs under `Always` or `Batch`, and that a
-- restart would find as it is, succeeds where the collection is there, and says whether the id was
-- live. It leaves such a store again, and after a crash the start finds the id gone and each other
-- id of each collection with the record that it had. Other threads, while the writer waits, keep
-- such a store and change no answer.
pub delete_op-survives :
    (sh : Shared) (cid : ℕ) (id : InternalId) (w : World) (col : CollectionState)
    → sh.follower ≡ false
    → lookup cid w.state.collections ≡ some col
    → IsSafe sh
    → IsQuiet sh
    → is_flushing sh.sync ≡ true
    → Recovers w
    → (w' : World) × (delete_op sh cid id w ≡ ok (is_id_live w.state cid id, w'))
      × Recovers w'
      × SurvivesAs w' (override cid id none (current_record w.state))
unfolding delete_op ensure_writable check_collection log_and_apply
delete_op-survives sh cid id w col f e q quiet p r =
    let rec = delete cid id in
    let there : is_write_in w.state rec ≡ true =
      unfold is_write_in in ap (λ (o : Option CollectionState). is_some o) e in
    let (t, done, r') = logged-Recovers sh (rec ∷ []) w p r (there, tt) in
    let applied : apply_record w.state rec ≡ ok t = replay_one w.state rec done in
    let put = with_state (log_records sh (rec ∷ []) w) t in
    let (t', done', reads) = apply_record-write_reads w.state rec there in
    let same : t ≡ t' = ok-injective (sym applied ∙ done') in
    let kept : Recovers (maybe_flush sh put) = maybe_flush-Recovers sh put q r' in
    let logged : log_and_apply sh rec w ≡ ok put = rw applied refl in
    (
      maybe_flush sh put,
      rw (delete_op, f, e) refl
          ∙ ap
              (λ (x : Result World).
                x >>= λ (y : World). ok (is_id_live w.state cid id, maybe_flush sh y))
              logged,
      kept,
      Recovers-SurvivesAs (maybe_flush sh put) _ kept (λ k j.
          maybe_flush-current_record sh put k j r'.one_each
            (waited-IsUnique sh put quiet r'.one_each) (waited-current_record sh put k j quiet)
          ∙ ap (λ x. current_record x k j) same
          ∙ reads k j
          ∙ unfold write_reads in refl),
    )

-- A batch of upserts that was acknowledged survives a crash, under `SyncPolicy::Always` and `Batch`.
-- In a store that is not a follower and that a restart would find as it is, the batch succeeds where
-- the collection is there, and whatever a crash then takes of the records that no `sync_data` has
-- put on the disk, the start succeeds too, and in the state that it loads each id of the batch has
-- the last record that the batch has for it, and each other id of each collection has the record
-- that it had before the batch. Other threads, while the writer waits, keep such a store and change
-- no answer.
pub upsert_batch-survives :
    (sh : Shared) (cid : ℕ) (records : List (InternalId × StoredRecord)) (w : World)
    (col : CollectionState)
    → sh.follower ≡ false
    → lookup cid w.state.collections ≡ some col
    → IsSafe sh
    → IsQuiet sh
    → is_flushing sh.sync ≡ true
    → Recovers w
    → (w' : World) × (upsert_batch sh cid records w ≡ ok w')
      × SurvivesAs w' (λ k j.
        if cid == k
        then or_else (last_of j records) (current_record w.state k j)
        else current_record w.state k j)
upsert_batch-survives sh cid records w col f e q quiet p r =
    let (w', done, r') = upsert_batch-Recovers sh cid records w col f e q p r in
    let (w'', done', reads) =
      upsert_batch-current_record sh cid records w col f e r.one_each quiet in
    let same : w'' ≡ w' = ok-injective (sym done' ∙ done) in
    (
      w',
      done,
      Recovers-SurvivesAs w' _ r'
          (λ k j. ap (λ (x : World). current_record x.state k j) (sym same) ∙ reads k j),
    )

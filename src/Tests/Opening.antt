-- ===== src/Tests/Opening.antt =====
-- The start of the store at a concrete directory: a segment, a log that the manifest covers, and a
-- newer one.
use hamane_db.Base.{
  ◌≡◌, refl, false, none, some, [], ◌∷◌, lookup, insert, if◌then◌else◌, ◌==◌, nat_eq, bytes_eq,
}
use hamane_db.Base.Outcome.{Result, ok, err}
use hamane_db.Core.Record.{l2}
use hamane_db.Segment.{write, sort_rows, to_row}
use hamane_db.Manifest
use hamane_db.Manifest.{Manifest}
use hamane_db.Tests.Codec.{docs, one_entry}
use hamane_db.Tests.Stores.{with_a, a_batch, a_shared, a_shared-IsQuiet, a_world}
use hamane_db.Wal.Record.{upsert, delete}
use hamane_db.Wal.Commit.{idle_batch, every_n, batch}
use hamane_db.Store.State.{CollectionState, Disk, current_record, is_id_live}
use hamane_db.Store.Apply.{replay, apply_record, apply_upsert}
use hamane_db.Store.Apply.Live.{is_some-eq, override}
use hamane_db.Store.Maintain.{World, Shared, rotated, entry_of, find_entry}
use hamane_db.Store.Api.{log_records, upsert_batch, delete_op}
use hamane_db.Store.Api.Logged.{IsQuiet, last_of, or_else}
use hamane_db.Store.Open.{crash, scan_row, open_store}
use hamane_db.Store.Open.Survives.{Recovers}
use hamane_db.Store.Open.Writes.{
  upsert_batch-Recovers, SurvivesAs, delete_op-survives, upsert_batch-survives,
}
use hamane_db.Store.Open.Fresh.{IsStartable, open_store-Recovers}

abbrev a_disk : Disk
a_disk = record {
  manifest = record {
    gen = 3;
    next_collection_id = 1;
    next_seg_id = 1;
    wal_seq = 4;
    collections =
        record {
          collection_id = 0;
          name = docs;
          dim = 2;
          metric = l2;
          segments = entry_of (write 0 with_a) ∷ [];
        }
        ∷ [];
  };
  wal_files = (5, upsert 0 2 (1 ∷ 2 ∷ []) one_entry ∷ []) ∷ (4, delete 0 1 ∷ []) ∷ [];
  segments = (0, write 0 with_a ∷ []) ∷ [];
}

abbrev world_of : Result World → World
world_of (ok w) = w
world_of (err e) = record {
  state = record {
    manifest = Manifest.empty;
    wal = none;
    collections = [];
    names = [];
    pending_flush = none;
    maint_error = false;
  };
  disk = a_disk;
  batch_state = idle_batch;
  unsynced = 0;
  unflushed = [];
}

abbrev an_opened : World
an_opened = world_of (open_store (some a_disk))

an_opened-is : open_store (some a_disk) ≡ ok an_opened
unfolding open_store lookup write entry_of sort_rows scan_row to_row replay apply_record
    apply_upsert insert
an_opened-is = refl

a_disk-IsStartable : IsStartable a_disk
unfolding lookup find_entry
a_disk-IsStartable = record { logs = (refl, (refl, tt)); entries = (refl, tt) }

open_store-Recovers_example : Recovers an_opened
open_store-Recovers_example = open_store-Recovers a_disk an_opened a_disk-IsStartable an_opened-is

opened_docs : (col : CollectionState) × (lookup 0 an_opened.state.collections ≡ some col)
unfolding open_store lookup write entry_of sort_rows scan_row to_row replay apply_record
    apply_upsert insert
opened_docs = is_some-eq (lookup 0 an_opened.state.collections) refl

upsert_batch-Recovers_example :
    (w' : World) × (upsert_batch a_shared 0 a_batch an_opened ≡ ok w') × Recovers w'
upsert_batch-Recovers_example =
    upsert_batch-Recovers a_shared 0 a_batch an_opened opened_docs.0 refl opened_docs.1 (λ w r. r)
      refl (open_store-Recovers a_disk an_opened a_disk-IsStartable an_opened-is)

delete_op-survives_example :
    (w' : World) × (delete_op a_shared 0 2 an_opened ≡ ok (is_id_live an_opened.state 0 2, w'))
    × Recovers w'
    × SurvivesAs w' (override 0 2 none (current_record an_opened.state))
delete_op-survives_example =
    delete_op-survives a_shared 0 2 an_opened opened_docs.0 refl opened_docs.1 (λ w r. r)
      a_shared-IsQuiet refl (open_store-Recovers a_disk an_opened a_disk-IsStartable an_opened-is)

-- A group commit loses nothing either.
abbrev a_group : Shared
a_group = record a_shared { sync = batch }

a_group-IsQuiet : IsQuiet a_group
a_group-IsQuiet = record { reads = λ w cid id. refl; unique = λ w u. u }

upsert_batch-survives_example :
    (w' : World) × (upsert_batch a_group 0 a_batch an_opened ≡ ok w')
    × SurvivesAs w' (λ k j.
      if 0 == k
      then or_else (last_of j a_batch) (current_record an_opened.state k j)
      else current_record an_opened.state k j)
upsert_batch-survives_example =
    upsert_batch-survives a_group 0 a_batch an_opened opened_docs.0 refl opened_docs.1 (λ w r. r)
      a_group-IsQuiet refl (open_store-Recovers a_disk an_opened a_disk-IsStartable an_opened-is)

-- Under `EveryN` a crash may take the record of a write that has succeeded.
abbrev a_lazy : Shared
a_lazy = record a_shared { sync = every_n 2 }

lost_delete :
    (crash (λ seq. 1) (log_records a_lazy (delete 0 2 ∷ []) a_world)).wal_files
    ≡ a_world.disk.wal_files
unfolding crash log_records lookup insert
lost_delete = refl

-- With a rotation between two writes, it may take more than one of `EveryN(2)`.
lost_both :
    (log_records a_lazy
      (delete 0 2 ∷ [])
      (rotated (log_records a_lazy (delete 0 2 ∷ []) a_world))).unflushed
    ≡ (1, 1) ∷ (2, 1) ∷ []
unfolding log_records rotated lookup insert
lost_both = refl

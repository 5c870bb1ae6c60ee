-- ===== src/Tests/Stores.antt =====
-- The store at concrete inputs: one collection, an id in its memtable, an older one that waits for
-- a flush, and a segment with a deleted id.
use hamane_db.Base.{
  from_le_bytes, ℕ, ◌≡◌, refl, true, false, none, some, List, [], ◌∷◌, ◌++◌, lookup, member, keys,
  IsUnique, Bool-cases, inl, inr, subst, All, if◌then◌else◌, is_some, map, ◌==◌, nat_eq, bytes_eq,
  arith, insert, eq_bytes,
}
use hamane_db.Base.Outcome.{Result, ok, err}
use hamane_db.Core.Record.{InternalId, l2, Text}
use mathlib.Core.Option.{some-injective}
use hamane_db.Memtable
use hamane_db.Memtable.{StoredRecord, Memtable}
use hamane_db.Memtable.Laws.{IsValid, upsert-IsValid, delete-IsValid, mt_verdict}
use hamane_db.Segment.{Segment, write, sort_ids}
use hamane_db.Segment.Written.{IsWritable, seg_verdict, seg_verdict-write}
use hamane_db.Manifest
use hamane_db.Tests.Codec.{checksum, docs, one_entry, one_entry-IsMetadata}
use hamane_db.Format.Frame.{read_frame}
use hamane_db.Format.Reader.{read_word, read_u8, read_u32, take_bytes, is_empty}
use hamane_db.Store.Follow.{apply_wal_frames}
use hamane_db.Store.Follow.Agrees.{apply_wal_frames-replay}
use hamane_db.Wal.File.{WalReplay, read_frames}
use hamane_db.Wal.Record.{
  drop_collection, decode, decode_payload, decode_record, finish, upsert, update_meta,
}
use hamane_db.Wal.Commit.{idle_batch, always}
use hamane_db.Store.State.{
  CollectionState, new_collection, PendingFlush, StoreState, get_in_segments, get_in_pending,
  current_in, current_record, is_id_live,
}
use hamane_db.Store.State.View.{is_id_live-current_record}
use hamane_db.Store.Apply.Names.{
  IsNamed, apply_create-IsNamed, resolve, swapped_reads, resolve-apply_swap,
}
use hamane_db.Store.Apply.{apply_drop, apply_swap, apply_record, apply_upsert, replay, apply_create}
use hamane_db.Store.Apply.Live.{write_reads, is_write_in, apply_record-write_reads}
use hamane_db.Store.Apply.Count.{IsCounted, collection_of, apply_record-IsCounted}
use hamane_db.Store.Maintain.{
  waited, World, Shared, rotate, maybe_flush, FlushPlan, plan_work, plan_flush, install_flush,
}
use hamane_db.Store.Maintain.Rotate.{rotate-current_record, maybe_flush-current_record}
use hamane_db.Store.Maintain.Flush.{IsFlushable, IsPending, install_flush-current_record}
use hamane_db.Store.Compact.{
  full, CompactPlan, run_length, plan_compact, merge_to_segments, install_compact,
}
use hamane_db.Store.Compact.Keeps.{
  IsWritten, install_compact-current_record, merge_to_segments-get_in_segments,
}
use hamane_db.Store.Api.{
  with_state, upsert_batch, upsert_record, put_records, create_collection_op, ensure_writable,
  log_and_apply,
}
use hamane_db.Store.Api.Names.{created, IsSound, CollectionStep-IsSound}
use hamane_db.Store.Api.Logged.{
  IsQuiet, last_of, or_else, upsert_batch-current_record, replay-put_records,
}

abbrev pub rec_a : StoredRecord
rec_a = record { vector = 1 ∷ 2 ∷ []; metadata = one_entry }

abbrev pub rec_b : StoredRecord
rec_b = record { vector = 3 ∷ 4 ∷ []; metadata = [] }

abbrev pub with_a : Memtable
with_a = record { upserts = (1, rec_a) ∷ []; deletes = []; bytes = 17 }

pub with_a-IsValid : IsValid with_a
unfolding member lookup Memtable.record_size Memtable.metadata_size Memtable.value_size
with_a-IsValid = record {
  unique = (refl, tt);
  distinct = tt;
  disjoint = λ id h. cc;
  accounted = refl;
}

pub with_a-IsWritable : IsWritable with_a
with_a-IsWritable = (one_entry-IsMetadata, tt)

-- An id is replaced, and another deleted.
upsert-IsValid_example : IsValid (Memtable.upsert 1 rec_b with_a)
upsert-IsValid_example = upsert-IsValid 1 rec_b with_a with_a-IsValid

delete-IsValid_example : IsValid (Memtable.delete 1 with_a)
delete-IsValid_example = delete-IsValid 1 with_a with_a-IsValid

seg_verdict-write_example : seg_verdict (write 0 with_a) 1 ≡ mt_verdict with_a 1
seg_verdict-write_example = seg_verdict-write 0 with_a 1 with_a-IsValid with_a-IsWritable

abbrev pub with_b : Memtable
with_b = record { upserts = (2, rec_b) ∷ []; deletes = 1 ∷ []; bytes = 8 }

pub with_b-IsValid : IsValid with_b
unfolding member lookup Memtable.record_size Memtable.metadata_size
with_b-IsValid = record {
  unique = (refl, tt);
  distinct = (refl, tt);
  disjoint = λ id h. ground (arith, h);
  accounted = refl;
}

rec_b-IsMetadata : IsWritable with_b
rec_b-IsMetadata = (record { sorted = tt; entries = tt; short = omega arith }, tt)

abbrev pub two_segments : List Segment
two_segments = write 1 with_b ∷ write 0 with_a ∷ []

two_segments-IsWritten : All IsWritten two_segments
two_segments-IsWritten = (
  record {
    id = 1;
    memtable = with_b;
    is = refl;
    valid = with_b-IsValid;
    writable = rec_b-IsMetadata;
  },
  (
    record {
      id = 0;
      memtable = with_a;
      is = refl;
      valid = with_a-IsValid;
      writable = with_a-IsWritable;
    },
    tt,
  ),
)

abbrev a_plan : CompactPlan
a_plan = record { run = two_segments; older_remains = false; seg_id = 2 }

merge_to_segments-get_in_segments_example :
    (new : List Segment) × (merge_to_segments a_plan ≡ ok new)
    × All IsWritten new
    × ((id : InternalId) → get_in_segments (new ++ []) id ≡ get_in_segments (two_segments ++ []) id)
merge_to_segments-get_in_segments_example =
    merge_to_segments-get_in_segments a_plan [] two_segments-IsWritten (λ h. refl)

abbrev pub a_collection : CollectionState
a_collection = record (new_collection docs 2 l2) { memtable = with_b; live_len = 1 }

abbrev pub a_state : StoreState
a_state = record {
  manifest = record Manifest.empty { next_collection_id = 1 };
  wal = some 1;
  collections = (0, a_collection) ∷ [];
  names = (docs, 0) ∷ [];
  pending_flush = some (record { wal_seq = 0; memtables = (0, with_a) ∷ [] });
  maint_error = false;
}

abbrev pub a_world : World
a_world = record {
  state = a_state;
  disk = record { manifest = Manifest.empty; wal_files = (1, []) ∷ []; segments = [] };
  batch_state = idle_batch;
  unsynced = 0;
  unflushed = [];
}

abbrev pub a_shared : Shared
a_shared = record {
  durable = true;
  sync = always;
  follower = false;
  flush_threshold_bytes = 1000;
  compaction_threshold = 2;
  await = λ w. w;
}

is_id_live-current_record_example : is_id_live a_state 0 1 ≡ is_some (current_record a_state 0 1)
is_id_live-current_record_example =
    is_id_live-current_record a_state 0 1 a_collection (unfold lookup in refl) tt

apply_record-write_reads_example :
    (s' : StoreState) × (apply_record a_state (update_meta 0 2 one_entry) ≡ ok s')
    × ((k : ℕ) (j : InternalId)
        → current_record s' k j
          ≡ write_reads (update_meta 0 2 one_entry) (current_record a_state) k j)
apply_record-write_reads_example =
    apply_record-write_reads a_state (update_meta 0 2 one_entry) (unfold is_write_in lookup in refl)

pub a_state-IsUnique : IsUnique a_state.collections
unfolding lookup
a_state-IsUnique = (refl, tt)

a_state-members : (id : InternalId) → member id (2 ∷ []) ≡ is_some (current_record a_state 0 id)
unfolding member current_record current_in get_in_pending get_in_segments Memtable.is_deleted
    Memtable.get lookup
a_state-members id = ground arith

a_state-IsCounted : IsCounted a_state 0
unfolding lookup member
a_state-IsCounted = record {
  col = a_collection;
  there = refl;
  readable = tt;
  live = 2 ∷ [];
  distinct = (refl, tt);
  members = a_state-members;
  count = refl;
}

-- A second write of an id that is live.
after_write : StoreState
after_write = put_records 0 ((2, rec_a) ∷ []) a_state

after_write-is : apply_record a_state (upsert 0 2 (1 ∷ 2 ∷ []) one_entry) ≡ ok after_write
unfolding apply_record apply_upsert after_write put_records lookup
after_write-is = refl

apply_record-IsCounted_example : IsCounted after_write 0
apply_record-IsCounted_example =
    apply_record-IsCounted a_state after_write 0 (upsert 0 2 (1 ∷ 2 ∷ []) one_entry)
      (unfold collection_of in refl) a_state-IsCounted after_write-is

rotate-current_record_example :
    current_record (rotate a_shared a_world).1.state 0 2 ≡ current_record a_world.state 0 2
rotate-current_record_example = rotate-current_record a_shared a_world 0 2 a_state-IsUnique

maybe_flush-current_record_example :
    current_record (maybe_flush a_shared a_world).state 0 2 ≡ current_record a_world.state 0 2
unfolding waited
maybe_flush-current_record_example =
    maybe_flush-current_record a_shared a_world 0 2 a_state-IsUnique a_state-IsUnique refl

abbrev a_pending : PendingFlush
a_pending = record { wal_seq = 0; memtables = (0, with_a) ∷ [] }

pending-IsFlushable :
    (cid : ℕ) (mt : Memtable) → lookup cid a_pending.memtables ≡ some mt → IsFlushable mt
unfolding lookup
pending-IsFlushable cid mt e = elim (Bool-cases (0 == cid)) [
  | inl same ↦
      subst IsFlushable (some-injective _ _ (rw same at e)) (with_a-IsValid, with_a-IsWritable)
  | inr other ↦ let absent : none ≡ some mt = rw other at e in cc
]

a_pending-IsPending : IsPending a_state a_pending
unfolding lookup
a_pending-IsPending = record {
  unique = (refl, tt);
  known = λ cid mt e. ground (arith, e);
  flushable = pending-IsFlushable;
}

abbrev a_flush : FlushPlan
a_flush = record { wal_seq = 0; work = record { cid = 0; memtable = with_a; seg_id = 0 } ∷ [] }

a_flush-is : plan_flush a_state ≡ some a_flush
unfolding plan_flush plan_work keys sort_ids lookup
a_flush-is = refl

-- The record of id 2 is in the memtable, and the deletion of id 1 hides what is flushed.
install_flush-current_record_example :
    current_record (install_flush a_flush a_world).state 0 1 ≡ current_record a_world.state 0 1
install_flush-current_record_example =
    install_flush-current_record a_state a_pending a_flush a_world 0 1 refl a_flush-is
      a_pending-IsPending (λ h. refl)

abbrev flushed_collection : CollectionState
flushed_collection = record (new_collection docs 2 l2) { segments = two_segments; live_len = 1 }

abbrev flushed_state : StoreState
flushed_state = record a_state { collections = (0, flushed_collection) ∷ []; pending_flush = none }

abbrev full_plan : CompactPlan
full_plan = record { run = two_segments; older_remains = false; seg_id = 0 }

full_plan-is : plan_compact a_shared 0 full flushed_state ≡ some full_plan
unfolding plan_compact run_length lookup
full_plan-is = refl

install_compact-current_record_example :
    (new : List Segment) × (merge_to_segments full_plan ≡ ok new)
    × All IsWritten new
    × ((w : World) (k : ℕ) (id : InternalId)
        → ((col' : CollectionState)
            → lookup 0 w.state.collections ≡ some col'
            → col'.segments ≡ two_segments)
        → current_record (install_compact 0 full_plan new w).state k id
          ≡ current_record w.state k id)
install_compact-current_record_example =
    install_compact-current_record a_shared 0 full flushed_state flushed_collection full_plan
      (unfold lookup in refl) two_segments-IsWritten full_plan-is

abbrev nothing : World
nothing = record {
  state = record {
    manifest = Manifest.empty;
    wal = some 1;
    collections = [];
    names = [];
    pending_flush = none;
    maint_error = false;
  };
  disk = record { manifest = Manifest.empty; wal_files = []; segments = [] };
  batch_state = idle_batch;
  unsynced = 0;
  unflushed = [];
}

abbrev created_world : Result (ℕ × World)
created_world = create_collection_op a_shared docs 2 l2 nothing

abbrev world_of : Result (ℕ × World) → World
world_of (ok (cid, w)) = w
world_of (err e) = nothing

created-is : create_collection_op a_shared docs 2 l2 nothing ≡ ok (0, world_of created_world)
unfolding create_collection_op log_and_apply ensure_writable apply_record lookup
created-is = refl

nothing-IsSound : IsSound nothing.state
unfolding lookup
nothing-IsSound = (λ name cid. ground arith, λ k le. refl)

CollectionStep-IsSound_example : IsSound (world_of created_world).state
CollectionStep-IsSound_example =
    CollectionStep-IsSound a_shared nothing (world_of created_world)
      (created docs 2 l2 0 nothing (world_of created_world) (omega arith) created-is)
      nothing-IsSound

pub a_shared-IsQuiet : IsQuiet a_shared
a_shared-IsQuiet = record { reads = λ w cid id. refl; unique = λ w u. u }

abbrev pub a_batch : List (InternalId × StoredRecord)
a_batch = (5, rec_a) ∷ (5, rec_b) ∷ []

upsert_batch-current_record_example :
    (w' : World) × (upsert_batch a_shared 0 a_batch a_world ≡ ok w')
    × ((k : ℕ) (j : InternalId)
        → current_record w'.state k j ≡ (
            if 0 == k
            then or_else (last_of j a_batch) (current_record a_state k j)
            else current_record a_state k j))
upsert_batch-current_record_example =
    upsert_batch-current_record a_shared 0 a_batch a_world a_collection refl (unfold lookup in refl)
      a_state-IsUnique a_shared-IsQuiet

replay-put_records_example :
    replay a_state (map (upsert_record 0) a_batch) ≡ ok (put_records 0 a_batch a_state)
replay-put_records_example =
    replay-put_records 0 a_batch a_state a_collection (unfold lookup in refl)

abbrev a_follower : Shared
a_follower = record a_shared { follower = true }

abbrev col_x : CollectionState
col_x = new_collection docs 2 l2

abbrev col_y : CollectionState
col_y = new_collection [] 2 l2

abbrev one_name : StoreState
one_name = apply_create 0 docs 2 l2 nothing.state

abbrev two_names : StoreState
two_names = apply_create 1 [] 2 l2 one_name

two_names-IsNamed : IsNamed two_names
unfolding apply_create lookup insert eq_bytes
two_names-IsNamed =
    apply_create-IsNamed one_name 1 [] 2 l2 refl refl
      (apply_create-IsNamed nothing.state 0 docs 2 l2 refl refl nothing-IsSound.0)

resolve-apply_swap_example :
    (s : StoreState) × (apply_swap 0 1 two_names ≡ ok s)
    × ((n : Text) → resolve s n ≡ swapped_reads 0 col_x 1 col_y two_names n)
resolve-apply_swap_example =
    resolve-apply_swap two_names 0 1 col_x col_y refl (unfold apply_create lookup insert in refl)
      (unfold apply_create lookup insert in refl) two_names-IsNamed

-- One frame, of the record that drops collection 0, and the first bytes of another.
abbrev a_piece : List ℕ
a_piece = 5 ∷ 0 ∷ 0 ∷ 0 ∷ 5 ∷ 0 ∷ 0 ∷ 0 ∷ 4 ∷ 0 ∷ 0 ∷ 0 ∷ 0 ∷ 9 ∷ 9 ∷ []

abbrev a_replay : WalReplay
a_replay = record { records = drop_collection 0 ∷ []; valid_len = 13 }

a_piece-read : read_frames checksum 16 a_piece 0 [] ≡ ok a_replay
unfolding read_frames read_frame decode decode_payload decode_record finish read_word take_bytes
    from_le_bytes is_empty hamane_db.Format.Reader.◌>>=◌ hamane_db.Format.Reader.pure
a_piece-read = refl

a_piece-replayed : replay a_state (drop_collection 0 ∷ []) ≡ ok (apply_drop 0 a_state)
unfolding replay apply_record
a_piece-replayed = refl

apply_wal_frames-replay_example :
    apply_wal_frames checksum a_follower a_piece a_world
    ≡ ok (13, with_state a_world (apply_drop 0 a_state))
apply_wal_frames-replay_example =
    apply_wal_frames-replay checksum a_follower a_piece a_world a_replay (apply_drop 0 a_state) refl
      a_piece-read a_piece-replayed

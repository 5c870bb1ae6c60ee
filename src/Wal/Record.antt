-- ===== src/Wal/Record.antt =====
-- `WalRecord` of wal.rs, with its encoding.
pub mod RoundTrip
use hamane_db.Base.{ℕ, ◌%◌, ◌^◌, List, [], ◌∷◌, ◌==◌, if◌then◌else◌, length}
use hamane_db.Base.Outcome.{Result, ok, err, corrupted}
use hamane_db.Core.Record.{InternalId, Text, Metadata, Metric}
use hamane_db.Format.Reader.{
  Reader, Read, ◌>>=◌, pure, fail, lift, reader, is_empty, read_u8, read_u32, read_u64, f32_vec,
  read_string, put_u8, put_u32, put_u64, put_f32_slice, put_string,
}
use hamane_db.Format.Meta.{metric_to_u8, metric_from_u8, put_metadata, read_metadata}

pub data WalRecord : Type 0 where
  -- the collection, the record's id, its vector and its metadata
  upsert : ℕ → InternalId → List ℕ → Metadata → WalRecord
  delete : ℕ → InternalId → WalRecord
  -- the collection, its name, dimension and metric
  create_collection : ℕ → Text → ℕ → Metric → WalRecord
  drop_collection : ℕ → WalRecord
  rename_collection : ℕ → Text → WalRecord
  swap_collection_names : ℕ → ℕ → WalRecord
  update_meta : ℕ → InternalId → Metadata → WalRecord

unfoldable pub encode : WalRecord → List ℕ
encode (upsert cid id vector metadata) =
    put_metadata
      (put_f32_slice (put_u32 (put_u64 (put_u32 (put_u8 [] 1) cid) id) (length vector % 2 ^ 32))
        vector)
      metadata
encode (delete cid id) = put_u64 (put_u32 (put_u8 [] 2) cid) id
encode (create_collection cid name dim metric) =
    put_u8 (put_u32 (put_string (put_u32 (put_u8 [] 3) cid) name) dim) (metric_to_u8 metric)
encode (drop_collection cid) = put_u32 (put_u8 [] 4) cid
encode (rename_collection cid new_name) = put_string (put_u32 (put_u8 [] 5) cid) new_name
encode (swap_collection_names a b) = put_u32 (put_u32 (put_u8 [] 6) a) b
encode (update_meta cid id metadata) =
    put_metadata (put_u64 (put_u32 (put_u8 [] 7) cid) id) metadata

-- The payload of each record type.
unfoldable pub decode_upsert : Read WalRecord
decode_upsert = do
  cid ← read_u32
  id ← read_u64
  dim ← read_u32
  vector ← f32_vec dim
  metadata ← read_metadata
  pure (upsert cid id vector metadata)

unfoldable pub decode_create : Read WalRecord
decode_create = do
  cid ← read_u32
  name ← read_string
  dim ← read_u32
  tag ← read_u8
  metric ← lift (metric_from_u8 tag)
  pure (create_collection cid name dim metric)

unfoldable pub decode_payload : ℕ → Read WalRecord
decode_payload t =
    if t == 1
    then decode_upsert
    else if t == 2
    then (do cid ← read_u32; id ← read_u64; pure (delete cid id))
    else if t == 3
    then decode_create
    else if t == 4
    then (do cid ← read_u32; pure (drop_collection cid))
    else if t == 5
    then (do cid ← read_u32; name ← read_string; pure (rename_collection cid name))
    else if t == 6
    then (do a ← read_u32; b ← read_u32; pure (swap_collection_names a b))
    else if t == 7
    then (do
      cid ← read_u32
      id ← read_u64
      metadata ← read_metadata
      pure (update_meta cid id metadata))
    else fail

unfoldable pub decode_record : Read WalRecord
decode_record = do t ← read_u8; decode_payload t

unfoldable pub finish : Result (WalRecord × Reader) → Result WalRecord
finish (err e) = err e
finish (ok (rec, r)) = if is_empty r then ok rec else err corrupted

unfoldable pub decode : List ℕ → Result WalRecord
unfolding finish
decode body = finish (decode_record (reader body))

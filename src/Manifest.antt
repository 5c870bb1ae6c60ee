-- ===== src/Manifest.antt =====
-- crates/hamane-storage/src/manifest.rs: the generations of the segment list. Writing the file,
-- the switch of CURRENT and the removal of old files are not modelled.
pub mod RoundTrip
use hamane_db.Base.{
  ℕ, zero, suc, ◌+◌, ◌-◌, ◌%◌, ◌^◌, Bool, true, false, ◌&&◌, ◌||◌, not, List, [], ◌∷◌, ◌++◌, length,
  take, drop, ltb, ◌==◌, eq_bytes, from_le_bytes, if◌then◌else◌,
}
use hamane_db.Base.Outcome.{Result, ok, err, corrupted}
use hamane_db.Core.Record.{Text, Metric}
use hamane_db.Format.Reader.{
  Reader, Read, ◌>>=◌, pure, fail, lift, reader, is_empty, read_u8, read_u32, read_u64, read_string,
  put_u8, put_u32, put_u64, put_string,
}
use hamane_db.Format.Meta.{metric_to_u8, metric_from_u8}

pub record SegmentEntry : Type 0 where
  pub seg_id : ℕ
  pub record_count : ℕ
  pub tombstone_count : ℕ

pub record CollectionEntry : Type 0 where
  pub collection_id : ℕ
  pub name : Text
  pub dim : ℕ
  pub metric : Metric
  -- oldest first
  pub segments : List SegmentEntry

pub record Manifest : Type 0 where
  pub gen : ℕ
  pub next_collection_id : ℕ
  pub next_seg_id : ℕ
  pub wal_seq : ℕ
  pub collections : List CollectionEntry

abbrev pub empty : Manifest
empty = record { gen = 0; next_collection_id = 0; next_seg_id = 0; wal_seq = 0; collections = [] }

-- "HAMANEF\x01" and "HAMANEF\x02"
abbrev pub magic_manifest : List ℕ
magic_manifest = b'H' ∷ b'A' ∷ b'M' ∷ b'A' ∷ b'N' ∷ b'E' ∷ b'F' ∷ 1 ∷ []

abbrev pub magic_manifest_v2 : List ℕ
magic_manifest_v2 = b'H' ∷ b'A' ∷ b'M' ∷ b'A' ∷ b'N' ∷ b'E' ∷ b'F' ∷ 2 ∷ []

unfoldable pub put_segments : List ℕ → List SegmentEntry → List ℕ
put_segments out [] = out
put_segments out (seg ∷ segs) =
    put_segments (put_u64 (put_u64 (put_u64 out seg.seg_id) seg.record_count) seg.tombstone_count)
      segs

unfoldable pub put_collection : List ℕ → CollectionEntry → List ℕ
put_collection out col =
    put_segments
      (put_u32
        (put_u8 (put_u32 (put_string (put_u32 out col.collection_id) col.name) col.dim)
          (metric_to_u8 col.metric))
        (length col.segments % 2 ^ 32))
      col.segments

unfoldable pub put_collections : List ℕ → List CollectionEntry → List ℕ
put_collections out [] = out
put_collections out (col ∷ cols) = put_collections (put_collection out col) cols

-- All but the checksum.
unfoldable pub content : Manifest → List ℕ
content m =
    put_collections
      (put_u32
        (put_u64
          (put_u64 (put_u32 (put_u64 magic_manifest_v2 m.gen) m.next_collection_id) m.next_seg_id)
          m.wal_seq)
        (length m.collections % 2 ^ 32))
      m.collections

unfoldable pub read_segment : Read SegmentEntry
read_segment = do
  seg_id ← read_u64
  record_count ← read_u64
  tombstone_count ← read_u64
  pure (record { seg_id = seg_id; record_count = record_count; tombstone_count = tombstone_count })

-- `for _ in 0..seg_count`
unfoldable pub read_segments : ℕ → List SegmentEntry → Read (List SegmentEntry)
read_segments zero segs = pure segs
read_segments (suc n) segs = do seg ← read_segment; read_segments n (segs ++ (seg ∷ []))

-- `segments.windows(2).all(|w| w[0].seg_id < w[1].seg_id)`
unfoldable pub ascending_segments : List SegmentEntry → Bool
ascending_segments [] = true
ascending_segments (a ∷ []) = true
ascending_segments (a ∷ b ∷ segs) = ltb a.seg_id b.seg_id && ascending_segments (b ∷ segs)

unfoldable pub checked_order : Bool → CollectionEntry → Read CollectionEntry
checked_order is_v1 col = if is_v1 && not (ascending_segments col.segments) then fail else pure col

unfoldable pub read_collection : Bool → Read CollectionEntry
read_collection is_v1 = do
  collection_id ← read_u32
  name ← read_string
  dim ← read_u32
  tag ← read_u8
  metric ← lift (metric_from_u8 tag)
  seg_count ← read_u32
  segments ← read_segments seg_count []
  checked_order is_v1 (record {
    collection_id = collection_id;
    name = name;
    dim = dim;
    metric = metric;
    segments = segments;
  })

unfoldable pub read_collections : Bool → ℕ → List CollectionEntry → Read (List CollectionEntry)
read_collections is_v1 zero cols = pure cols
read_collections is_v1 (suc n) cols = do
  col ← read_collection is_v1
  read_collections is_v1 n (cols ++ (col ∷ []))

unfoldable pub read_body : Bool → Read Manifest
read_body is_v1 = do
  gen ← read_u64
  next_collection_id ← read_u32
  next_seg_id ← read_u64
  wal_seq ← read_u64
  collection_count ← read_u32
  collections ← read_collections is_v1 collection_count []
  pure (record {
    gen = gen;
    next_collection_id = next_collection_id;
    next_seg_id = next_seg_id;
    wal_seq = wal_seq;
    collections = collections;
  })

unfoldable pub whole : Result (Manifest × Reader) → Result Manifest
whole (err e) = err e
whole (ok (m, r)) = if is_empty r then ok m else err corrupted

module _ (crc32c : List ℕ → ℕ) where
  unfoldable pub encode : Manifest → List ℕ
  unfolding content
  encode m = put_u32 (content m) (crc32c (content m))

  unfoldable pub decode : List ℕ → Result Manifest
  unfolding whole
  decode buf =
      if ltb (length buf) 12
        || (not (eq_bytes (take 8 buf) magic_manifest)
            && not (eq_bytes (take 8 buf) magic_manifest_v2))
      then err corrupted
      else (let content = take (length buf - 4) buf in
          let stored = from_le_bytes (drop (length buf - 4) buf) in
          if not (crc32c content == stored)
          then err corrupted
          else whole (read_body (eq_bytes (take 8 buf) magic_manifest) (reader (drop 8 content))))

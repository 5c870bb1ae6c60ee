-- ===== src/Tests/Codec.antt =====
-- The codecs at concrete inputs.
use hamane_db.Base.{
  drop, ◌≤◌, ℕ, ◌+◌, ◌%◌, ◌^◌, ◌≡◌, refl, true, List, [], ◌∷◌, ◌++◌, length, take, is_some, member,
  nat_eq, All, le_bytes, arith,
}
use hamane_db.Base.Outcome.{ok, err, corrupted}
use hamane_db.Core.Record.{Text, MetaValue, l2, Metadata}
use hamane_db.Format.Utf8.{is_utf8}
use hamane_db.Format.Reader.{Reader, reader, is_empty, put_u8, put_u32, put_u64, put_string}
use hamane_db.Format.Reader.Reads.{IsText}
use hamane_db.Format.Frame.{torn, read_frame}
use hamane_db.Format.Frame.Laws.{IsU32Function}
use hamane_db.Format.Meta.{metric_to_u8, put_metadata, read_metadata}
use hamane_db.Format.Meta.RoundTrip.{IsMetadata, read_metadata-put_metadata}
use hamane_db.Manifest
use hamane_db.Manifest.{SegmentEntry, CollectionEntry, Manifest}
use hamane_db.Manifest.RoundTrip.{IsManifest, decode-encode_v2}
use hamane_db.Segment.{binary_search}
use hamane_db.Segment.Search.{binary_search-eq-member}
use hamane_db.Wal.Record.{WalRecord, encode, decode, upsert, delete, create_collection}
use hamane_db.Wal.Record.RoundTrip.{IsWalRecord, decode-encode, decode_trailing}
use hamane_db.Wal.File.{magic_wal, append_all, read_all}
use hamane_db.Wal.File.Stop.{read_all-stops}
use hamane_db.Wal.File.Recovery.{IsLoggable, survivors, frames_bytes, read_all_after_crash}

abbrev pub docs : Text
docs = b'd' ∷ b'o' ∷ b'c' ∷ b's' ∷ []

abbrev pub one_entry : Metadata
one_entry = (b'k' ∷ [], MetaValue.int 5) ∷ []

docs-IsText : IsText docs
unfolding is_utf8
docs-IsText = record { utf8 = refl; short = omega arith }

pub one_entry-IsMetadata : IsMetadata one_entry
unfolding is_utf8
one_entry-IsMetadata = record {
  sorted = (tt, tt);
  entries = ((record { utf8 = refl; short = omega arith }, omega arith), tt);
  short = omega arith;
}

read_metadata-put_metadata_example :
    (r : Reader) × (read_metadata (reader (put_metadata [] one_entry)) ≡ ok (one_entry, r))
    × (is_empty r ≡ true)
read_metadata-put_metadata_example = read_metadata-put_metadata one_entry one_entry-IsMetadata

abbrev a_write : WalRecord
a_write = upsert 0 7 (3 ∷ 4 ∷ []) one_entry

a_write-IsWalRecord : IsWalRecord a_write
a_write-IsWalRecord =
    (omega arith, omega arith, omega arith, (omega arith, (omega arith, tt)), one_entry-IsMetadata)

decode-encode_example : decode (encode a_write) ≡ ok a_write
decode-encode_example = decode-encode a_write a_write-IsWalRecord

decode_trailing_example : decode (encode a_write ++ (9 ∷ [])) ≡ err corrupted
decode_trailing_example = decode_trailing a_write 9 [] a_write-IsWalRecord

-- A checksum function for the examples.
abbrev pub checksum : List ℕ → ℕ
checksum bs = length bs % 2 ^ 32

checksum-IsU32Function : IsU32Function checksum
checksum-IsU32Function bs = omega arith

abbrev a_log : List WalRecord
a_log = create_collection 0 docs 2 l2 ∷ delete 0 7 ∷ []

length-created : length (encode (create_collection 0 docs 2 l2)) ≡ 18
unfolding encode put_u8 put_u32 put_string metric_to_u8 le_bytes
length-created = refl

length-deleted : length (encode (delete 0 7)) ≡ 13
unfolding encode put_u8 put_u32 put_u64 le_bytes
length-deleted = refl

a_log-IsLoggable : All IsLoggable a_log
a_log-IsLoggable = (
  record {
    typed = (omega arith, docs-IsText, omega arith);
    framed = record {
      nonempty = omega (arith, length-created);
      short = omega (arith, length-created);
    };
  },
  (
    record {
      typed = (omega arith, omega arith);
      framed = record {
        nonempty = omega (arith, length-deleted);
        short = omega (arith, length-deleted);
      };
    },
    tt,
  ),
)

-- The second frame lacks its last bytes.
read_all_after_crash_example :
    read_all checksum (take (8 + 40) (append_all checksum magic_wal a_log))
    ≡ ok (record {
      records = survivors checksum 40 a_log;
      valid_len = 8 + length (frames_bytes checksum (survivors checksum 40 a_log));
    })
read_all_after_crash_example =
    read_all_after_crash checksum checksum-IsU32Function 40 a_log a_log-IsLoggable

abbrev a_manifest : Manifest
a_manifest = record {
  gen = 3;
  next_collection_id = 1;
  next_seg_id = 2;
  wal_seq = 4;
  collections =
      record {
        collection_id = 0;
        name = docs;
        dim = 2;
        metric = l2;
        segments = record { seg_id = 1; record_count = 5; tombstone_count = 0 } ∷ [];
      }
      ∷ [];
}

a_manifest-IsManifest : IsManifest a_manifest
a_manifest-IsManifest = record {
  gen = omega arith;
  next_collection_id = omega arith;
  next_seg_id = omega arith;
  wal_seq = omega arith;
  count = omega arith;
  collections = (
    record {
      collection_id = omega arith;
      name = docs-IsText;
      dim = omega arith;
      count = omega arith;
      segments = ((omega arith, omega arith, omega arith), tt);
    },
    tt,
  );
}

decode-encode_v2_example :
    Manifest.decode checksum (Manifest.encode checksum a_manifest) ≡ ok a_manifest
decode-encode_v2_example =
    decode-encode_v2 checksum checksum-IsU32Function a_manifest a_manifest-IsManifest

abbrev some_ids : List ℕ
some_ids = 2 ∷ 5 ∷ 9 ∷ []

binary_search-eq-member_example : is_some (binary_search 4 some_ids 5 0 3) ≡ member 5 some_ids
binary_search-eq-member_example =
    binary_search-eq-member some_ids 5
      ((omega arith, (omega arith, tt)), ((omega arith, tt), (tt, tt)))

read_all-stops_example :
    (read_frame checksum (
        drop
          (8 + length (frames_bytes checksum (survivors checksum 40 a_log)))
          (take (8 + 40) (append_all checksum magic_wal a_log)))
      ≡ torn)
    × (8 + length (frames_bytes checksum (survivors checksum 40 a_log))
        ≤ length (take (8 + 40) (append_all checksum magic_wal a_log)))
read_all-stops_example =
    read_all-stops checksum (take (8 + 40) (append_all checksum magic_wal a_log))
      (record {
        records = survivors checksum 40 a_log;
        valid_len = 8 + length (frames_bytes checksum (survivors checksum 40 a_log));
      })
      read_all_after_crash_example

-- ===== src/Wal/Record/RoundTrip.antt =====
-- A WAL record is decoded from exactly the bytes that `encode` wrote.
use hamane_db.Base.{
  ℕ, ◌%◌, ◌^◌, ◌<◌, ◌≡◌, refl, sym, ◌∙◌, ap, subst, if◌then◌else◌, ◌==◌, List, [], ◌∷◌, ◌++◌,
  append_assoc, append-nil, length, All, le_bytes, arith,
}
use hamane_db.Base.Outcome.{ok, err, corrupted}
use hamane_db.Core.Record.{InternalId, Text, Metadata, Metric, l2, cosine, dot}
use hamane_db.Format.Reader.{
  Reader, lift, reader, is_empty, read_word, f32_vec, read_string, put_u32,
}
use hamane_db.Format.Reader.Reads.{
  At, At-reader, remaining-At, Reads, Reads-pure, Reads-bind, Reads-last, Reads-map, Reads-word,
  Reads-u8, Reads-string, Reads-f32_vec, IsText, IsF32, text_bytes, f32_bytes, put_u8-append,
  put_u32-append, put_u64-append, put_string-append, put_f32_slice-append,
}
use hamane_db.Format.Meta.{metric_to_u8, metric_from_u8, read_metadata}
use hamane_db.Format.Meta.RoundTrip.{
  IsMetadata, metadata_bytes, put_metadata-append, Reads-metadata, metric_from_u8-metric_to_u8,
}
use hamane_db.Wal.Record.{
  WalRecord, upsert, delete, create_collection, drop_collection, rename_collection,
  swap_collection_names, update_meta, encode, decode_upsert, decode_create, decode_payload,
  decode_record, finish, decode,
}

abbrev pub IsU32 : ℕ → Type 0
IsU32 n = n < 2 ^ 32

abbrev pub IsU64 : ℕ → Type 0
IsU64 n = n < 2 ^ 64

-- The values that the Rust type holds, with a vector of fewer than 2 ^ 32 numbers.
abbrev pub IsWalRecord : WalRecord → Type 0
IsWalRecord (upsert cid id vector metadata) =
    IsU32 cid × IsU64 id × IsU32 (length vector) × All IsF32 vector × IsMetadata metadata
IsWalRecord (delete cid id) = IsU32 cid × IsU64 id
IsWalRecord (create_collection cid name dim metric) = IsU32 cid × IsText name × IsU32 dim
IsWalRecord (drop_collection cid) = IsU32 cid
IsWalRecord (rename_collection cid name) = IsU32 cid × IsText name
IsWalRecord (swap_collection_names a b) = IsU32 a × IsU32 b
IsWalRecord (update_meta cid id metadata) = IsU32 cid × IsU64 id × IsMetadata metadata

abbrev pub payload_bytes : WalRecord → List ℕ
payload_bytes (upsert cid id vector metadata) =
    le_bytes 4 cid
    ++ (le_bytes 8 id
        ++ (le_bytes 4 (length vector) ++ (f32_bytes vector ++ metadata_bytes metadata)))
payload_bytes (delete cid id) = le_bytes 4 cid ++ le_bytes 8 id
payload_bytes (create_collection cid name dim metric) =
    le_bytes 4 cid ++ (text_bytes name ++ (le_bytes 4 dim ++ (metric_to_u8 metric ∷ [])))
payload_bytes (drop_collection cid) = le_bytes 4 cid
payload_bytes (rename_collection cid name) = le_bytes 4 cid ++ text_bytes name
payload_bytes (swap_collection_names a b) = le_bytes 4 a ++ le_bytes 4 b
payload_bytes (update_meta cid id metadata) =
    le_bytes 4 cid ++ (le_bytes 8 id ++ metadata_bytes metadata)

abbrev pub type_byte : WalRecord → ℕ
type_byte (upsert cid id vector metadata) = 1
type_byte (delete cid id) = 2
type_byte (create_collection cid name dim metric) = 3
type_byte (drop_collection cid) = 4
type_byte (rename_collection cid name) = 5
type_byte (swap_collection_names a b) = 6
type_byte (update_meta cid id metadata) = 7

abbrev pub record_bytes : WalRecord → List ℕ
record_bytes rec = type_byte rec ∷ payload_bytes rec

pub put_length-append :
    (out : List ℕ) (n : ℕ) → IsU32 n → put_u32 out (n % 2 ^ 32) ≡ out ++ le_bytes 4 n
put_length-append out n h =
    put_u32-append out (n % 2 ^ 32)
    ∙ ap (λ k. out ++ le_bytes 4 k) (let e : n % 2 ^ 32 ≡ n = omega arith in e)

ruleset put_laws =
    (put_u8-append, put_u32-append, put_u64-append, put_f32_slice-append, append_assoc)

pub encode-eq-record_bytes : (rec : WalRecord) → IsWalRecord rec → encode rec ≡ record_bytes rec
unfolding encode
encode-eq-record_bytes (upsert cid id vector metadata) (hc, hi, hl, hv, hm) =
    put_metadata-append _ metadata hm ∙ rw (put_length-append _ (length vector) hl) (simp put_laws)
encode-eq-record_bytes (delete cid id) h = simp put_laws
encode-eq-record_bytes (create_collection cid name dim metric) (hc, hn, hd) =
    rw (put_string-append _ name hn) (simp put_laws)
encode-eq-record_bytes (drop_collection cid) h = simp put_laws
encode-eq-record_bytes (rename_collection cid name) (hc, hn) =
    put_string-append _ name hn ∙ simp put_laws
encode-eq-record_bytes (swap_collection_names a b) h = simp put_laws
encode-eq-record_bytes (update_meta cid id metadata) (hc, hi, hm) =
    put_metadata-append _ metadata hm ∙ simp put_laws

Reads-upsert :
    (cid : ℕ) (id : InternalId) (vector : List ℕ) (metadata : Metadata)
    → IsWalRecord (upsert cid id vector metadata)
    → Reads decode_upsert
        (payload_bytes (upsert cid id vector metadata))
        (upsert cid id vector metadata)
unfolding decode_upsert
Reads-upsert cid id vector metadata (hc, hi, hl, hv, hm) =
    Reads-bind (read_word 4) _ (Reads-word 4 cid (omega arith)) (
      Reads-bind (read_word 8) _ (Reads-word 8 id (omega arith)) (
        Reads-bind (read_word 4) _ (Reads-word 4 (length vector) (omega arith)) (
          Reads-bind (f32_vec (length vector)) _ (Reads-f32_vec vector hv)
            (Reads-map read_metadata (upsert cid id vector) _ (Reads-metadata metadata hm)))))

pub Reads-metric_tag : (m : Metric) → Reads (read_word 1) (metric_to_u8 m ∷ []) (metric_to_u8 m)
unfolding metric_to_u8
Reads-metric_tag l2 = Reads-u8 0 (omega arith)
Reads-metric_tag cosine = Reads-u8 1 (omega arith)
Reads-metric_tag dot = Reads-u8 2 (omega arith)

lift_ok {ℓ} : {A : Type ℓ} (a : A) → Reads (lift (ok a)) [] a
unfolding lift
lift_ok a = record { run = λ r rest at. (r, refl, at) }

pub Reads-lift : (m : Metric) → Reads (lift (metric_from_u8 (metric_to_u8 m))) [] m
Reads-lift m = subst (λ o. Reads (lift o) [] m) (sym (metric_from_u8-metric_to_u8 m)) (lift_ok m)

type_byte-lt : (rec : WalRecord) → type_byte rec < 256
type_byte-lt rec = ground arith

Reads-create :
    (cid : ℕ) (name : Text) (dim : ℕ) (metric : Metric)
    → IsWalRecord (create_collection cid name dim metric)
    → Reads decode_create
        (payload_bytes (create_collection cid name dim metric))
        (create_collection cid name dim metric)
unfolding decode_create
Reads-create cid name dim metric (hc, hn, hd) =
    Reads-bind (read_word 4) _ (Reads-word 4 cid (omega arith)) (
      Reads-bind read_string _ (Reads-string name hn) (
        Reads-bind (read_word 4) _ (Reads-word 4 dim (omega arith)) (
          Reads-last (read_word 1) _ (Reads-metric_tag metric) (
            Reads-last (lift (metric_from_u8 (metric_to_u8 metric))) _ (Reads-lift metric)
              (Reads-pure (create_collection cid name dim metric))))))

pub Reads-payload :
    (rec : WalRecord)
    → IsWalRecord rec
    → Reads (decode_payload (type_byte rec)) (payload_bytes rec) rec
unfolding decode_payload
Reads-payload (upsert cid id vector metadata) h = Reads-upsert cid id vector metadata h
Reads-payload (delete cid id) (hc, hi) =
    Reads-bind (read_word 4) _ (Reads-word 4 cid (omega arith))
      (Reads-map (read_word 8) (delete cid) _ (Reads-word 8 id (omega arith)))
Reads-payload (create_collection cid name dim metric) h = Reads-create cid name dim metric h
Reads-payload (drop_collection cid) h =
    Reads-map (read_word 4) drop_collection _ (Reads-word 4 cid (omega arith))
Reads-payload (rename_collection cid name) (hc, hn) =
    Reads-bind (read_word 4) _ (Reads-word 4 cid (omega arith))
      (Reads-map read_string (rename_collection cid) _ (Reads-string name hn))
Reads-payload (swap_collection_names a b) (ha, hb) =
    Reads-bind (read_word 4) _ (Reads-word 4 a (omega arith))
      (Reads-map (read_word 4) (swap_collection_names a) _ (Reads-word 4 b (omega arith)))
Reads-payload (update_meta cid id metadata) (hc, hi, hm) =
    Reads-bind (read_word 4) _ (Reads-word 4 cid (omega arith)) (
      Reads-bind (read_word 8) _ (Reads-word 8 id (omega arith))
        (Reads-map read_metadata (update_meta cid id) _ (Reads-metadata metadata hm)))

Reads-record : (rec : WalRecord) → IsWalRecord rec → Reads decode_record (record_bytes rec) rec
unfolding decode_record
Reads-record rec h =
    Reads-bind (read_word 1) decode_payload (Reads-u8 (type_byte rec) (type_byte-lt rec))
      (Reads-payload rec h)

finish-At :
    (rec : WalRecord) (r : Reader) (rest : List ℕ)
    → At r rest
    → finish (ok (rec, r)) ≡ (if length rest == 0 then ok rec else err corrupted)
unfolding finish is_empty
finish-At rec r rest at =
    ap (λ n. if n == 0 then ok rec else err corrupted) (remaining-At r rest at)

decode-append :
    (rec : WalRecord) (rest : List ℕ)
    → IsWalRecord rec
    → decode (record_bytes rec ++ rest) ≡ (if length rest == 0 then ok rec else err corrupted)
unfolding decode
decode-append rec rest h =
    let (r, e, at) =
      (Reads-record rec h).run (reader (record_bytes rec ++ rest)) rest
        (At-reader (record_bytes rec ++ rest)) in
    ap finish e ∙ finish-At rec r rest at

-- A record of the Rust type, of lengths below 2 ^ 32, is decoded from the bytes that were
-- written for it.
pub decode-encode : (rec : WalRecord) → IsWalRecord rec → decode (encode rec) ≡ ok rec
decode-encode rec h =
    ap decode (encode-eq-record_bytes rec h ∙ sym (append-nil (record_bytes rec)))
    ∙ decode-append rec [] h

-- The bytes that were written for a record of the Rust type are refused as corrupt when more
-- bytes follow.
pub decode_trailing :
    (rec : WalRecord) (b : ℕ) (rest : List ℕ)
    → IsWalRecord rec
    → decode (encode rec ++ (b ∷ rest)) ≡ err corrupted
decode_trailing rec b rest h =
    ap (λ l. decode (l ++ (b ∷ rest))) (encode-eq-record_bytes rec h)
    ∙ decode-append rec (b ∷ rest) h
    ∙ nonzero
  where
    nonzero : (if length (b ∷ rest) == 0 then ok rec else err corrupted) ≡ err corrupted
    nonzero = ground arith

-- ===== src/Manifest/RoundTrip.antt =====
-- A manifest is decoded from the bytes that `encode` wrote.
use hamane_db.Base.{
  ℕ, ◌-◌, ◌≡◌, sym, ◌∙◌, ap, subst, false, List, [], ◌∷◌, ◌++◌, append_assoc, append-nil, length,
  length-append, take, drop, take-append, drop-append, All, le_bytes, length-le_bytes,
  from_le_bytes, from_le_bytes-le_bytes, eq_bytes, arith,
}
use hamane_db.Base.Outcome.{ok}
use hamane_db.Format.Frame.Laws.{IsU32Function}
use hamane_db.Format.Reader.{lift, reader, read_word, read_string, put_u32, put_u64}
use hamane_db.Format.Reader.Reads.{
  At, At-reader, is_empty-At, Reads, Reads-pure, Reads-bind, Reads-last, Reads-map, Reads-value,
  Reads-word, Reads-string, IsText, text_bytes, put_u8-append, put_u32-append, put_u64-append,
  put_string-append,
}
use hamane_db.Format.Meta.{metric_to_u8, metric_from_u8}
use hamane_db.Wal.Record.RoundTrip.{IsU32, IsU64, Reads-metric_tag, Reads-lift, put_length-append}
use hamane_db.Manifest.{
  SegmentEntry, CollectionEntry, Manifest, magic_manifest_v2, put_segments, put_collection,
  put_collections, content, read_segment, read_segments, checked_order, read_collection,
  read_collections, read_body, whole, encode, decode,
}

-- The values that the Rust types hold.
abbrev pub IsSegmentEntry : SegmentEntry → Type 0
IsSegmentEntry s = IsU64 s.seg_id × IsU64 s.record_count × IsU64 s.tombstone_count

pub record IsCollectionEntry (c : CollectionEntry) : Type 0 where
  pub collection_id : IsU32 c.collection_id
  pub name : IsText c.name
  pub dim : IsU32 c.dim
  pub count : IsU32 (length c.segments)
  pub segments : All IsSegmentEntry c.segments

pub record IsManifest (m : Manifest) : Type 0 where
  pub gen : IsU64 m.gen
  pub next_collection_id : IsU32 m.next_collection_id
  pub next_seg_id : IsU64 m.next_seg_id
  pub wal_seq : IsU64 m.wal_seq
  pub count : IsU32 (length m.collections)
  pub collections : All IsCollectionEntry m.collections

abbrev segment_bytes : SegmentEntry → List ℕ
segment_bytes s = le_bytes 8 s.seg_id ++ (le_bytes 8 s.record_count ++ le_bytes 8 s.tombstone_count)

abbrev segments_bytes : List SegmentEntry → List ℕ
segments_bytes [] = []
segments_bytes (s ∷ l) = segment_bytes s ++ segments_bytes l

abbrev collection_bytes : CollectionEntry → List ℕ
collection_bytes c =
    le_bytes 4 c.collection_id
    ++ (text_bytes c.name
        ++ (le_bytes 4 c.dim
            ++ ((metric_to_u8 c.metric ∷ [])
                ++ (le_bytes 4 (length c.segments) ++ segments_bytes c.segments))))

abbrev collections_bytes : List CollectionEntry → List ℕ
collections_bytes [] = []
collections_bytes (c ∷ l) = collection_bytes c ++ collections_bytes l

abbrev body_bytes : Manifest → List ℕ
body_bytes m =
    le_bytes 8 m.gen
    ++ (le_bytes 4 m.next_collection_id
        ++ (le_bytes 8 m.next_seg_id
            ++ (le_bytes 8 m.wal_seq
                ++ (le_bytes 4 (length m.collections) ++ collections_bytes m.collections))))

ruleset put_laws = (put_u8-append, put_u32-append, put_u64-append, append_assoc)

put_segments-append :
    (out : List ℕ) (l : List SegmentEntry) → put_segments out l ≡ out ++ segments_bytes l
unfolding put_segments
put_segments-append out [] = sym (append-nil out)
put_segments-append out (s ∷ l) =
    put_segments-append (put_u64 (put_u64 (put_u64 out s.seg_id) s.record_count) s.tombstone_count)
      l
    ∙ simp put_laws

put_collection-append :
    (out : List ℕ) (c : CollectionEntry)
    → IsCollectionEntry c
    → put_collection out c ≡ out ++ collection_bytes c
unfolding put_collection
put_collection-append out c h =
    put_segments-append _ c.segments
    ∙ rw (put_length-append _ (length c.segments) h.count, put_string-append _ c.name h.name)
        (simp put_laws)

put_collections-append :
    (out : List ℕ) (l : List CollectionEntry)
    → All IsCollectionEntry l
    → put_collections out l ≡ out ++ collections_bytes l
unfolding put_collections
put_collections-append out [] h = sym (append-nil out)
put_collections-append out (c ∷ l) h =
    put_collections-append (put_collection out c) l h.1
    ∙ ap (λ o. o ++ collections_bytes l) (put_collection-append out c h.0)
    ∙ append_assoc out (collection_bytes c) (collections_bytes l)

content-eq : (m : Manifest) → IsManifest m → content m ≡ magic_manifest_v2 ++ body_bytes m
unfolding content
content-eq m h =
    put_collections-append _ m.collections h.collections
    ∙ rw (put_length-append _ (length m.collections) h.count) (simp put_laws)

Reads-segment : (s : SegmentEntry) → IsSegmentEntry s → Reads read_segment (segment_bytes s) s
unfolding read_segment
Reads-segment s (a, b, c) = Reads-bind (read_word 8) _ (Reads-word 8 s.seg_id (omega arith)) (
    Reads-bind (read_word 8) _ (Reads-word 8 s.record_count (omega arith)) (
      Reads-map (read_word 8)
        (λ n. record { seg_id = s.seg_id; record_count = s.record_count; tombstone_count = n }) _
        (Reads-word 8 s.tombstone_count (omega arith))))

Reads-segments :
    (acc l : List SegmentEntry)
    → All IsSegmentEntry l
    → Reads (read_segments (length l) acc) (segments_bytes l) (acc ++ l)
unfolding read_segments
Reads-segments acc [] h = Reads-value (sym (append-nil acc)) (Reads-pure acc)
Reads-segments acc (s ∷ l) h =
    Reads-bind read_segment (λ seg. read_segments (length l) (acc ++ (seg ∷ [])))
      (Reads-segment s h.0)
      (Reads-value (append_assoc acc (s ∷ []) l) (Reads-segments (acc ++ (s ∷ [])) l h.1))

Reads-collection :
    (c : CollectionEntry)
    → IsCollectionEntry c
    → Reads (read_collection false) (collection_bytes c) c
unfolding read_collection checked_order
Reads-collection c h =
    Reads-bind (read_word 4) _ (Reads-word 4 c.collection_id (omega (arith, h.collection_id))) (
      Reads-bind read_string _ (Reads-string c.name h.name) (
        Reads-bind (read_word 4) _ (Reads-word 4 c.dim (omega (arith, h.dim))) (
          Reads-bind (read_word 1) _ (Reads-metric_tag c.metric) (
            Reads-bind (lift (metric_from_u8 (metric_to_u8 c.metric))) _ (Reads-lift c.metric) (
              Reads-bind (read_word 4) _ (Reads-word 4 (length c.segments) (omega (arith, h.count)))
                (Reads-last (read_segments (length c.segments) []) _
                  (Reads-segments [] c.segments h.segments) (Reads-pure c)))))))

Reads-collections :
    (acc l : List CollectionEntry)
    → All IsCollectionEntry l
    → Reads (read_collections false (length l) acc) (collections_bytes l) (acc ++ l)
unfolding read_collections
Reads-collections acc [] h = Reads-value (sym (append-nil acc)) (Reads-pure acc)
Reads-collections acc (c ∷ l) h =
    Reads-bind (read_collection false)
      (λ col. read_collections false (length l) (acc ++ (col ∷ []))) (Reads-collection c h.0)
      (Reads-value (append_assoc acc (c ∷ []) l) (Reads-collections (acc ++ (c ∷ [])) l h.1))

Reads-body : (m : Manifest) → IsManifest m → Reads (read_body false) (body_bytes m) m
unfolding read_body
Reads-body m h = Reads-bind (read_word 8) _ (Reads-word 8 m.gen (omega (arith, h.gen))) (
    Reads-bind (read_word 4) _
      (Reads-word 4 m.next_collection_id (omega (arith, h.next_collection_id)))
      (Reads-bind (read_word 8) _ (Reads-word 8 m.next_seg_id (omega (arith, h.next_seg_id))) (
        Reads-bind (read_word 8) _ (Reads-word 8 m.wal_seq (omega (arith, h.wal_seq))) (
          Reads-bind (read_word 4) _ (Reads-word 4 (length m.collections) (omega (arith, h.count)))
            (Reads-last (read_collections false (length m.collections) []) _
              (Reads-collections [] m.collections h.collections) (Reads-pure m))))))

whole-read_body :
    (m : Manifest) → IsManifest m → whole (read_body false (reader (body_bytes m))) ≡ ok m
unfolding whole
whole-read_body m h =
    let (r, e, at) = (Reads-body m h).run (reader (body_bytes m)) [] (
      subst (At (reader (body_bytes m))) (sym (append-nil (body_bytes m)))
        (At-reader (body_bytes m))) in
    rw (e, is_empty-At r at)

-- The split of a file at its checksum.
length-front : (c f : List ℕ) → length f ≡ 4 → length (c ++ f) - 4 ≡ length c
length-front c f h = omega (arith, length-append c f)

front : (c f : List ℕ) → length f ≡ 4 → take (length (c ++ f) - 4) (c ++ f) ≡ c
front c f h = ap (λ n. take n (c ++ f)) (length-front c f h) ∙ take-append c f

footer : (c f : List ℕ) → length f ≡ 4 → drop (length (c ++ f) - 4) (c ++ f) ≡ f
footer c f h = ap (λ n. drop n (c ++ f)) (length-front c f h) ∙ drop-append c f

module _ (crc32c : List ℕ → ℕ) where
  decode_v2 :
      (body f : List ℕ)
      → length f ≡ 4
      → from_le_bytes f ≡ crc32c (magic_manifest_v2 ++ body)
      → decode crc32c ((magic_manifest_v2 ++ body) ++ f) ≡ whole (read_body false (reader body))
  unfolding decode eq_bytes
  decode_v2 body f h c = ground (
    arith,
    front (magic_manifest_v2 ++ body) f h,
    footer (magic_manifest_v2 ++ body) f h,
    length-append (magic_manifest_v2 ++ body) f,
  )

  -- A manifest of the Rust type is decoded from the bytes that were written for it, whatever
  -- checksum function into u32 is used.
  pub decode-encode_v2 :
      IsU32Function crc32c → (m : Manifest) → IsManifest m → decode crc32c (encode crc32c m) ≡ ok m
  unfolding encode
  decode-encode_v2 u32 m h =
      ap (λ c. decode crc32c (put_u32 c (crc32c c))) (content-eq m h)
      ∙ ap (decode crc32c) (
          put_u32-append (magic_manifest_v2 ++ body_bytes m)
            (crc32c (magic_manifest_v2 ++ body_bytes m)))
      ∙ decode_v2 (body_bytes m) (le_bytes 4 (crc32c (magic_manifest_v2 ++ body_bytes m)))
          (length-le_bytes 4 _)
          (from_le_bytes-le_bytes 4 _ (omega (arith, u32 (magic_manifest_v2 ++ body_bytes m))))
      ∙ whole-read_body m h

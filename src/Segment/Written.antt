-- ===== src/Segment/Written.antt =====
-- A written segment says of every id what the memtable said.
use hamane_db.Base.{
  if_either, ℕ, zero, suc, ◌≤◌, ◌<◌, ◌≡◌, refl, sym, ◌∙◌, ap, subst, true, false, Option, none,
  some, List, [], ◌∷◌, ◌++◌, map, length, get_elem?, All, Map, lookup, member, keys, member-keys,
  IsUnique, IsDistinct, keys-IsDistinct, nat_eq, leb, ◌==◌, is_some, Bool-cases, Option-cases, inl,
  inr, if◌then◌else◌, le_bytes, arith,
}
use mathlib.Core.Path.{ap₂}
use mathlib.Core.Option.{some-injective}
use hamane_db.Base.Outcome.{ok}
use hamane_db.Core.Record.{InternalId, Metadata}
use hamane_db.Format.Meta.{put_metadata}
use hamane_db.Format.Meta.RoundTrip.{IsMetadata, put_metadata-append, read_metadata-put_metadata}
use hamane_db.Memtable
use hamane_db.Memtable.{StoredRecord, Memtable, get, is_deleted}
use hamane_db.Memtable.Laws.{IsValid, Verdict, unknown, gone, present, found, mt_verdict}
use hamane_db.Segment.{
  Segment, insert_row, sort_rows, insert_id, sort_ids, meta_blob, to_row, write, row_ids,
  binary_search, row_of, is_tombstoned, row_metadata, stored,
}
use hamane_db.Segment.Search.{
  IsAscending, get_elem?-lt, binary_search-eq-member, binary_search_finds, member→at,
}

-- A found row whose metadata is corrupt answers like a deleted id.
abbrev pub of_stored : Option StoredRecord → Verdict
of_stored none = gone
of_stored (some rec) = present rec

abbrev pub of_row : Segment → Option ℕ → Verdict
of_row seg none = unknown
of_row seg (some row) = of_stored (stored seg row)

-- What a segment says of an id.
unfoldable pub seg_verdict : Segment → InternalId → Verdict
seg_verdict seg id = if is_tombstoned seg id then gone else of_row seg (row_of seg id)

pub member-insert_id :
    (x y : InternalId) (l : List InternalId)
    → member y (insert_id x l) ≡ (if x == y then true else member y l)
unfolding member insert_id
member-insert_id x y [] = refl
member-insert_id x y (z ∷ l) = ground (arith, member-insert_id x y l)

pub member-sort_ids : (y : InternalId) (l : List InternalId) → member y (sort_ids l) ≡ member y l
unfolding member sort_ids
member-sort_ids y [] = refl
member-sort_ids y (x ∷ l) = member-insert_id x y (sort_ids l) ∙ ground (arith, member-sort_ids y l)

All-insert_id :
    (w x : InternalId) (l : List InternalId)
    → w < x
    → All (λ y. w < y) l
    → All (λ y. w < y) (insert_id x l)
unfolding insert_id
All-insert_id w x [] h a = (h, tt)
All-insert_id w x (z ∷ l) h a = elim (Bool-cases (leb x z)) [
  | inl small ↦ rw small (h, a)
  | inr large ↦ rw large (a.0, All-insert_id w x l h a.1)
]

below-All :
    (w x : InternalId) (l : List InternalId) → w ≤ x → All (λ y. x < y) l → All (λ y. w < y) l
below-All w x [] h a = tt
below-All w x (y ∷ l) h a = (omega (arith, a.0), below-All w x l h a.1)

insert_id-IsAscending :
    (x : InternalId) (l : List InternalId)
    → member x l ≡ false
    → IsAscending l
    → IsAscending (insert_id x l)
unfolding insert_id member
insert_id-IsAscending x [] m a = (tt, tt)
insert_id-IsAscending x (z ∷ l) m a = elim (Bool-cases (leb x z)) [
  | inl small ↦ rw small ((ground arith, below-All x z l (ground arith) a.0), a)
  | inr large ↦
      rw large
        (All-insert_id z x l (ground arith) a.0, insert_id-IsAscending x l (ground arith) a.1)
]

pub sort_ids-IsAscending : (l : List InternalId) → IsDistinct l → IsAscending (sort_ids l)
unfolding sort_ids
sort_ids-IsAscending [] d = tt
sort_ids-IsAscending (x ∷ l) d =
    insert_id-IsAscending x (sort_ids l) (member-sort_ids x l ∙ d.0) (sort_ids-IsAscending l d.1)

keys-insert_row :
    (r : InternalId × StoredRecord) (rows : Map InternalId StoredRecord)
    → keys (insert_row r rows) ≡ insert_id r.0 (keys rows)
unfolding keys insert_row insert_id
keys-insert_row (k, v) [] = refl
keys-insert_row (k, v) ((j, w) ∷ rows) = ground (arith, keys-insert_row (k, v) rows)

keys-sort_rows : (m : Map InternalId StoredRecord) → keys (sort_rows m) ≡ sort_ids (keys m)
unfolding keys sort_rows sort_ids
keys-sort_rows [] = refl
keys-sort_rows ((k, v) ∷ m) =
    keys-insert_row (k, v) (sort_rows m) ∙ ap (insert_id k) (keys-sort_rows m)

lookup-insert_row :
    (k j : InternalId) (v : StoredRecord) (rows : Map InternalId StoredRecord)
    → lookup k rows ≡ none
    → lookup j (insert_row (k, v) rows) ≡ (if k == j then some v else lookup j rows)
unfolding lookup insert_row
lookup-insert_row k j v [] h = refl
lookup-insert_row k j v ((i, w) ∷ rows) h = ground (arith, lookup-insert_row k j v rows)

pub lookup-sort_rows :
    (j : InternalId) (m : Map InternalId StoredRecord)
    → IsUnique m
    → lookup j (sort_rows m) ≡ lookup j m
unfolding lookup sort_rows
lookup-sort_rows j [] u = refl
lookup-sort_rows j ((k, v) ∷ m) u =
    lookup-insert_row k j v (sort_rows m) (lookup-sort_rows k m u.1 ∙ u.0)
    ∙ ground (arith, lookup-sort_rows j m u.1)

row_ids-to_row : (rows : Map InternalId StoredRecord) → row_ids (map to_row rows) ≡ keys rows
unfolding row_ids to_row keys
row_ids-to_row [] = refl
row_ids-to_row ((k, v) ∷ rows) = ap (λ l. k ∷ l) (row_ids-to_row rows)

length-rows : (rows : Map InternalId StoredRecord) → length (map to_row rows) ≡ length (keys rows)
unfolding keys
length-rows [] = refl
length-rows ((k, v) ∷ rows) = ap suc (length-rows rows)

-- The row at an id's place.
row_at :
    (rows : Map InternalId StoredRecord) (i : ℕ) (id : InternalId) (rec : StoredRecord)
    → IsAscending (keys rows)
    → get_elem? (keys rows) i ≡ some id
    → lookup id rows ≡ some rec
    → get_elem? (map to_row rows) i ≡ some (to_row (id, rec))
unfolding keys lookup
row_at [] i id rec a e h = cc
row_at ((k, v) ∷ rows) zero id rec a e h =
    let same : k ≡ id = some-injective _ _ e in
    let value : v ≡ rec = ground (arith, same) in ap₂ (λ x y. some (to_row (x, y))) same value
row_at ((k, v) ∷ rows) (suc i) id rec a e h =
    row_at rows i id rec a.1 e (ground (arith, get_elem?-lt (keys rows) i a.0 e))

cons-ne-nil :
    (bs cs : List ℕ) (w v : ℕ) → bs ≡ le_bytes (suc w) v ++ cs → Memtable.is_nil bs ≡ false
unfolding le_bytes
cons-ne-nil bs cs w v e = ap (λ (l : List ℕ). Memtable.is_nil l) e

row_metadata-meta_blob :
    (id : InternalId) (vector : List ℕ) (m : Metadata)
    → IsMetadata m
    → row_metadata (record { id = id; vector = vector; blob = meta_blob m }) ≡ ok m
unfolding row_metadata meta_blob
row_metadata-meta_blob id vector [] h = refl
row_metadata-meta_blob id vector (e ∷ m) h =
    let full : Memtable.is_nil (put_metadata [] (e ∷ m)) ≡ false =
      cons-ne-nil _ _ 3 _ (put_metadata-append [] (e ∷ m) h) in
    let (r, read, done) = read_metadata-put_metadata (e ∷ m) h in rw (full, read)

pub row_metadata-to_row :
    (id : InternalId) (rec : StoredRecord)
    → IsMetadata rec.metadata
    → row_metadata (to_row (id, rec)) ≡ ok rec.metadata
unfolding to_row
row_metadata-to_row id rec h = row_metadata-meta_blob id rec.vector rec.metadata h

stored_of_row :
    (seg : Segment) (i : ℕ) (id : InternalId) (rec : StoredRecord)
    → IsMetadata rec.metadata
    → get_elem? seg.rows i ≡ some (to_row (id, rec))
    → stored seg i ≡ some rec
unfolding stored
stored_of_row seg i id rec h at =
    rw (at, row_metadata-to_row id rec h, stored) (unfold to_row in refl)

-- The metadata of every record can be written.
abbrev pub IsWritable : Memtable → Type 0
IsWritable mt = All (λ (r : InternalId × StoredRecord). IsMetadata r.1.metadata) mt.upserts

lookup-All :
    (id : InternalId) (m : Map InternalId StoredRecord) {rec : StoredRecord}
    → All (λ (r : InternalId × StoredRecord). IsMetadata r.1.metadata) m
    → lookup id m ≡ some rec
    → IsMetadata rec.metadata
unfolding lookup
lookup-All id [] a e = cc
lookup-All id ((k, v) ∷ m) {rec = rec} a e = elim (Bool-cases (k == id)) [
  | inl same ↦
      subst (λ (x : StoredRecord). IsMetadata x.metadata) (some-injective _ _ (rw same at e)) a.0
  | inr other ↦ lookup-All id m a.1 (rw other at e)
]

is_tombstoned-write :
    (n : ℕ) (mt : Memtable) (id : InternalId)
    → IsValid mt
    → is_tombstoned (write n mt) id ≡ is_deleted mt id
unfolding is_tombstoned write is_deleted
is_tombstoned-write n mt id v =
    binary_search-eq-member (sort_ids mt.deletes) id (sort_ids-IsAscending mt.deletes v.distinct)
    ∙ member-sort_ids id mt.deletes

abbrev sorted_keys : Memtable → List InternalId
sorted_keys mt = keys (sort_rows mt.upserts)

sorted_keys-IsAscending : (mt : Memtable) → IsValid mt → IsAscending (sorted_keys mt)
sorted_keys-IsAscending mt v =
    subst IsAscending (sym (keys-sort_rows mt.upserts))
      (sort_ids-IsAscending (keys mt.upserts) (keys-IsDistinct mt.upserts v.unique))

member-sorted_keys :
    (mt : Memtable) (id : InternalId) → member id (sorted_keys mt) ≡ is_some (lookup id mt.upserts)
member-sorted_keys mt id =
    ap (member id) (keys-sort_rows mt.upserts)
    ∙ member-sort_ids id (keys mt.upserts)
    ∙ member-keys id mt.upserts

-- `row_of` searches the sorted keys.
row_of-write :
    (n : ℕ) (mt : Memtable) (id : InternalId)
    → row_of (write n mt) id
      ≡ binary_search
          (suc (length (sorted_keys mt)))
          (sorted_keys mt)
          id
          0
          (length (sorted_keys mt))
unfolding row_of write
row_of-write n mt id =
    ap
      (λ l.
        binary_search (suc (length (map to_row (sort_rows mt.upserts)))) l id 0
          (length (map to_row (sort_rows mt.upserts))))
      (row_ids-to_row (sort_rows mt.upserts))
    ∙ ap (λ k. binary_search (suc k) (sorted_keys mt) id 0 k) (length-rows (sort_rows mt.upserts))

row_of-write_absent :
    (n : ℕ) (mt : Memtable) (id : InternalId)
    → IsValid mt
    → lookup id mt.upserts ≡ none
    → row_of (write n mt) id ≡ none
row_of-write_absent n mt id v e =
    row_of-write n mt id
    ∙ is_some_false _ (
        binary_search-eq-member (sorted_keys mt) id (sorted_keys-IsAscending mt v)
        ∙ member-sorted_keys mt id
        ∙ ap (λ (o : Option StoredRecord). is_some o) e)
  where
    is_some_false : (o : Option ℕ) → is_some o ≡ false → o ≡ none
    is_some_false none h = refl
    is_some_false (some x) h = cc

row_of-write_present :
    (n : ℕ) (mt : Memtable) (id : InternalId) (rec : StoredRecord)
    → IsValid mt
    → lookup id mt.upserts ≡ some rec
    → (i : ℕ) × (row_of (write n mt) id ≡ some i)
      × (get_elem? (map to_row (sort_rows mt.upserts)) i ≡ some (to_row (id, rec)))
row_of-write_present n mt id rec v e =
    let asc = sorted_keys-IsAscending mt v in
    let there : member id (sorted_keys mt) ≡ true =
      member-sorted_keys mt id ∙ ap (λ (o : Option StoredRecord). is_some o) e in
    let (i, at, lt) = member→at (sorted_keys mt) id there in
    (
      i,
      row_of-write n mt id
          ∙ binary_search_finds (suc (length (sorted_keys mt))) (sorted_keys mt) id 0
              (length (sorted_keys mt)) i asc (omega arith) (omega arith) at (omega arith) lt,
      row_at (sort_rows mt.upserts) i id rec asc at (lookup-sort_rows id mt.upserts v.unique ∙ e),
    )

row_verdict-write :
    (n : ℕ) (mt : Memtable) (id : InternalId)
    → IsValid mt
    → IsWritable mt
    → of_row (write n mt) (row_of (write n mt) id) ≡ found (lookup id mt.upserts)
row_verdict-write n mt id v w = elim (Option-cases (lookup id mt.upserts)) [
  | inl e ↦ rw (e, row_of-write_absent n mt id v e)
  | inr (rec, e) ↦
      let (i, r, at) = row_of-write_present n mt id rec v e in
      let s : stored (write n mt) i ≡ some rec =
        stored_of_row (write n mt) i id rec (lookup-All id mt.upserts w e) (unfold write in at) in
      rw (e, r, s)
]

module _ (P : InternalId × StoredRecord → Type 0) where
  insert_row-All :
      (r : InternalId × StoredRecord) (rows : Map InternalId StoredRecord)
      → P r
      → All P rows
      → All P (insert_row r rows)
  unfolding insert_row
  insert_row-All r [] h a = (h, tt)
  insert_row-All r (s ∷ rows) h a =
      if_either (All P) (leb r.0 s.0) (h, a) (a.0, insert_row-All r rows h a.1)

  pub sort_rows-All : (rows : Map InternalId StoredRecord) → All P rows → All P (sort_rows rows)
  unfolding sort_rows
  sort_rows-All [] a = tt
  sort_rows-All (r ∷ rows) a = insert_row-All r (sort_rows rows) a.0 (sort_rows-All rows a.1)

-- A segment that is written from a valid memtable, whose metadata can be written, says of every
-- id what the memtable said: that it is gone, its vector and metadata, or nothing.
pub seg_verdict-write :
    (n : ℕ) (mt : Memtable) (id : InternalId)
    → IsValid mt
    → IsWritable mt
    → seg_verdict (write n mt) id ≡ mt_verdict mt id
unfolding seg_verdict mt_verdict get
seg_verdict-write n mt id v w =
    ap (λ b. if b then gone else of_row (write n mt) (row_of (write n mt) id))
      (is_tombstoned-write n mt id v)
    ∙ ap (λ x. if is_deleted mt id then gone else x) (row_verdict-write n mt id v w)

-- ===== src/Store/Open/Tidy.antt =====
-- The clean-up of the directories removes no segment that a start needs.
use hamane_db.Base.{
  ℕ, ◌≡◌, refl, ◌∙◌, ap, subst, true, false, Option, none, some, List, [], ◌∷◌, Map, lookup, insert,
  insert-IsUnique, IsUnique, nat_eq, bytes_eq, ◌==◌, ==_iff, ==_refl, Bool-cases, Option-cases, inl,
  inr, All, arith,
}
use mathlib.Core.Path.{ap₂}
use hamane_db.Base.Outcome.{Result, ok, err, ok-injective, ◌>>=◌, >>=-eq-ok}
use hamane_db.Segment.{Segment}
use hamane_db.Manifest.{SegmentEntry, CollectionEntry, Manifest}
use hamane_db.Store.State.{CollectionState, StoreState, Disk}
use hamane_db.Store.Maintain.{
  newer_files, segments_of, find_entry, is_referenced, referenced, cleanup,
}
use hamane_db.Store.Open.{
  Loaded, open_segment, open_segments, load_collection, load_collections, load_base, tidied,
}

open_segment-referenced :
    (es : List SegmentEntry) (dir : List Segment) (n : ℕ)
    → is_referenced n es ≡ true
    → open_segment (referenced es dir) n ≡ open_segment dir n
unfolding open_segment referenced
open_segment-referenced es [] n h = refl
open_segment-referenced es (seg ∷ segs) n h = elim (Bool-cases (seg.seg_id == n)) [
  | inl same ↦
      let there : is_referenced seg.seg_id es ≡ true =
        ap (λ k. is_referenced k es) ((==_iff seg.seg_id n).0 same) ∙ h in
      rw (there, open_segment, same) refl
  | inr other ↦ elim (Bool-cases (is_referenced seg.seg_id es)) [
    | inl there ↦ rw (there, open_segment, other) (open_segment-referenced es segs n h)
    | inr gone ↦ rw (gone, other) (open_segment-referenced es segs n h)
  ]
]

abbrev AreReferenced : List SegmentEntry → List SegmentEntry → Type 0
AreReferenced es names = All (λ e. is_referenced e.seg_id es ≡ true) names

open_segments-referenced :
    (es names : List SegmentEntry) (dir : List Segment)
    → AreReferenced es names
    → open_segments (referenced es dir) names ≡ open_segments dir names
unfolding open_segments
open_segments-referenced es [] dir a = refl
open_segments-referenced es (e ∷ names) dir a =
    ap₂
      (λ (x : Result Segment) (y : Result (List Segment)).
        x >>= λ seg. y >>= λ segs. ok (seg ∷ segs))
      (open_segment-referenced es dir e.seg_id a.0) (open_segments-referenced es names dir a.1)

weaken-AreReferenced :
    (e : SegmentEntry) (es names : List SegmentEntry)
    → AreReferenced es names
    → AreReferenced (e ∷ es) names
unfolding is_referenced
weaken-AreReferenced e es [] a = tt
weaken-AreReferenced e es (n ∷ names) a = (ground (arith, a.0), weaken-AreReferenced e es names a.1)

AreReferenced-refl : (es : List SegmentEntry) → AreReferenced es es
unfolding is_referenced
AreReferenced-refl [] = tt
AreReferenced-refl (e ∷ es) =
    (ground (arith, ==_refl e.seg_id), weaken-AreReferenced e es es (AreReferenced-refl es))

abbrev kept_segments : List SegmentEntry → Option (List Segment) → Option (List Segment)
kept_segments es none = none
kept_segments es (some segs) = some (referenced es segs)

abbrev or_empty : Option (List Segment) → List Segment
or_empty o = elim o [ none ↦ [] | some segs ↦ segs ]

lookup-cleanup :
    (m : Manifest) (dirs : Map ℕ (List Segment)) (cid : ℕ) (c : CollectionEntry)
    → find_entry cid m.collections ≡ some c
    → lookup cid (cleanup m dirs) ≡ kept_segments c.segments (lookup cid dirs)
unfolding cleanup lookup
lookup-cleanup m [] cid c e = refl
lookup-cleanup m ((k, segs) ∷ dirs) cid c e = elim (Bool-cases (k == cid)) [
  | inl same ↦
      let found : find_entry k m.collections ≡ some c =
        ap (λ x. find_entry x m.collections) ((==_iff k cid).0 same) ∙ e in
      rw (cleanup, found, lookup, same) refl
  | inr other ↦ elim (Option-cases (find_entry k m.collections)) [
    | inl gone ↦ rw (cleanup, gone, other) (lookup-cleanup m dirs cid c e)
    | inr (c', found) ↦ rw (cleanup, found, lookup, other) (lookup-cleanup m dirs cid c e)
  ]
]

or_empty-kept_segments :
    (es : List SegmentEntry) (o : Option (List Segment))
    → or_empty (kept_segments es o) ≡ referenced es (or_empty o)
unfolding referenced
or_empty-kept_segments es none = refl
or_empty-kept_segments es (some segs) = refl

segments_of-cleanup :
    (m : Manifest) (dirs : Map ℕ (List Segment)) (cid : ℕ) (c : CollectionEntry)
    → find_entry cid m.collections ≡ some c
    → segments_of (cleanup m dirs) cid ≡ referenced c.segments (segments_of dirs cid)
segments_of-cleanup m dirs cid c e =
    ap or_empty (lookup-cleanup m dirs cid c e)
    ∙ or_empty-kept_segments c.segments (lookup cid dirs)

-- No two entries of the manifest have the same collection.
abbrev pub AreFound : Manifest → List CollectionEntry → Type 0
AreFound m entries = All (λ c. find_entry c.collection_id m.collections ≡ some c) entries

load_collection-referenced :
    (c : CollectionEntry) (dir : List Segment)
    → load_collection (referenced c.segments dir) c ≡ load_collection dir c
unfolding load_collection
load_collection-referenced c dir =
    rw
      (
        load_collection,
        open_segments-referenced c.segments c.segments dir (AreReferenced-refl c.segments),
      )
      refl

load_collections-cleanup :
    (m : Manifest) (dirs : Map ℕ (List Segment)) (entries : List CollectionEntry) (acc : Loaded)
    → AreFound m entries
    → load_collections (cleanup m dirs) entries acc ≡ load_collections dirs entries acc
unfolding load_collections
load_collections-cleanup m dirs [] acc a = refl
load_collections-cleanup m dirs (c ∷ entries) acc a =
    ap
      (λ (r : Result CollectionState).
        r >>= λ col. load_collections (cleanup m dirs) entries (next col))
      first
    ∙ through (load_collection (segments_of dirs c.collection_id) c)
        (λ col. load_collections-cleanup m dirs entries (next col) a.1)
  where
    next : CollectionState → Loaded
    next col = record {
      collections = insert c.collection_id col acc.collections;
      names = insert c.name c.collection_id acc.names;
    }

    first :
        load_collection (segments_of (cleanup m dirs) c.collection_id) c
        ≡ load_collection (segments_of dirs c.collection_id) c
    first =
        ap (λ dir. load_collection dir c) (segments_of-cleanup m dirs c.collection_id c a.0)
        ∙ load_collection-referenced c (segments_of dirs c.collection_id)

    through :
        (r : Result CollectionState)
        → ((col : CollectionState)
            → load_collections (cleanup m dirs) entries (next col)
              ≡ load_collections dirs entries (next col))
        → (r >>= λ col. load_collections (cleanup m dirs) entries (next col))
          ≡ (r >>= λ col. load_collections dirs entries (next col))
    through (err e) h = refl
    through (ok col) h = h col

cleanup_same :
    (m m' : Manifest) (dirs : Map ℕ (List Segment))
    → m.collections ≡ m'.collections
    → cleanup m dirs ≡ cleanup m' dirs
unfolding cleanup
cleanup_same m m' [] e = refl
cleanup_same m m' ((k, segs) ∷ dirs) e = ground (arith, cleanup_same m m' dirs e)

-- The clean-up goes by the covered logs and the collections of the manifest.
pub tidied_same :
    (m m' : Manifest) (d : Disk)
    → m.wal_seq ≡ m'.wal_seq
    → m.collections ≡ m'.collections
    → tidied m d ≡ tidied m' d
unfolding tidied
tidied_same m m' d e f =
    ap₂ (λ n dirs. record d { wal_files = newer_files n d.wal_files; segments = dirs }) e
      (cleanup_same m m' d.segments f)

-- A start from the tidied directory finds the same collections.
pub load_base-tidied :
    (d : Disk)
    → AreFound d.manifest d.manifest.collections
    → load_base (tidied d.manifest d) ≡ load_base d
unfolding load_base tidied
load_base-tidied d a =
    ap
      (λ (r : Result Loaded). r >>= λ loaded. ok (record {
        manifest = d.manifest;
        wal = none;
        collections = loaded.collections;
        names = loaded.names;
        pending_flush = none;
        maint_error = false;
      }))
      (load_collections-cleanup d.manifest d.segments d.manifest.collections
        (record { collections = []; names = [] }) a)

load_collections-IsUnique :
    (dirs : Map ℕ (List Segment)) (entries : List CollectionEntry) (acc : Loaded) {all : Loaded}
    → load_collections dirs entries acc ≡ ok all
    → IsUnique acc.collections
    → IsUnique all.collections
unfolding load_collections
load_collections-IsUnique dirs [] acc e u =
    subst (λ (x : Loaded). IsUnique x.collections) (ok-injective e) u
load_collections-IsUnique dirs (c ∷ entries) acc e u =
    let (col, read, rest) = >>=-eq-ok (load_collection (segments_of dirs c.collection_id) c) _ e in
    load_collections-IsUnique dirs entries _ rest
      (insert-IsUnique c.collection_id col acc.collections u)

pub load_base-IsUnique :
    (d : Disk) {base : StoreState} → load_base d ≡ ok base → IsUnique base.collections
unfolding load_base
load_base-IsUnique d e =
    let (loaded, read, done) =
      >>=-eq-ok
        (load_collections d.segments d.manifest.collections
          (record { collections = []; names = [] }))
        _ e in
    subst (λ (s : StoreState). IsUnique s.collections) (ok-injective done)
      (load_collections-IsUnique d.segments d.manifest.collections _ read tt)

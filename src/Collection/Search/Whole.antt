-- ===== src/Collection/Search/Whole.antt =====
-- A whole search of memtables and of segments without indexes gives what a reader finds.
use hamane_db.Base.{
  ℕ, ◌+◌, ◌-◌, ◌≡◌, ◌≤◌, refl, sym, ◌∙◌, ap, true, Option, none, some, List, [], ◌∷◌, ◌++◌, map,
  take, take-append, take_all, min, length, length-append, append_assoc, All, All-append, lookup,
  member, nat_eq, Bool-cases, inl, inr, arith,
}
use hamane_db.Base.Outcome.{ok}
use hamane_db.Core.Record.{InternalId, Metadata}
use hamane_db.Core.Metric.{F32Ops}
use hamane_db.Core.Filter.{FloatOps, Filter}
use hamane_db.Memtable
use hamane_db.Memtable.{StoredRecord, Memtable}
use hamane_db.Memtable.Laws.{IsValid, present, found, mt_verdict}
use hamane_db.Segment.{Segment, Row, to_row, sort_rows, write, contains}
use hamane_db.Segment.Written.{IsWritable, seg_verdict-write, row_metadata-to_row, sort_rows-All}
use hamane_db.Format.Meta.RoundTrip.{IsMetadata}
use hamane_db.Store.State.{LiveView, get_in_segments, get_in_memtables, get}
use hamane_db.Store.State.View.{newer, get_in_segments-newer}
use hamane_db.Store.Compact.Keeps.{IsWritten}
use hamane_db.Store.Open.{memtables_silent, segments_silent, is_live}
use hamane_db.Index.Flat.{Hit, passes}
use hamane_db.Collection.Search.{SegmentSearch, finalize, memtable_candidates}
use hamane_db.Collection.Search.Live.{
  is_found, not_both, entries-All, Passing, search_flat-All, memtable_candidates-is_found,
}
use hamane_db.Collection.Search.Answer.{IsAnswer, All-map, finalize-All, length-finalize}
use hamane_db.Collection.Search.Plain.{
  decode_all_metadata, metadata_for, flat_rows, hit_candidate, flat_over, segment, segments_from,
  run_sequential,
}

get_in_memtables-skip :
    (mts : List Memtable) (id : InternalId) (rest : Option StoredRecord)
    → memtables_silent mts id ≡ true
    → get_in_memtables mts id rest ≡ rest
unfolding get_in_memtables memtables_silent Memtable.get Memtable.is_deleted
get_in_memtables-skip [] id rest s = refl
get_in_memtables-skip (mt ∷ mts) id rest s = ground (arith, s, get_in_memtables-skip mts id rest)

get_in_segments-skip :
    (before after : List Segment) (id : InternalId)
    → segments_silent before id ≡ true
    → get_in_segments (before ++ after) id ≡ get_in_segments after id
unfolding get_in_segments segments_silent contains
get_in_segments-skip [] after id s = refl
get_in_segments-skip (seg ∷ before) after id s =
    ground (arith, s, get_in_segments-skip before after id)

All-weaken :
    {A : Type 0} {P Q : A → Type 0} (xs : List A) → ((x : A) → P x → Q x) → All P xs → All Q xs
All-weaken [] h a = tt
All-weaken (x ∷ xs) h a = (h x a.0, All-weaken xs h a.1)

-- A row that is live in a segment is decided by the segments from this one on.
get-live :
    (v : LiveView) (before after : List Segment) (id : InternalId)
    → v.segments ≡ before ++ after
    → is_live v id (length v.memtables + length before) ≡ true
    → get v id ≡ get_in_segments after id
unfolding get is_live
get-live v before after id e h =
    let mts = length v.memtables in
    let whole : take (min (mts + length before) mts) v.memtables ≡ v.memtables =
      ap (λ n. take n v.memtables) (omega arith) ∙ take_all v.memtables in
    let newer_ones : take ((mts + length before) - mts) v.segments ≡ before =
      ap (λ n. take n v.segments) (omega arith)
      ∙ ap (take (length before)) e
      ∙ take-append before after in
    let silent : memtables_silent v.memtables id ≡ true =
      ap (λ l. memtables_silent l id) (sym whole) ∙ ground (arith, h) in
    let passed : segments_silent before id ≡ true = at before newer_ones h in
    get_in_memtables-skip v.memtables id (get_in_segments v.segments id) silent
    ∙ ap (λ l. get_in_segments l id) e
    ∙ get_in_segments-skip before after id passed
  where
    at :
        (l : List Segment)
        → take ((length v.memtables + length l) - length v.memtables) v.segments ≡ l
        → is_live v id (length v.memtables + length l) ≡ true
        → segments_silent l id ≡ true
    at [] f k = unfold segments_silent in refl
    at (seg ∷ l) f k = ap (λ l'. segments_silent l' id) (sym f) ∙ ground (arith, k)

-- A record that a written segment holds is what its reader finds there.
get_in_segments-write :
    (n : ℕ) (mt : Memtable) (after : List Segment) (id : InternalId) (rec : StoredRecord)
    → IsValid mt
    → IsWritable mt
    → lookup id mt.upserts ≡ some rec
    → get_in_segments (write n mt ∷ after) id ≡ some rec
unfolding mt_verdict Memtable.get Memtable.is_deleted
get_in_segments-write n mt after id rec v w e =
    get_in_segments-newer (write n mt) after id
    ∙ ap (λ x. newer x (get_in_segments after id)) (seg_verdict-write n mt id v w ∙ verdict)
  where
    verdict : mt_verdict mt id ≡ present rec
    verdict = elim (Bool-cases (member id mt.deletes)) [
      | inl gone ↦ not_both (sym e ∙ v.disjoint id gone)
      | inr kept ↦ rw (kept, e) refl
    ]

abbrev Entry : Type 0
Entry = InternalId × StoredRecord

decode_all_metadata-write :
    (l : List Entry)
    → All (λ (e : Entry). IsMetadata e.1.metadata) l
    → decode_all_metadata (map to_row l) ≡ ok (map (λ (e : Entry). e.1.metadata) l)
unfolding decode_all_metadata
decode_all_metadata-write [] a = refl
decode_all_metadata-write ((id, rec) ∷ l) a =
    rw (row_metadata-to_row id rec a.0, decode_all_metadata-write l a.1) refl

metadata_for-none :
    (l : List Entry) → metadata_for none (map to_row l) ≡ ok (map (λ (e : Entry). []) l)
unfolding metadata_for
metadata_for-none l = ap ok (at l)
  where
    at :
        (l : List Entry)
        → map {B = Metadata} (λ (r : Row). []) (map to_row l)
          ≡ map {B = Metadata} (λ (e : Entry). []) l
    at [] = refl
    at (e ∷ l) = ap (λ (ms : List Metadata). [] ∷ ms) (at l)

metadata_for-some :
    (f : Filter) (l : List Entry)
    → All (λ (e : Entry). IsMetadata e.1.metadata) l
    → metadata_for (some f) (map to_row l) ≡ ok (map (λ (e : Entry). e.1.metadata) l)
unfolding metadata_for
metadata_for-some f l a = decode_all_metadata-write l a

module _ (fo : F32Ops) (fl : FloatOps) (s : SegmentSearch) where
  -- A reader of the snapshot finds the id, and what it finds passes the filter.
  abbrev IsFound : InternalId → Type 0
  IsFound id = is_found fo fl s.filter (get s.view id) ≡ true

  -- The metadata that the search looks at decides like the record's.
  abbrev IsShown : (StoredRecord → Metadata) → Type 0
  IsShown shown =
      (rec : StoredRecord)
      → passes fo fl s.filter (shown rec) ≡ true
      → passes fo fl s.filter rec.metadata ≡ true

  flat_rows-All :
      (shown : StoredRecord → Metadata) (before after : List Segment) (l : List Entry)
      → IsShown shown
      → s.view.segments ≡ before ++ after
      → All (λ (e : Entry). get_in_segments after e.0 ≡ some e.1) l
      → All (Passing fo IsFound fl s.filter) (
          flat_rows s.view
            (length s.view.memtables + length before)
            (map to_row l)
            (map (λ (e : Entry). shown e.1) l))
  unfolding flat_rows to_row
  flat_rows-All shown before after [] h e a = tt
  flat_rows-All shown before after ((id, rec) ∷ l) h e a =
      let rest = flat_rows-All shown before after l h e a.1 in
      elim (Bool-cases (is_live s.view id (length s.view.memtables + length before))) [
        | inl live ↦ rw live (
          λ passed.
              ap (is_found fo fl s.filter) (get-live s.view before after id e live ∙ a.0)
              ∙ h rec passed,
          rest,
        )
        | inr dead ↦ rw dead rest
      ]

  flat_over-All :
      (shown : StoredRecord → Metadata) (before after : List Segment) (l : List Entry)
      → IsShown shown
      → s.view.segments ≡ before ++ after
      → All (λ (e : Entry). get_in_segments after e.0 ≡ some e.1) l
      → All
          (λ (c : ℕ × InternalId). IsFound c.1)
          (flat_over fo fl s
            (length s.view.memtables + length before)
            (map to_row l)
            (map (λ (e : Entry). shown e.1) l))
  unfolding flat_over
  flat_over-All shown before after l h e a =
      All-map (λ (h : Hit). IsFound h.id) (λ (c : ℕ × InternalId). IsFound c.1)
        (hit_candidate fo s.metric) _ (λ h found. found)
        (search_flat-All fo IsFound fl s.filter _ s.query s.k s.metric
          (flat_rows-All shown before after l h e a))

  -- The search of a written segment gives a result, of ids that a reader finds.
  segment-All :
      (before after : List Segment) (n : ℕ) (mt : Memtable)
      → IsValid mt
      → IsWritable mt
      → s.view.segments ≡ before ++ (write n mt ∷ after)
      → (cs : List (ℕ × InternalId)) × (segment fo fl s (length before) (write n mt) ≡ ok cs)
        × All (λ (c : ℕ × InternalId). IsFound c.1) cs
  unfolding segment write
  segment-All before after n mt v w e = at s.filter refl
    where
      entries : List Entry
      entries = sort_rows mt.upserts

      found_there : All (λ (e : Entry). get_in_segments (write n mt ∷ after) e.0 ≡ some e.1) entries
      found_there = sort_rows-All _ mt.upserts (
          All-weaken mt.upserts (λ e h. get_in_segments-write n mt after e.0 e.1 v w h)
            (entries-All mt.upserts v.unique))

      answer :
          (shown : StoredRecord → Metadata)
          → IsShown shown
          → metadata_for s.filter (map to_row entries) ≡ ok (map (λ (e : Entry). shown e.1) entries)
          → (cs : List (ℕ × InternalId)) × (segment fo fl s (length before) (write n mt) ≡ ok cs)
            × All (λ (c : ℕ × InternalId). IsFound c.1) cs
      answer shown h read =
          (_, rw read refl, flat_over-All shown before (write n mt ∷ after) entries h e found_there)

      at :
          (filter : Option Filter)
          → s.filter ≡ filter
          → (cs : List (ℕ × InternalId)) × (segment fo fl s (length before) (write n mt) ≡ ok cs)
            × All (λ (c : ℕ × InternalId). IsFound c.1) cs
      at none f =
          answer (λ rec. []) (λ rec h. ap (λ x. passes fo fl x rec.metadata) f)
            (ap (λ x. metadata_for x (map to_row entries)) f ∙ metadata_for-none entries)
      at (some g) f =
          answer (λ rec. rec.metadata) (λ rec h. h)
            (ap (λ x. metadata_for x (map to_row entries)) f
              ∙ metadata_for-some g entries (sort_rows-All _ mt.upserts w))

  segments_from-All :
      (before segs : List Segment)
      → s.view.segments ≡ before ++ segs
      → All IsWritten segs
      → (cs : List (ℕ × InternalId)) × (segments_from fo fl s (length before) segs ≡ ok cs)
        × All (λ (c : ℕ × InternalId). IsFound c.1) cs
  unfolding segments_from
  segments_from-All before [] e w = ([], refl, tt)
  segments_from-All before (seg ∷ segs) e (w, ws) =
      let (cs, here, found) =
        segment-All before segs w.id w.memtable w.valid w.writable
          (e ∙ ap (λ (g : Segment). before ++ (g ∷ segs)) w.is) in
      let (rest, there, found') =
        segments_from-All (before ++ (seg ∷ [])) segs
          (e ∙ sym (append_assoc before (seg ∷ []) segs)) ws in
      let longer : length (before ++ (seg ∷ [])) ≡ length before + 1 =
        length-append before (seg ∷ []) ∙ omega arith in
      let done : segment fo fl s (length before) seg ≡ ok cs =
        ap (λ (g : Segment). segment fo fl s (length before) g) w.is ∙ here in
      let next : segments_from fo fl s (length before + 1) segs ≡ ok rest =
        ap (λ n. segments_from fo fl s n segs) (sym longer) ∙ there in
      (
        cs ++ rest,
        rw (done, next) refl,
        All-append (λ (c : ℕ × InternalId). IsFound c.1) cs rest found found',
      )

-- A search whose segments have no index reads all of them without an error. Each candidate that it
-- collects, and so each hit, with any threshold, is an id that a reader of the same snapshot finds,
-- and a hit carries the metadata that the reader finds, which pass the filter; there are at most k
-- hits. The memtables are valid, and the segments are as a flush or a compaction wrote them.
pub run_sequential-answers :
    (fo : F32Ops) (fl : FloatOps) (s : SegmentSearch) (threshold : Option ℕ)
    → All IsValid s.view.memtables
    → All IsWritten s.view.segments
    → (cs : List (ℕ × InternalId)) × (run_sequential fo fl s ≡ ok cs)
      × All (λ (c : ℕ × InternalId). is_found fo fl s.filter (get s.view c.1) ≡ true) cs
      × All (IsAnswer fo fl s) (finalize fo s cs threshold)
      × (length (finalize fo s cs threshold) ≤ s.k)
unfolding run_sequential
run_sequential-answers fo fl s threshold valid written =
    let (rest, there, found') = segments_from-All fo fl s [] s.view.segments refl written in
    let mem = memtable_candidates fo fl s in
    let found =
      All-append (λ (c : ℕ × InternalId). is_found fo fl s.filter (get s.view c.1) ≡ true) mem rest
        (memtable_candidates-is_found fo fl s valid) found' in
    (
      mem ++ rest,
      rw there refl,
      found,
      finalize-All fo fl s (mem ++ rest) threshold found,
      length-finalize fo fl s (mem ++ rest) threshold,
    )

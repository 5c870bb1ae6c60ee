-- ===== src/Store/Compact/Keeps.antt =====
-- A compaction replaces segments by their merge and changes no answer.
use hamane_db.Base.{
  ℕ, zero, suc, ◌≡◌, refl, sym, ◌∙◌, ap, subst, Bool, true, false, ◌||◌, Option, none, some, List,
  [], ◌∷◌, ◌++◌, lookup, insert, lookup-insert, member, nat_eq, if◌then◌else◌, Bool-cases,
  Option-cases, inl, inr, All, ◌==◌, ==_iff, take, drop, length, ltb, arith,
}
use hamane_db.Base.Outcome.{ok}
use mathlib.Core.Option.{some-injective}
use hamane_db.Core.Record.{InternalId}
use hamane_db.Manifest.{Manifest}
use hamane_db.Memtable
use hamane_db.Memtable.{StoredRecord, Memtable, get, is_deleted}
use hamane_db.Memtable.Laws.{
  IsValid, Verdict, unknown, gone, present, mt_verdict, empty-IsValid, mt_verdict-is_empty,
}
use hamane_db.Segment.{Segment, write, sort_rows, sort_ids}
use hamane_db.Segment.Written.{
  seg_verdict, seg_verdict-write, lookup-sort_rows, sort_rows-All, member-sort_ids, IsWritable,
}
use hamane_db.Store.State.{
  CollectionState, StoreState, get_in_segments, current_in, current_record, pending_memtable,
}
use hamane_db.Store.State.View.{newer, get_in_segments-newer, pending_verdict, current_in-newer}
use hamane_db.Store.Maintain.{World, Shared}
use hamane_db.Store.Compact.{
  MergeState, start, merge_segment, merge_run, add_tombstones, merged_memtable, CompactMode,
  CompactPlan, run_length, compacted_manifest, plan_compact, merge_to_segments, install_compact,
}
use hamane_db.Store.Compact.Merge.{
  merge_all, AllMetadata, merge_rows-to_row, merge_all-deleted, merge_all-seen, merge_all-verdict,
  merge_all-IsValid, member-add_tombstones, merge_all-IsWritable, hand_on-IsWritable,
  hand_on-IsValid, hand_on-verdict,
}

-- The newer verdict, else the older one.
abbrev pub first : Verdict → Verdict → Verdict
first unknown older = older
first gone older = gone
first (present rec) older = present rec

unfoldable pub run_verdict : List Segment → InternalId → Verdict
run_verdict [] id = unknown
run_verdict (seg ∷ segs) id = first (seg_verdict seg id) (run_verdict segs id)

newer-first :
    (v u : Verdict) (rest : Option StoredRecord) → newer v (newer u rest) ≡ newer (first v u) rest
newer-first unknown u rest = refl
newer-first gone u rest = refl
newer-first (present rec) u rest = refl

first_assoc : (u v w : Verdict) → first u (first v w) ≡ first (first u v) w
first_assoc unknown v w = refl
first_assoc gone v w = refl
first_assoc (present rec) v w = refl

get_in_segments-run_verdict :
    (run older : List Segment) (id : InternalId)
    → get_in_segments (run ++ older) id ≡ newer (run_verdict run id) (get_in_segments older id)
unfolding run_verdict
get_in_segments-run_verdict [] older id = refl
get_in_segments-run_verdict (seg ∷ segs) older id =
    get_in_segments-newer seg (segs ++ older) id
    ∙ ap (newer (seg_verdict seg id)) (get_in_segments-run_verdict segs older id)
    ∙ newer-first (seg_verdict seg id) (run_verdict segs id) (get_in_segments older id)

-- A segment that a flush or a compaction has written.
pub record IsWritten (seg : Segment) : Type 0 where
  pub id : ℕ
  pub memtable : Memtable
  pub is : seg ≡ write id memtable
  pub valid : IsValid memtable
  pub writable : IsWritable memtable

abbrev is_known : Verdict → Bool
is_known unknown = false
is_known _ = true

abbrev only_present : Verdict → Verdict
only_present (present rec) = present rec
only_present _ = unknown

abbrev is_gone : Verdict → Bool
is_gone gone = true
is_gone _ = false

-- The state of the merge after the segments whose verdict is `V`.
record Tracks (V : InternalId → Verdict) (m : MergeState) : Type 0 where
  verdict : (id : InternalId) → mt_verdict m.merged id ≡ only_present (V id)
  known : (id : InternalId) → (member id m.seen || member id m.deleted) ≡ is_known (V id)
  deleted : (id : InternalId) → is_gone (V id) ≡ true → member id m.deleted ≡ true
  valid : IsValid m.merged
  writable : IsWritable m.merged

merged_segment : Memtable → MergeState → MergeState
merged_segment mt m =
    let m' = merge_all (sort_rows mt.upserts) m in
    record m' { deleted = add_tombstones (sort_ids mt.deletes) m'.deleted }

merge_segment-write :
    (n : ℕ) (mt : Memtable) (m : MergeState)
    → AllMetadata (sort_rows mt.upserts)
    → merge_segment (write n mt) m ≡ ok (merged_segment mt m)
unfolding merge_segment write merged_segment
merge_segment-write n mt m h = rw (merge_rows-to_row (sort_rows mt.upserts) m h) refl

merged_segment-Tracks :
    (V : InternalId → Verdict) (mt : Memtable) (m : MergeState)
    → IsValid mt
    → IsWritable mt
    → Tracks V m
    → Tracks (λ id. first (V id) (mt_verdict mt id)) (merged_segment mt m)
unfolding merged_segment mt_verdict is_deleted get
merged_segment-Tracks V mt m v w t =
    let rows = sort_rows mt.upserts in
    record {
      verdict = λ id.
          merge_all-verdict rows m id
          ∙ rw (lookup-sort_rows id mt.upserts v.unique)
              (ground (arith, t.verdict id, t.known id, v.disjoint id));
      known = λ id.
          rw
            (
              merge_all-seen rows m id,
              member-add_tombstones,
              merge_all-deleted rows m,
              member-sort_ids,
              lookup-sort_rows id mt.upserts v.unique,
            )
            (ground (arith, t.known id, v.disjoint id));
      deleted = λ id.
          rw (member-add_tombstones, merge_all-deleted rows m, member-sort_ids)
            (ground (arith, t.known id, t.deleted id, v.disjoint id));
      valid = merge_all-IsValid rows m t.valid;
      writable = merge_all-IsWritable rows m (sort_rows-All _ mt.upserts w) t.writable;
    }

start-Tracks : Tracks (λ id. unknown) start
unfolding mt_verdict is_deleted get member lookup
start-Tracks = record {
  verdict = λ id. refl;
  known = λ id. refl;
  deleted = λ id h. cc;
  valid = empty-IsValid;
  writable = tt;
}

Tracks-cast :
    {V W : InternalId → Verdict} {m : MergeState}
    → ((id : InternalId) → V id ≡ W id)
    → Tracks V m
    → Tracks W m
Tracks-cast e t = record {
  verdict = λ id. t.verdict id ∙ ap only_present (e id);
  known = λ id. t.known id ∙ ap is_known (e id);
  deleted = λ id h. t.deleted id (ap is_gone (e id) ∙ h);
  valid = t.valid;
  writable = t.writable;
}

merge_segment-Tracks :
    (V : InternalId → Verdict) (seg : Segment) (m : MergeState)
    → IsWritten seg
    → Tracks V m
    → (m' : MergeState) × (merge_segment seg m ≡ ok m')
      × Tracks (λ id. first (V id) (seg_verdict seg id)) m'
merge_segment-Tracks V seg m w t = (
  merged_segment w.memtable m,
  ap (λ (s : Segment). merge_segment s m) w.is
      ∙ merge_segment-write w.id w.memtable m (sort_rows-All _ w.memtable.upserts w.writable),
  Tracks-cast
      (λ id. ap (first (V id)) (
        sym (seg_verdict-write w.id w.memtable id w.valid w.writable)
        ∙ ap (λ (s : Segment). seg_verdict s id) (sym w.is)))
      (merged_segment-Tracks V w.memtable m w.valid w.writable t),
)

first-unknown : (v : Verdict) → v ≡ first v unknown
first-unknown unknown = refl
first-unknown gone = refl
first-unknown (present rec) = refl

-- The merge of a run succeeds, and collects what the run says.
merge_run-Tracks :
    (run : List Segment) (V : InternalId → Verdict) (m : MergeState)
    → All IsWritten run
    → Tracks V m
    → (m' : MergeState) × (merge_run run m ≡ ok m')
      × Tracks (λ id. first (V id) (run_verdict run id)) m'
unfolding merge_run run_verdict
merge_run-Tracks [] V m h t = (m, refl, Tracks-cast (λ id. first-unknown (V id)) t)
merge_run-Tracks (seg ∷ segs) V m h t =
    let (m', e, t') = merge_segment-Tracks V seg m h.0 t in
    let (m'', e', t'') =
      merge_run-Tracks segs (λ id. first (V id) (seg_verdict seg id)) m' h.1 t' in
    (
      m'',
      rw e e',
      Tracks-cast (λ id. sym (first_assoc (V id) (seg_verdict seg id) (run_verdict segs id))) t'',
    )

-- What the merged memtable says: what the run said, without its deletes where nothing is older.
abbrev kept : Bool → Verdict → Verdict
kept true v = v
kept false v = only_present v

merged_memtable-verdict :
    (older : Bool) (V : InternalId → Verdict) (m : MergeState) (id : InternalId)
    → Tracks V m
    → mt_verdict (merged_memtable older m) id ≡ kept older (V id)
unfolding merged_memtable
merged_memtable-verdict true V m id t =
    hand_on-verdict m.deleted m.merged id t.valid
    ∙ rw (t.verdict id) (ground (arith, t.known id, t.deleted id))
merged_memtable-verdict false V m id t = t.verdict id

merged_memtable-IsFlushable :
    (older : Bool) (V : InternalId → Verdict) (m : MergeState)
    → Tracks V m
    → IsValid (merged_memtable older m) × IsWritable (merged_memtable older m)
unfolding merged_memtable
merged_memtable-IsFlushable true V m t =
    (hand_on-IsValid m.deleted m.merged t.valid, hand_on-IsWritable m.deleted m.merged t.writable)
merged_memtable-IsFlushable false V m t = (t.valid, t.writable)

abbrev segments_for : ℕ → Memtable → List Segment
segments_for n mt = if Memtable.is_empty mt then [] else write n mt ∷ []

run_verdict-segments_for :
    (n : ℕ) (mt : Memtable) (id : InternalId)
    → IsValid mt × IsWritable mt
    → run_verdict (segments_for n mt) id ≡ mt_verdict mt id
unfolding run_verdict
run_verdict-segments_for n mt id f = elim (Bool-cases (Memtable.is_empty mt)) [
  | inl e ↦ rw (run_verdict, e) (sym (mt_verdict-is_empty mt id e))
  | inr e ↦
      rw (run_verdict, e)
        (sym (first-unknown (seg_verdict (write n mt) id)) ∙ seg_verdict-write n mt id f.0 f.1)
]

segments_for-IsWritten :
    (n : ℕ) (mt : Memtable) → IsValid mt × IsWritable mt → All IsWritten (segments_for n mt)
segments_for-IsWritten n mt f = elim (Bool-cases (Memtable.is_empty mt)) [
  | inl e ↦ rw e tt
  | inr e ↦ rw e (record { id = n; memtable = mt; is = refl; valid = f.0; writable = f.1 }, tt)
]

newer-kept :
    (older_remains : Bool) (v : Verdict) (older : List Segment) (id : InternalId)
    → (older_remains ≡ false → older ≡ [])
    → newer (kept older_remains v) (get_in_segments older id) ≡ newer v (get_in_segments older id)
unfolding get_in_segments
newer-kept true v older id h = refl
newer-kept false unknown older id h = refl
newer-kept false gone older id h = rw (h refl) refl
newer-kept false (present rec) older id h = refl

-- The merge of a run of written segments succeeds. Its segments, which are written ones again,
-- answer for every id as the run did, before any older segments. A plan that drops the deletes
-- must have no older segments.
pub merge_to_segments-get_in_segments :
    (plan : CompactPlan) (older : List Segment)
    → All IsWritten plan.run
    → (plan.older_remains ≡ false → older ≡ [])
    → (new : List Segment) × (merge_to_segments plan ≡ ok new)
      × All IsWritten new
      × ((id : InternalId)
          → get_in_segments (new ++ older) id ≡ get_in_segments (plan.run ++ older) id)
unfolding merge_to_segments
merge_to_segments-get_in_segments plan older w h =
    let (m, e, t) = merge_run-Tracks plan.run (λ id. unknown) start w start-Tracks in
    let mt = merged_memtable plan.older_remains m in
    let f = merged_memtable-IsFlushable plan.older_remains (run_verdict plan.run) m t in
    (
      segments_for plan.seg_id mt,
      rw e refl,
      segments_for-IsWritten plan.seg_id mt f,
      λ id.
          get_in_segments-run_verdict (segments_for plan.seg_id mt) older id
          ∙ ap (λ v. newer v (get_in_segments older id))
              (run_verdict-segments_for plan.seg_id mt id f
                ∙ merged_memtable-verdict plan.older_remains (run_verdict plan.run) m id t)
          ∙ newer-kept plan.older_remains (run_verdict plan.run id) older id h
          ∙ sym (get_in_segments-run_verdict plan.run older id),
    )

module _ {A : Type 0} where
  take-drop : (n : ℕ) (xs : List A) → take n xs ++ drop (length (take n xs)) xs ≡ xs
  take-drop zero xs = refl
  take-drop (suc n) [] = refl
  take-drop (suc n) (x ∷ xs) = ap (λ l. x ∷ l) (take-drop n xs)

  drop-take : (n : ℕ) (xs : List A) → ltb n (length xs) ≡ false → drop (length (take n xs)) xs ≡ []
  drop-take zero [] h = refl
  drop-take zero (x ∷ xs) h = absurd (ground arith)
  drop-take (suc n) [] h = refl
  drop-take (suc n) (x ∷ xs) h = drop-take n xs (ground arith)

  All-take : (P : A → Type 0) (n : ℕ) (xs : List A) → All P xs → All P (take n xs)
  All-take P zero xs a = tt
  All-take P (suc n) [] a = tt
  All-take P (suc n) (x ∷ xs) a = (a.0, All-take P n xs a.1)

-- A plan takes the newest segments of the collection, and knows whether others remain.
plan_compact-run :
    (sh : Shared) (cid : ℕ) (mode : CompactMode) (s : StoreState) (col : CollectionState)
    (plan : CompactPlan)
    → lookup cid s.collections ≡ some col
    → plan_compact sh cid mode s ≡ some plan
    → (n : ℕ) × (plan ≡ record {
      run = take n col.segments;
      older_remains = ltb n (length col.segments);
      seg_id = s.manifest.next_seg_id;
    })
unfolding plan_compact
plan_compact-run sh cid mode s col plan e made =
    elim (Option-cases (run_length mode sh.compaction_threshold col.segments)) [
      | inl none_left ↦ let same : none ≡ some plan = rw (plan_compact, e, none_left) at made in cc
      | inr (n, len) ↦ (n, sym (some-injective _ _ (rw (plan_compact, e, len) at made)))
    ]

current_in-segments :
    (col : CollectionState) (segs : List Segment) (pending : Option Memtable) (id : InternalId)
    → get_in_segments segs id ≡ get_in_segments col.segments id
    → current_in (record col { segments = segs }) pending id ≡ current_in col pending id
current_in-segments col segs pending id h =
    current_in-newer (record col { segments = segs }) pending id
    ∙ ap (λ o. newer (mt_verdict col.memtable id) (newer (pending_verdict pending id) o)) h
    ∙ sym (current_in-newer col pending id)

current_record-insert :
    (s : StoreState) (cid k : ℕ) (id : InternalId) (col new : CollectionState) (m : Manifest)
    → lookup cid s.collections ≡ some col
    → ((pending : Option Memtable) → current_in new pending id ≡ current_in col pending id)
    → current_record (record s { manifest = m; collections = insert cid new s.collections }) k id
      ≡ current_record s k id
unfolding current_record
current_record-insert s cid k id col new m e h = elim (Bool-cases (cid == k)) [
  | inl same ↦
      let there : lookup k s.collections ≡ some col =
        subst (λ j. lookup j s.collections ≡ some col) ((==_iff cid k).0 same) e in
      rw (current_record, lookup-insert, same, there) (h (pending_memtable s.pending_flush k))
  | inr other ↦ rw (current_record, lookup-insert, other) refl
]

install_compact-state :
    (cid : ℕ) (plan : CompactPlan) (new : List Segment) (w : World) (col : CollectionState)
    → lookup cid w.state.collections ≡ some col
    → (install_compact cid plan new w).state ≡ record w.state {
      manifest = compacted_manifest cid plan new col w.state.manifest;
      collections =
          insert cid
            (record col { segments = new ++ drop (length plan.run) col.segments })
            w.state.collections;
    }
unfolding install_compact
install_compact-state cid plan new w col e = rw (install_compact, e) refl

install_compact-dropped :
    (cid : ℕ) (plan : CompactPlan) (new : List Segment) (w : World)
    → lookup cid w.state.collections ≡ none
    → install_compact cid plan new w ≡ w
unfolding install_compact
install_compact-dropped cid plan new w e = rw (install_compact, e) refl

install_compact-segments :
    (cid k : ℕ) (plan : CompactPlan) (new : List Segment) (w : World) (id : InternalId)
    → ((col : CollectionState)
        → lookup cid w.state.collections ≡ some col
        → get_in_segments (new ++ drop (length plan.run) col.segments) id
          ≡ get_in_segments col.segments id)
    → current_record (install_compact cid plan new w).state k id ≡ current_record w.state k id
install_compact-segments cid k plan new w id h =
    elim (Option-cases (lookup cid w.state.collections)) [
      | inl e ↦
          ap (λ (w' : World). current_record w'.state k id)
            (install_compact-dropped cid plan new w e)
      | inr (col, e) ↦
          ap (λ s. current_record s k id) (install_compact-state cid plan new w col e)
          ∙ current_record-insert w.state cid k id col
              (record col { segments = new ++ drop (length plan.run) col.segments })
              (compacted_manifest cid plan new col w.state.manifest) e
              (λ pending.
                current_in-segments col (new ++ drop (length plan.run) col.segments) pending id
                  (h col e))
    ]

-- A compaction, full or partial, cannot fail for a corrupt row and changes no answer. The plan is
-- made in the state `s` of a collection whose segments a flush or a compaction wrote; its merge
-- succeeds; and it is installed in a later world, which other operations may have changed in
-- between, but not the segments of the collection, if it is still there. Then the current record
-- of each id of each collection just after the install is the one just before.
pub install_compact-current_record :
    (sh : Shared) (cid : ℕ) (mode : CompactMode) (s : StoreState) (col : CollectionState)
    (plan : CompactPlan)
    → lookup cid s.collections ≡ some col
    → All IsWritten col.segments
    → plan_compact sh cid mode s ≡ some plan
    → (new : List Segment) × (merge_to_segments plan ≡ ok new)
      × All IsWritten new
      × ((w : World) (k : ℕ) (id : InternalId)
          → ((col' : CollectionState)
              → lookup cid w.state.collections ≡ some col'
              → col'.segments ≡ col.segments)
          → current_record (install_compact cid plan new w).state k id
            ≡ current_record w.state k id)
install_compact-current_record sh cid mode s col plan e written made =
    let (n, is) = plan_compact-run sh cid mode s col plan e made in
    let run : plan.run ≡ take n col.segments = ap (λ (p : CompactPlan). p.run) is in
    let older = drop (length plan.run) col.segments in
    let all : plan.run ++ older ≡ col.segments = rw run (take-drop n col.segments) in
    let (new, merged, fresh, same) =
      merge_to_segments-get_in_segments plan older
        (rw run (All-take IsWritten n col.segments written))
        (λ h.
          rw run
            (drop-take n col.segments (ap (λ (p : CompactPlan). p.older_remains) (sym is) ∙ h))) in
    (
      new,
      merged,
      fresh,
      λ w k id unchanged. install_compact-segments cid k plan new w id (λ col' there.
          ap (λ segs. get_in_segments (new ++ drop (length plan.run) segs) id)
            (unchanged col' there)
          ∙ same id
          ∙ ap (λ segs. get_in_segments segs id) (all ∙ sym (unchanged col' there))),
    )

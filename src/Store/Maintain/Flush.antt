-- ===== src/Store/Maintain/Flush.antt =====
-- A flush moves data and changes no answer.
use hamane_db.Base.{
  ℕ, ◌+◌, ◌≡◌, refl, sym, ◌∙◌, ap, subst, true, false, Option, none, some, List, [], ◌∷◌, Map,
  lookup, insert, keys, member, member-keys, keys-IsDistinct, lookup-insert, IsDistinct, IsUnique,
  nat_eq, ◌==◌, ==_iff, leb, Bool-cases, Option-cases, inl, inr, if◌then◌else◌, is_some, arith,
}
use mathlib.Core.Option.{some-injective}
use hamane_db.Core.Record.{InternalId}
use hamane_db.Memtable.{StoredRecord, Memtable}
use hamane_db.Memtable.Laws.{IsValid, mt_verdict}
use hamane_db.Segment.{insert_id, sort_ids}
use hamane_db.Segment.Written.{IsWritable, seg_verdict-write, member-insert_id, member-sort_ids}
use hamane_db.Store.State.{
  CollectionState, PendingFlush, StoreState, pending_memtable, get_in_segments, current_in,
  current_record,
}
use hamane_db.Store.State.View.{
  newer, get_in_segments-newer, current_in-newer, current_record_at, current_record_absent,
}
use hamane_db.Store.Maintain.{
  World, FlushJob, FlushPlan, plan_work, plan_flush, segment_of, add_segments, install_flush,
}

-- The first job for a collection.
unfoldable pub job_of : List FlushJob → ℕ → Option FlushJob
job_of [] cid = none
job_of (job ∷ work) cid = if job.cid == cid then some job else job_of work cid

abbrev pub planned : Option FlushJob → Option Memtable
planned none = none
planned (some job) = some job.memtable

abbrev pub job_cids : List FlushJob → List ℕ
job_cids [] = []
job_cids (job ∷ work) = job.cid ∷ job_cids work

-- The memtables that become segments.
abbrev pub IsFlushable : Memtable → Type 0
IsFlushable mt = IsValid mt × IsWritable mt

abbrev with_segment : Option FlushJob → Option CollectionState → Option CollectionState
with_segment none o = o
with_segment (some job) none = none
with_segment (some job) (some col) = some (record col { segments = segment_of job ∷ col.segments })

job_of-absent :
    (work : List FlushJob) (cid : ℕ) → member cid (job_cids work) ≡ false → job_of work cid ≡ none
unfolding member job_of
job_of-absent [] cid h = refl
job_of-absent (job ∷ work) cid h = ground (arith, job_of-absent work cid)

unfoldable one_segment : FlushJob → Map ℕ CollectionState → Map ℕ CollectionState
one_segment job cols = elim (lookup job.cid cols) [
  | none ↦ cols
  | some col ↦ insert job.cid (record col { segments = segment_of job ∷ col.segments }) cols
]

lookup-one_segment :
    (job : FlushJob) (cols : Map ℕ CollectionState) (cid : ℕ)
    → lookup cid (one_segment job cols)
      ≡ (if job.cid == cid then with_segment (some job) (lookup cid cols) else lookup cid cols)
unfolding one_segment lookup
lookup-one_segment job cols cid = elim (Option-cases (lookup job.cid cols)) [
  | inl e ↦ elim (Bool-cases (job.cid == cid)) [
    | inl same ↦
        let gone : lookup cid cols ≡ none =
          subst (λ k. lookup k cols ≡ none) ((==_iff job.cid cid).0 same) e in
        rw (one_segment, e, same, gone) refl
    | inr other ↦ rw (one_segment, e, other) refl
  ]
  | inr (col, e) ↦ elim (Bool-cases (job.cid == cid)) [
    | inl same ↦
        let there : lookup cid cols ≡ some col =
          subst (λ k. lookup k cols ≡ some col) ((==_iff job.cid cid).0 same) e in
        rw (one_segment, e, lookup-insert, same, there) refl
    | inr other ↦ rw (one_segment, e, lookup-insert, other) refl
  ]
]

lookup-add_segments :
    (work : List FlushJob) (cols : Map ℕ CollectionState) (cid : ℕ)
    → IsDistinct (job_cids work)
    → lookup cid (add_segments work cols) ≡ with_segment (job_of work cid) (lookup cid cols)
unfolding add_segments job_of one_segment
lookup-add_segments [] cols cid d = refl
lookup-add_segments (job ∷ work) cols cid d =
    lookup-add_segments work (one_segment job cols) cid d.1
    ∙ ap (with_segment (job_of work cid)) (lookup-one_segment job cols cid)
    ∙ elim (Bool-cases (job.cid == cid)) [
      | inl same ↦
          let later : job_of work cid ≡ none =
            job_of-absent work cid
              (subst (λ k. member k (job_cids work) ≡ false) ((==_iff job.cid cid).0 same) d.0) in
          rw (later, same) refl
      | inr other ↦ rw other refl
    ]

-- The memtable that a plan writes for a collection.
planned-plan_work :
    (cols : Map ℕ CollectionState) (mts : Map ℕ Memtable) (cids : List ℕ) (next cid : ℕ)
    → planned (job_of (plan_work cols mts cids next) cid) ≡ (
        if member cid cids
        then (if is_some (lookup cid cols) then lookup cid mts else none)
        else none)
unfolding plan_work job_of member
planned-plan_work cols mts [] next cid = refl
planned-plan_work cols mts (c ∷ cids) next cid = ground (
  arith,
  ==_iff c cid,
  planned-plan_work cols mts cids next cid,
  planned-plan_work cols mts cids (next + 1) cid,
)

member-job_cids :
    (cols : Map ℕ CollectionState) (mts : Map ℕ Memtable) (cids : List ℕ) (next cid : ℕ)
    → member cid cids ≡ false
    → member cid (job_cids (plan_work cols mts cids next)) ≡ false
unfolding plan_work member
member-job_cids cols mts [] next cid h = refl
member-job_cids cols mts (c ∷ cids) next cid h =
    ground
      (arith, member-job_cids cols mts cids next cid, member-job_cids cols mts cids (next + 1) cid)

job_cids-IsDistinct :
    (cols : Map ℕ CollectionState) (mts : Map ℕ Memtable) (cids : List ℕ) (next : ℕ)
    → IsDistinct cids
    → IsDistinct (job_cids (plan_work cols mts cids next))
unfolding plan_work
job_cids-IsDistinct cols mts [] next d = tt
job_cids-IsDistinct cols mts (c ∷ cids) next d = elim (Option-cases (lookup c cols)) [
  | inl e ↦ rw (IsDistinct, e) (job_cids-IsDistinct cols mts cids next d.1)
  | inr (col, e) ↦ elim (Option-cases (lookup c mts)) [
    | inl f ↦ rw (IsDistinct, e, f) (job_cids-IsDistinct cols mts cids next d.1)
    | inr (mt, f) ↦
        rw (IsDistinct, e, f)
          (
            member-job_cids cols mts cids (next + 1) c d.0,
            job_cids-IsDistinct cols mts cids (next + 1) d.1,
          )
  ]
]

insert_id-IsDistinct :
    (x : InternalId) (l : List InternalId)
    → member x l ≡ false
    → IsDistinct l
    → IsDistinct (insert_id x l)
unfolding insert_id member
insert_id-IsDistinct x [] m d = (refl, tt)
insert_id-IsDistinct x (z ∷ l) m d = elim (Bool-cases (leb x z)) [
  | inl small ↦ rw small (m, d)
  | inr large ↦
      rw large
        (member-insert_id x z l ∙ ground (arith, d.0), insert_id-IsDistinct x l (ground arith) d.1)
]

sort_ids-IsDistinct : (l : List InternalId) → IsDistinct l → IsDistinct (sort_ids l)
unfolding sort_ids
sort_ids-IsDistinct [] d = tt
sort_ids-IsDistinct (x ∷ l) d =
    insert_id-IsDistinct x (sort_ids l) (member-sort_ids x l ∙ d.0) (sort_ids-IsDistinct l d.1)

-- The memtables that wait for a flush: one for each collection, each of a known collection.
pub record IsPending (s : StoreState) (p : PendingFlush) : Type 0 where
  pub unique : IsUnique p.memtables
  pub known :
      (cid : ℕ) (mt : Memtable)
      → lookup cid p.memtables ≡ some mt
      → is_some (lookup cid s.collections) ≡ true
  pub flushable : (cid : ℕ) (mt : Memtable) → lookup cid p.memtables ≡ some mt → IsFlushable mt

-- The plan for a collection's pending memtable is that memtable.
planned_all :
    (s : StoreState) (p : PendingFlush) (next cid : ℕ)
    → IsPending s p
    → planned (job_of (plan_work s.collections p.memtables (sort_ids (keys p.memtables)) next) cid)
      ≡ lookup cid p.memtables
planned_all s p next cid v =
    planned-plan_work s.collections p.memtables (sort_ids (keys p.memtables)) next cid
    ∙ rw (member-sort_ids, member-keys)
        (elim (Option-cases (lookup cid p.memtables)) [
          | inl e ↦ rw e refl
          | inr (mt, e) ↦ rw (e, v.known cid mt e) refl
        ])

-- The new segment answers as the pending memtable did.
current_in-with_segment :
    (job : FlushJob) (col : CollectionState) (id : InternalId)
    → IsFlushable job.memtable
    → current_in (record col { segments = segment_of job ∷ col.segments }) none id
      ≡ current_in col (some job.memtable) id
unfolding segment_of
current_in-with_segment job col id f =
    current_in-newer (record col { segments = segment_of job ∷ col.segments }) none id
    ∙ ap (newer (mt_verdict col.memtable id)) (
        get_in_segments-newer (segment_of job) col.segments id
        ∙ ap (λ v. newer v (get_in_segments col.segments id))
            (seg_verdict-write job.seg_id job.memtable id f.0 f.1))
    ∙ sym (current_in-newer col (some job.memtable) id)

-- The collection and the pending memtable that a read of the new state meets.
with_segment_keeps :
    (o : Option FlushJob) (col : CollectionState) (id : InternalId)
    → ((mt : Memtable) → planned o ≡ some mt → IsFlushable mt)
    → elim (with_segment o (some col)) [ none ↦ none | some c ↦ current_in c none id ]
      ≡ current_in col (planned o) id
with_segment_keeps none col id f = refl
with_segment_keeps (some job) col id f = current_in-with_segment job col id (f job.memtable refl)

installed :
    (plan : FlushPlan) (w : World) (cid : ℕ) (id : InternalId)
    → IsDistinct (job_cids plan.work)
    → current_record (install_flush plan w).state cid id
      ≡ elim (with_segment (job_of plan.work cid) (lookup cid w.state.collections)) [
        | none ↦ none
        | some c ↦ current_in c none id
      ]
unfolding current_record install_flush
installed plan w cid id d =
    ap
      (λ (o : Option CollectionState). elim o as (λ x. Option StoredRecord) [
        | none ↦ none
        | some c ↦ current_in c none id
      ])
      (lookup-add_segments plan.work w.state.collections cid d)

with_segment-none : (o : Option FlushJob) → with_segment o none ≡ none
with_segment-none none = refl
with_segment-none (some job) = refl

-- What makes a plan fit the state it is installed in.
installed_keeps :
    (plan : FlushPlan) (w : World) (cid : ℕ) (id : InternalId)
    → IsDistinct (job_cids plan.work)
    → ((mt : Memtable) → planned (job_of plan.work cid) ≡ some mt → IsFlushable mt)
    → (is_some (lookup cid w.state.collections) ≡ true
        → pending_memtable w.state.pending_flush cid ≡ planned (job_of plan.work cid))
    → current_record (install_flush plan w).state cid id ≡ current_record w.state cid id
installed_keeps plan w cid id d f p =
    installed plan w cid id d ∙ elim (Option-cases (lookup cid w.state.collections)) [
      | inl e ↦ rw (e, with_segment-none) (sym (current_record_absent w.state cid id e))
      | inr (col, e) ↦
          rw e (with_segment_keeps (job_of plan.work cid) col id f)
          ∙ ap (λ o. current_in col o id)
              (sym (p (ap (λ (o : Option CollectionState). is_some o) e)))
          ∙ sym (current_record_at w.state cid id col e)
    ]

-- A flush changes no answer. The plan is made in the state `s` and installed in a later state,
-- which other operations may have changed in between: for each id of each collection the current
-- record just after the install is the one just before. The pending memtables are valid, of known
-- collections and one for each, their metadata can be written, and the collection, if it is still
-- there, still has the pending memtable that the plan was made from.
pub install_flush-current_record :
    (s : StoreState) (p : PendingFlush) (plan : FlushPlan) (w : World) (cid : ℕ) (id : InternalId)
    → s.pending_flush ≡ some p
    → plan_flush s ≡ some plan
    → IsPending s p
    → (is_some (lookup cid w.state.collections) ≡ true
        → pending_memtable w.state.pending_flush cid ≡ lookup cid p.memtables)
    → current_record (install_flush plan w).state cid id ≡ current_record w.state cid id
unfolding plan_flush
install_flush-current_record s p plan w cid id e made v kept =
    let cids = sort_ids (keys p.memtables) in
    let work = plan_work s.collections p.memtables cids s.manifest.next_seg_id in
    let this : record { wal_seq = p.wal_seq; work = work } ≡ plan =
      some-injective _ _ (rw e at made) in
    let all : planned (job_of plan.work cid) ≡ lookup cid p.memtables =
      ap (λ (q : FlushPlan). planned (job_of q.work cid)) (sym this)
      ∙ planned_all s p s.manifest.next_seg_id cid v in
    installed_keeps plan w cid id
      (subst (λ (q : FlushPlan). IsDistinct (job_cids q.work)) this
        (job_cids-IsDistinct s.collections p.memtables cids s.manifest.next_seg_id
          (sort_ids-IsDistinct (keys p.memtables) (keys-IsDistinct p.memtables v.unique))))
      (λ mt h. v.flushable cid mt (sym all ∙ h)) (λ h. kept h ∙ sym all)

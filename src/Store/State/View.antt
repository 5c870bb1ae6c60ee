-- ===== src/Store/State/View.antt =====
-- Reads as the verdict of the newest source that knows the id.
use hamane_db.Base.{
  ℕ, ◌≡◌, refl, sym, ◌∙◌, ap, true, Option, none, some, List, [], ◌∷◌, lookup, is_some,
  Option-cases, inl, inr, nat_eq, arith,
}
use hamane_db.Core.Record.{InternalId}
use hamane_db.Memtable.{StoredRecord, Memtable}
use hamane_db.Memtable.Laws.{Verdict, unknown, gone, present, mt_verdict}
use hamane_db.Segment.{Segment, row_of, contains, stored}
use hamane_db.Segment.Written.{seg_verdict}
use hamane_db.Store.State.{
  CollectionState, StoreState, pending_memtable, get_in_segments, live_in_segments, get_in_memtable,
  get_in_pending, live_in_pending, current_in, current_record, live_in, is_id_live, snapshot,
  get_in_memtables, get,
}

-- A source answers, or leaves the answer to the older ones.
abbrev pub newer : Verdict → Option StoredRecord → Option StoredRecord
newer unknown rest = rest
newer gone rest = none
newer (present rec) rest = some rec

pub get_in_memtable-newer :
    (mt : Memtable) (id : InternalId) (rest : Option StoredRecord)
    → get_in_memtable mt id rest ≡ newer (mt_verdict mt id) rest
unfolding mt_verdict
get_in_memtable-newer mt id rest = ground arith

pub get_in_segments-newer :
    (seg : Segment) (segs : List Segment) (id : InternalId)
    → get_in_segments (seg ∷ segs) id ≡ newer (seg_verdict seg id) (get_in_segments segs id)
unfolding get_in_segments seg_verdict
get_in_segments-newer seg segs id = ground arith

abbrev pub pending_verdict : Option Memtable → InternalId → Verdict
pending_verdict none id = unknown
pending_verdict (some mt) id = mt_verdict mt id

pub current_in-newer :
    (col : CollectionState) (pending : Option Memtable) (id : InternalId)
    → current_in col pending id
      ≡ newer
          (mt_verdict col.memtable id)
          (newer (pending_verdict pending id) (get_in_segments col.segments id))
unfolding current_in get_in_pending
current_in-newer col none id =
    get_in_memtable-newer col.memtable id (get_in_segments col.segments id)
current_in-newer col (some mt) id =
    get_in_memtable-newer col.memtable id (get_in_memtable mt id (get_in_segments col.segments id))
    ∙ ap (newer (mt_verdict col.memtable id))
        (get_in_memtable-newer mt id (get_in_segments col.segments id))

-- A snapshot answers as the store does.
pub get-snapshot :
    (col : CollectionState) (pending : Option Memtable) (id : InternalId)
    → get (snapshot col pending) id ≡ current_in col pending id
unfolding get snapshot get_in_memtables current_in get_in_pending
get-snapshot col none id = refl
get-snapshot col (some mt) id = refl

-- Each row that an id is found at has metadata that decodes.
abbrev pub IsReadable : List Segment → Type 0
IsReadable [] = Unit
IsReadable (seg ∷ segs) =
    ((id : InternalId) (row : ℕ) → row_of seg id ≡ some row → is_some (stored seg row) ≡ true)
    × IsReadable segs

live_in_segments-is_some :
    (segs : List Segment) (id : InternalId)
    → IsReadable segs
    → live_in_segments segs id ≡ is_some (get_in_segments segs id)
unfolding live_in_segments get_in_segments contains
live_in_segments-is_some [] id h = refl
live_in_segments-is_some (seg ∷ segs) id h = elim (Option-cases (row_of seg id)) [
  | inl e ↦ rw e (ground (arith, live_in_segments-is_some segs id h.1))
  | inr (row, e) ↦ rw e (ground (arith, h.0 id row e))
]

live_in-is_some :
    (col : CollectionState) (pending : Option Memtable) (id : InternalId)
    → IsReadable col.segments
    → live_in col pending id ≡ is_some (current_in col pending id)
unfolding live_in current_in live_in_pending get_in_pending
live_in-is_some col none id h = ground (arith, live_in_segments-is_some col.segments id h)
live_in-is_some col (some mt) id h = ground (arith, live_in_segments-is_some col.segments id h)

is_id_live_at :
    (s : StoreState) (cid : ℕ) (id : InternalId) (col : CollectionState)
    → lookup cid s.collections ≡ some col
    → is_id_live s cid id ≡ live_in col (pending_memtable s.pending_flush cid) id
unfolding is_id_live live_in
is_id_live_at s cid id col e = rw (is_id_live, e) refl

pub current_record_at :
    (s : StoreState) (cid : ℕ) (id : InternalId) (col : CollectionState)
    → lookup cid s.collections ≡ some col
    → current_record s cid id ≡ current_in col (pending_memtable s.pending_flush cid) id
unfolding current_record current_in
current_record_at s cid id col e = rw (current_record, e) refl

pub current_record_absent :
    (s : StoreState) (cid : ℕ) (id : InternalId)
    → lookup cid s.collections ≡ none
    → current_record s cid id ≡ none
unfolding current_record
current_record_absent s cid id e = rw (current_record, e) refl

-- An id counts as live exactly when it has a current record, wherever the newest word on it is:
-- in the active memtable, in the one that is being flushed, or in a segment. The collection is
-- there, and the metadata of its rows decodes.
pub is_id_live-current_record :
    (s : StoreState) (cid : ℕ) (id : InternalId) (col : CollectionState)
    → lookup cid s.collections ≡ some col
    → IsReadable col.segments
    → is_id_live s cid id ≡ is_some (current_record s cid id)
is_id_live-current_record s cid id col e h =
    is_id_live_at s cid id col e
    ∙ live_in-is_some col (pending_memtable s.pending_flush cid) id h
    ∙ ap (λ (o : Option StoredRecord). is_some o) (sym (current_record_at s cid id col e))

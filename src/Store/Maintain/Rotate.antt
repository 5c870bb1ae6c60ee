-- ===== src/Store/Maintain/Rotate.antt =====
-- Rotation: the memtables become the pending ones and the answers stay.
use hamane_db.Base.{
  ℕ, ◌*◌, ◌≡◌, ◌⊎◌, refl, sym, ◌∙◌, ap, not, ◌||◌, Option, none, some, [], ◌∷◌, Map, lookup,
  IsUnique, nat_eq, is_some, if◌then◌else◌, Bool-cases, Option-cases, inl, inr, ◌==◌, ==_iff, arith,
}
use mathlib.Core.Path.{ap₂}
use hamane_db.Core.Record.{InternalId}
use hamane_db.Memtable
use hamane_db.Memtable.{StoredRecord, Memtable}
use hamane_db.Memtable.Laws.{mt_verdict, mt_verdict-is_empty}
use hamane_db.Store.State.{
  CollectionState, StoreState, get_in_segments, current_in, current_record, pending_memtable,
}
use hamane_db.Store.State.View.{newer, current_in-newer, current_record_at, current_record_absent}
use hamane_db.Store.Maintain.{
  World, Shared, any_over, all_empty, taken, emptied, rotated, rotate, waited, maybe_flush,
}

abbrev pub one_emptied : CollectionState → CollectionState
one_emptied col =
    if Memtable.is_empty col.memtable then col else record col { memtable = Memtable.empty }

abbrev pub all_emptied : Option CollectionState → Option CollectionState
all_emptied none = none
all_emptied (some col) = some (one_emptied col)

abbrev one_taken : Option CollectionState → Option Memtable
one_taken none = none
one_taken (some col) = if Memtable.is_empty col.memtable then none else some col.memtable

pub lookup-emptied :
    (cid : ℕ) (cols : Map ℕ CollectionState)
    → lookup cid (emptied cols) ≡ all_emptied (lookup cid cols)
unfolding emptied lookup
lookup-emptied cid [] = refl
lookup-emptied cid ((k, col) ∷ cols) = elim (Bool-cases (k == cid)) [
  | inl same ↦ rw same refl
  | inr other ↦ rw other (lookup-emptied cid cols)
]

lookup-taken :
    (cid : ℕ) (cols : Map ℕ CollectionState)
    → IsUnique cols
    → lookup cid (taken cols) ≡ one_taken (lookup cid cols)
unfolding taken lookup
lookup-taken cid [] u = refl
lookup-taken cid ((k, col) ∷ cols) u = ground (arith, lookup-taken cid cols u.1, u.0, ==_iff k cid)

emptied_keeps :
    (col : CollectionState) (id : InternalId)
    → current_in (one_emptied col) (one_taken (some col)) id ≡ current_in col none id
emptied_keeps col id = elim (Bool-cases (Memtable.is_empty col.memtable)) [
  | inl e ↦ rw e refl
  | inr e ↦ rw e (
      current_in-newer (record col { memtable = Memtable.empty }) (some col.memtable) id
      ∙ ap (λ v. newer v (newer (mt_verdict col.memtable id) (get_in_segments col.segments id)))
          (mt_verdict-is_empty Memtable.empty id (unfold Memtable.is_empty in refl))
      ∙ sym (current_in-newer col none id))
]

abbrev read_of : InternalId → Option CollectionState → Option Memtable → Option StoredRecord
read_of id none pending = none
read_of id (some col) pending = current_in col pending id

read_of_emptied :
    (id : InternalId) (o : Option CollectionState)
    → read_of id (all_emptied o) (one_taken o) ≡ read_of id o none
read_of_emptied id none = refl
read_of_emptied id (some col) = emptied_keeps col id

current_record-read_of :
    (s : StoreState) (cid : ℕ) (id : InternalId)
    → current_record s cid id
      ≡ read_of id (lookup cid s.collections) (pending_memtable s.pending_flush cid)
current_record-read_of s cid id = elim (Option-cases (lookup cid s.collections)) [
  | inl e ↦ current_record_absent s cid id e ∙ rw e refl
  | inr (col, e) ↦ current_record_at s cid id col e ∙ rw e refl
]

rotated-current_record :
    (w : World) (cid : ℕ) (id : InternalId)
    → w.state.pending_flush ≡ none
    → IsUnique w.state.collections
    → current_record (rotated w).state cid id ≡ current_record w.state cid id
unfolding rotated
rotated-current_record w cid id p u =
    let old : current_record w.state cid id ≡ read_of id (lookup cid w.state.collections) none =
      current_record-read_of w.state cid id
      ∙ ap (λ q. read_of id (lookup cid w.state.collections) (pending_memtable q cid)) p in
    let new : current_record (rotated w).state cid id
        ≡ read_of id (all_emptied (lookup cid w.state.collections))
            (one_taken (lookup cid w.state.collections)) =
      current_record-read_of (rotated w).state cid id
      ∙ ap₂ (read_of id) (lookup-emptied cid w.state.collections)
          (lookup-taken cid w.state.collections u) in
    new ∙ read_of_emptied id (lookup cid w.state.collections) ∙ sym old

pub rotate-cases :
    (sh : Shared) (w : World)
    → ((rotate sh w).1 ≡ w) ⊎ ((w.state.pending_flush ≡ none) × ((rotate sh w).1 ≡ rotated w))
unfolding rotate
rotate-cases sh w = elim (Option-cases w.state.pending_flush) [
  | inl e ↦ elim (Bool-cases (not sh.durable)) [
    | inl d ↦ inl (rw (rotate, d) refl)
    | inr d ↦ elim (Bool-cases (all_empty w.state.collections)) [
      | inl a ↦ inl (rw (rotate, d, e, a) refl)
      | inr a ↦ inr (e, rw (rotate, d, e, a) refl)
    ]
  ]
  | inr (p, e) ↦ elim (Bool-cases (not sh.durable)) [
    | inl d ↦ inl (rw (rotate, d) refl)
    | inr d ↦ inl (rw (rotate, d, e) refl)
  ]
]

-- A rotation changes no answer: the current record of each id of each collection is the same
-- before and after, whether or not the store rotates. Each collection has one entry.
pub rotate-current_record :
    (sh : Shared) (w : World) (cid : ℕ) (id : InternalId)
    → IsUnique w.state.collections
    → current_record (rotate sh w).1.state cid id ≡ current_record w.state cid id
rotate-current_record sh w cid id u = elim (rotate-cases sh w) [
  | inl e ↦ ap (λ (x : World). current_record x.state cid id) e
  | inr (p, e) ↦
      ap (λ (x : World). current_record x.state cid id) e ∙ rotated-current_record w cid id p u
]

-- The flush check after a write changes no answer, whether it rotates or not: the current record
-- of each id of each collection is the same before and after. Each collection has one entry,
-- before and after a wait for a running flush, and that wait itself changes no answer.
pub maybe_flush-current_record :
    (sh : Shared) (w : World) (cid : ℕ) (id : InternalId)
    → IsUnique w.state.collections
    → IsUnique (waited sh w).state.collections
    → current_record (waited sh w).state cid id ≡ current_record w.state cid id
    → current_record (maybe_flush sh w).state cid id ≡ current_record w.state cid id
unfolding maybe_flush
maybe_flush-current_record sh w cid id u u' same =
    elim (Bool-cases
      (not sh.durable || not (any_over sh.flush_threshold_bytes w.state.collections))) [
        | inl e ↦ rw (maybe_flush, e) refl
        | inr e ↦ elim (Bool-cases (is_some w.state.pending_flush)) [
          | inr p ↦ rw (maybe_flush, e, p) (rotate-current_record sh w cid id u)
          | inl q ↦
              elim (Bool-cases (any_over (sh.flush_threshold_bytes * 4) w.state.collections)) [
                | inl o ↦
                    rw (maybe_flush, e, q, o)
                      (rotate-current_record sh (waited sh w) cid id u' ∙ same)
                | inr o ↦ rw (maybe_flush, e, q, o) refl
              ]
        ]
      ]

-- ===== src/Collection/Sources.antt =====
-- The sources of `walk` and its cursor: every id that a reader finds is in a source.
use hamane_db.Base.{
  suc, ◌<◌, ◌≡◌, refl, sym, ◌∙◌, ap, Bool, true, ◌&&◌, Option, none, some, List, [], ◌∷◌, ◌++◌,
  length, All, keys, member-keys, keys-IsDistinct, IsUnique, member, nat_eq, leb, ltb, ==_iff,
  if_either, is_some, Option-cases, inl, inr, All-append, arith,
}
use hamane_db.Core.Record.{InternalId}
use hamane_db.Memtable
use hamane_db.Memtable.{StoredRecord, Memtable}
use hamane_db.Segment.{Segment, Row, row_ids, row_of, binary_search}
use hamane_db.Segment.Search.{IsAscending, binary_search-eq-member}
use hamane_db.Segment.Written.{member-sort_ids, sort_ids-IsAscending}
use hamane_db.Store.State.{LiveView, get_in_segments, get_in_memtables, get}
use hamane_db.Collection.{skip_past, from_cursor, memtable_sources, segment_sources, sources}
use hamane_db.Collection.Merge.{Sources, any_member, AreAscending, member-All}

-- After the cursor.
abbrev pub is_after : Option InternalId → InternalId → Bool
is_after none j = true
is_after (some a) j = ltb a j

skip_past-All :
    (P : InternalId → Type 0) (a : InternalId) (l : List InternalId)
    → All P l
    → All P (skip_past a l)
unfolding skip_past
skip_past-All P a [] h = tt
skip_past-All P a (x ∷ l) h = if_either (All P) (leb x a) (skip_past-All P a l h.1) h

skip_past-IsAscending :
    (a : InternalId) (l : List InternalId) → IsAscending l → IsAscending (skip_past a l)
unfolding skip_past
skip_past-IsAscending a [] h = tt
skip_past-IsAscending a (x ∷ l) h =
    if_either IsAscending (leb x a) (skip_past-IsAscending a l h.1) h

member-skip_past :
    (a j : InternalId) (l : List InternalId)
    → IsAscending l
    → member j (skip_past a l) ≡ (member j l && ltb a j)
unfolding skip_past member
member-skip_past a j [] h = refl
member-skip_past a j (x ∷ l) h =
    ground (arith, member-skip_past a j l h.1, ==_iff x j, member-All (λ y. x < y) l j h.0)

pub from_cursor-AreAscending :
    (after : Option InternalId) (ss : Sources)
    → AreAscending ss
    → AreAscending (from_cursor after ss)
unfolding from_cursor
from_cursor-AreAscending none ss a = a
from_cursor-AreAscending (some c) [] a = tt
from_cursor-AreAscending (some c) (s ∷ ss) a =
    (skip_past-IsAscending c s a.0, from_cursor-AreAscending (some c) ss a.1)

pub any_member-from_cursor :
    (after : Option InternalId) (j : InternalId) (ss : Sources)
    → AreAscending ss
    → any_member j (from_cursor after ss) ≡ (any_member j ss && is_after after j)
unfolding from_cursor any_member
any_member-from_cursor none j ss a = ground arith
any_member-from_cursor (some c) j [] a = refl
any_member-from_cursor (some c) j (s ∷ ss) a =
    ground (arith, member-skip_past c j s a.0, any_member-from_cursor (some c) j ss a.1)

-- Memtables hold an id once, and the rows of a segment stand in ascending order of their ids.
pub record IsOrdered (v : LiveView) : Type 0 where
  pub memtables : All (λ (mt : Memtable). IsUnique mt.upserts) v.memtables
  pub segments : All (λ (seg : Segment). IsAscending (row_ids seg.rows)) v.segments

memtable_sources-AreAscending :
    (mts : List Memtable)
    → All (λ (mt : Memtable). IsUnique mt.upserts) mts
    → AreAscending (memtable_sources mts)
unfolding memtable_sources
memtable_sources-AreAscending [] h = tt
memtable_sources-AreAscending (mt ∷ mts) h = (
  sort_ids-IsAscending (keys mt.upserts) (keys-IsDistinct mt.upserts h.0),
  memtable_sources-AreAscending mts h.1,
)

segment_sources-AreAscending :
    (segs : List Segment)
    → All (λ (seg : Segment). IsAscending (row_ids seg.rows)) segs
    → AreAscending (segment_sources segs)
unfolding segment_sources
segment_sources-AreAscending [] h = tt
segment_sources-AreAscending (seg ∷ segs) h = (h.0, segment_sources-AreAscending segs h.1)

pub sources-AreAscending : (v : LiveView) → IsOrdered v → AreAscending (sources v)
unfolding sources
sources-AreAscending v h =
    All-append IsAscending (memtable_sources v.memtables) (segment_sources v.segments)
      (memtable_sources-AreAscending v.memtables h.memtables)
      (segment_sources-AreAscending v.segments h.segments)

length-row_ids : (rows : List Row) → length (row_ids rows) ≡ length rows
unfolding row_ids
length-row_ids [] = refl
length-row_ids (r ∷ rows) = ap suc (length-row_ids rows)

row_of-member :
    (seg : Segment) (id : InternalId)
    → IsAscending (row_ids seg.rows)
    → is_some (row_of seg id) ≡ member id (row_ids seg.rows)
unfolding row_of
row_of-member seg id a =
    ap (λ n. is_some (binary_search (suc n) (row_ids seg.rows) id 0 n))
      (sym (length-row_ids seg.rows))
    ∙ binary_search-eq-member (row_ids seg.rows) id a

get_in_segments-any_member :
    (segs : List Segment) (j : InternalId)
    → All (λ (seg : Segment). IsAscending (row_ids seg.rows)) segs
    → is_some (get_in_segments segs j) ≡ true
    → any_member j (segment_sources segs) ≡ true
unfolding get_in_segments segment_sources any_member
get_in_segments-any_member [] j h m = cc
get_in_segments-any_member (seg ∷ segs) j h m = elim (Option-cases (row_of seg j)) [
  | inl e ↦ ground (arith, m, e, row_of-member seg j h.0, get_in_segments-any_member segs j h.1)
  | inr (row, e) ↦ ground (arith, e, row_of-member seg j h.0)
]

get_in_memtables-any_member :
    (mts : List Memtable) (rest : Option StoredRecord) (ss : Sources) (j : InternalId)
    → (is_some rest ≡ true → any_member j ss ≡ true)
    → is_some (get_in_memtables mts j rest) ≡ true
    → any_member j (memtable_sources mts ++ ss) ≡ true
unfolding get_in_memtables memtable_sources any_member Memtable.get
get_in_memtables-any_member [] rest ss j h m = h m
get_in_memtables-any_member (mt ∷ mts) rest ss j h m = ground (
  arith,
  m,
  member-sort_ids j (keys mt.upserts),
  member-keys j mt.upserts,
  get_in_memtables-any_member mts rest ss j h,
)

-- What a reader finds is in a source.
pub get-any_member :
    (v : LiveView) (j : InternalId)
    → IsOrdered v
    → is_some (get v j) ≡ true
    → any_member j (sources v) ≡ true
unfolding get sources
get-any_member v j h m =
    get_in_memtables-any_member v.memtables (get_in_segments v.segments j)
      (segment_sources v.segments) j (get_in_segments-any_member v.segments j h.segments) m

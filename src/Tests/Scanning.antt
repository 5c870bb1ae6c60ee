-- ===== src/Tests/Scanning.antt =====
-- A scan and an exact search at concrete inputs. The scan has a view of a memtable over a segment,
-- one of whose ids the memtable deletes.
use hamane_db.Base.{
  ℕ, List, map, ◌+◌, ◌-◌, ◌≡◌, refl, ◌&&◌, none, some, [], ◌∷◌, member, lookup, take, is_some, ltb,
  leb, ◌==◌, nat_eq, bytes_eq, arith,
}
use hamane_db.Core.Record.{InternalId, MetaValue, l2}
use hamane_db.Core.Filter.{FloatOps, Filter, eq, not_filter}
use hamane_db.Memtable
use hamane_db.Segment.{write, sort_rows, to_row, row_ids, row_of, is_tombstoned, binary_search}
use hamane_db.Store.State.{LiveView, get, get_in_memtables, get_in_segments}
use hamane_db.Collection.{walk}
use hamane_db.Collection.Sources.{IsOrdered, is_after}
use hamane_db.Collection.Scan.{collect, walk-collect, walk-take}
use hamane_db.Core.Metric.{F32Ops}
use hamane_db.Index.Flat.{Candidate, search_flat, to_hit}
use hamane_db.Index.Flat.Heap.{IsLine, IsSorted}
use hamane_db.Index.Flat.Nearest.{ranking, search_flat-take}
use hamane_db.Tests.Codec.{docs}
use hamane_db.Tests.Stores.{with_a, with_b}

-- Whole numbers in the place of floating point ones.
abbrev pub whole : FloatOps
whole = record {
  of_int = λ i. i;
  minus = ◌-◌;
  eq = ◌==◌;
  gt = λ a b. ltb b a;
  ge = λ a b. leb b a;
  lt = ltb;
  le = leb;
}

abbrev a_view : LiveView
a_view = record { memtables = with_b ∷ []; segments = write 0 with_a ∷ []; live_len = 1 }

abbrev pub a_filter : Filter
a_filter = not_filter (eq docs (MetaValue.int 3))

a_view-IsOrdered : IsOrdered a_view
unfolding lookup write sort_rows to_row row_ids
a_view-IsOrdered = record { memtables = ((refl, tt), tt); segments = ((tt, tt), tt) }

a_view-live : (j : InternalId) → member j (2 ∷ []) ≡ (is_after (some 0) j && is_some (get a_view j))
unfolding member lookup get get_in_memtables get_in_segments Memtable.get Memtable.is_deleted write
    sort_rows to_row row_ids row_of is_tombstoned binary_search
a_view-live j = ground arith

walk-collect_example :
    walk whole a_view (some a_filter) none (some 0) ≡ collect whole a_view (some a_filter) (2 ∷ [])
walk-collect_example =
    walk-collect whole a_view (some a_filter) (some 0) (2 ∷ []) a_view-IsOrdered (tt, tt)
      a_view-live

walk-take_example : walk whole a_view none (some 1) none ≡ take 1 (walk whole a_view none none none)
walk-take_example = walk-take whole a_view none none 1 (omega arith)

-- Sums in the place of distances.
abbrev sum_of : List ℕ → ℕ
sum_of [] = 0
sum_of (x ∷ xs) = x + sum_of xs

abbrev pub sums : F32Ops
sums = record {
  l2_squared = λ a b. sum_of b;
  dot_product = λ a b. sum_of b;
  negate = λ x. x;
  sqrt = λ x. x;
  times = λ x y. x + y;
  lt = ltb;
  eq = ◌==◌;
}

abbrev AnyNumber : ℕ → Type 0
AnyNumber x = Unit

sums-IsLine : IsLine sums AnyNumber
sums-IsLine = record { place = λ x. x; lt_place = λ x y h g. refl; eq_place = λ x y h g. refl }

-- Two are equally near.
abbrev candidates : List Candidate
candidates =
    record { id = 4; vector = 9 ∷ 1 ∷ []; metadata = [] }
    ∷ record { id = 7; vector = 2 ∷ 3 ∷ []; metadata = [] }
    ∷ record { id = 3; vector = 5 ∷ []; metadata = [] }
    ∷ []

search_flat-take_example :
    IsSorted sums AnyNumber sums-IsLine (ranking sums whole candidates [] l2 (some a_filter) [])
    × (search_flat sums whole candidates [] 2 l2 (some a_filter)
        ≡ map
            (to_hit sums whole l2)
            (take 2 (ranking sums whole candidates [] l2 (some a_filter) [])))
search_flat-take_example =
    search_flat-take sums whole AnyNumber sums-IsLine candidates [] 2 l2 (some a_filter)
      (tt, (tt, (tt, tt)))

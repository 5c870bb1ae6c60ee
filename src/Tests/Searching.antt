-- ===== src/Tests/Searching.antt =====
-- A search of memtables at a concrete view: the active memtable deletes an id that the one which
-- waits for a flush holds.
use hamane_db.Base.{
  List, ℕ, ◌≡◌, ◌≤◌, refl, length, true, none, some, [], ◌∷◌, All, lookup, member, nat_eq,
}
use hamane_db.Core.Record.{InternalId, l2}
use hamane_db.Memtable
use hamane_db.Memtable.{Memtable}
use hamane_db.Store.State.{LiveView, get, get_in_memtables}
use hamane_db.Core.Metric.{distance_key}
use hamane_db.Store.Open.{is_live}
use hamane_db.Index.Flat.{search_flat}
use hamane_db.Collection.Search.{SegmentSearch, finalize, memtable_candidates}
use hamane_db.Collection.Search.Answer.{IsAnswer}
use hamane_db.Collection.Search.Plain.{run_sequential}
use hamane_db.Collection.Search.Whole.{run_sequential-answers}
use hamane_db.Segment.{write}
use hamane_db.Base.Outcome.{ok}
use hamane_db.Collection.Search.Live.{is_found}
use hamane_db.Tests.Stores.{
  with_a, with_a-IsValid, with_a-IsWritable, with_b, with_b-IsValid, rec_a, rec_b,
}
use hamane_db.Tests.Scanning.{whole, sums, a_filter}

abbrev two_memtables : LiveView
two_memtables = record { memtables = with_b ∷ with_a ∷ []; segments = []; live_len = 1 }

abbrev a_search : SegmentSearch
a_search = record {
  view = two_memtables;
  query = 0 ∷ 0 ∷ [];
  k = 2;
  metric = l2;
  filter = some a_filter;
}

-- Where the older memtable has been flushed.
abbrev flushed : LiveView
flushed = record { memtables = with_b ∷ []; segments = write 0 with_a ∷ []; live_len = 1 }

abbrev flushed_search : SegmentSearch
flushed_search = record {
  view = flushed;
  query = 0 ∷ 0 ∷ [];
  k = 2;
  metric = l2;
  filter = some a_filter;
}

run_sequential-answers_example :
    (cs : List (ℕ × InternalId)) × (run_sequential sums whole flushed_search ≡ ok cs)
    × All (λ (c : ℕ × InternalId). is_found sums whole (some a_filter) (get flushed c.1) ≡ true) cs
    × All (IsAnswer sums whole flushed_search) (finalize sums flushed_search cs (some 50))
    × (length (finalize sums flushed_search cs (some 50)) ≤ 2)
run_sequential-answers_example =
    run_sequential-answers sums whole flushed_search (some 50) (with_b-IsValid, tt)
      (
        record {
          id = 0;
          memtable = with_a;
          is = refl;
          valid = with_a-IsValid;
          writable = with_a-IsWritable;
        },
        tt,
      )

-- The memtable that waits holds a near record, which the active one deletes, and one farther away.
abbrev deleting : Memtable
deleting = record { upserts = []; deletes = 1 ∷ []; bytes = 0 }

abbrev waiting : Memtable
waiting = record { upserts = (1, rec_a) ∷ (5, rec_b) ∷ []; deletes = []; bytes = 25 }

abbrev for_one : SegmentSearch
for_one = record {
  view = record { memtables = deleting ∷ waiting ∷ []; segments = []; live_len = 1 };
  query = 0 ∷ 0 ∷ [];
  k = 1;
  metric = l2;
  filter = none;
}

-- The search for one record finds none, although a reader finds id 5.
nearest_deleted : (memtable_candidates sums whole for_one ≡ []) × (get for_one.view 5 ≡ some rec_b)
unfolding memtable_candidates search_flat distance_key is_live Memtable.get lookup
    Memtable.is_deleted member get get_in_memtables
nearest_deleted = (refl, refl)

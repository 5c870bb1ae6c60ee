-- ===== src/Collection/Scan.antt =====
-- `walk` against a reference: the records of the live ids in ascending order.
use hamane_db.Base.{
  ℕ, zero, suc, ◌+◌, ◌-◌, ◌<◌, ◌≡◌, refl, sym, ◌∙◌, ap, Bool, true, false, ◌&&◌, Option, none, some,
  List, [], ◌∷◌, take, take-nil, All, member, nat_eq, ◌==◌, ==_iff, if◌then◌else◌, if_either,
  is_some, Bool-cases, Option-cases, inl, inr, arith,
}
use hamane_db.Core.Record.{InternalId, Record}
use hamane_db.Core.Filter.{FloatOps, Filter}
use hamane_db.Segment.Search.{IsAscending}
use hamane_db.Store.State.{LiveView, get}
use hamane_db.Collection.{
  pop, is_last, total, from_cursor, sources, record_of, visited, is_reached, walk_loop, walk,
}
use hamane_db.Collection.Merge.{Sources}
use hamane_db.Collection.Order.{walk_ids, walk_ids-IsWalked, IsAscending-unique}
use hamane_db.Collection.Sources.{
  is_after, IsOrdered, from_cursor-AreAscending, any_member-from_cursor, sources-AreAscending,
  get-any_member,
}

abbrev stopped : Bool → List Record → List Record
stopped b l = elim b [ true ↦ [] | false ↦ l ]

abbrev first_some : {A : Type 0} → Option A → List A → List A
first_some none l = l
first_some (some x) l = x ∷ l

-- The ids that a reader finds.
unfoldable live_only : LiveView → List InternalId → List InternalId
live_only v [] = []
live_only v (id ∷ ids) =
    let rest = live_only v ids in if is_some (get v id) then id ∷ rest else rest

live_only-All :
    (P : InternalId → Type 0) (v : LiveView) (ids : List InternalId)
    → All P ids
    → All P (live_only v ids)
unfolding live_only
live_only-All P v [] h = tt
live_only-All P v (id ∷ ids) h =
    if_either (All P) (is_some (get v id)) (h.0, live_only-All P v ids h.1)
      (live_only-All P v ids h.1)

live_only-IsAscending :
    (v : LiveView) (ids : List InternalId) → IsAscending ids → IsAscending (live_only v ids)
unfolding live_only
live_only-IsAscending v [] h = tt
live_only-IsAscending v (id ∷ ids) h =
    if_either IsAscending (is_some (get v id))
      (live_only-All (λ j. id < j) v ids h.0, live_only-IsAscending v ids h.1)
      (live_only-IsAscending v ids h.1)

member-live_only :
    (v : LiveView) (j : InternalId) (ids : List InternalId)
    → member j (live_only v ids) ≡ (member j ids && is_some (get v j))
unfolding live_only member
member-live_only v j [] = refl
member-live_only v j (id ∷ ids) = elim (Bool-cases (id == j)) [
  | inl same ↦
      let found : is_some (get v id) ≡ is_some (get v j) =
        ap (λ x. is_some (get v x)) ((==_iff id j).0 same) in
      ground (arith, member-live_only v j ids, same, found)
  | inr other ↦ ground (arith, member-live_only v j ids, other)
]

module _ (fl : FloatOps) where
  -- The reference: the records of these ids that pass the filter, in their order.
  unfoldable pub collect : LiveView → Option Filter → List InternalId → List Record
  collect v filter [] = []
  collect v filter (id ∷ ids) =
      first_some (record_of fl filter id (get v id)) (collect v filter ids)

  collect-live_only :
      (v : LiveView) (filter : Option Filter) (ids : List InternalId)
      → collect v filter (live_only v ids) ≡ collect v filter ids
  unfolding collect live_only record_of
  collect-live_only v filter [] = refl
  collect-live_only v filter (id ∷ ids) = elim (Option-cases (get v id)) [
    | inl e ↦ rw (live_only, e) (collect-live_only v filter ids)
    | inr (rec, e) ↦
        let kept : live_only v (id ∷ ids) ≡ id ∷ live_only v ids = rw (live_only, e) refl in
        ap (collect v filter) kept
        ∙ ap (first_some (record_of fl filter id (get v id))) (collect-live_only v filter ids)
  ]

  walk_loop-walk_ids :
      (v : LiveView) (filter : Option Filter) (fuel : ℕ) (ss : Sources) (last : Option InternalId)
      (emitted : ℕ)
      → walk_loop fl v filter none fuel ss last emitted ≡ collect v filter (walk_ids fuel ss last)
  unfolding walk_loop walk_ids collect visited
  walk_loop-walk_ids v filter zero ss last emitted = refl
  walk_loop-walk_ids v filter (suc fuel) ss last emitted = elim (Option-cases (pop ss)) [
    | inl e ↦ rw (walk_loop, walk_ids, e) refl
    | inr ((id, rest), e) ↦ elim (Bool-cases (is_last last id)) [
      | inl again ↦
          rw (walk_loop, walk_ids, e, again)
            (walk_loop-walk_ids v filter fuel rest (some id) emitted)
      | inr new ↦ elim (Option-cases (record_of fl filter id (get v id))) [
        | inl gone ↦
            rw (walk_loop, walk_ids, e, new, collect, gone)
              (walk_loop-walk_ids v filter fuel rest (some id) emitted)
        | inr (rec, found) ↦
            rw (walk_loop, walk_ids, e, new, collect, found)
              (ap (λ l. rec ∷ l) (walk_loop-walk_ids v filter fuel rest (some id) (emitted + 1)))
      ]
    ]
  ]

  -- One round of the loop under a limit, where an id comes out that is visited.
  limited_round :
      (v : LiveView) (filter : Option Filter) (n fuel : ℕ) (rest : Sources) (id : InternalId)
      (emitted : ℕ) (rec : Record) (l : List Record)
      → emitted < n
      → (emitted + 1 < n
          → walk_loop fl v filter (some n) fuel rest (some id) (emitted + 1)
            ≡ take (n - (emitted + 1)) l)
      → rec
          ∷ stopped
              (is_reached (emitted + 1) (some n))
              (walk_loop fl v filter (some n) fuel rest (some id) (emitted + 1))
        ≡ take (n - emitted) (rec ∷ l)
  limited_round v filter n fuel rest id emitted rec l h ih =
      let more : suc (n - (emitted + 1)) ≡ n - emitted = omega arith in
      let go = walk_loop fl v filter (some n) fuel rest (some id) (emitted + 1) in
      ap (λ x. rec ∷ x)
        (elim (Bool-cases (emitted + 1 == n)) [
          | inl last ↦
              let nothing : 0 ≡ n - (emitted + 1) = ground (arith, last, h) in
              ap (λ b. stopped b go) last ∙ ap (λ k. take k l) nothing
          | inr early ↦ ap (λ b. stopped b go) early ∙ ih (ground (arith, early, h))
        ])
      ∙ ap (λ k. take k (rec ∷ l)) more

  walk_loop_limited :
      (v : LiveView) (filter : Option Filter) (n fuel : ℕ) (ss : Sources) (last : Option InternalId)
      (emitted : ℕ)
      → emitted < n
      → walk_loop fl v filter (some n) fuel ss last emitted
        ≡ take (n - emitted) (collect v filter (walk_ids fuel ss last))
  unfolding walk_loop walk_ids collect visited
  walk_loop_limited v filter n zero ss last emitted h = sym (take-nil (n - emitted))
  walk_loop_limited v filter n (suc fuel) ss last emitted h = elim (Option-cases (pop ss)) [
    | inl e ↦ rw (walk_loop, walk_ids, e) (sym (take-nil (n - emitted)))
    | inr ((id, rest), e) ↦ elim (Bool-cases (is_last last id)) [
      | inl again ↦
          rw (walk_loop, walk_ids, e, again)
            (walk_loop_limited v filter n fuel rest (some id) emitted h)
      | inr new ↦ elim (Option-cases (record_of fl filter id (get v id))) [
        | inl gone ↦
            rw (walk_loop, walk_ids, e, new, collect, gone)
              (walk_loop_limited v filter n fuel rest (some id) emitted h)
        | inr (rec, found) ↦
            rw (walk_loop, walk_ids, e, new, collect, found)
              (limited_round v filter n fuel rest id emitted rec
                (collect v filter (walk_ids fuel rest (some id))) h
                (walk_loop_limited v filter n fuel rest (some id) (emitted + 1)))
      ]
    ]
  ]

  walk-walk_ids :
      (v : LiveView) (filter : Option Filter) (after : Option InternalId)
      → walk fl v filter none after
        ≡ collect v filter
            (walk_ids (total (from_cursor after (sources v))) (from_cursor after (sources v)) none)
  unfolding walk
  walk-walk_ids v filter after =
      walk_loop-walk_ids v filter (total (from_cursor after (sources v)))
        (from_cursor after (sources v)) none 0

  -- Without a limit, `walk` visits the records of exactly the ids after the cursor that a reader
  -- finds and whose metadata passes the filter, each once and in ascending order of their ids: it
  -- gives what a run over any ascending list of these ids gives. Each memtable holds an id once,
  -- and the rows of each segment stand in ascending order of their ids.
  pub walk-collect :
      (v : LiveView) (filter : Option Filter) (after : Option InternalId) (ids : List InternalId)
      → IsOrdered v
      → IsAscending ids
      → ((j : InternalId) → member j ids ≡ (is_after after j && is_some (get v j)))
      → walk fl v filter none after ≡ collect v filter ids
  walk-collect v filter after ids o a h =
      let ss = from_cursor after (sources v) in
      let ascending = sources-AreAscending v o in
      let w =
        walk_ids-IsWalked (total ss) ss none (from_cursor-AreAscending after (sources v) ascending)
          (omega arith) tt in
      let same : live_only v (walk_ids (total ss) ss none) ≡ ids =
        IsAscending-unique (live_only v (walk_ids (total ss) ss none)) ids
          (live_only-IsAscending v (walk_ids (total ss) ss none) w.ascending) a
          (λ j.
            member-live_only v j (walk_ids (total ss) ss none)
            ∙ ground (
              arith,
              w.members j,
              h j,
              any_member-from_cursor after j (sources v) ascending,
              get-any_member v j o,
            )) in
      walk-walk_ids v filter after
      ∙ sym (collect-live_only v filter (walk_ids (total ss) ss none))
      ∙ ap (collect v filter) same

  -- With a limit above zero, `walk` visits the first records of those that it visits without one,
  -- as many as the limit says.
  pub walk-take :
      (v : LiveView) (filter : Option Filter) (after : Option InternalId) (n : ℕ)
      → 0 < n
      → walk fl v filter (some n) after ≡ take n (walk fl v filter none after)
  unfolding walk
  walk-take v filter after n h =
      let ss = from_cursor after (sources v) in
      let whole : n - 0 ≡ n = omega arith in
      walk_loop_limited v filter n (total ss) ss none 0 h
      ∙ ap (λ k. take k (collect v filter (walk_ids (total ss) ss none))) whole
      ∙ ap (λ l. take n l) (sym (walk_loop-walk_ids v filter (total ss) ss none 0))

-- ===== src/Collection/Search/Live.antt =====
-- What the memtables contribute to a search is live.
use hamane_db.Base.{
  ℕ, zero, suc, ◌+◌, ◌≡◌, refl, sym, ◌∙◌, ap, subst, Bool, true, false, ◌||◌, Option, none, some,
  List, [], ◌∷◌, ◌++◌, map, take, take-append, min, length, length-append, append_assoc, All,
  All-append, Map, lookup, member, IsUnique, nat_eq, ltb, ◌==◌, ==_iff, ==_refl, if◌then◌else◌,
  if_either, Bool-cases, inl, inr, arith,
}
use hamane_db.Core.Record.{InternalId, Metric}
use hamane_db.Core.Metric.{F32Ops}
use hamane_db.Core.Filter.{FloatOps, Filter}
use hamane_db.Memtable
use hamane_db.Memtable.{StoredRecord, Memtable}
use hamane_db.Memtable.Laws.{IsValid}
use hamane_db.Store.State.{LiveView, get_in_segments, get_in_memtables, get}
use hamane_db.Store.Open.{memtables_silent, is_live}
use hamane_db.Index.Flat.{
  HeapEntry, Hit, Candidate, less, is_nearer, push, pop, peek, offer, passes, entry_of, search_loop,
  to_hit, search_flat,
}
use hamane_db.Collection.Search.{
  SegmentSearch, candidates_of, keep_live, candidates_from, memtable_candidates,
}

module _ (fo : F32Ops) (P : InternalId → Type 0) where
  abbrev AllIds : List HeapEntry → Type 0
  AllIds heap = All (λ (e : HeapEntry). P e.id) heap

  push-AllIds :
      (e : HeapEntry) (heap : List HeapEntry) → P e.id → AllIds heap → AllIds (push fo e heap)
  unfolding push
  push-AllIds e [] h a = (h, tt)
  push-AllIds e (x ∷ heap) h a =
      if_either AllIds (less fo e x) (h, a) (a.0, push-AllIds e heap h a.1)

  pop-AllIds : (heap : List HeapEntry) → AllIds heap → AllIds (pop heap)
  unfolding pop
  pop-AllIds [] a = tt
  pop-AllIds (x ∷ []) a = tt
  pop-AllIds (x ∷ y ∷ heap) a = (a.0, pop-AllIds (y ∷ heap) a.1)

  offer-AllIds :
      (k : ℕ) (e : HeapEntry) (heap : List HeapEntry)
      → P e.id
      → AllIds heap
      → AllIds (offer fo k e heap)
  unfolding offer
  offer-AllIds k e heap h a =
      if_either AllIds (ltb (length heap) k) (push-AllIds e heap h a) (at_top (peek heap))
    where
      at_top :
          (o : Option HeapEntry)
          → AllIds (elim o [
            | none ↦ heap
            | some top ↦ if is_nearer fo e top then push fo e (pop heap) else heap
          ])
      at_top none = a
      at_top (some top) =
          if_either AllIds (is_nearer fo e top) (push-AllIds e (pop heap) h (pop-AllIds heap a)) a

  module _ (fl : FloatOps) (filter : Option Filter) where
    abbrev pub Passing : Candidate → Type 0
    Passing c = passes fo fl filter c.metadata ≡ true → P c.id

    search_loop-AllIds :
        (cs : List Candidate) (query : List ℕ) (k : ℕ) (metric : Metric) (heap : List HeapEntry)
        → All Passing cs
        → AllIds heap
        → AllIds (search_loop fo fl cs query k metric filter heap)
    unfolding search_loop entry_of
    search_loop-AllIds [] query k metric heap h a = a
    search_loop-AllIds (c ∷ cs) query k metric heap h a =
        elim (Bool-cases (passes fo fl filter c.metadata)) [
          | inl passed ↦
              rw (search_loop, passed)
                (search_loop-AllIds cs query k metric _ h.1
                  (offer-AllIds k (entry_of fo fl query metric c) heap (h.0 passed) a))
          | inr skipped ↦
              rw (search_loop, skipped) (search_loop-AllIds cs query k metric heap h.1 a)
        ]

    hits-All :
        (metric : Metric) (es : List HeapEntry)
        → AllIds es
        → All (λ (h : Hit). P h.id) (map (to_hit fo fl metric) es)
    unfolding to_hit
    hits-All metric [] a = tt
    hits-All metric (e ∷ es) a = (a.0, hits-All metric es a.1)

    pub search_flat-All :
        (cs : List Candidate) (query : List ℕ) (k : ℕ) (metric : Metric)
        → All Passing cs
        → All (λ (h : Hit). P h.id) (search_flat fo fl cs query k metric filter)
    unfolding search_flat
    search_flat-All cs query zero metric h = tt
    search_flat-All cs query (suc k) metric h =
        hits-All metric _ (search_loop-AllIds cs query (suc k) metric [] h tt)

pub not_both : {A P : Type 0} {a : A} → some a ≡ none → P
not_both h = cc

weaken-lookup :
    (k : InternalId) (x : StoredRecord) (m l : Map InternalId StoredRecord)
    → lookup k m ≡ none
    → All (λ (e : InternalId × StoredRecord). lookup e.0 m ≡ some e.1) l
    → All (λ (e : InternalId × StoredRecord). lookup e.0 ((k, x) ∷ m) ≡ some e.1) l
unfolding lookup
weaken-lookup k x m [] h a = tt
weaken-lookup k x m ((j, y) ∷ l) h a = (
  elim (Bool-cases (k == j)) [
    | inl same ↦ not_both (sym a.0 ∙ subst (λ z. lookup z m ≡ none) ((==_iff k j).0 same) h)
    | inr other ↦ rw other a.0
  ],
  weaken-lookup k x m l h a.1,
)

pub entries-All :
    (m : Map InternalId StoredRecord)
    → IsUnique m
    → All (λ (e : InternalId × StoredRecord). lookup e.0 m ≡ some e.1) m
unfolding lookup
entries-All [] u = tt
entries-All ((k, x) ∷ m) u = (rw (==_refl k) refl, weaken-lookup k x m m u.0 (entries-All m u.1))

-- A record that a memtable holds is read, where the newer ones say nothing of its id.
get_in_memtables-silent :
    (before after : List Memtable) (mt : Memtable) (id : InternalId) (rec : StoredRecord)
    (rest : Option StoredRecord)
    → IsValid mt
    → memtables_silent before id ≡ true
    → lookup id mt.upserts ≡ some rec
    → get_in_memtables (before ++ (mt ∷ after)) id rest ≡ some rec
unfolding get_in_memtables memtables_silent Memtable.get Memtable.is_deleted
get_in_memtables-silent [] after mt id rec rest v s e = elim (Bool-cases (member id mt.deletes)) [
  | inl gone ↦ not_both (sym e ∙ v.disjoint id gone)
  | inr kept ↦ rw (kept, e) refl
]
get_in_memtables-silent (m ∷ before) after mt id rec rest v s e =
    ground (arith, s, get_in_memtables-silent before after mt id rec rest v, e)

is_live-silent :
    (v : LiveView) (before after : List Memtable) (id : InternalId)
    → v.memtables ≡ before ++ after
    → is_live v id (length before) ≡ true
    → memtables_silent before id ≡ true
unfolding is_live
is_live-silent v before after id e h =
    let few : min (length before) (length v.memtables) ≡ length before =
      omega (arith, ap (λ (l : List Memtable). length l) e, length-append before after) in
    let newer : take (min (length before) (length v.memtables)) v.memtables ≡ before =
      ap (λ n. take n v.memtables) few ∙ ap (take (length before)) e ∙ take-append before after in
    ap (λ l. memtables_silent l id) (sym newer) ∙ ground (arith, h)

module _ (fo : F32Ops) (fl : FloatOps) (filter : Option Filter) where
  -- There is a record, and it passes the filter.
  abbrev pub is_found : Option StoredRecord → Bool
  is_found none = false
  is_found (some rec) = passes fo fl filter rec.metadata

  -- Where the newer memtables say nothing of the id, a reader finds it.
  abbrev IsHit : LiveView → List Memtable → InternalId → Type 0
  IsHit v before id = memtables_silent before id ≡ true → is_found (get v id) ≡ true

  candidates-All :
      (v : LiveView) (before after : List Memtable) (mt : Memtable)
      (m : Map InternalId StoredRecord)
      → v.memtables ≡ before ++ (mt ∷ after)
      → IsValid mt
      → All (λ (e : InternalId × StoredRecord). lookup e.0 mt.upserts ≡ some e.1) m
      → All (Passing fo (IsHit v before) fl filter) (candidates_of m)
  unfolding candidates_of get
  candidates-All v before after mt [] e valid h = tt
  candidates-All v before after mt ((id, rec) ∷ m) e valid h = (
    λ passed silent.
        ap is_found (
          ap (λ l. get_in_memtables l id (get_in_segments v.segments id)) e
          ∙ get_in_memtables-silent before after mt id rec _ valid silent h.0)
        ∙ passed,
    candidates-All v before after mt m e valid h.1,
  )

  keep_live-All :
      (v : LiveView) (before after : List Memtable) (metric : Metric) (hs : List Hit)
      → v.memtables ≡ before ++ after
      → All (λ (h : Hit). IsHit v before h.id) hs
      → All
          (λ (c : ℕ × InternalId). is_found (get v c.1) ≡ true)
          (keep_live fo v metric (length before) hs)
  unfolding keep_live
  keep_live-All v before after metric [] e a = tt
  keep_live-All v before after metric (h ∷ hs) e a =
      elim (Bool-cases (length before == 0 || is_live v h.id (length before))) [
        | inl kept ↦
            rw kept (a.0 (silent before e kept), keep_live-All v before after metric hs e a.1)
        | inr dropped ↦ rw dropped (keep_live-All v before after metric hs e a.1)
      ]
    where
      silent :
          (l : List Memtable)
          → v.memtables ≡ l ++ after
          → (length l == 0 || is_live v h.id (length l)) ≡ true
          → memtables_silent l h.id ≡ true
      silent [] f k = unfold memtables_silent in refl
      silent (m ∷ l) f k = is_live-silent v (m ∷ l) after h.id f (ground (arith, k))

  candidates_from-All :
      (s : SegmentSearch) (before mts : List Memtable)
      → s.filter ≡ filter
      → s.view.memtables ≡ before ++ mts
      → All IsValid mts
      → All
          (λ (c : ℕ × InternalId). is_found (get s.view c.1) ≡ true)
          (candidates_from fo fl s (length before) mts)
  unfolding candidates_from
  candidates_from-All s before [] f e valid = tt
  candidates_from-All s before (mt ∷ mts) f e valid =
      let next : s.view.memtables ≡ (before ++ (mt ∷ [])) ++ mts =
        e ∙ sym (append_assoc before (mt ∷ []) mts) in
      let longer : length (before ++ (mt ∷ [])) ≡ length before + 1 =
        length-append before (mt ∷ []) ∙ omega arith in
      let hits =
        search_flat-All fo (IsHit s.view before) fl filter (candidates_of mt.upserts) s.query s.k
          s.metric
          (candidates-All s.view before mts mt mt.upserts e valid.0
            (entries-All mt.upserts valid.0.unique)) in
      All-append (λ (c : ℕ × InternalId). is_found (get s.view c.1) ≡ true) _
        (candidates_from fo fl s (length before + 1) mts)
        (keep_live-All s.view before (mt ∷ mts) s.metric _ e (
          subst
            (λ x.
              All (λ (h : Hit). IsHit s.view before h.id)
                (search_flat fo fl (candidates_of mt.upserts) s.query s.k s.metric x))
            (sym f) hits))
        (subst
          (λ n.
            All (λ (c : ℕ × InternalId). is_found (get s.view c.1) ≡ true)
              (candidates_from fo fl s n mts))
          longer (candidates_from-All s (before ++ (mt ∷ [])) mts f next valid.1))

pub memtable_candidates-is_found :
    (fo : F32Ops) (fl : FloatOps) (s : SegmentSearch)
    → All IsValid s.view.memtables
    → All
        (λ (c : ℕ × InternalId). is_found fo fl s.filter (get s.view c.1) ≡ true)
        (memtable_candidates fo fl s)
unfolding memtable_candidates
memtable_candidates-is_found fo fl s valid =
    candidates_from-All fo fl s.filter s [] s.view.memtables refl refl valid

-- ===== src/Store/Api/Names.antt =====
-- The operations on collections as steps, and what they keep of the names.
use hamane_db.Base.{
  ◌+◌, ℕ, ◌≤◌, ◌<◌, ◌^◌, ◌≡◌, refl, ◌∙◌, ap, subst, Bool, true, false, not, Option, none, some,
  lookup, insert, contains_key, is_some, lookup-insert, lookup-remove, nat_eq, bytes_eq, eq_bytes,
  Bool-cases, Option-cases, inl, inr, ◌==◌, ==_iff, arith,
}
use hamane_db.Base.Outcome.{ok, err, ok-injective, ensure, >>=-eq-ok, HamaneError}
use hamane_db.Core.Record.{Text, Metric}
use hamane_db.Wal.Record.{WalRecord, drop_collection, rename_collection, swap_collection_names}
use hamane_db.Store.State.{CollectionState, StoreState}
use hamane_db.Store.Apply.{
  apply_record, apply_create, apply_drop, apply_rename, swap_names, apply_swap,
}
use hamane_db.Store.Apply.Names.{
  IsNamed, apply_create-IsNamed, apply_drop-IsNamed, rename_names, swap_names_lem,
}
use hamane_db.Store.Maintain.{World, Shared}
use hamane_db.Store.Api.{
  ensure_writable, log_and_apply, create_collection_op, find_name, drop_collection_op,
  rename_collection_op, swap_collection_names_op,
}

-- A number that is still to be given is free.
abbrev pub IsFresh : StoreState → Type 0
IsFresh s = (k : ℕ) → s.manifest.next_collection_id ≤ k → lookup k s.collections ≡ none

abbrev pub IsSound : StoreState → Type 0
IsSound s = IsNamed s × IsFresh s

ensure-ok : (b : Bool) (e : HamaneError) → ensure b e ≡ ok tt → b ≡ true
ensure-ok true e h = refl
ensure-ok false e h = cc

log_and_apply-state :
    (sh : Shared) (rec : WalRecord) (w w' : World)
    → log_and_apply sh rec w ≡ ok w'
    → apply_record w.state rec ≡ ok w'.state
unfolding log_and_apply
log_and_apply-state sh rec w w' h =
    let (s, applied, is) = >>=-eq-ok (apply_record w.state rec) _ h in
    applied ∙ ap (λ (x : World). ok x.state) (ok-injective is)

apply_create-IsSound :
    (s : StoreState) (name : Text) (dim : ℕ) (metric : Metric)
    → lookup name s.names ≡ none
    → s.manifest.next_collection_id + 1 < 2 ^ 32
    → IsSound s
    → IsSound (apply_create s.manifest.next_collection_id name dim metric s)
apply_create-IsSound s name dim metric fresh small h = (
  apply_create-IsNamed s s.manifest.next_collection_id name dim metric fresh
      (h.1 s.manifest.next_collection_id (omega arith)) h.0,
  unfold apply_create in
      λ k le. rw lookup-insert (ground (arith, h.1 k, ==_iff s.manifest.next_collection_id k)),
)

apply_drop-IsFresh : (s : StoreState) (cid : ℕ) → IsFresh s → IsFresh (apply_drop cid s)
unfolding apply_drop
apply_drop-IsFresh s cid h = elim (Option-cases (lookup cid s.collections)) [
  | inl e ↦ rw (apply_drop, e) h
  | inr (col, e) ↦ rw (apply_drop, e) (λ k le. rw lookup-remove (ground (arith, h k le)))
]

is_some-none : {A : Type 0} (o : Option A) → not (is_some o) ≡ true → o ≡ none
is_some-none none h = refl
is_some-none (some a) h = cc

pub find_name-ok :
    (name : Text) (w : World) (cid : ℕ)
    → find_name name w ≡ ok cid
    → lookup name w.state.names ≡ some cid
unfolding find_name
find_name-ok name w cid h = elim (Option-cases (lookup name w.state.names)) [
  | inl e ↦ let absent : err _ ≡ ok cid = rw (find_name, e) at h in cc
  | inr (k, e) ↦ e ∙ ap some (ok-injective (rw (find_name, e) at h))
]

apply_rename-IsSound :
    (s s' : StoreState) (cid : ℕ) (to : Text)
    → lookup to s.names ≡ none
    → IsSound s
    → apply_rename cid to s ≡ ok s'
    → IsSound s'
unfolding apply_rename
apply_rename-IsSound s s' cid to fresh h done = elim (Option-cases (lookup cid s.collections)) [
  | inl e ↦ let absent : err _ ≡ ok s' = rw (apply_rename, e) at done in cc
  | inr (col, e) ↦ subst IsSound (ok-injective (rw (apply_rename, e) at done)) (
    rename_names s cid to col e fresh h.0,
    λ k le. rw lookup-insert (ground (arith, h.1 k le, e, ==_iff cid k)),
  )
]

swap_names-IsFresh :
    (s : StoreState) (a b : ℕ) (col_a col_b : CollectionState)
    → lookup a s.collections ≡ some col_a
    → lookup b s.collections ≡ some col_b
    → IsFresh s
    → IsFresh (swap_names a col_a b col_b s)
unfolding swap_names
swap_names-IsFresh s a b col_a col_b ea eb h k le =
    rw
      (
        lookup-insert b k (record col_b { name = col_a.name })
            (insert a (record col_a { name = col_b.name }) s.collections),
        lookup-insert a k (record col_a { name = col_b.name }) s.collections,
      )
      (ground (arith, h k le, ea, eb, ==_iff a k, ==_iff b k))

apply_swap-IsSound :
    (s s' : StoreState) (a b : ℕ)
    → (a == b) ≡ false
    → IsSound s
    → apply_swap a b s ≡ ok s'
    → IsSound s'
unfolding apply_swap
apply_swap-IsSound s s' a b differ h done = elim (Option-cases (lookup a s.collections)) [
  | inl e ↦ let absent : err _ ≡ ok s' = rw (apply_swap, e) at done in cc
  | inr (col_a, ea) ↦ elim (Option-cases (lookup b s.collections)) [
    | inl e ↦ let absent : err _ ≡ ok s' = rw (apply_swap, ea, e) at done in cc
    | inr (col_b, eb) ↦ subst IsSound (ok-injective (rw (apply_swap, ea, eb) at done)) (
      swap_names_lem s a b col_a col_b differ ea eb h.0,
      swap_names-IsFresh s a b col_a col_b ea eb h.1,
    )
  ]
]

-- The operations on collections that succeed. The `u32` of the collections' numbers is not used up.
pub data CollectionStep (sh : Shared) : World → World → Type 0 where
  created :
      (name : Text) (dim : ℕ) (metric : Metric) (cid : ℕ) (w w' : World)
      → w.state.manifest.next_collection_id + 1 < 2 ^ 32
      → create_collection_op sh name dim metric w ≡ ok (cid, w')
      → CollectionStep sh w w'
  dropped :
      (name : Text) (w w' : World) → drop_collection_op sh name w ≡ ok w' → CollectionStep sh w w'
  renamed :
      (from to : Text) (w w' : World)
      → rename_collection_op sh from to w ≡ ok w'
      → CollectionStep sh w w'
  swapped :
      (a b : Text) (w w' : World)
      → swap_collection_names_op sh a b w ≡ ok w'
      → CollectionStep sh w w'

created-IsSound :
    (sh : Shared) (name : Text) (dim : ℕ) (metric : Metric) (cid : ℕ) (w w' : World)
    → w.state.manifest.next_collection_id + 1 < 2 ^ 32
    → create_collection_op sh name dim metric w ≡ ok (cid, w')
    → IsSound w.state
    → IsSound w'.state
unfolding create_collection_op
created-IsSound sh name dim metric cid w w' small done h =
    let (u, writable, rest) = >>=-eq-ok (ensure_writable sh) _ done in
    let (v, fresh, rest') = >>=-eq-ok (ensure (not (contains_key name w.state.names)) _) _ rest in
    let (w'', logged, is) = >>=-eq-ok (log_and_apply sh _ w) _ rest' in
    let same : w'' ≡ w' = ap (λ (r : ℕ × World). r.1) (ok-injective is) in
    let applied : apply_create w.state.manifest.next_collection_id name dim metric w.state
        ≡ w''.state =
      ok-injective (unfold apply_record in log_and_apply-state sh _ w w'' logged) in
    subst (λ (x : World). IsSound x.state) same
      (subst IsSound applied (
        apply_create-IsSound w.state name dim metric
          (is_some-none (lookup name w.state.names) (ensure-ok _ _ fresh)) small h))

dropped-IsSound :
    (sh : Shared) (name : Text) (w w' : World)
    → drop_collection_op sh name w ≡ ok w'
    → IsSound w.state
    → IsSound w'.state
unfolding drop_collection_op
dropped-IsSound sh name w w' done h =
    let (u, writable, rest) = >>=-eq-ok (ensure_writable sh) _ done in
    let (cid, there, rest') = >>=-eq-ok (find_name name w) _ rest in
    let (w'', logged, is) = >>=-eq-ok (log_and_apply sh (drop_collection cid) w) _ rest' in
    let applied : apply_drop cid w.state ≡ w''.state =
      ok-injective (unfold apply_record in log_and_apply-state sh _ w w'' logged) in
    subst (λ (x : World). IsSound x.state) (ok-injective is)
      (subst IsSound applied
        (apply_drop-IsNamed w.state cid h.0, apply_drop-IsFresh w.state cid h.1))

renamed-IsSound :
    (sh : Shared) (from to : Text) (w w' : World)
    → rename_collection_op sh from to w ≡ ok w'
    → IsSound w.state
    → IsSound w'.state
unfolding rename_collection_op
renamed-IsSound sh from to w w' done h =
    let (u, writable, rest) = >>=-eq-ok (ensure_writable sh) _ done in
    let (cid, there, rest') = >>=-eq-ok (find_name from w) _ rest in
    elim (Bool-cases (eq_bytes from to)) [
      | inl same ↦ subst (λ (x : World). IsSound x.state) (ok-injective (rw same at rest')) h
      | inr other ↦
          let (v, fresh, rest'') =
            >>=-eq-ok (ensure (not (contains_key to w.state.names)) _) _ (rw other at rest') in
          apply_rename-IsSound w.state w'.state cid to
            (is_some-none (lookup to w.state.names) (ensure-ok _ _ fresh)) h
            (unfold apply_record in log_and_apply-state sh (rename_collection cid to) w w' rest'')
    ]

swapped-IsSound :
    (sh : Shared) (a b : Text) (w w' : World)
    → swap_collection_names_op sh a b w ≡ ok w'
    → IsSound w.state
    → IsSound w'.state
unfolding swap_collection_names_op
swapped-IsSound sh a b w w' done h =
    let (u, writable, rest) = >>=-eq-ok (ensure_writable sh) _ done in
    let (id_a, there_a, rest') = >>=-eq-ok (find_name a w) _ rest in
    let (id_b, there_b, rest'') = >>=-eq-ok (find_name b w) _ rest' in
    elim (Bool-cases (id_a == id_b)) [
      | inl same ↦ subst (λ (x : World). IsSound x.state) (ok-injective (rw same at rest'')) h
      | inr other ↦ apply_swap-IsSound w.state w'.state id_a id_b other h (
          unfold apply_record in
          log_and_apply-state sh (swap_collection_names id_a id_b) w w' (rw other at rest''))
    ]

-- Every operation on collections that succeeds keeps the names: a name leads to a collection
-- exactly when the collection has that name, so that no two share one, and the number that the
-- next collection gets and all above it are free. A collection is created only while the number
-- after the next one is below 2 ^ 32.
pub CollectionStep-IsSound :
    (sh : Shared) (w w' : World) → CollectionStep sh w w' → IsSound w.state → IsSound w'.state
CollectionStep-IsSound sh _ _ (created name dim metric cid w w' small done) h =
    created-IsSound sh name dim metric cid w w' small done h
CollectionStep-IsSound sh _ _ (dropped name w w' done) h = dropped-IsSound sh name w w' done h
CollectionStep-IsSound sh _ _ (renamed from to w w' done) h = renamed-IsSound sh from to w w' done h
CollectionStep-IsSound sh _ _ (swapped a b w w' done) h = swapped-IsSound sh a b w w' done h

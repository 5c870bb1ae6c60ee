-- ===== src/Store/Open/Sees.antt =====
-- Two states that a reader cannot tell apart stay so under the same writes.
use hamane_db.Base.{
  IsUnique, insert-IsUnique, remove-IsUnique, subst, ℕ, ◌≡◌, refl, sym, ◌∙◌, ap, true, Option, some,
  List, [], ◌∷◌, ◌++◌, All, lookup, lookup-insert, nat_eq, is_some, Bool-cases, Option-cases, inl,
  inr, ◌==◌, ==_iff,
}
use hamane_db.Base.Outcome.{HamaneError, ok, err, >>=-eq-ok, Result, ok, err, ok-injective, ◌>>=◌}
use hamane_db.Core.Record.{InternalId}
use hamane_db.Wal.Record.{
  WalRecord, upsert, delete, create_collection, drop_collection, rename_collection,
  swap_collection_names, update_meta,
}
use hamane_db.Store.State.{CollectionState, StoreState, current_record}
use hamane_db.Store.Apply.{
  set_collection, apply_create, apply_drop, apply_rename, apply_swap, swap_names, apply_upsert,
  apply_delete, apply_update_meta, apply_record, replay,
}
use hamane_db.Store.Apply.Live.{
  Reads, write_reads, is_write_in, is_some-eq, apply_record-write_reads,
}

-- The same collections, with the same current record for each id.
pub record Sees (s t : StoreState) : Type 0 where
  pub reads : (k : ℕ) (j : InternalId) → current_record s k j ≡ current_record t k j
  pub there : (k : ℕ) → is_some (lookup k s.collections) ≡ is_some (lookup k t.collections)

pub Sees-refl : (s : StoreState) → Sees s s
Sees-refl s = record { reads = λ k j. refl; there = λ k. refl }

-- A write keeps the collections that are there.
there-set_collection :
    (cid k : ℕ) (col new : CollectionState) (s : StoreState)
    → lookup cid s.collections ≡ some col
    → is_some (lookup k (set_collection cid new s).collections) ≡ is_some (lookup k s.collections)
there-set_collection cid k col new s e = elim (Bool-cases (cid == k)) [
  | inl same ↦
      rw (lookup-insert cid k new s.collections, same)
        (ap (λ (o : Option CollectionState). is_some o) (sym e)
          ∙ ap (λ x. is_some (lookup x s.collections)) ((==_iff cid k).0 same))
  | inr other ↦ rw (lookup-insert cid k new s.collections, other) refl
]

there-apply_record :
    (s : StoreState) (rec : WalRecord)
    → is_write_in s rec ≡ true
    → {s' : StoreState} → apply_record s rec ≡ ok s'
    → (k : ℕ) → is_some (lookup k s'.collections) ≡ is_some (lookup k s.collections)
unfolding apply_record is_write_in apply_upsert apply_delete apply_update_meta
there-apply_record s (upsert cid id vector metadata) h done k =
    let (col, e) = is_some-eq (lookup cid s.collections) h in
    ap (λ (x : StoreState). is_some (lookup k x.collections))
      (sym (ok-injective (rw (apply_upsert, e) at done)))
    ∙ there-set_collection cid k col _ s e
there-apply_record s (delete cid id) h done k =
    let (col, e) = is_some-eq (lookup cid s.collections) h in
    ap (λ (x : StoreState). is_some (lookup k x.collections))
      (sym (ok-injective (rw (apply_delete, e) at done)))
    ∙ there-set_collection cid k col _ s e
there-apply_record s (update_meta cid id metadata) h done k =
    let (col, e) = is_some-eq (lookup cid s.collections) h in
    elim (Option-cases (current_record s cid id)) [
      | inl f ↦
          ap (λ (x : StoreState). is_some (lookup k x.collections))
            (sym (ok-injective (rw (apply_update_meta, e, f) at done)))
      | inr (cur, f) ↦
          ap (λ (x : StoreState). is_some (lookup k x.collections))
            (sym (ok-injective (rw (apply_update_meta, e, f) at done)))
          ∙ there-set_collection cid k col _ s e
    ]
there-apply_record s (create_collection cid name dim metric) h done k = cc
there-apply_record s (drop_collection cid) h done k = cc
there-apply_record s (rename_collection cid name) h done k = cc
there-apply_record s (swap_collection_names a b) h done k = cc

-- What a write promises rests on the reads alone.
write_reads_same :
    (rec : WalRecord) (f g : Reads)
    → ((k : ℕ) (j : InternalId) → f k j ≡ g k j)
    → (k : ℕ) (j : InternalId) → write_reads rec f k j ≡ write_reads rec g k j
unfolding write_reads
write_reads_same (upsert cid id vector metadata) f g h k j = rw (h k j) refl
write_reads_same (delete cid id) f g h k j = rw (h k j) refl
write_reads_same (update_meta cid id metadata) f g h k j = rw (h k j, h cid id) refl
write_reads_same (create_collection cid name dim metric) f g h k j = h k j
write_reads_same (drop_collection cid) f g h k j = h k j
write_reads_same (rename_collection cid name) f g h k j = h k j
write_reads_same (swap_collection_names a b) f g h k j = h k j

pub is_write_in_same :
    (rec : WalRecord) (s t : StoreState)
    → ((k : ℕ) → is_some (lookup k s.collections) ≡ is_some (lookup k t.collections))
    → is_write_in s rec ≡ is_write_in t rec
unfolding is_write_in
is_write_in_same (upsert cid id vector metadata) s t h = h cid
is_write_in_same (delete cid id) s t h = h cid
is_write_in_same (update_meta cid id metadata) s t h = h cid
is_write_in_same (create_collection cid name dim metric) s t h = refl
is_write_in_same (drop_collection cid) s t h = refl
is_write_in_same (rename_collection cid name) s t h = refl
is_write_in_same (swap_collection_names a b) s t h = refl

-- Every record is a write into a collection of the state.
abbrev pub AreWrites : StoreState → List WalRecord → Type 0
AreWrites s recs = All (λ rec. is_write_in s rec ≡ true) recs

pub AreWrites-same :
    (s t : StoreState) (recs : List WalRecord)
    → ((k : ℕ) → is_some (lookup k s.collections) ≡ is_some (lookup k t.collections))
    → AreWrites s recs
    → AreWrites t recs
AreWrites-same s t [] h a = tt
AreWrites-same s t (rec ∷ recs) h a =
    (sym (is_write_in_same rec s t h) ∙ a.0, AreWrites-same s t recs h a.1)

pub apply_record-Sees :
    (s t : StoreState) (rec : WalRecord)
    → Sees s t
    → is_write_in t rec ≡ true
    → (s' : StoreState) × (t' : StoreState) × (apply_record s rec ≡ ok s')
      × (apply_record t rec ≡ ok t')
      × Sees s' t'
      × ((k : ℕ) → is_some (lookup k t.collections) ≡ is_some (lookup k t'.collections))
apply_record-Sees s t rec same w =
    let w' : is_write_in s rec ≡ true = is_write_in_same rec s t same.there ∙ w in
    let (s', done_s, reads_s) = apply_record-write_reads s rec w' in
    let (t', done_t, reads_t) = apply_record-write_reads t rec w in
    (
      s',
      t',
      done_s,
      done_t,
      record {
        reads = λ k j.
            reads_s k j
            ∙ write_reads_same rec (current_record s) (current_record t) same.reads k j
            ∙ sym (reads_t k j);
        there = λ k.
            there-apply_record s rec w' done_s k
            ∙ same.there k
            ∙ sym (there-apply_record t rec w done_t k);
      },
      λ k. sym (there-apply_record t rec w done_t k),
    )

-- A replay of the same writes on both.
pub replay-Sees :
    (s t : StoreState) (recs : List WalRecord)
    → Sees s t
    → AreWrites t recs
    → (s' : StoreState) × (t' : StoreState) × (replay s recs ≡ ok s')
      × (replay t recs ≡ ok t')
      × Sees s' t'
unfolding replay
replay-Sees s t [] same a = (s, t, refl, refl, same)
replay-Sees s t (rec ∷ recs) same a =
    let (s', t', done_s, done_t, same', there) = apply_record-Sees s t rec same a.0 in
    let (s'', t'', d_s, d_t, same'') =
      replay-Sees s' t' recs same' (AreWrites-same t t' recs there a.1) in
    (s'', t'', rw (replay, done_s) d_s, rw (replay, done_t) d_t, same'')

-- A replay of two logs is the replay of the one and then of the other.
pub replay-append :
    (s : StoreState) (recs more : List WalRecord)
    → replay s (recs ++ more) ≡ (replay s recs >>= λ s'. replay s' more)
unfolding replay
replay-append s [] more = refl
replay-append s (rec ∷ recs) more = through (apply_record s rec) (λ s'. replay-append s' recs more)
  where
    through :
        (r : Result StoreState)
        → ((s' : StoreState)
            → replay s' (recs ++ more) ≡ (replay s' recs >>= λ s''. replay s'' more))
        → (r >>= λ s'. replay s' (recs ++ more))
          ≡ ((r >>= λ s'. replay s' recs) >>= λ s'. replay s' more)
    through (err e) h = refl
    through (ok s') h = h s'

-- Each collection keeps one entry.
carry-IsUnique :
    {s s' : StoreState} → ok s ≡ ok s' → IsUnique s.collections → IsUnique s'.collections
carry-IsUnique done u = subst (λ (x : StoreState). IsUnique x.collections) (ok-injective done) u

err_ne_ok : {e : HamaneError} {s : StoreState} {P : Type 0} → err e ≡ ok s → P
err_ne_ok h = cc

pub apply_record-IsUnique :
    (s : StoreState) (rec : WalRecord) {s' : StoreState}
    → apply_record s rec ≡ ok s'
    → IsUnique s.collections
    → IsUnique s'.collections
unfolding apply_record apply_upsert apply_delete apply_update_meta apply_create apply_drop
    apply_rename apply_swap swap_names
apply_record-IsUnique s (upsert cid id vector metadata) done u =
    elim (Option-cases (lookup cid s.collections)) [
      | inl e ↦ err_ne_ok (rw (apply_upsert, e) at done)
      | inr (col, e) ↦
          carry-IsUnique (rw (apply_upsert, e) at done) (insert-IsUnique cid _ s.collections u)
    ]
apply_record-IsUnique s (delete cid id) done u = elim (Option-cases (lookup cid s.collections)) [
  | inl e ↦ err_ne_ok (rw (apply_delete, e) at done)
  | inr (col, e) ↦
      carry-IsUnique (rw (apply_delete, e) at done) (insert-IsUnique cid _ s.collections u)
]
apply_record-IsUnique s (update_meta cid id metadata) done u =
    elim (Option-cases (lookup cid s.collections)) [
      | inl e ↦ err_ne_ok (rw (apply_update_meta, e) at done)
      | inr (col, e) ↦ elim (Option-cases (current_record s cid id)) [
        | inl f ↦ carry-IsUnique (rw (apply_update_meta, e, f) at done) u
        | inr (cur, f) ↦
            carry-IsUnique (rw (apply_update_meta, e, f) at done)
              (insert-IsUnique cid _ s.collections u)
      ]
    ]
apply_record-IsUnique s (create_collection cid name dim metric) done u =
    carry-IsUnique done (insert-IsUnique cid _ s.collections u)
apply_record-IsUnique s (drop_collection cid) done u =
    elim (Option-cases (lookup cid s.collections)) [
      | inl e ↦ carry-IsUnique (rw (apply_drop, e) at done) u
      | inr (col, e) ↦
          carry-IsUnique (rw (apply_drop, e) at done) (remove-IsUnique cid s.collections u)
    ]
apply_record-IsUnique s (rename_collection cid name) done u =
    elim (Option-cases (lookup cid s.collections)) [
      | inl e ↦ err_ne_ok (rw (apply_rename, e) at done)
      | inr (col, e) ↦
          carry-IsUnique (rw (apply_rename, e) at done) (insert-IsUnique cid _ s.collections u)
    ]
apply_record-IsUnique s (swap_collection_names a b) done u =
    elim (Option-cases (lookup a s.collections)) [
      | inl e ↦ err_ne_ok (rw (apply_swap, e) at done)
      | inr (col_a, e) ↦ elim (Option-cases (lookup b s.collections)) [
        | inl f ↦ err_ne_ok (rw (apply_swap, e, f) at done)
        | inr (col_b, f) ↦
            carry-IsUnique (rw (apply_swap, e, f) at done)
              (insert-IsUnique b _ _ (insert-IsUnique a _ s.collections u))
      ]
    ]

pub replay-IsUnique :
    (s : StoreState) (recs : List WalRecord) {s' : StoreState}
    → replay s recs ≡ ok s'
    → IsUnique s.collections
    → IsUnique s'.collections
unfolding replay
replay-IsUnique s [] done u = carry-IsUnique done u
replay-IsUnique s (rec ∷ recs) done u =
    let (s1, one, rest) = >>=-eq-ok (apply_record s rec) (λ x. replay x recs) done in
    replay-IsUnique s1 recs rest (apply_record-IsUnique s rec one u)

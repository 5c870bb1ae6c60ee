-- ===== src/Collection/Api/Patch.antt =====
-- The patch of metadata, key by key: `apply_meta_patch` of crates/hamane/src/collection.rs.
use hamane_db.Base.{
  ◌≡◌, refl, sym, ◌∙◌, ap, subst, Option, none, some, List, [], ◌∷◌, lookup, lookup-remove, remove,
  remove-IsUnique, remove_absent, IsUnique, eq_bytes, eq_bytes_iff, bytes_eq, Ordering, Bool-cases,
  inl, inr, if◌then◌else◌, arith,
}
use hamane_db.Core.Record.{Text, MetaValue, Metadata, compare_bytes, insert_meta}
use hamane_db.Collection.Api.{remove_meta, remove_all, set_all, patched, any_key}

abbrev pub over : Option MetaValue → Option MetaValue → Option MetaValue
over (some x) o = some x
over none o = o

-- What a key has after the patch: the value that is set, else nothing if the key is removed, else
-- what it had.
abbrev pub patched_value : Metadata → List Text → Metadata → Text → Option MetaValue
patched_value set remove m k = over (lookup k set) (if any_key k remove then none else lookup k m)

compare_bytes_refl : (k : Text) → compare_bytes k k ≡ Ordering.eq
unfolding compare_bytes
compare_bytes_refl [] = refl
compare_bytes_refl (x ∷ k) = ground (arith, compare_bytes_refl k)

compare_bytes-eq : (k j : Text) → compare_bytes k j ≡ Ordering.eq → k ≡ j
unfolding compare_bytes
compare_bytes-eq [] [] h = refl
compare_bytes-eq [] (y ∷ j) h = cc
compare_bytes-eq (x ∷ k) [] h = cc
compare_bytes-eq (x ∷ k) (y ∷ j) h = ground (arith, h, compare_bytes-eq k j)

lookup-insert_meta :
    (k j : Text) (v : MetaValue) (m : Metadata)
    → lookup j (insert_meta k v m) ≡ (if eq_bytes k j then some v else lookup j m)
unfolding lookup insert_meta
lookup-insert_meta k j v [] = refl
lookup-insert_meta k j v ((i, w) ∷ m) = ground (
  arith,
  compare_bytes_refl k,
  compare_bytes-eq k i,
  eq_bytes_iff k j,
  eq_bytes_iff i j,
  lookup-insert_meta k j v m,
)

remove_meta-eq-remove : (k : Text) (m : Metadata) → IsUnique m → remove_meta k m ≡ remove k m
unfolding remove_meta remove
remove_meta-eq-remove k [] u = refl
remove_meta-eq-remove k ((j, x) ∷ m) u = elim (Bool-cases (eq_bytes j k)) [
  | inl same ↦
      rw same
        (sym (remove_absent k m (subst (λ z. lookup z m ≡ none) ((eq_bytes_iff j k).0 same) u.0)))
  | inr other ↦ rw other (ap (λ l. (j, x) ∷ l) (remove_meta-eq-remove k m u.1))
]

lookup-remove_all :
    (ks : List Text) (k : Text) (m : Metadata)
    → IsUnique m
    → lookup k (remove_all ks m) ≡ (if any_key k ks then none else lookup k m)
unfolding remove_all
lookup-remove_all [] k m u = refl
lookup-remove_all (j ∷ ks) k m u =
    let e : remove_meta j m ≡ remove j m = remove_meta-eq-remove j m u in
    ap (λ l. lookup k (remove_all ks l)) e
    ∙ lookup-remove_all ks k (remove j m) (remove-IsUnique j m u)
    ∙ rw (lookup-remove j k m) (ground arith)

lookup-set_all :
    (set : Metadata) (k : Text) (m : Metadata)
    → IsUnique set
    → lookup k (set_all set m) ≡ over (lookup k set) (lookup k m)
unfolding set_all lookup
lookup-set_all [] k m u = refl
lookup-set_all ((j, x) ∷ set) k m u =
    lookup-set_all set k (insert_meta j x m) u.1
    ∙ ap (over (lookup k set)) (lookup-insert_meta j k x m)
    ∙ elim (Bool-cases (eq_bytes j k)) [
      | inl same ↦ rw (same, subst (λ z. lookup z set ≡ none) ((eq_bytes_iff j k).0 same) u.0) refl
      | inr other ↦ rw other refl
    ]

pub lookup-patched :
    (set : Metadata) (removed : List Text) (m : Metadata) (k : Text)
    → IsUnique set
    → IsUnique m
    → lookup k (patched set removed m) ≡ patched_value set removed m k
unfolding patched
lookup-patched set removed m k u v =
    lookup-set_all set k (remove_all removed m) u
    ∙ ap (over (lookup k set)) (lookup-remove_all removed k m v)

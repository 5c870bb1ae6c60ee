-- ===== src/Store/Apply/Names.antt =====
-- The two maps of names: `names` leads from a name to a collection, which has that name.
use hamane_db.Base.{
  ℕ, ◌≡◌, ◌↔◌, refl, ◌∙◌, ap, Bool-cases, false, Option, none, some, Map, lookup, insert, remove,
  eq_bytes, lookup-insert, lookup-remove, nat_eq, bytes_eq, eq_bytes_iff, if◌then◌else◌,
  Option-cases, inl, inr, ◌==◌, ==_iff, arith,
}
use hamane_db.Base.Outcome.{ok}
use hamane_db.Core.Record.{Text, Metric}
use hamane_db.Store.State.{CollectionState, new_collection, StoreState}
use hamane_db.Store.Apply.{apply_create, apply_drop, swap_names, apply_swap}

abbrev pub name_in : Option CollectionState → Option Text
name_in none = none
name_in (some col) = some col.name

abbrev pub name_of : Map ℕ CollectionState → ℕ → Option Text
name_of cols cid = name_in (lookup cid cols)

-- A name leads to a collection exactly when the collection has that name, so that no two
-- collections share one.
abbrev pub AreNames : Map Text ℕ → Map ℕ CollectionState → Type 0
AreNames names cols =
    (name : Text) (cid : ℕ) → (lookup name names ≡ some cid) ↔ (name_of cols cid ≡ some name)

abbrev pub IsNamed : StoreState → Type 0
IsNamed s = AreNames s.names s.collections

name_of-insert :
    (cid k : ℕ) (col : CollectionState) (cols : Map ℕ CollectionState)
    → name_of (insert cid col cols) k ≡ (if cid == k then some col.name else name_of cols k)
name_of-insert cid k col cols = rw lookup-insert (ground arith)

name_of-remove :
    (cid k : ℕ) (cols : Map ℕ CollectionState)
    → name_of (remove cid cols) k ≡ (if cid == k then none else name_of cols k)
name_of-remove cid k cols = rw lookup-remove (ground arith)

-- A collection of a new number gets a new name.
pub apply_create-IsNamed :
    (s : StoreState) (cid : ℕ) (name : Text) (dim : ℕ) (metric : Metric)
    → lookup name s.names ≡ none
    → lookup cid s.collections ≡ none
    → IsNamed s
    → IsNamed (apply_create cid name dim metric s)
unfolding apply_create
apply_create-IsNamed s cid name dim metric fresh new h n k =
    rw
      (
        lookup-insert name n cid s.names,
        name_of-insert cid k (new_collection name dim metric) s.collections,
      )
      (ground
        (arith, h n k, h name k, h n cid, ap name_in new, eq_bytes_iff name n, ==_iff cid k, fresh))

drop_names :
    (s : StoreState) (cid : ℕ) (col : CollectionState)
    → lookup cid s.collections ≡ some col
    → IsNamed s
    → AreNames (remove col.name s.names) (remove cid s.collections)
drop_names s cid col e h n k =
    rw (lookup-remove col.name n s.names, name_of-remove cid k s.collections)
      (ground (
        arith,
        h n k,
        h n cid,
        h col.name k,
        h col.name cid,
        ap name_in e,
        eq_bytes_iff col.name n,
        ==_iff cid k,
      ))

pub apply_drop-IsNamed : (s : StoreState) (cid : ℕ) → IsNamed s → IsNamed (apply_drop cid s)
unfolding apply_drop
apply_drop-IsNamed s cid h = elim (Option-cases (lookup cid s.collections)) [
  | inl e ↦ rw (apply_drop, e) h
  | inr (col, e) ↦ rw (apply_drop, e) (drop_names s cid col e h)
]

pub rename_names :
    (s : StoreState) (cid : ℕ) (new_name : Text) (col : CollectionState)
    → lookup cid s.collections ≡ some col
    → lookup new_name s.names ≡ none
    → IsNamed s
    → AreNames
        (insert new_name cid (remove col.name s.names))
        (insert cid (record col { name = new_name }) s.collections)
rename_names s cid new_name col e fresh h n k =
    rw
      (
        lookup-insert new_name n cid (remove col.name s.names),
        lookup-remove col.name n s.names,
        name_of-insert cid k (record col { name = new_name }) s.collections,
      )
      (ground (
        arith,
        h n k,
        h n cid,
        h new_name k,
        h col.name k,
        h col.name cid,
        ap name_in e,
        fresh,
        eq_bytes_iff new_name n,
        eq_bytes_iff col.name n,
        ==_iff cid k,
      ))

pub swap_names_lem :
    (s : StoreState) (a b : ℕ) (col_a col_b : CollectionState)
    → (a == b) ≡ false
    → lookup a s.collections ≡ some col_a
    → lookup b s.collections ≡ some col_b
    → IsNamed s
    → IsNamed (swap_names a col_a b col_b s)
unfolding swap_names
swap_names_lem s a b col_a col_b differ ea eb h n k =
    rw
      (
        lookup-insert col_a.name n b (insert col_b.name a s.names),
        lookup-insert col_b.name n a s.names,
        name_of-insert b k (record col_b { name = col_a.name })
            (insert a (record col_a { name = col_b.name }) s.collections),
        name_of-insert a k (record col_a { name = col_b.name }) s.collections,
      )
      (ground (
        arith,
        h n k,
        h n a,
        h n b,
        h col_a.name k,
        h col_b.name k,
        h col_a.name a,
        h col_b.name b,
        ap name_in ea,
        ap name_in eb,
        differ,
        eq_bytes_iff col_a.name n,
        eq_bytes_iff col_b.name n,
        ==_iff a k,
        ==_iff b k,
        ==_iff a b,
      ))

-- The collections of two numbers with each other's names.
abbrev swapped :
    ℕ → CollectionState → ℕ → CollectionState → Map ℕ CollectionState → Map ℕ CollectionState
swapped a col_a b col_b cols =
    insert b (record col_b { name = col_a.name })
      (insert a (record col_a { name = col_b.name }) cols)

lookup-swapped :
    (a b k : ℕ) (col_a col_b : CollectionState) (cols : Map ℕ CollectionState)
    → lookup k (swapped a col_a b col_b cols) ≡ (
        if b == k
        then some (record col_b { name = col_a.name })
        else (if a == k then some (record col_a { name = col_b.name }) else lookup k cols))
lookup-swapped a b k col_a col_b cols =
    rw
      (
        lookup-insert b k (record col_b { name = col_a.name })
            (insert a (record col_a { name = col_b.name }) cols),
        lookup-insert a k (record col_a { name = col_b.name }) cols,
      )
      refl

apply_swap-both :
    (s : StoreState) (a b : ℕ) (col_a col_b : CollectionState)
    → lookup a s.collections ≡ some col_a
    → lookup b s.collections ≡ some col_b
    → apply_swap a b s ≡ ok (swap_names a col_a b col_b s)
unfolding apply_swap
apply_swap-both s a b col_a col_b ea eb = rw (apply_swap, ea, eb) refl

-- The collection that a name leads to.
abbrev follow : Map ℕ CollectionState → Option ℕ → Option CollectionState
follow cols none = none
follow cols (some cid) = lookup cid cols

abbrev pub resolve : StoreState → Text → Option CollectionState
resolve s n = follow s.collections (lookup n s.names)

-- Each of the two names leads to what the other one led to, which now has this name; every other
-- name leads to what it led to.
abbrev pub swapped_reads :
    ℕ → CollectionState → ℕ → CollectionState → StoreState → Text → Option CollectionState
swapped_reads a col_a b col_b s n =
    if eq_bytes col_a.name n
    then some (record col_b { name = n })
    else (if eq_bytes col_b.name n then some (record col_a { name = n }) else resolve s n)

-- A name that is neither of the two leads to neither of the collections.
resolve_other :
    (s : StoreState) (a b : ℕ) (col_a col_b : CollectionState) (n : Text)
    → lookup a s.collections ≡ some col_a
    → lookup b s.collections ≡ some col_b
    → IsNamed s
    → eq_bytes col_a.name n ≡ false
    → eq_bytes col_b.name n ≡ false
    → (o : Option ℕ) → lookup n s.names ≡ o
    → follow (swapped a col_a b col_b s.collections) o ≡ follow s.collections o
resolve_other s a b col_a col_b n ea eb named na nb none e = refl
resolve_other s a b col_a col_b n ea eb named na nb (some k) e =
    lookup-swapped a b k col_a col_b s.collections
    ∙ ground (
      arith,
      (named n k).0 e,
      ap name_in ea,
      ap name_in eb,
      ==_iff a k,
      ==_iff b k,
      eq_bytes_iff col_a.name n,
      eq_bytes_iff col_b.name n,
      na,
      nb,
    )

-- A swap of the names of two collections that are there and are not the same succeeds. Afterwards
-- each of the two names leads to the collection that the other one led to, with all that it holds
-- and with this name in it, and every other name leads to what it led to. Before, a name leads to a
-- collection exactly when the collection has that name.
pub resolve-apply_swap :
    (s : StoreState) (a b : ℕ) (col_a col_b : CollectionState)
    → (a == b) ≡ false
    → lookup a s.collections ≡ some col_a
    → lookup b s.collections ≡ some col_b
    → IsNamed s
    → (s' : StoreState) × (apply_swap a b s ≡ ok s')
      × ((n : Text) → resolve s' n ≡ swapped_reads a col_a b col_b s n)
unfolding swap_names
resolve-apply_swap s a b col_a col_b differ ea eb named =
    (swap_names a col_a b col_b s, apply_swap-both s a b col_a col_b ea eb, reads)
  where
    cols : Map ℕ CollectionState
    cols = swapped a col_a b col_b s.collections

    names :
        (n : Text)
        → lookup n (insert col_a.name b (insert col_b.name a s.names)) ≡ (
            if eq_bytes col_a.name n
            then some b
            else (if eq_bytes col_b.name n then some a else lookup n s.names))
    names n =
        rw
          (
            lookup-insert col_a.name n b (insert col_b.name a s.names),
            lookup-insert col_b.name n a s.names,
          )
          refl

    at_a : lookup a cols ≡ some (record col_a { name = col_b.name })
    at_a =
        lookup-swapped a b a col_a col_b s.collections
        ∙ ground (arith, differ, ==_iff a b, ==_iff b a)

    at_b : lookup b cols ≡ some (record col_b { name = col_a.name })
    at_b = lookup-swapped a b b col_a col_b s.collections ∙ ground arith

    reads :
        (n : Text)
        → follow cols (lookup n (insert col_a.name b (insert col_b.name a s.names)))
          ≡ swapped_reads a col_a b col_b s n
    reads n = ap (follow cols) (names n) ∙ elim (Bool-cases (eq_bytes col_a.name n)) [
      | inl first ↦
          rw first (
            at_b ∙ ap (λ x. some (record col_b { name = x })) ((eq_bytes_iff col_a.name n).0 first))
      | inr other ↦ elim (Bool-cases (eq_bytes col_b.name n)) [
        | inl second ↦
            rw (other, second)
              (at_a
                ∙ ap (λ x. some (record col_a { name = x })) ((eq_bytes_iff col_b.name n).0 second))
        | inr neither ↦
            rw (other, neither)
              (resolve_other s a b col_a col_b n ea eb named other neither (lookup n s.names) refl)
      ]
    ]

-- ===== src/Base/Maps.antt =====
-- Maps and sets as association lists. A hash map's order of iteration is not specified; the
-- lists keep the order of first insertion, and no theorem rests on it.
use hamane_db.Base.Tests.{Eq, if◌then◌else◌, is_some, Bool-cases}
use mathlib.Core.Path.{◌≡◌, refl, subst, ◌∙◌}
use mathlib.Core.Logic.{inl, inr}
use mathlib.Core.Bool.{Bool, true, false}
use mathlib.Core.Option.{Option, none, some}
use mathlib.Core.List.{List, [], ◌∷◌}
use native.Mathlib.Omega.{arith}

abbrev pub Map : Type 0 → Type 0 → Type 0
Map K V = List (K × V)

module _ {K V : Type 0} ⦃e : Eq K⦄ where
  unfoldable pub lookup : K → Map K V → Option V
  lookup k [] = none
  lookup k ((j, v) ∷ m) = if e.beq j k then some v else lookup k m

  unfoldable pub insert : K → V → Map K V → Map K V
  insert k v [] = (k, v) ∷ []
  insert k v ((j, w) ∷ m) = if e.beq j k then (k, v) ∷ m else (j, w) ∷ insert k v m

  unfoldable pub remove : K → Map K V → Map K V
  remove k [] = []
  remove k ((j, w) ∷ m) = let rest = remove k m in if e.beq j k then rest else (j, w) ∷ rest

  abbrev pub contains_key : K → Map K V → Bool
  contains_key k m = is_some (lookup k m)

  pub lookup-insert :
      (k j : K) (v : V) (m : Map K V)
      → lookup j (insert k v m) ≡ (if e.beq k j then some v else lookup j m)
  unfolding lookup insert
  lookup-insert k j v [] = refl
  lookup-insert k j v ((i, w) ∷ m) =
      ground (arith, e.beq_iff k j, e.beq_iff i k, e.beq_iff i j, lookup-insert k j v m)

  pub lookup-remove :
      (k j : K) (m : Map K V) → lookup j (remove k m) ≡ (if e.beq k j then none else lookup j m)
  unfolding lookup remove
  lookup-remove k j [] = ground arith
  lookup-remove k j ((i, w) ∷ m) =
      ground (arith, e.beq_iff k j, e.beq_iff i k, e.beq_iff i j, lookup-remove k j m)

  -- No key occurs twice.
  abbrev pub IsUnique : Map K V → Type 0
  IsUnique [] = Unit
  IsUnique ((k, v) ∷ m) = (lookup k m ≡ none) × IsUnique m

  pub insert-IsUnique : (k : K) (v : V) (m : Map K V) → IsUnique m → IsUnique (insert k v m)
  unfolding insert lookup
  insert-IsUnique k v [] u = (refl, tt)
  insert-IsUnique k v ((j, w) ∷ m) u = elim (Bool-cases (e.beq j k)) [
    | inl same ↦ rw same (subst (λ x. lookup x m ≡ none) ((e.beq_iff j k).0 same) u.0, u.1)
    | inr other ↦ rw other (
      lookup-insert k j v m ∙ ground (arith, e.beq_iff k j, e.beq_iff j k, u.0),
      insert-IsUnique k v m u.1,
    )
  ]

  pub remove-IsUnique : (k : K) (m : Map K V) → IsUnique m → IsUnique (remove k m)
  unfolding remove
  remove-IsUnique k [] u = tt
  remove-IsUnique k ((j, w) ∷ m) u = elim (Bool-cases (e.beq j k)) [
    | inl same ↦ rw same (remove-IsUnique k m u.1)
    | inr other ↦ rw other (lookup-remove k j m ∙ ground (arith, u.0), remove-IsUnique k m u.1)
  ]

  -- Removing a key that is not there changes nothing.
  pub remove_absent : (k : K) (m : Map K V) → lookup k m ≡ none → remove k m ≡ m
  unfolding remove lookup
  remove_absent k [] h = refl
  remove_absent k ((j, w) ∷ m) h = ground (arith, remove_absent k m)

module _ {K : Type 0} ⦃e : Eq K⦄ where
  pub beq_refl : (a : K) → e.beq a a ≡ true
  beq_refl a = (e.beq_iff a a).1 refl

  -- Sets.
  unfoldable pub member : K → List K → Bool
  member k [] = false
  member k (j ∷ l) = if e.beq j k then true else member k l

  unfoldable pub add : K → List K → List K
  unfolding member
  add k l = if member k l then l else k ∷ l

  unfoldable pub discard : K → List K → List K
  discard k [] = []
  discard k (j ∷ l) = let rest = discard k l in if e.beq j k then rest else j ∷ rest

  pub member-add :
      (k j : K) (l : List K) → member j (add k l) ≡ (if e.beq k j then true else member j l)
  unfolding member add
  member-add k j l = ground (arith, e.beq_iff k j)

  pub member-discard :
      (k j : K) (l : List K) → member j (discard k l) ≡ (if e.beq k j then false else member j l)
  unfolding member discard
  member-discard k j [] = ground arith
  member-discard k j (i ∷ l) =
      ground (arith, e.beq_iff k j, e.beq_iff i k, e.beq_iff i j, member-discard k j l)

  -- No member occurs twice.
  abbrev pub IsDistinct : List K → Type 0
  IsDistinct [] = Unit
  IsDistinct (x ∷ l) = (member x l ≡ false) × IsDistinct l

  pub add-IsDistinct : (k : K) (l : List K) → IsDistinct l → IsDistinct (add k l)
  unfolding add
  add-IsDistinct k l d = elim (Bool-cases (member k l)) [
    | inl there ↦ rw there d
    | inr missing ↦ rw missing (missing, d)
  ]

  pub discard-IsDistinct : (k : K) (l : List K) → IsDistinct l → IsDistinct (discard k l)
  unfolding discard
  discard-IsDistinct k [] d = tt
  discard-IsDistinct k (j ∷ l) d = elim (Bool-cases (e.beq j k)) [
    | inl same ↦ rw same (discard-IsDistinct k l d.1)
    | inr other ↦ rw other (member-discard k j l ∙ ground (arith, d.0), discard-IsDistinct k l d.1)
  ]

  -- The keys of a map.
  unfoldable pub keys : {V : Type 0} → Map K V → List K
  keys [] = []
  keys ((k, v) ∷ m) = k ∷ keys m

  pub member-keys : {V : Type 0} (k : K) (m : Map K V) → member k (keys m) ≡ is_some (lookup k m)
  unfolding member keys lookup
  member-keys k [] = refl
  member-keys k ((j, v) ∷ m) = ground (arith, member-keys k m)

  pub keys-IsDistinct : {V : Type 0} (m : Map K V) → IsUnique m → IsDistinct (keys m)
  unfolding keys
  keys-IsDistinct [] u = tt
  keys-IsDistinct ((k, v) ∷ m) u = (member-keys k m ∙ ground (arith, u.0), keys-IsDistinct m u.1)

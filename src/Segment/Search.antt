-- ===== src/Segment/Search.antt =====
-- The binary search finds an id of an ascending list exactly when it is there.
use hamane_db.Base.{
  ℕ, zero, suc, ◌+◌, ◌-◌, ◌/◌, ◌≤◌, ◌<◌, ◌≡◌, ◌≢◌, subst, ◌∙◌, true, none, some, List, [], ◌∷◌,
  length, get_elem?, All, ltb, is_some, member, nat_eq, compare, Ordering, ◌==◌, Bool-cases,
  Option-cases, inl, inr, if◌then◌else◌, arith,
}
use mathlib.Core.Option.{some-injective}
use hamane_db.Core.Record.{InternalId}
use hamane_db.Segment.{binary_search}

-- Each id is below all that follow it.
abbrev pub IsAscending : List InternalId → Type 0
IsAscending [] = Unit
IsAscending (x ∷ l) = All (λ y. x < y) l × IsAscending l

pub get_elem?-lt :
    {x y : InternalId} (l : List InternalId) (i : ℕ)
    → All (λ z. x < z) l
    → get_elem? l i ≡ some y
    → x < y
get_elem?-lt [] i h e = cc
get_elem?-lt (z ∷ l) zero h e = ground (arith, h.0)
get_elem?-lt (z ∷ l) (suc i) h e = get_elem?-lt l i h.1 e

pub ascending_lt :
    {x y : InternalId} (l : List InternalId) (i j : ℕ)
    → IsAscending l
    → get_elem? l i ≡ some x
    → get_elem? l j ≡ some y
    → i < j
    → x < y
ascending_lt [] i j a p q h = cc
ascending_lt (z ∷ l) zero zero a p q h = absurd (omega arith)
ascending_lt {y = y} (z ∷ l) zero (suc j) a p q h =
    subst (λ w. w < y) (some-injective _ _ p) (get_elem?-lt l j a.0 q)
ascending_lt (z ∷ l) (suc i) zero a p q h = absurd (omega arith)
ascending_lt (z ∷ l) (suc i) (suc j) a p q h = ascending_lt l i j a.1 p q (omega arith)

get_elem?-inside : (l : List InternalId) (i : ℕ) → i < length l → get_elem? l i ≢ none
get_elem?-inside [] i h e = absurd (omega arith)
get_elem?-inside (x ∷ l) zero h e = cc
get_elem?-inside (x ∷ l) (suc i) h e = get_elem?-inside l i (omega arith) e

same_place :
    {x y : InternalId} (l : List InternalId) (i j : ℕ)
    → get_elem? l i ≡ some x
    → get_elem? l j ≡ some y
    → i ≡ j
    → x ≡ y
same_place l i j p q e = cc

binary_search_round :
    (fuel : ℕ) (l : List InternalId) (x : InternalId) (lo hi : ℕ) {m : InternalId}
    → get_elem? l ((lo + hi) / 2) ≡ some m
    → binary_search (suc fuel) l x lo hi ≡ (
        if ltb lo hi
        then (elim (compare m x) [
          | Ordering.lt ↦ binary_search fuel l x ((lo + hi) / 2 + 1) hi
          | Ordering.gt ↦ binary_search fuel l x lo ((lo + hi) / 2)
          | Ordering.eq ↦ some ((lo + hi) / 2)
        ])
        else none)
unfolding binary_search
binary_search_round fuel l x lo hi at = rw at

-- Where the id stands in the range, it is found.
pub binary_search_finds :
    (fuel : ℕ) (l : List InternalId) (x : InternalId) (lo hi i : ℕ)
    → IsAscending l
    → hi ≤ length l
    → hi - lo < fuel
    → get_elem? l i ≡ some x
    → lo ≤ i
    → i < hi
    → binary_search fuel l x lo hi ≡ some i
binary_search_finds zero l x lo hi i a b f e p q = absurd (omega arith)
binary_search_finds (suc fuel) l x lo hi i a b f e p q =
    elim (Option-cases (get_elem? l ((lo + hi) / 2))) [
      | inl out ↦ absurd (get_elem?-inside l ((lo + hi) / 2) (omega arith) out)
      | inr (m, at) ↦
          binary_search_round fuel l x lo hi at
          ∙ ground (
            arith,
            ascending_lt l ((lo + hi) / 2) i a at e,
            ascending_lt l i ((lo + hi) / 2) a e at,
            same_place l ((lo + hi) / 2) i at e,
            binary_search_finds fuel l x ((lo + hi) / 2 + 1) hi i a b,
            binary_search_finds fuel l x lo ((lo + hi) / 2) i a,
          )
    ]

-- What is found is there.
pub binary_search_sound :
    (fuel : ℕ) (l : List InternalId) (x : InternalId) (lo hi i : ℕ)
    → binary_search fuel l x lo hi ≡ some i
    → get_elem? l i ≡ some x
unfolding binary_search
binary_search_sound zero l x lo hi i e = cc
binary_search_sound (suc fuel) l x lo hi i e = ground (
  arith,
  binary_search_sound fuel l x ((lo + hi) / 2 + 1) hi i,
  binary_search_sound fuel l x lo ((lo + hi) / 2) i,
)

pub member→at :
    (l : List InternalId) (x : InternalId)
    → member x l ≡ true
    → (i : ℕ) × (get_elem? l i ≡ some x) × (i < length l)
unfolding member
member→at [] x h = cc
member→at (y ∷ l) x h = elim (Bool-cases (y == x)) [
  | inl same ↦ (0, ground arith, omega arith)
  | inr other ↦ let (i, e, lt) = member→at l x (rw other at h) in (suc i, e, omega arith)
]

pub at→member :
    (l : List InternalId) (x : InternalId) (i : ℕ) → get_elem? l i ≡ some x → member x l ≡ true
unfolding member
at→member [] x i h = cc
at→member (y ∷ l) x zero h = ground arith
at→member (y ∷ l) x (suc i) h = ground (arith, at→member l x i h)

-- On an ascending list the search says `some` exactly for the members.
pub binary_search-eq-member :
    (l : List InternalId) (x : InternalId)
    → IsAscending l
    → is_some (binary_search (suc (length l)) l x 0 (length l)) ≡ member x l
binary_search-eq-member l x a = elim (Bool-cases (member x l)) [
  | inl there ↦
      let (i, e, lt) = member→at l x there in
      rw (
        there,
        binary_search_finds (suc (length l)) l x 0 (length l) i a (omega arith) (omega arith) e
            (omega arith) lt,
      )
  | inr missing ↦ elim (Option-cases (binary_search (suc (length l)) l x 0 (length l))) [
    | inl nothing ↦ rw (nothing, missing)
    | inr (i, e) ↦ cc (at→member l x i (binary_search_sound (suc (length l)) l x 0 (length l) i e))
  ]
]

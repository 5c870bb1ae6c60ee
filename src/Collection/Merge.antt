-- ===== src/Collection/Merge.antt =====
-- The merge of the sources: each id once, in ascending order.
use hamane_db.Base.{
  suc, ◌≤◌, ◌<◌, ◌≡◌, refl, subst, Bool, true, false, ◌||◌, Option, none, some, List, [], ◌∷◌, All,
  member, nat_eq, leb, ◌==◌, ==_iff, if◌then◌else◌, Bool-cases, inl, inr, arith,
}
use hamane_db.Core.Record.{InternalId}
use hamane_db.Segment.Search.{IsAscending}
use hamane_db.Collection.{pop, total}

abbrev pub Sources : Type 0
Sources = List (List InternalId)

unfoldable pub any_member : InternalId → Sources → Bool
any_member j [] = false
any_member j (s ∷ ss) = if member j s then true else any_member j ss

abbrev pub AreAscending : Sources → Type 0
AreAscending ss = All IsAscending ss

-- What `pop` leaves: the least id of all comes out, and no other is lost.
pub record IsPop (ss : Sources) (x : InternalId) (rest : Sources) : Type 0 where
  pub ascending : AreAscending rest
  pub members : (j : InternalId) → any_member j ss ≡ (x == j || any_member j rest)
  pub shorter : total ss ≡ suc (total rest)
  pub least : (j : InternalId) → any_member j ss ≡ true → x ≤ j

pub member-All :
    (P : InternalId → Type 0) (l : List InternalId) (j : InternalId)
    → All P l
    → member j l ≡ true
    → P j
unfolding member
member-All P [] j a m = cc
member-All P (x ∷ l) j a m = elim (Bool-cases (x == j)) [
  | inl same ↦ subst P ((==_iff x j).0 same) a.0
  | inr other ↦ member-All P l j a.1 (rw other at m)
]

abbrev pub Popped : Sources → Option (InternalId × Sources) → Type 0
Popped ss none = (total ss ≡ 0) × ((j : InternalId) → any_member j ss ≡ false)
Popped ss (some (x, rest)) = IsPop ss x rest

pub pop-Popped : (ss : Sources) → AreAscending ss → Popped ss (pop ss)
unfolding pop total any_member member
pop-Popped [] a = (refl, λ j. refl)
pop-Popped ([] ∷ ss) a = go (pop ss) (pop-Popped ss a.1)
  where
    go :
        (o : Option (InternalId × Sources))
        → Popped ss o
        → Popped ([] ∷ ss) (elim o [ none ↦ none | some (y, ss') ↦ some (y, [] ∷ ss') ])
    go none h = (omega (arith, h.0), h.1)
    go (some (y, ss')) h = record {
      ascending = (tt, h.ascending);
      members = h.members;
      shorter = omega (arith, h.shorter);
      least = h.least;
    }
pop-Popped ((x ∷ xs) ∷ ss) a = go (pop ss) (pop-Popped ss a.1)
  where
    above : (j : InternalId) → member j xs ≡ true → x < j
    above j m = member-All (λ y. x < y) xs j a.0.0 m

    first :
        (ss' : Sources)
        → AreAscending ss'
        → ((j : InternalId) → any_member j ss ≡ true → x ≤ j)
        → IsPop ((x ∷ xs) ∷ ss) x (xs ∷ ss)
    first ss' b h = record {
      ascending = (a.0.1, a.1);
      members = λ j. ground arith;
      shorter = omega arith;
      least = λ j m. ground (arith, m, above j, h j, ==_iff x j);
    }

    go :
        (o : Option (InternalId × Sources))
        → Popped ss o
        → Popped ((x ∷ xs) ∷ ss) (elim o [
          | none ↦ some (x, xs ∷ ss)
          | some (y, ss') ↦ if leb x y then some (x, xs ∷ ss) else some (y, (x ∷ xs) ∷ ss')
        ])
    go none h = first ss a.1 (λ j m. ground (arith, m, h.1 j))
    go (some (y, ss')) h = elim (Bool-cases (leb x y)) [
      | inl small ↦ rw small (first ss a.1 (λ j m. ground (arith, h.least j m, small)))
      | inr large ↦ rw large (record {
        ascending = (a.0, h.ascending);
        members = λ j. ground (arith, h.members j);
        shorter = omega (arith, h.shorter);
        least = λ j m. ground (arith, m, above j, h.least j, large, ==_iff x j);
      })
    ]

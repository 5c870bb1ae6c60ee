-- ===== src/Collection/Order.antt =====
-- The ids that the loop of `walk` takes from the sources.
use hamane_db.Base.{
  ℕ, zero, suc, ◌≤◌, ◌<◌, ◌≡◌, refl, ◌∙◌, ap, true, not, ◌&&◌, Option, none, some, List, [], ◌∷◌,
  All, member, nat_eq, ◌==◌, ==_iff, ==_refl, if◌then◌else◌, Bool-cases, inl, inr, arith,
}
use hamane_db.Core.Record.{InternalId}
use hamane_db.Segment.Search.{IsAscending}
use hamane_db.Collection.{pop, is_last, total}
use hamane_db.Collection.Merge.{
  Sources, any_member, AreAscending, IsPop, Popped, pop-Popped, member-All,
}

-- The ids that are not the one before.
unfoldable pub walk_ids : ℕ → Sources → Option InternalId → List InternalId
unfolding pop
walk_ids zero ss last = []
walk_ids (suc fuel) ss last = elim (pop ss) [
  | none ↦ []
  | some (id, ss') ↦
      (let rest = walk_ids fuel ss' (some id) in if is_last last id then rest else id ∷ rest)
]

-- No id that is left is below the one before.
abbrev pub IsFrom : Option InternalId → Sources → Type 0
IsFrom none ss = Unit
IsFrom (some l) ss = (j : InternalId) → any_member j ss ≡ true → l ≤ j

-- An ascending list with these members.
pub record IsWalked (ss : Sources) (last : Option InternalId) (ids : List InternalId) : Type 0 where
  pub ascending : IsAscending ids
  pub members : (j : InternalId) → member j ids ≡ (any_member j ss && not (is_last last j))

All-member :
    (P : InternalId → Type 0) (l : List InternalId)
    → ((j : InternalId) → member j l ≡ true → P j)
    → All P l
unfolding member
All-member P [] h = tt
All-member P (x ∷ l) h =
    (h x (rw (==_refl x) refl), All-member P l (λ j m. h j (ground (arith, m))))

-- An id that comes out joins those that come after it.
IsWalked-step :
    (ss rest : Sources) (last : Option InternalId) (id : InternalId) (ids : List InternalId)
    → IsPop ss id rest
    → IsFrom last ss
    → IsWalked rest (some id) ids
    → IsWalked ss last (if is_last last id then ids else id ∷ ids)
unfolding member
IsWalked-step ss rest none id ids p from w = record {
  ascending = (
    All-member (λ j. id < j) ids
        (λ j m. ground (arith, w.members j, m, p.members j, p.least j, ==_iff id j)),
    w.ascending,
  );
  members = λ j. ground (arith, w.members j, p.members j, ==_iff id j);
}
IsWalked-step ss rest (some l) id ids p from w = elim (Bool-cases (l == id)) [
  | inl same ↦ rw same (record {
    ascending = w.ascending;
    members =
        λ j. ground (arith, w.members j, p.members j, ==_iff id j, ==_iff l id, ==_iff l j, same);
  })
  | inr other ↦ rw other (record {
    ascending = (
      All-member (λ j. id < j) ids
          (λ j m. ground (arith, w.members j, m, p.members j, p.least j, ==_iff id j)),
      w.ascending,
    );
    members = λ j. ground (
      arith,
      w.members j,
      p.members j,
      p.least j,
      ==_iff id j,
      ==_iff l id,
      ==_iff l j,
      other,
      from id,
      p.members id,
      ==_refl id,
    );
  })
]

pub walk_ids-IsWalked :
    (fuel : ℕ) (ss : Sources) (last : Option InternalId)
    → AreAscending ss
    → total ss ≤ fuel
    → IsFrom last ss
    → IsWalked ss last (walk_ids fuel ss last)
unfolding walk_ids member
walk_ids-IsWalked zero ss last a h from = none_left (pop ss) (pop-Popped ss a)
  where
    none_left : (o : Option (InternalId × Sources)) → Popped ss o → IsWalked ss last []
    none_left none p = record { ascending = tt; members = λ j. ground (arith, p.1 j) }
    none_left (some (y, rest)) p = absurd (omega (arith, p.shorter))
walk_ids-IsWalked (suc fuel) ss last a h from =
    go (pop ss) (pop-Popped ss a) (λ rest id. walk_ids-IsWalked fuel rest (some id))
  where
    go :
        (o : Option (InternalId × Sources))
        → Popped ss o
        → ((rest : Sources) (id : InternalId)
            → AreAscending rest
            → total rest ≤ fuel
            → IsFrom (some id) rest
            → IsWalked rest (some id) (walk_ids fuel rest (some id)))
        → IsWalked ss last (elim o [
          | none ↦ []
          | some (id, ss') ↦
              (let rest = walk_ids fuel ss' (some id) in
                if is_last last id then rest else id ∷ rest)
        ])
    go none p ih = record { ascending = tt; members = λ j. ground (arith, p.1 j) }
    go (some (id, rest)) p ih =
        IsWalked-step ss rest last id (walk_ids fuel rest (some id)) p from (
          ih rest id p.ascending (omega (arith, p.shorter))
            (λ j m. p.least j (ground (arith, p.members j, m))))

-- Two ascending lists with the same members are one.
pub IsAscending-unique :
    (xs ys : List InternalId)
    → IsAscending xs
    → IsAscending ys
    → ((j : InternalId) → member j xs ≡ member j ys)
    → xs ≡ ys
unfolding member
IsAscending-unique [] [] a b h = refl
IsAscending-unique [] (y ∷ ys) a b h = ground (arith, h y, ==_refl y)
IsAscending-unique (x ∷ xs) [] a b h = ground (arith, h x, ==_refl x)
IsAscending-unique (x ∷ xs) (y ∷ ys) a b h =
    let same : x ≡ y = ground (
      arith,
      h x,
      h y,
      ==_refl x,
      ==_refl y,
      ==_iff x y,
      ==_iff y x,
      member-All (λ z. x < z) xs y a.0,
      member-All (λ z. y < z) ys x b.0,
    ) in
    let rest : xs ≡ ys = IsAscending-unique xs ys a.1 b.1 (λ j. ground (
      arith,
      h j,
      ==_iff x j,
      ==_iff y j,
      same,
      member-All (λ z. x < z) xs j a.0,
      member-All (λ z. y < z) ys j b.0,
    )) in
    ap (λ z. z ∷ xs) same ∙ ap (λ l. y ∷ l) rest

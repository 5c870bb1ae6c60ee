-- ===== src/Index/Flat/Heap.antt =====
-- The heap of the exact search: it keeps the first entries of a sorted list.
use hamane_db.Base.{
  ℕ, zero, suc, ◌≤◌, ◌≡◌, refl, sym, ◌∙◌, ap, subst, Bool, true, false, some, List, [], ◌∷◌, length,
  take, All, ltb, ◌==◌, if◌then◌else◌, if_either, Bool-cases, inl, inr, length-take, arith,
}
use mathlib.Core.Option.{some-injective}
use mathlib.Core.Bool.{true≢false}
use hamane_db.Core.Metric.{F32Ops}
use hamane_db.Index.Flat.{HeapEntry, less, push, peek, pop, is_nearer, offer}

-- Keys that are not NaN stand in a line: the comparisons are those of their places in it.
pub record IsLine (fo : F32Ops) (IsNumber : ℕ → Type 0) : Type 0 where
  pub place : ℕ → ℕ
  pub lt_place : (x y : ℕ) → IsNumber x → IsNumber y → fo.lt x y ≡ ltb (place x) (place y)
  pub eq_place : (x y : ℕ) → IsNumber x → IsNumber y → fo.eq x y ≡ (place x == place y)

module _ (fo : F32Ops) (IsNumber : ℕ → Type 0) (line : IsLine fo IsNumber) where
  -- The order of entries: by place, then by id.
  abbrev Follows : HeapEntry → HeapEntry → Type 0
  Follows b a = less fo b a ≡ false

  abbrev IsEntry : HeapEntry → Type 0
  IsEntry e = IsNumber e.key

  abbrev less_at : ℕ → ℕ → ℕ → ℕ → Bool
  less_at p i q j = if ltb p q then true else if ltb q p then false else ltb i j

  less-less_at :
      (a b : HeapEntry)
      → IsEntry a
      → IsEntry b
      → less fo a b ≡ less_at (line.place a.key) a.id (line.place b.key) b.id
  unfolding less
  less-less_at a b h g =
      ground (arith, line.lt_place a.key b.key h g, line.lt_place b.key a.key g h)

  is_nearer-less : (a b : HeapEntry) → IsEntry a → IsEntry b → is_nearer fo a b ≡ less fo a b
  unfolding is_nearer
  is_nearer-less a b h g =
      ground
        (arith, line.lt_place a.key b.key h g, line.eq_place a.key b.key h g, less-less_at a b h g)

  less_trans :
      (a b c : HeapEntry)
      → IsEntry a
      → IsEntry b
      → IsEntry c
      → less fo a b ≡ true
      → less fo c b ≡ false
      → less fo a c ≡ true
  less_trans a b c h g f p q =
      ground (arith, less-less_at a b h g, less-less_at c b f g, less-less_at a c h f, p, q)

  -- No entry is less than one before it.
  abbrev pub IsSorted : List HeapEntry → Type 0
  IsSorted [] = Unit
  IsSorted (x ∷ l) = All (λ y. less fo y x ≡ false) l × IsSorted l

  push-take :
      (e : HeapEntry) (k : ℕ) (l : List HeapEntry) (top : HeapEntry)
      → peek (take (suc k) l) ≡ some top
      → less fo e top ≡ true
      → take (suc k) (push fo e l) ≡ push fo e (take k l)
  unfolding push peek
  push-take e k [] top p h = cc
  push-take e zero (y ∷ l) top p h =
      let same : y ≡ top = some-injective _ _ p in
      let first : less fo e y ≡ true = ap (less fo e) same ∙ h in rw first refl
  push-take e (suc k) (y ∷ []) top p h =
      let same : y ≡ top = some-injective _ _ p in
      let first : less fo e y ≡ true = ap (less fo e) same ∙ h in rw first refl
  push-take e (suc k) (y ∷ z ∷ l) top p h =
      let ih = push-take e k (z ∷ l) top p h in
      elim (Bool-cases (less fo e y)) [
        | inl first ↦ rw first refl
        | inr later ↦ rw later (ap (λ x. y ∷ x) ih)
      ]

  peek-All :
      (P : HeapEntry → Type 0) (l : List HeapEntry) (top : HeapEntry)
      → All P l
      → peek l ≡ some top
      → P top
  unfolding peek
  peek-All P [] top a p = cc
  peek-All P (x ∷ []) top a p = subst P (some-injective _ _ p) a.0
  peek-All P (x ∷ y ∷ l) top a p = peek-All P (y ∷ l) top a.1 p

  take-All : (P : HeapEntry → Type 0) (n : ℕ) (l : List HeapEntry) → All P l → All P (take n l)
  take-All P zero l a = tt
  take-All P (suc n) [] a = tt
  take-All P (suc n) (x ∷ l) a = (a.0, take-All P n l a.1)

  less_irrefl : (a : HeapEntry) → IsEntry a → less fo a a ≡ false
  less_irrefl a h = less-less_at a a h h ∙ ground arith

  -- A full heap whose greatest entry is not greater than the new one stays.
  push-take_same :
      (e : HeapEntry) (k : ℕ) (l : List HeapEntry) (top : HeapEntry)
      → IsEntry e
      → All IsEntry l
      → IsSorted l
      → suc k ≤ length l
      → peek (take (suc k) l) ≡ some top
      → less fo e top ≡ false
      → take (suc k) (push fo e l) ≡ take (suc k) l
  unfolding push peek
  push-take_same e k [] top g a s n p h = cc
  push-take_same e zero (y ∷ l) top g a s n p h =
      let same : y ≡ top = some-injective _ _ p in
      let later : less fo e y ≡ false = ap (less fo e) same ∙ h in rw later refl
  push-take_same e (suc k) (y ∷ []) top g a s n p h = absurd (omega (arith, n))
  push-take_same e (suc k) (y ∷ z ∷ l) top g a s n p h =
      let ih = push-take_same e k (z ∷ l) top g a.1 s.1 (omega (arith, n)) p h in
      let top_entry =
        peek-All IsEntry (take (suc k) (z ∷ l)) top (take-All IsEntry (suc k) (z ∷ l) a.1) p in
      let above : less fo top y ≡ false =
        peek-All (λ x. less fo x y ≡ false) (take (suc k) (z ∷ l)) top
          (take-All (λ x. less fo x y ≡ false) (suc k) (z ∷ l) s.0) p in
      elim (Bool-cases (less fo e y)) [
        | inl first ↦ absurd (true≢false (sym (less_trans e y top g a.0 top_entry first above) ∙ h))
        | inr later ↦ rw later (ap (λ x. y ∷ x) ih)
      ]

  pop-take : (k : ℕ) (l : List HeapEntry) → suc k ≤ length l → pop (take (suc k) l) ≡ take k l
  unfolding pop
  pop-take k [] n = absurd (omega (arith, n))
  pop-take zero (x ∷ l) n = refl
  pop-take (suc k) (x ∷ []) n = absurd (omega (arith, n))
  pop-take (suc k) (x ∷ y ∷ l) n = ap (λ z. x ∷ z) (pop-take k (y ∷ l) (omega (arith, n)))

  peek-cons : (x : HeapEntry) (l : List HeapEntry) → (top : HeapEntry) × (peek (x ∷ l) ≡ some top)
  unfolding peek
  peek-cons x [] = (x, refl)
  peek-cons x (y ∷ l) = peek-cons y l

  length-push : (e : HeapEntry) (l : List HeapEntry) → length (push fo e l) ≡ suc (length l)
  unfolding push
  length-push e [] = refl
  length-push e (x ∷ l) = ground (arith, length-push e l)

  take_all : (n : ℕ) (l : List HeapEntry) → length l ≤ n → take n l ≡ l
  take_all zero [] h = refl
  take_all zero (x ∷ l) h = absurd (omega (arith, h))
  take_all (suc n) [] h = refl
  take_all (suc n) (x ∷ l) h = ap (λ z. x ∷ z) (take_all n l (omega (arith, h)))

  pub push-All :
      (P : HeapEntry → Type 0) (e : HeapEntry) (l : List HeapEntry)
      → P e
      → All P l
      → All P (push fo e l)
  unfolding push
  push-All P e [] h a = (h, tt)
  push-All P e (x ∷ l) h a = if_either (All P) (less fo e x) (h, a) (a.0, push-All P e l h a.1)

  above-All :
      (e x : HeapEntry) (l : List HeapEntry)
      → IsEntry e
      → IsEntry x
      → All IsEntry l
      → less fo e x ≡ true
      → All (λ y. less fo y x ≡ false) l
      → All (λ y. less fo y e ≡ false) l
  above-All e x [] g f a h s = tt
  above-All e x (y ∷ l) g f a h s = (
    ground (arith, less-less_at y e a.0 g, less-less_at e x g f, less-less_at y x a.0 f, h, s.0),
    above-All e x l g f a.1 h s.1,
  )

  pub push-IsSorted :
      (e : HeapEntry) (l : List HeapEntry)
      → IsEntry e
      → All IsEntry l
      → IsSorted l
      → IsSorted (push fo e l)
  unfolding push
  push-IsSorted e [] g a s = (tt, tt)
  push-IsSorted e (x ∷ l) g a s = elim (Bool-cases (less fo e x)) [
    | inl first ↦ rw first (
      (
        ground (arith, less-less_at e x g a.0, less-less_at x e a.0 g, first),
        above-All e x l g a.0 a.1 first s.0,
      ),
      s,
    )
    | inr later ↦
        rw later (push-All (λ y. less fo y x ≡ false) e l later s.0, push-IsSorted e l g a.1 s.1)
  ]

  -- A heap that keeps the first k keeps the first k with the new entry.
  pub offer-take :
      (e : HeapEntry) (k : ℕ) (l : List HeapEntry)
      → IsEntry e
      → All IsEntry l
      → IsSorted l
      → offer fo (suc k) e (take (suc k) l) ≡ take (suc k) (push fo e l)
  unfolding offer
  offer-take e k l g a s = elim (Bool-cases (ltb (length l) (suc k))) [
    | inl short ↦
        let whole : take (suc k) l ≡ l = take_all (suc k) l (ground (arith, short)) in
        let room : ltb (length (take (suc k) l)) (suc k) ≡ true =
          ap (λ x. ltb (length x) (suc k)) whole ∙ short in
        rw (offer, room)
          (ap (push fo e) whole
            ∙ sym (take_all (suc k) (push fo e l) (ground (arith, length-push e l, short))))
    | inr long ↦
        let enough : suc k ≤ length l = ground (arith, long) in
        let full : ltb (length (take (suc k) l)) (suc k) ≡ false =
          ground (arith, length-take (suc k) l, enough) in
        let (top, p) = top_of l enough in
        let g' = peek-All IsEntry (take (suc k) l) top (take-All IsEntry (suc k) l a) p in
        let test = is_nearer-less e top g g' in
        elim (Bool-cases (less fo e top)) [
          | inl near ↦
              rw (offer, full, p, test, near)
                (ap (push fo e) (pop-take k l enough) ∙ sym (push-take e k l top p near))
          | inr far ↦
              rw (offer, full, p, test, far) (sym (push-take_same e k l top g a s enough p far))
        ]
  ]
    where
      top_of :
          (xs : List HeapEntry)
          → suc k ≤ length xs
          → (top : HeapEntry) × (peek (take (suc k) xs) ≡ some top)
      top_of [] n = absurd (omega (arith, n))
      top_of (x ∷ xs) n = peek-cons x (take k xs)

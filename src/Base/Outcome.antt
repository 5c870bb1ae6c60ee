-- ===== src/Base/Outcome.antt =====
-- `HamaneError` and `Result` of crates/hamane-core/src/error.rs, and the state monad over it.
-- The message texts inside the errors are for display only and are left out.
use Prim.Native.Nat.{ℕ}
use mathlib.Core.Path.{◌≡◌, refl, ap}
use mathlib.Core.Bool.{Bool, true, false}

pub data HamaneError : Type 0 where
  dimension_mismatch : ℕ → ℕ → HamaneError
  collection_exists collection_not_found invalid_config invalid_vector : HamaneError
  corrupted locked read_only_replica io : HamaneError

pub data Result {ℓ} (T : Type ℓ) : Type ℓ where
  err : HamaneError → Result T
  ok : T → Result T

-- `if !test { return Err(e) }`
abbrev pub ensure : Bool → HamaneError → Result (Unit {0})
ensure false reason = err reason
ensure true reason = ok tt

-- The operator `?`: the first error is the result.
infixl 5 ◌>>=◌
abbrev pub ◌>>=◌ {κ ℓ} : {S : Type κ} {T : Type ℓ} → Result S → (S → Result T) → Result T
err reason >>= next = err reason
ok x >>= next = next x

infixl 5 ◌>>◌
abbrev pub ◌>>◌ {ℓ} : {T : Type ℓ} → Result (Unit {0}) → Result T → Result T
check >> rest = check >>= λ _. rest

-- Where a chain succeeds, its first step does, and the rest from there.
pub >>=-eq-ok {κ ℓ} :
    {S : Type κ} {T : Type ℓ} (step : Result S) (next : S → Result T) {y : T}
    → (step >>= next) ≡ ok y
    → (x : S) × (step ≡ ok x) × (next x ≡ ok y)
>>=-eq-ok (err reason) next done = cc
>>=-eq-ok (ok x) next done = (x, refl, done)

abbrev from_ok {ℓ} : {A : Type ℓ} → A → Result A → A
from_ok d (ok a) = a
from_ok d (err e) = d

pub ok-injective {ℓ} : {A : Type ℓ} {a b : A} → ok a ≡ ok b → a ≡ b
ok-injective {a = a} h = ap (from_ok a) h

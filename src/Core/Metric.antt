-- ===== src/Core/Metric.antt =====
-- `Metric` of crates/hamane-core/src/metric.rs: the keys that compare distances, and the scores of
-- hits. The operations on f32 are a parameter; with them are the kernels `l2_squared` and `dot`,
-- which the processor's instructions decide.
use hamane_db.Base.{ℕ, Bool, true, false, List}
use hamane_db.Core.Record.{Metric, l2, cosine, dot}

pub record F32Ops : Type 0 where
  pub l2_squared : List ℕ → List ℕ → ℕ
  pub dot_product : List ℕ → List ℕ → ℕ
  pub negate : ℕ → ℕ
  pub sqrt : ℕ → ℕ
  pub times : ℕ → ℕ → ℕ
  pub lt : ℕ → ℕ → Bool
  pub eq : ℕ → ℕ → Bool

module _ (fo : F32Ops) where
  -- Smaller is nearer, for every metric.
  unfoldable pub distance_key : Metric → List ℕ → List ℕ → ℕ
  distance_key l2 a b = fo.l2_squared a b
  distance_key cosine a b = fo.negate (fo.dot_product a b)
  distance_key dot a b = fo.negate (fo.dot_product a b)

  unfoldable pub score_from_key : Metric → ℕ → ℕ
  score_from_key l2 key = fo.sqrt key
  score_from_key cosine key = fo.negate key
  score_from_key dot key = fo.negate key

  unfoldable pub key_from_score : Metric → ℕ → ℕ
  key_from_score l2 score = fo.times score score
  key_from_score cosine score = fo.negate score
  key_from_score dot score = fo.negate score

unfoldable pub requires_normalization : Metric → Bool
requires_normalization l2 = false
requires_normalization cosine = true
requires_normalization dot = false

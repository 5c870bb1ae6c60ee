-- ===== src/Core/Record.antt =====
-- crates/hamane-core/src/record.rs and the `Metric` type of metric.rs.
-- A Rust `String` is the list of its UTF-8 bytes. An `i64` is its two's complement bit pattern, an
-- `f64` and an `f32` their IEEE 754 bit patterns: numbers below 2 ^ 64 and 2 ^ 32.
use hamane_db.Base.{ℕ, ◌^◌, Bool, List, [], ◌∷◌, compare, Ordering, Map}

abbrev pub Text : Type 0
Text = List ℕ

abbrev pub InternalId : Type 0
InternalId = ℕ

-- 1 << 63
abbrev pub ext_id_base : InternalId
ext_id_base = 2 ^ 63

-- "_ext_id"
abbrev pub ext_id_meta_key : Text
ext_id_meta_key = b'_' ∷ b'e' ∷ b'x' ∷ b't' ∷ b'_' ∷ b'i' ∷ b'd' ∷ []

pub data RecordId : Type 0 where
  num : InternalId → RecordId
  str : Text → RecordId

pub data MetaValue : Type 0 where
  str : Text → MetaValue
  int : ℕ → MetaValue
  float : ℕ → MetaValue
  bool : Bool → MetaValue

pub data Metric : Type 0 where
  l2 cosine dot : Metric

-- `Ord` of byte strings: the first difference decides.
unfoldable pub compare_bytes : Text → Text → Ordering
compare_bytes [] [] = Ordering.eq
compare_bytes [] (y ∷ ys) = Ordering.lt
compare_bytes (x ∷ xs) [] = Ordering.gt
compare_bytes (x ∷ xs) (y ∷ ys) = elim (compare x y) [
  | Ordering.lt ↦ Ordering.lt
  | Ordering.eq ↦ compare_bytes xs ys
  | Ordering.gt ↦ Ordering.gt
]

-- `BTreeMap<String, MetaValue>`: the entries in ascending order of their keys.
abbrev pub Metadata : Type 0
Metadata = Map Text MetaValue

-- `BTreeMap::insert`
unfoldable pub insert_meta : Text → MetaValue → Metadata → Metadata
insert_meta k v [] = (k, v) ∷ []
insert_meta k v ((j, w) ∷ m) = elim (compare_bytes k j) [
  | Ordering.lt ↦ (k, v) ∷ (j, w) ∷ m
  | Ordering.eq ↦ (k, v) ∷ m
  | Ordering.gt ↦ (j, w) ∷ insert_meta k v m
]

-- `Record`: the vector is a list of `f32` bit patterns.
pub record Record : Type 0 where
  pub id : RecordId
  pub vector : List ℕ
  pub metadata : Metadata

-- ===== src/Memtable.antt =====
-- crates/hamane-storage/src/memtable.rs: the write buffer.
pub mod Laws
use hamane_db.Base.{
  ℕ, ◌+◌, ◌-◌, ◌*◌, Bool, true, false, ◌&&◌, Option, none, some, List, [], ◌∷◌, map, length, Map,
  lookup, insert, remove, member, add, discard, nat_eq,
}
use hamane_db.Core.Record.{InternalId, MetaValue, Metadata}

pub record StoredRecord : Type 0 where
  pub vector : List ℕ
  pub metadata : Metadata

unfoldable pub value_size : MetaValue → ℕ
value_size (MetaValue.str s) = length s
value_size (MetaValue.int i) = 8
value_size (MetaValue.float f) = 8
value_size (MetaValue.bool b) = 8

unfoldable pub metadata_size : Metadata → ℕ
metadata_size [] = 0
metadata_size ((k, v) ∷ m) = length k + value_size v + metadata_size m

-- `StoredRecord::approx_bytes`
unfoldable pub record_size : StoredRecord → ℕ
record_size rec = length rec.vector * 4 + metadata_size rec.metadata

pub record Memtable : Type 0 where
  pub upserts : Map InternalId StoredRecord
  pub deletes : List InternalId
  pub bytes : ℕ

abbrev pub empty : Memtable
empty = record { upserts = []; deletes = []; bytes = 0 }

-- The bytes of a record that is replaced or removed.
unfoldable pub old_size : Option StoredRecord → ℕ
old_size none = 0
old_size (some old) = record_size old

unfoldable pub upsert : InternalId → StoredRecord → Memtable → Memtable
upsert id rec mt = record {
  upserts = insert id rec mt.upserts;
  deletes = discard id mt.deletes;
  bytes = mt.bytes + record_size rec - old_size (lookup id mt.upserts);
}

unfoldable pub delete : InternalId → Memtable → Memtable
delete id mt = record {
  upserts = remove id mt.upserts;
  deletes = add id mt.deletes;
  bytes = mt.bytes - old_size (lookup id mt.upserts);
}

unfoldable pub get : Memtable → InternalId → Option StoredRecord
get mt id = lookup id mt.upserts

unfoldable pub is_deleted : Memtable → InternalId → Bool
is_deleted mt id = member id mt.deletes

unfoldable pub len : Memtable → ℕ
len mt = length mt.upserts

abbrev pub is_nil {ℓ} : {A : Type ℓ} → List A → Bool
is_nil [] = true
is_nil (x ∷ xs) = false

unfoldable pub is_empty : Memtable → Bool
is_empty mt = is_nil mt.upserts && is_nil mt.deletes

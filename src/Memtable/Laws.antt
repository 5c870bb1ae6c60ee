-- ===== src/Memtable/Laws.antt =====
-- What a memtable answers after a write, and its byte count.
use hamane_db.Base.{
  ℕ, ◌+◌, ◌≡◌, refl, true, Option, none, some, List, [], ◌∷◌, Map, lookup, insert, remove, member,
  lookup-insert, lookup-remove, member-add, member-discard, IsUnique, IsDistinct, add-IsDistinct,
  discard-IsDistinct, insert-IsUnique, remove-IsUnique, remove_absent, ◌==◌, ==_iff, if◌then◌else◌,
  nat_eq, arith,
}
use hamane_db.Core.Record.{InternalId}
use hamane_db.Memtable.{
  StoredRecord, Memtable, empty, record_size, old_size, upsert, delete, get, is_deleted, is_nil,
  is_empty,
}

abbrev pub total_size : Map InternalId StoredRecord → ℕ
total_size [] = 0
total_size ((id, rec) ∷ m) = record_size rec + total_size m

-- No id is both written and deleted, and `bytes` is the size of what is held.
pub record IsValid (mt : Memtable) : Type 0 where
  pub unique : IsUnique mt.upserts
  pub distinct : IsDistinct mt.deletes
  pub disjoint : (id : InternalId) → member id mt.deletes ≡ true → lookup id mt.upserts ≡ none
  pub accounted : mt.bytes ≡ total_size mt.upserts

pub empty-IsValid : IsValid empty
unfolding member lookup
empty-IsValid = record { unique = tt; distinct = tt; disjoint = λ id h. refl; accounted = refl }

total_size-insert :
    (id : InternalId) (rec : StoredRecord) (m : Map InternalId StoredRecord)
    → total_size (insert id rec m) + old_size (lookup id m) ≡ total_size m + record_size rec
unfolding insert lookup old_size
total_size-insert id rec [] = omega arith
total_size-insert id rec ((j, w) ∷ m) = ground (arith, total_size-insert id rec m)

total_size-remove :
    (id : InternalId) (m : Map InternalId StoredRecord)
    → IsUnique m
    → total_size (remove id m) + old_size (lookup id m) ≡ total_size m
unfolding remove lookup old_size
total_size-remove id [] u = omega arith
total_size-remove id ((j, w) ∷ m) u =
    ground (arith, total_size-remove id m, remove_absent id m, ==_iff j id)

-- An upsert keeps a memtable valid: each id is held or marked as deleted once and not both, and
-- `bytes` is the size of the records that are held.
pub upsert-IsValid :
    (id : InternalId) (rec : StoredRecord) (mt : Memtable) → IsValid mt → IsValid (upsert id rec mt)
unfolding upsert
upsert-IsValid id rec mt v = record {
  unique = insert-IsUnique id rec mt.upserts v.unique;
  distinct = discard-IsDistinct id mt.deletes v.distinct;
  disjoint = λ j h.
      rw lookup-insert
        (ground (arith, member-discard id j mt.deletes, v.disjoint j, ==_iff id j, h));
  accounted = omega (arith, v.accounted, total_size-insert id rec mt.upserts);
}

-- A delete keeps a memtable valid: each id is held or marked as deleted once and not both, and
-- `bytes` is the size of the records that are held.
pub delete-IsValid : (id : InternalId) (mt : Memtable) → IsValid mt → IsValid (delete id mt)
unfolding delete
delete-IsValid id mt v = record {
  unique = remove-IsUnique id mt.upserts v.unique;
  distinct = add-IsDistinct id mt.deletes v.distinct;
  disjoint = λ j h.
      rw lookup-remove (ground (arith, member-add id j mt.deletes, v.disjoint j, ==_iff id j, h));
  accounted = omega (arith, v.accounted, total_size-remove id mt.upserts v.unique);
}

-- What the memtable says of an id: nothing, that it is gone, or its record.
pub data Verdict : Type 0 where
  unknown gone : Verdict
  present : StoredRecord → Verdict

abbrev pub found : Option StoredRecord → Verdict
found none = unknown
found (some rec) = present rec

unfoldable pub mt_verdict : Memtable → InternalId → Verdict
mt_verdict mt id = if is_deleted mt id then gone else found (get mt id)

-- After an upsert the id has the record and every other id is as before.
pub mt_verdict-upsert :
    (id j : InternalId) (rec : StoredRecord) (mt : Memtable)
    → mt_verdict (upsert id rec mt) j ≡ (if id == j then present rec else mt_verdict mt j)
unfolding mt_verdict is_deleted get upsert
mt_verdict-upsert id j rec mt =
    ground (arith, member-discard id j mt.deletes, lookup-insert id j rec mt.upserts)

-- After a delete the id is gone and every other id is as before.
pub mt_verdict-delete :
    (id j : InternalId) (mt : Memtable)
    → mt_verdict (delete id mt) j ≡ (if id == j then gone else mt_verdict mt j)
unfolding mt_verdict is_deleted get delete
mt_verdict-delete id j mt =
    ground (arith, member-add id j mt.deletes, lookup-remove id j mt.upserts)

is_nil-eq : {A : Type 0} (l : List A) → is_nil l ≡ true → l ≡ []
is_nil-eq [] h = refl
is_nil-eq (x ∷ l) h = cc

-- An empty memtable knows no id.
pub mt_verdict-is_empty :
    (mt : Memtable) (id : InternalId) → is_empty mt ≡ true → mt_verdict mt id ≡ unknown
unfolding mt_verdict is_deleted get is_empty member lookup
mt_verdict-is_empty mt id h =
    let none_written : mt.upserts ≡ [] = is_nil-eq mt.upserts (ground (arith, h)) in
    let none_deleted : mt.deletes ≡ [] = is_nil-eq mt.deletes (ground (arith, h)) in
    rw (none_written, none_deleted) refl

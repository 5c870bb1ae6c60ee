-- ===== src/Store/Compact/Merge.antt =====
-- What the merge of a run collects.
use hamane_db.Base.{
  ◌≡◌, refl, ◌∙◌, Bool, true, false, not, ◌&&◌, ◌||◌, Option, none, some, List, [], ◌∷◌, map, Map,
  lookup, insert, remove, member, add, member-add, nat_eq, is_some, if◌then◌else◌, Bool-cases, inl,
  inr, All, ◌==◌, ==_iff, arith,
}
use hamane_db.Base.Outcome.{ok}
use hamane_db.Core.Record.{InternalId}
use hamane_db.Format.Meta.RoundTrip.{IsMetadata}
use hamane_db.Memtable
use hamane_db.Memtable.{StoredRecord, Memtable, get, is_deleted}
use hamane_db.Memtable.Laws.{
  IsValid, Verdict, unknown, gone, present, found, mt_verdict, mt_verdict-upsert, mt_verdict-delete,
  upsert-IsValid, delete-IsValid,
}
use hamane_db.Segment.{to_row}
use hamane_db.Segment.Written.{row_metadata-to_row, IsWritable}
use hamane_db.Store.Compact.{MergeState, merge_row, merge_rows, add_tombstones, hand_on}

-- A row whose metadata decodes.
unfoldable pub merge_stored : InternalId × StoredRecord → MergeState → MergeState
merge_stored (id, rec) m =
    if not (member id m.seen) && not (member id m.deleted)
    then record m { merged = Memtable.upsert id rec m.merged; seen = add id m.seen }
    else record m { seen = add id m.seen }

unfoldable pub merge_all : Map InternalId StoredRecord → MergeState → MergeState
merge_all [] m = m
merge_all (r ∷ rows) m = merge_all rows (merge_stored r m)

abbrev pub AllMetadata : Map InternalId StoredRecord → Type 0
AllMetadata = All (λ (r : InternalId × StoredRecord). IsMetadata r.1.metadata)

merge_row-to_row :
    (id : InternalId) (rec : StoredRecord) (m : MergeState)
    → IsMetadata rec.metadata
    → merge_row (to_row (id, rec)) m ≡ ok (merge_stored (id, rec) m)
unfolding merge_row merge_stored to_row
merge_row-to_row id rec m h =
    elim (Bool-cases (not (member id m.seen) && not (member id m.deleted))) [
      | inl new ↦ rw (new, row_metadata-to_row id rec h) refl
      | inr old ↦ rw old refl
    ]

pub merge_rows-to_row :
    (rows : Map InternalId StoredRecord) (m : MergeState)
    → AllMetadata rows
    → merge_rows (map to_row rows) m ≡ ok (merge_all rows m)
unfolding merge_rows merge_all
merge_rows-to_row [] m h = refl
merge_rows-to_row ((id, rec) ∷ rows) m h =
    rw (merge_row-to_row id rec m h.0) (merge_rows-to_row rows (merge_stored (id, rec) m) h.1)

abbrev known : Bool → Bool → Bool
known seen deleted = seen || deleted

-- A row counts where its id is new.
abbrev row_verdict : Bool → Option StoredRecord → Verdict → Verdict
row_verdict true o v = v
row_verdict false none v = v
row_verdict false (some rec) v = present rec

merge_stored-deleted :
    (r : InternalId × StoredRecord) (m : MergeState) → (merge_stored r m).deleted ≡ m.deleted
unfolding merge_stored
merge_stored-deleted (id, rec) m = ground arith

merge_stored-seen :
    (id j : InternalId) (rec : StoredRecord) (m : MergeState)
    → member j (merge_stored (id, rec) m).seen ≡ (if id == j then true else member j m.seen)
unfolding merge_stored
merge_stored-seen id j rec m = ground (arith, member-add id j m.seen)

merge_stored-verdict :
    (id j : InternalId) (rec : StoredRecord) (m : MergeState)
    → mt_verdict (merge_stored (id, rec) m).merged j ≡ (
        if id == j
        then row_verdict
            (known (member j m.seen) (member j m.deleted))
            (some rec)
            (mt_verdict m.merged j)
        else mt_verdict m.merged j)
unfolding merge_stored
merge_stored-verdict id j rec m = ground (arith, mt_verdict-upsert id j rec m.merged, ==_iff id j)

pub merge_all-deleted :
    (rows : Map InternalId StoredRecord) (m : MergeState) → (merge_all rows m).deleted ≡ m.deleted
unfolding merge_all
merge_all-deleted [] m = refl
merge_all-deleted (r ∷ rows) m =
    merge_all-deleted rows (merge_stored r m) ∙ merge_stored-deleted r m

pub merge_all-seen :
    (rows : Map InternalId StoredRecord) (m : MergeState) (j : InternalId)
    → member j (merge_all rows m).seen ≡ (member j m.seen || is_some (lookup j rows))
unfolding merge_all lookup
merge_all-seen [] m j = ground arith
merge_all-seen ((id, rec) ∷ rows) m j =
    ground (arith, merge_all-seen rows (merge_stored (id, rec) m) j, merge_stored-seen id j rec m)

pub merge_all-verdict :
    (rows : Map InternalId StoredRecord) (m : MergeState) (j : InternalId)
    → mt_verdict (merge_all rows m).merged j
      ≡ row_verdict
          (known (member j m.seen) (member j m.deleted))
          (lookup j rows)
          (mt_verdict m.merged j)
unfolding merge_all lookup
merge_all-verdict [] m j = ground arith
merge_all-verdict ((id, rec) ∷ rows) m j =
    merge_all-verdict rows (merge_stored (id, rec) m) j
    ∙ rw
        (
          merge_stored-seen id j rec m,
          merge_stored-deleted (id, rec) m,
          merge_stored-verdict id j rec m,
        )
        (ground arith)

merge_stored-IsValid :
    (r : InternalId × StoredRecord) (m : MergeState)
    → IsValid m.merged
    → IsValid (merge_stored r m).merged
unfolding merge_stored
merge_stored-IsValid (id, rec) m v =
    elim (Bool-cases (not (member id m.seen) && not (member id m.deleted))) [
      | inl new ↦ rw new (upsert-IsValid id rec m.merged v)
      | inr old ↦ rw old v
    ]

pub merge_all-IsValid :
    (rows : Map InternalId StoredRecord) (m : MergeState)
    → IsValid m.merged
    → IsValid (merge_all rows m).merged
unfolding merge_all
merge_all-IsValid [] m v = v
merge_all-IsValid (r ∷ rows) m v =
    merge_all-IsValid rows (merge_stored r m) (merge_stored-IsValid r m v)

insert-All :
    (id : InternalId) (rec : StoredRecord) (rows : Map InternalId StoredRecord)
    → IsMetadata rec.metadata
    → AllMetadata rows
    → AllMetadata (insert id rec rows)
unfolding insert
insert-All id rec [] h a = (h, tt)
insert-All id rec ((j, w) ∷ rows) h a = elim (Bool-cases (j == id)) [
  | inl same ↦ rw same (h, a.1)
  | inr other ↦ rw other (a.0, insert-All id rec rows h a.1)
]

remove-All :
    (id : InternalId) (rows : Map InternalId StoredRecord)
    → AllMetadata rows
    → AllMetadata (remove id rows)
unfolding remove
remove-All id [] a = tt
remove-All id ((j, w) ∷ rows) a = elim (Bool-cases (j == id)) [
  | inl same ↦ rw same (remove-All id rows a.1)
  | inr other ↦ rw other (a.0, remove-All id rows a.1)
]

pub delete-IsWritable :
    (id : InternalId) (mt : Memtable) → IsWritable mt → IsWritable (Memtable.delete id mt)
delete-IsWritable id mt w = unfold Memtable.delete in remove-All id mt.upserts w

merge_stored-IsWritable :
    (r : InternalId × StoredRecord) (m : MergeState)
    → IsMetadata r.1.metadata
    → IsWritable m.merged
    → IsWritable (merge_stored r m).merged
unfolding merge_stored
merge_stored-IsWritable (id, rec) m h w =
    elim (Bool-cases (not (member id m.seen) && not (member id m.deleted))) [
      | inl new ↦ rw new (unfold Memtable.upsert in insert-All id rec m.merged.upserts h w)
      | inr old ↦ rw old w
    ]

pub merge_all-IsWritable :
    (rows : Map InternalId StoredRecord) (m : MergeState)
    → AllMetadata rows
    → IsWritable m.merged
    → IsWritable (merge_all rows m).merged
unfolding merge_all
merge_all-IsWritable [] m a w = w
merge_all-IsWritable (r ∷ rows) m a w =
    merge_all-IsWritable rows (merge_stored r m) a.1 (merge_stored-IsWritable r m a.0 w)

pub member-add_tombstones :
    (ids deleted : List InternalId) (j : InternalId)
    → member j (add_tombstones ids deleted) ≡ (member j ids || member j deleted)
unfolding add_tombstones member
member-add_tombstones [] deleted j = refl
member-add_tombstones (id ∷ ids) deleted j =
    ground (arith, member-add_tombstones ids (add id deleted) j, member-add id j deleted)

-- A tombstone that is handed on decides only what nothing else does.
abbrev pub handed : Bool → Verdict → Verdict
handed true unknown = gone
handed b v = v

get-mt_verdict :
    (mt : Memtable) (id : InternalId)
    → IsValid mt
    → found (get mt id) ≡ elim (mt_verdict mt id) [ present rec ↦ present rec | _ ↦ unknown ]
unfolding mt_verdict get is_deleted
get-mt_verdict mt id v = ground (arith, v.disjoint id)

pub hand_on-IsValid :
    (ids : List InternalId) (mt : Memtable) → IsValid mt → IsValid (hand_on ids mt)
unfolding hand_on
hand_on-IsValid [] mt v = v
hand_on-IsValid (id ∷ ids) mt v = elim (Bool-cases (is_some (Memtable.get mt id))) [
  | inl there ↦ rw there (hand_on-IsValid ids mt v)
  | inr missing ↦ rw missing (hand_on-IsValid ids (Memtable.delete id mt) (delete-IsValid id mt v))
]

pub hand_on-verdict :
    (ids : List InternalId) (mt : Memtable) (j : InternalId)
    → IsValid mt
    → mt_verdict (hand_on ids mt) j ≡ handed (member j ids) (mt_verdict mt j)
unfolding hand_on member
hand_on-verdict [] mt j v = ground arith
hand_on-verdict (id ∷ ids) mt j v = elim (Bool-cases (is_some (Memtable.get mt id))) [
  | inl there ↦
      rw there
        (hand_on-verdict ids mt j v ∙ ground (arith, get-mt_verdict mt id v, there, ==_iff id j))
  | inr missing ↦ rw missing (
      hand_on-verdict ids (Memtable.delete id mt) j (delete-IsValid id mt v)
      ∙ rw (mt_verdict-delete id j mt)
          (ground (arith, get-mt_verdict mt id v, missing, ==_iff id j)))
]

pub hand_on-IsWritable :
    (ids : List InternalId) (mt : Memtable) → IsWritable mt → IsWritable (hand_on ids mt)
unfolding hand_on
hand_on-IsWritable [] mt w = w
hand_on-IsWritable (id ∷ ids) mt w = elim (Bool-cases (is_some (Memtable.get mt id))) [
  | inl there ↦ rw (hand_on, there) (hand_on-IsWritable ids mt w)
  | inr missing ↦
      rw (hand_on, missing)
        (hand_on-IsWritable ids (Memtable.delete id mt) (delete-IsWritable id mt w))
]

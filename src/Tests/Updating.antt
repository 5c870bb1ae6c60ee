-- ===== src/Tests/Updating.antt =====
-- An update of the metadata of one record at a concrete store.
use hamane_db.Base.{ℕ, ◌≡◌, refl, some, [], ◌∷◌, lookup, member, eq_bytes, nat_eq, bytes_eq}
use hamane_db.Base.Outcome.{ok}
use hamane_db.Core.Record.{InternalId, RecordId, MetaValue, Metadata, Text}
use hamane_db.Memtable
use hamane_db.Store.State.{current_record, current_in}
use hamane_db.Store.Apply.Live.{override}
use hamane_db.Store.Maintain.{World}
use hamane_db.Collection.Api.Patch.{patched_value}
use hamane_db.Collection.Api.{touches_ext_id, run_update_one}
use hamane_db.Collection.Api.Update.{run_update_one-current_record}
use hamane_db.Tests.Codec.{docs}
use hamane_db.Tests.Stores.{
  rec_b, a_shared, a_shared-IsQuiet, a_world, a_collection, a_state, a_state-IsUnique,
}

abbrev a_patch : Metadata
a_patch = (docs, MetaValue.int 7) ∷ []

run_update_one-current_record_example :
    (metadata : Metadata) × ((key : Text)
      → lookup key metadata ≡ patched_value a_patch (docs ∷ []) rec_b.metadata key)
    × (w' : World) × (run_update_one a_shared 0 (RecordId.num 2) a_patch (docs ∷ []) a_world
        ≡ ok (1, w'))
    × ((k : ℕ) (j : InternalId)
        → current_record w'.state k j
          ≡ override 0 2
              (some (record { vector = rec_b.vector; metadata = metadata }))
              (current_record a_state)
              k
              j)
run_update_one-current_record_example =
    run_update_one-current_record a_shared 0 2 a_patch (docs ∷ []) a_world a_collection rec_b refl
      (unfold lookup in refl) a_state-IsUnique a_shared-IsQuiet
      (unfold touches_ext_id lookup eq_bytes in refl) refl
      (unfold current_record current_in lookup Memtable.get Memtable.is_deleted member in refl)
      (unfold lookup in (refl, tt)) tt

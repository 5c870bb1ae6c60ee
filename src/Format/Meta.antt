-- ===== src/Format/Meta.antt =====
-- Metrics, metadata values and metadata on disk, of format.rs.
pub mod RoundTrip
use hamane_db.Base.{
  ℕ, zero, suc, ◌%◌, ◌^◌, Bool, true, false, List, [], ◌∷◌, ◌==◌, if◌then◌else◌, length,
}
use hamane_db.Base.Outcome
use hamane_db.Base.Outcome.{Result, ok, err, corrupted}
use hamane_db.Core.Record.{Text, MetaValue, Metric, l2, cosine, dot, Metadata, insert_meta}
use hamane_db.Format.Reader.{
  Reader, Read, ◌>>=◌, pure, fail, read_u8, read_u32, read_u64, read_string, put_u8, put_u32,
  put_u64, put_string,
}

unfoldable pub metric_to_u8 : Metric → ℕ
metric_to_u8 l2 = 0
metric_to_u8 cosine = 1
metric_to_u8 dot = 2

unfoldable pub metric_from_u8 : ℕ → Result Metric
metric_from_u8 v =
    if v == 0 then ok l2 else if v == 1 then ok cosine else if v == 2 then ok dot else err corrupted

abbrev meta_tag_str : ℕ
meta_tag_str = 0

abbrev meta_tag_int : ℕ
meta_tag_int = 1

abbrev meta_tag_float : ℕ
meta_tag_float = 2

abbrev meta_tag_bool : ℕ
meta_tag_bool = 3

-- `*b as u8`
unfoldable pub bool_to_u8 : Bool → ℕ
bool_to_u8 false = 0
bool_to_u8 true = 1

unfoldable pub put_meta_value : List ℕ → MetaValue → List ℕ
put_meta_value out (MetaValue.str s) = put_string (put_u8 out meta_tag_str) s
put_meta_value out (MetaValue.int i) = put_u64 (put_u8 out meta_tag_int) i
put_meta_value out (MetaValue.float f) = put_u64 (put_u8 out meta_tag_float) f
put_meta_value out (MetaValue.bool b) = put_u8 (put_u8 out meta_tag_bool) (bool_to_u8 b)

unfoldable pub read_bool : ℕ → Read MetaValue
read_bool v =
    if v == 0
    then pure (MetaValue.bool false)
    else if v == 1
    then pure (MetaValue.bool true)
    else fail

-- The rest of a value, after its tag.
unfoldable pub read_tagged : ℕ → Read MetaValue
read_tagged tag =
    if tag == meta_tag_str
    then (do s ← read_string; pure (MetaValue.str s))
    else if tag == meta_tag_int
    then (do i ← read_u64; pure (MetaValue.int i))
    else if tag == meta_tag_float
    then (do f ← read_u64; pure (MetaValue.float f))
    else if tag == meta_tag_bool
    then (do v ← read_u8; read_bool v)
    else fail

unfoldable pub read_meta_value : Read MetaValue
read_meta_value = do tag ← read_u8; read_tagged tag

unfoldable pub put_entries : List ℕ → Metadata → List ℕ
put_entries out [] = out
put_entries out ((key, value) ∷ m) = put_entries (put_meta_value (put_string out key) value) m

unfoldable pub put_metadata : List ℕ → Metadata → List ℕ
put_metadata out meta = put_entries (put_u32 out (length meta % 2 ^ 32)) meta

-- `for _ in 0..count`, with the map built so far.
unfoldable pub read_entries : ℕ → Metadata → Read Metadata
read_entries zero meta = pure meta
read_entries (suc n) meta = do
  key ← read_string
  value ← read_meta_value
  read_entries n (insert_meta key value meta)

unfoldable pub read_metadata : Read Metadata
read_metadata = do count ← read_u32; read_entries count []

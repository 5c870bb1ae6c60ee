-- ===== src/Format/Meta/RoundTrip.antt =====
-- Metadata is read back as it was written.
use hamane_db.Base.{
  ℕ, ◌%◌, ◌^◌, ◌<◌, ◌≡◌, refl, sym, ◌∙◌, ap, subst, Bool, true, false, List, [], ◌∷◌, ◌++◌,
  append_assoc, append-nil, Ordering, length, All, All-append, le_bytes, arith,
}
use hamane_db.Base.Outcome.{ok}
use hamane_db.Core.Record.{
  Text, MetaValue, Metric, l2, cosine, dot, Metadata, insert_meta, compare_bytes,
}
use hamane_db.Format.Reader.{
  Reader, reader, is_empty, ◌>>=◌, read_string, read_word, put_u8, put_u32, put_string,
}
use hamane_db.Format.Reader.Reads.{
  At, At-reader, is_empty-At, Reads, Reads-pure, Reads-bind, Reads-map, Reads-cast, Reads-value,
  Reads-word, Reads-u8, Reads-string, IsText, text_bytes, put_u8-append, put_u32-append,
  put_u64-append, put_string-append,
}
use hamane_db.Format.Meta.{
  metric_to_u8, metric_from_u8, bool_to_u8, put_meta_value, read_bool, read_tagged, read_meta_value,
  put_entries, put_metadata, read_entries, read_metadata,
}

-- A metric is read back from its tag.
pub metric_from_u8-metric_to_u8 : (m : Metric) → metric_from_u8 (metric_to_u8 m) ≡ ok m
unfolding metric_from_u8 metric_to_u8
metric_from_u8-metric_to_u8 l2 = refl
metric_from_u8-metric_to_u8 cosine = refl
metric_from_u8-metric_to_u8 dot = refl

-- The values that the Rust type holds.
abbrev pub IsMetaValue : MetaValue → Type 0
IsMetaValue (MetaValue.str s) = IsText s
IsMetaValue (MetaValue.int i) = i < 2 ^ 64
IsMetaValue (MetaValue.float f) = f < 2 ^ 64
IsMetaValue (MetaValue.bool b) = Unit

abbrev pub value_bytes : MetaValue → List ℕ
value_bytes (MetaValue.str s) = 0 ∷ text_bytes s
value_bytes (MetaValue.int i) = 1 ∷ le_bytes 8 i
value_bytes (MetaValue.float f) = 2 ∷ le_bytes 8 f
value_bytes (MetaValue.bool b) = 3 ∷ bool_to_u8 b ∷ []

put_meta_value-append :
    (out : List ℕ) (v : MetaValue) → IsMetaValue v → put_meta_value out v ≡ out ++ value_bytes v
unfolding put_meta_value
put_meta_value-append out (MetaValue.str s) h =
    put_string-append (put_u8 out 0) s h
    ∙ ap (λ l. l ++ text_bytes s) (put_u8-append out 0)
    ∙ append_assoc out (0 ∷ []) (text_bytes s)
put_meta_value-append out (MetaValue.int i) h = simp (put_u64-append, put_u8-append, append_assoc)
put_meta_value-append out (MetaValue.float f) h = simp (put_u64-append, put_u8-append, append_assoc)
put_meta_value-append out (MetaValue.bool b) h = simp (put_u8-append, append_assoc)

Reads-bool :
    (b : Bool) → Reads (do v ← read_word 1; read_bool v) (bool_to_u8 b ∷ []) (MetaValue.bool b)
unfolding read_bool bool_to_u8
Reads-bool false =
    Reads-bind (read_word 1) _ (Reads-u8 0 (omega arith)) (Reads-pure (MetaValue.bool false))
Reads-bool true =
    Reads-bind (read_word 1) _ (Reads-u8 1 (omega arith)) (Reads-pure (MetaValue.bool true))

pub Reads-meta_value : (v : MetaValue) → IsMetaValue v → Reads read_meta_value (value_bytes v) v
unfolding read_meta_value read_tagged
Reads-meta_value (MetaValue.str s) h =
    Reads-bind (read_word 1) _ (Reads-u8 0 (omega arith))
      (Reads-map read_string MetaValue.str _ (Reads-string s h))
Reads-meta_value (MetaValue.int i) h =
    Reads-bind (read_word 1) _ (Reads-u8 1 (omega arith))
      (Reads-map (read_word 8) MetaValue.int _ (Reads-word 8 i (omega arith)))
Reads-meta_value (MetaValue.float f) h =
    Reads-bind (read_word 1) _ (Reads-u8 2 (omega arith))
      (Reads-map (read_word 8) MetaValue.float _ (Reads-word 8 f (omega arith)))
Reads-meta_value (MetaValue.bool b) h =
    Reads-bind (read_word 1) _ (Reads-u8 3 (omega arith)) (Reads-bool b)

-- Every key of `m` comes after `k`.
abbrev pub IsAbove : Text → Metadata → Type 0
IsAbove k = All (λ e. compare_bytes e.0 k ≡ Ordering.gt)

-- Keys in ascending order, as a `BTreeMap` iterates.
abbrev pub IsSorted : Metadata → Type 0
IsSorted [] = Unit
IsSorted ((k, v) ∷ m) = IsAbove k m × IsSorted m

abbrev pub IsEntry : Text × MetaValue → Type 0
IsEntry e = IsText e.0 × IsMetaValue e.1

-- Metadata that the Rust type holds, with fewer than 2 ^ 32 entries.
pub record IsMetadata (m : Metadata) : Type 0 where
  pub sorted : IsSorted m
  pub entries : All IsEntry m
  pub short : length m < 2 ^ 32

abbrev pub entries_bytes : Metadata → List ℕ
entries_bytes [] = []
entries_bytes ((k, v) ∷ m) = (text_bytes k ++ value_bytes v) ++ entries_bytes m

abbrev pub metadata_bytes : Metadata → List ℕ
metadata_bytes m = le_bytes 4 (length m) ++ entries_bytes m

put_entry-append :
    (out : List ℕ) (k : Text) (v : MetaValue)
    → IsEntry (k, v)
    → put_meta_value (put_string out k) v ≡ out ++ (text_bytes k ++ value_bytes v)
put_entry-append out k v h =
    put_meta_value-append (put_string out k) v h.1
    ∙ ap (λ l. l ++ value_bytes v) (put_string-append out k h.0)
    ∙ append_assoc out (text_bytes k) (value_bytes v)

put_entries-append :
    (out : List ℕ) (m : Metadata) → All IsEntry m → put_entries out m ≡ out ++ entries_bytes m
unfolding put_entries
put_entries-append out [] h = sym (append-nil out)
put_entries-append out ((k, v) ∷ m) h =
    put_entries-append (put_meta_value (put_string out k) v) m h.1
    ∙ ap (λ l. l ++ entries_bytes m) (put_entry-append out k v h.0)
    ∙ append_assoc out (text_bytes k ++ value_bytes v) (entries_bytes m)

pub put_metadata-append :
    (out : List ℕ) (m : Metadata) → IsMetadata m → put_metadata out m ≡ out ++ metadata_bytes m
unfolding put_metadata
put_metadata-append out m h =
    put_entries-append (put_u32 out (length m % 2 ^ 32)) m h.entries
    ∙ ap (λ l. l ++ entries_bytes m) (put_u32-append out (length m % 2 ^ 32) ∙ small)
    ∙ append_assoc out (le_bytes 4 (length m)) (entries_bytes m)
  where
    small : out ++ le_bytes 4 (length m % 2 ^ 32) ≡ out ++ le_bytes 4 (length m)
    small =
        ap (λ k. out ++ le_bytes 4 k)
          (let e : length m % 2 ^ 32 ≡ length m = omega (arith, h.short) in e)

-- A key above all others goes to the end.
insert_meta_last :
    (k : Text) (v : MetaValue) (acc : Metadata)
    → All (λ e. compare_bytes k e.0 ≡ Ordering.gt) acc
    → insert_meta k v acc ≡ acc ++ ((k, v) ∷ [])
unfolding insert_meta
insert_meta_last k v [] h = refl
insert_meta_last k v ((j, w) ∷ acc) h =
    rw (h.0, insert_meta) (ap (λ l. (j, w) ∷ l) (insert_meta_last k v acc h.1))

-- Every key of `m` comes after every key of `acc`.
abbrev IsAfter : Metadata → Metadata → Type 0
IsAfter acc = All (λ e. All (λ a. compare_bytes e.0 a.0 ≡ Ordering.gt) acc)

IsAfter-nil : (m : Metadata) → IsAfter [] m
IsAfter-nil [] = tt
IsAfter-nil (e ∷ m) = (tt, IsAfter-nil m)

IsAfter-push :
    (acc m : Metadata) (k : Text) (v : MetaValue)
    → IsAfter acc m
    → IsAbove k m
    → IsAfter (acc ++ ((k, v) ∷ [])) m
IsAfter-push acc [] k v h a = tt
IsAfter-push acc (e ∷ m) k v h a = (
  All-append (λ x. compare_bytes e.0 x.0 ≡ Ordering.gt) acc ((k, v) ∷ []) h.0 (a.0, tt),
  IsAfter-push acc m k v h.1 a.1,
)

Reads-entries :
    (acc m : Metadata)
    → IsSorted m
    → All IsEntry m
    → IsAfter acc m
    → Reads (read_entries (length m) acc) (entries_bytes m) (acc ++ m)
unfolding read_entries
Reads-entries acc [] s h a = Reads-value (sym (append-nil acc)) (Reads-pure acc)
Reads-entries acc ((k, v) ∷ m) s h a =
    Reads-cast (sym (append_assoc (text_bytes k) (value_bytes v) (entries_bytes m))) (
      Reads-bind read_string
        (λ key. do value ← read_meta_value; read_entries (length m) (insert_meta key value acc))
        (Reads-string k h.0.0)
        (Reads-bind read_meta_value (λ value. read_entries (length m) (insert_meta k value acc))
          (Reads-meta_value v h.0.1)
          (subst (λ b. Reads (read_entries (length m) b) (entries_bytes m) (acc ++ ((k, v) ∷ m)))
            (sym (insert_meta_last k v acc a.0))
            (Reads-value (append_assoc acc ((k, v) ∷ []) m)
              (Reads-entries (acc ++ ((k, v) ∷ [])) m s.1 h.1 (IsAfter-push acc m k v a.1 s.0))))))

pub Reads-metadata : (m : Metadata) → IsMetadata m → Reads read_metadata (metadata_bytes m) m
unfolding read_metadata
Reads-metadata m h =
    Reads-bind (read_word 4) _ (Reads-word 4 (length m) (omega (arith, h.short)))
      (Reads-entries [] m h.sorted h.entries (IsAfter-nil m))

-- Metadata of the Rust type is read back as it was written, and the whole input is consumed.
pub read_metadata-put_metadata :
    (m : Metadata)
    → IsMetadata m
    → (r : Reader) × (read_metadata (reader (put_metadata [] m)) ≡ ok (m, r)) × (is_empty r ≡ true)
read_metadata-put_metadata m h =
    let start : At (reader (put_metadata [] m)) (metadata_bytes m ++ []) =
      subst (At (reader (put_metadata [] m)))
        (put_metadata-append [] m h ∙ sym (append-nil (metadata_bytes m)))
        (At-reader (put_metadata [] m)) in
    let (r, e, at) = (Reads-metadata m h).run _ [] start in (r, e, is_empty-At r at)

-- ===== src/Format/Reader.antt =====
-- `Reader` of format.rs, a cursor over a byte slice, and the `put_` functions that it reads back.
-- A method that moves the cursor returns the moved reader beside its result.
pub mod Reads
use hamane_db.Base.{
  ℕ, zero, suc, ◌+◌, ◌-◌, ◌*◌, ◌%◌, ◌^◌, Bool, List, [], ◌∷◌, ◌++◌, ltb, ◌==◌, if◌then◌else◌,
  length, take, drop, le_bytes, from_le_bytes,
}
use hamane_db.Base.Outcome.{Result, ok, err, corrupted}
use hamane_db.Core.Record.{Text}
use hamane_db.Format.Utf8.{is_utf8}

pub record Reader : Type 0 where
  pub buf : List ℕ
  pub pos : ℕ

abbrev pub Read {ℓ} : Type ℓ → Type ℓ
Read A = Reader → Result (A × Reader)

infixl 5 ◌>>=◌ ◌>>◌
unfoldable pub ◌>>=◌ {ℓ κ} : {A : Type ℓ} {B : Type κ} → Read A → (A → Read B) → Read B
◌>>=◌ m f r = elim (m r) [ err e ↦ err e | ok (a, r') ↦ f a r' ]

abbrev pub ◌>>◌ {ℓ κ} : {A : Type ℓ} {B : Type κ} → Read A → Read B → Read B
m >> k = m >>= λ _. k

unfoldable pub pure {ℓ} : {A : Type ℓ} → A → Read A
pure a r = ok (a, r)

unfoldable pub fail {ℓ} : {A : Type ℓ} → Read A
fail r = err corrupted

-- `?` on a result that no reading is involved in.
unfoldable pub lift {ℓ} : {A : Type ℓ} → Result A → Read A
lift (ok a) r = ok (a, r)
lift (err e) r = err e

abbrev pub reader : List ℕ → Reader
reader buf = record { buf = buf; pos = 0 }

unfoldable pub remaining : Reader → ℕ
remaining r = length r.buf - r.pos

unfoldable pub is_empty : Reader → Bool
unfolding remaining
is_empty r = remaining r == 0

-- `take`, named for the slice it returns.
unfoldable pub take_bytes : ℕ → Read (List ℕ)
unfolding remaining
take_bytes n r =
    if ltb (remaining r) n
    then err corrupted
    else ok (take n (drop r.pos r.buf), record r { pos = r.pos + n })

unfoldable pub read_word : ℕ → Read ℕ
read_word w = do bytes ← take_bytes w; pure (from_le_bytes bytes)

-- A byte is the word of one byte.
abbrev pub read_u8 : Read ℕ
read_u8 = read_word 1

abbrev pub read_u32 : Read ℕ
read_u32 = read_word 4

abbrev pub read_u64 : Read ℕ
read_u64 = read_word 8

-- `chunks n bytes` cuts off `n` chunks of four bytes.
unfoldable pub chunks : ℕ → List ℕ → List (List ℕ)
chunks zero bytes = []
chunks (suc n) bytes = take 4 bytes ∷ chunks n (drop 4 bytes)

unfoldable pub words : List (List ℕ) → List ℕ
words [] = []
words (c ∷ cs) = from_le_bytes c ∷ words cs

unfoldable pub f32_vec : ℕ → Read (List ℕ)
f32_vec len = do bytes ← take_bytes (len * 4); pure (words (chunks len bytes))

unfoldable pub read_string : Read Text
read_string = do len ← read_u32; bytes ← take_bytes len; if is_utf8 bytes then pure bytes else fail

unfoldable pub put_u8 : List ℕ → ℕ → List ℕ
put_u8 out v = out ++ (v ∷ [])

unfoldable pub put_u32 : List ℕ → ℕ → List ℕ
put_u32 out v = out ++ le_bytes 4 v

unfoldable pub put_u64 : List ℕ → ℕ → List ℕ
put_u64 out v = out ++ le_bytes 8 v

unfoldable pub put_f32_slice : List ℕ → List ℕ → List ℕ
put_f32_slice out [] = out
put_f32_slice out (x ∷ xs) = put_f32_slice (out ++ le_bytes 4 x) xs

-- `s.len() as u32` drops the high bits of the length.
unfoldable pub put_string : List ℕ → Text → List ℕ
unfolding put_u32
put_string out s = put_u32 out (length s % 2 ^ 32) ++ s

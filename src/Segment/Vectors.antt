-- ===== src/Segment/Vectors.antt =====
-- The bytes of vectors.bin: how `SegmentWriter::write` lays the vectors out, with one dimension for
-- all rows, and how `Segment::vector` cuts them again. The checksum at the end of the file is not
-- part of its content.
use hamane_db.Base.{
  ℕ, zero, suc, ◌+◌, ◌*◌, ◌%◌, ◌^◌, ◌<◌, ◌≡◌, refl, sym, ◌∙◌, ap, subst, List, [], ◌∷◌, ◌++◌,
  length, append-nil, append_assoc, take, take-append, drop, drop-append, drop-drop, get_elem?,
  some, All, le_bytes, from_le_bytes, from_le_bytes-le_bytes, arith,
}
use hamane_db.Format.Reader.{chunks, words, put_u32, put_u64, put_f32_slice}
use hamane_db.Format.Reader.Reads.{
  f32_bytes, IsF32, length-f32_bytes, words-chunks, put_f32_slice-append,
}
use hamane_db.Segment.{Row}

abbrev pub magic_vectors : List ℕ
magic_vectors = 72 ∷ 65 ∷ 77 ∷ 65 ∷ 78 ∷ 69 ∷ 86 ∷ 1 ∷ []

-- The length of the first vector, as a u32.
unfoldable pub first_dim : List Row → ℕ
first_dim [] = 0
first_dim (r ∷ rows) = length r.vector % 2 ^ 32

abbrev zeros : ℕ → List ℕ
zeros zero = []
zeros (suc n) = 0 ∷ zeros n

-- The magic bytes, the dimension and the count, filled up to `VECTORS_HEADER_LEN`.
unfoldable pub vectors_header : ℕ → ℕ → List ℕ
unfolding put_u32 put_u64
vectors_header dim count = put_u64 (put_u32 magic_vectors dim) count ++ zeros 44

unfoldable pub put_vectors : List ℕ → List Row → List ℕ
put_vectors out [] = out
put_vectors out (r ∷ rows) = put_vectors (put_f32_slice out r.vector) rows

-- What `SegmentWriter::write` writes to vectors.bin.
unfoldable pub vectors_bin : List Row → List ℕ
unfolding vectors_header put_vectors first_dim
vectors_bin rows = put_vectors (vectors_header (first_dim rows) (length rows)) rows

-- The dimension that `Segment::open` reads.
unfoldable pub read_dim : List ℕ → ℕ
read_dim content = from_le_bytes (take 4 (drop 8 content))

-- `Segment::vector`
unfoldable pub vector_at : List ℕ → ℕ → List ℕ
unfolding read_dim
vector_at content row =
    let dim = read_dim content in
    words (chunks dim (take (dim * 4) (drop (64 + row * dim * 4) content)))

data_bytes : List Row → List ℕ
data_bytes [] = []
data_bytes (r ∷ rows) = f32_bytes r.vector ++ data_bytes rows

put_vectors-append :
    (out : List ℕ) (rows : List Row) → put_vectors out rows ≡ out ++ data_bytes rows
unfolding put_vectors data_bytes
put_vectors-append out [] = sym (append-nil out)
put_vectors-append out (r ∷ rows) =
    put_vectors-append (put_f32_slice out r.vector) rows
    ∙ ap (λ o. o ++ data_bytes rows) (put_f32_slice-append out r.vector)
    ∙ append_assoc out (f32_bytes r.vector) (data_bytes rows)

length-vectors_header : (dim count : ℕ) → length (vectors_header dim count) ≡ 64
unfolding vectors_header put_u32 put_u64 le_bytes
length-vectors_header dim count = refl

read_dim-vectors_header :
    (dim count : ℕ) (body : List ℕ)
    → dim < 2 ^ 32
    → read_dim (vectors_header dim count ++ body) ≡ dim
unfolding read_dim vectors_header put_u32 put_u64 le_bytes
read_dim-vectors_header dim count body h = from_le_bytes-le_bytes 4 dim h

-- The rows have vectors of this dimension, of f32 bit patterns.
abbrev pub HaveDim : ℕ → List Row → Type 0
HaveDim dim rows = All (λ (r : Row). (length r.vector ≡ dim) × All IsF32 r.vector) rows

drop-data_bytes :
    (dim i : ℕ) (rows : List Row) (r : Row)
    → HaveDim dim rows
    → get_elem? rows i ≡ some r
    → (rest : List ℕ) × (drop (i * dim * 4) (data_bytes rows) ≡ f32_bytes r.vector ++ rest)
      × (length r.vector ≡ dim)
      × All IsF32 r.vector
unfolding data_bytes
drop-data_bytes dim i [] r h e = cc
drop-data_bytes dim zero (x ∷ rows) r h e =
    let same : x ≡ r = cc in
    let none_past : 0 * dim * 4 ≡ 0 = omega arith in
    (
      data_bytes rows,
      ap (λ n. drop n (f32_bytes x.vector ++ data_bytes rows)) none_past
          ∙ ap (λ (y : Row). f32_bytes y.vector ++ data_bytes rows) same,
      subst (λ (y : Row). length y.vector ≡ dim) same h.0.0,
      subst (λ (y : Row). All IsF32 y.vector) same h.0.1,
    )
drop-data_bytes dim (suc i) (x ∷ rows) r h e =
    let (rest, there, long, bits) = drop-data_bytes dim i rows r h.1 e in
    let width : length (f32_bytes x.vector) ≡ dim * 4 =
      length-f32_bytes x.vector ∙ ap (λ n. n * 4) h.0.0 in
    let past : suc i * dim * 4 ≡ length (f32_bytes x.vector) + i * dim * 4 = omega (arith, width) in
    (
      rest,
      ap (λ n. drop n (f32_bytes x.vector ++ data_bytes rows)) past
          ∙ sym (
              drop-drop (length (f32_bytes x.vector)) (i * dim * 4)
                (f32_bytes x.vector ++ data_bytes rows))
          ∙ ap (drop (i * dim * 4)) (drop-append (f32_bytes x.vector) (data_bytes rows))
          ∙ there,
      long,
      bits,
    )

first_dim-HaveDim :
    (dim i : ℕ) (rows : List Row) (r : Row)
    → HaveDim dim rows
    → dim < 2 ^ 32
    → get_elem? rows i ≡ some r
    → first_dim rows ≡ dim
unfolding first_dim
first_dim-HaveDim dim i [] r h small e = cc
first_dim-HaveDim dim i (x ∷ rows) r h small e = omega (arith, h.0.0, small)

-- From what is written to vectors.bin, the vector of each row is read back as it was, where all
-- vectors have the same length, a u32, and consist of f32 bit patterns.
pub vector_at-vectors_bin :
    (dim i : ℕ) (rows : List Row) (r : Row)
    → HaveDim dim rows
    → dim < 2 ^ 32
    → get_elem? rows i ≡ some r
    → vector_at (vectors_bin rows) i ≡ r.vector
unfolding vector_at vectors_bin
vector_at-vectors_bin dim i rows r h small e =
    let header = vectors_header (first_dim rows) (length rows) in
    let body = data_bytes rows in
    let first : first_dim rows ≡ dim = first_dim-HaveDim dim i rows r h small e in
    let content : vectors_bin rows ≡ header ++ body = put_vectors-append header rows in
    let (rest, there, long, bits) = drop-data_bytes dim i rows r h e in
    let width : read_dim (header ++ body) ≡ dim =
      read_dim-vectors_header (first_dim rows) (length rows) body (omega (arith, first, small))
      ∙ first in
    let after : drop (64 + i * dim * 4) (header ++ body) ≡ f32_bytes r.vector ++ rest =
      sym (drop-drop 64 (i * dim * 4) (header ++ body))
      ∙ ap (drop (i * dim * 4)) (
          ap (λ n. drop n (header ++ body))
            (sym (length-vectors_header (first_dim rows) (length rows)))
          ∙ drop-append header body)
      ∙ there in
    let bytes : take (dim * 4) (f32_bytes r.vector ++ rest) ≡ f32_bytes r.vector =
      ap (λ n. take n (f32_bytes r.vector ++ rest))
        (sym (length-f32_bytes r.vector ∙ ap (λ n. n * 4) long))
      ∙ take-append (f32_bytes r.vector) rest in
    ap (λ c. vector_at c i) content
    ∙ ap (λ d. words (chunks d (take (d * 4) (drop (64 + i * d * 4) (header ++ body))))) width
    ∙ ap (λ l. words (chunks dim (take (dim * 4) l))) after
    ∙ ap (λ l. words (chunks dim l)) bytes
    ∙ ap (λ d. words (chunks d (f32_bytes r.vector))) (sym long)
    ∙ words-chunks r.vector bits

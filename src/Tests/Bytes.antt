-- ===== src/Tests/Bytes.antt =====
-- vectors.bin at two concrete rows.
use hamane_db.Base.{◌≡◌, refl, List, [], ◌∷◌, arith}
use hamane_db.Segment.{Row}
use hamane_db.Segment.Vectors.{HaveDim, vectors_bin, vector_at, vector_at-vectors_bin}

abbrev second_row : Row
second_row = record { id = 9; vector = 1065353216 ∷ 0 ∷ []; blob = [] }

abbrev two_rows : List Row
two_rows = record { id = 4; vector = 7 ∷ 3212836864 ∷ []; blob = [] } ∷ second_row ∷ []

two_rows-HaveDim : HaveDim 2 two_rows
two_rows-HaveDim =
    ((refl, (omega arith, (omega arith, tt))), ((refl, (omega arith, (omega arith, tt))), tt))

vector_at-vectors_bin_example : vector_at (vectors_bin two_rows) 1 ≡ 1065353216 ∷ 0 ∷ []
vector_at-vectors_bin_example =
    vector_at-vectors_bin 2 1 two_rows second_row two_rows-HaveDim (omega arith) refl

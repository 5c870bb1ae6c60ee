-- ===== src/Format/Frame/Laws.antt =====
-- A frame is read back from the front of any input, and no proper prefix of it is taken for one.
use hamane_db.Base.{
  ℕ, suc, ◌-◌, subst, ◌+◌, ◌%◌, ◌^◌, ◌<◌, ◌≡◌, ◌∙◌, ap, List, ◌++◌, append_assoc, length,
  length-append, length-take, take, take-append, le_bytes, from_le_bytes-le_bytes, arith,
}
use native.Mathlib.Decide.{dec_lt}
use hamane_db.Format.Reader.{put_u32}
use hamane_db.Format.Frame.{complete, torn, put_frame, read_frame}

-- A body that a frame can carry.
pub record IsBody (body : List ℕ) : Type 0 where
  pub nonempty : 0 < length body
  pub short : length body < 2 ^ 32

-- What the checksum crate promises: a `u32`.
abbrev pub IsU32Function : (List ℕ → ℕ) → Type 0
IsU32Function f = (bs : List ℕ) → f bs < 2 ^ 32

module _ (crc32c : List ℕ → ℕ) where
  abbrev pub frame_bytes : List ℕ → List ℕ
  frame_bytes body = le_bytes 4 (crc32c body) ++ (le_bytes 4 (length body) ++ body)

  pub put_frame-append :
      (out body : List ℕ) → IsBody body → put_frame crc32c out body ≡ out ++ frame_bytes body
  unfolding put_frame put_u32
  put_frame-append out body h =
      ap (λ k. ((out ++ le_bytes 4 (crc32c body)) ++ le_bytes 4 k) ++ body)
        (let e : length body % 2 ^ 32 ≡ length body = omega (arith, h.short) in e)
      ∙ append_assoc (out ++ le_bytes 4 (crc32c body)) (le_bytes 4 (length body)) body
      ∙ append_assoc out (le_bytes 4 (crc32c body)) (le_bytes 4 (length body) ++ body)

  pub length-frame_bytes : (body : List ℕ) → length (frame_bytes body) ≡ 8 + length body
  unfolding le_bytes
  length-frame_bytes body = omega arith

  -- A frame is read back from the bytes it is written as, whatever follows it.
  pub read_frame-frame_bytes :
      IsU32Function crc32c
      → (body rest : List ℕ) → IsBody body
      → read_frame crc32c (frame_bytes body ++ rest) ≡ complete body (8 + length body)
  unfolding read_frame le_bytes
  read_frame-frame_bytes u32 body rest h = ground (
    arith,
    from_le_bytes-le_bytes 4 (crc32c body) (omega (arith, u32 body)),
    from_le_bytes-le_bytes 4 (length body) (omega (arith, h.short)),
    take-append body rest,
    length-append body rest,
    h.nonempty,
  )

  -- A cut inside the header, and one inside the body.
  cut_header :
      (body : List ℕ) (n : ℕ) → n < 8 → read_frame crc32c (take n (frame_bytes body)) ≡ torn
  unfolding read_frame
  cut_header body n lt = ground (arith, length-take n (frame_bytes body))

  abbrev eight_more : ℕ → ℕ
  eight_more m = suc (suc (suc (suc (suc (suc (suc (suc m)))))))

  cut_body :
      (body : List ℕ) (m : ℕ)
      → IsBody body
      → m < length body
      → read_frame crc32c (take (eight_more m) (frame_bytes body)) ≡ torn
  unfolding read_frame le_bytes
  cut_body body m h lt =
      ground
        (arith, from_le_bytes-le_bytes 4 (length body) (omega (arith, h.short)), length-take m body)

  -- No proper prefix of a frame is read as one.
  pub read_frame_cut :
      (body : List ℕ) (n : ℕ)
      → IsBody body
      → n < 8 + length body
      → read_frame crc32c (take n (frame_bytes body)) ≡ torn
  read_frame_cut body n h lt = elim (dec_lt n 8) [
    | yes small ↦ cut_header body n small
    | no large ↦
        subst (λ k. read_frame crc32c (take k (frame_bytes body)) ≡ torn)
          (let e : eight_more (n - 8) ≡ n = omega (arith, large) in e)
          (cut_body body (n - 8) h (omega (arith, large)))
  ]

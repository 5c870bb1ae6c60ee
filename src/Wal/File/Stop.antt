-- ===== src/Wal/File/Stop.antt =====
-- Where the reading of any file ends.
use hamane_db.Base.{
  ℕ, zero, suc, ◌+◌, ◌≤◌, ◌<◌, ◌≡◌, ◌⊎◌, refl, subst, not, ◌||◌, List, [], ◌∷◌, ◌++◌, length,
  length-drop, take, drop, eq_bytes, ltb, Bool-cases, inl, inr, arith,
}
use hamane_db.Base.Outcome.{ok, err, ok-injective, >>=-eq-ok, corrupted}
use hamane_db.Format.Frame.{Frame, complete, torn, read_frame}
use hamane_db.Wal.Record.{WalRecord, decode}
use hamane_db.Wal.File.{magic_wal, WalReplay, read_frames, read_all}

-- Whether a frame is whole, and then how long it is.
abbrev IsBounded : List ℕ → Frame → Type 0
IsBounded buf torn = Unit
IsBounded buf (complete body consumed) = (0 < consumed) × (consumed ≤ length buf)

pub Frame-cases :
    (f : Frame) → (f ≡ torn) ⊎ ((body : List ℕ) × (consumed : ℕ) × (f ≡ complete body consumed))
Frame-cases torn = inl refl
Frame-cases (complete body consumed) = inr (body, consumed, refl)

module _ (crc32c : List ℕ → ℕ) where
  read_frame-IsBounded : (buf : List ℕ) → IsBounded buf (read_frame crc32c buf)
  unfolding read_frame
  read_frame-IsBounded buf = ground arith

  read_frame-short : (buf : List ℕ) → length buf < 8 → read_frame crc32c buf ≡ torn
  unfolding read_frame
  read_frame-short buf h = ground (arith, h)

  -- The frames up to the end are whole, and the next one is not.
  record IsEnd (buf : List ℕ) (rep : WalReplay) : Type 0 where
    stopped : read_frame crc32c (drop rep.valid_len buf) ≡ torn
    inside : rep.valid_len ≤ length buf

  read_frames-IsEnd :
      (fuel : ℕ) (buf : List ℕ) (pos : ℕ) (recs : List WalRecord) (rep : WalReplay)
      → length buf < fuel + pos
      → pos ≤ length buf
      → read_frames crc32c fuel buf pos recs ≡ ok rep
      → IsEnd buf rep
  unfolding read_frames
  read_frames-IsEnd zero buf pos recs rep more le done = absurd (omega (arith, more, le))
  read_frames-IsEnd (suc fuel) buf pos recs rep more le done =
      elim (Frame-cases (read_frame crc32c (drop pos buf))) [
        | inl e ↦
            subst (IsEnd buf) (ok-injective (rw (read_frames, e) at done))
              (record { stopped = e; inside = le })
        | inr (body, consumed, e) ↦
            let bounds : IsBounded (drop pos buf) (complete body consumed) =
              subst (IsBounded (drop pos buf)) e (read_frame-IsBounded (drop pos buf)) in
            let (rec, decoded, rest) = >>=-eq-ok (decode body) _ (rw (read_frames, e) at done) in
            read_frames-IsEnd fuel buf (pos + consumed) (recs ++ (rec ∷ [])) rep
              (omega (arith, more, bounds.0)) (omega (arith, bounds.1, length-drop pos buf, le))
              rest
      ]

  -- Whatever bytes a file has, where reading it succeeds, `valid_len` is inside the file and no
  -- whole frame begins there.
  pub read_all-stops :
      (buf : List ℕ) (rep : WalReplay)
      → read_all crc32c buf ≡ ok rep
      → (read_frame crc32c (drop rep.valid_len buf) ≡ torn) × (rep.valid_len ≤ length buf)
  unfolding read_all
  read_all-stops buf rep done =
      elim (Bool-cases (ltb (length buf) 8 || not (eq_bytes (take 8 buf) magic_wal))) [
        | inl bad ↦ let refused : err corrupted ≡ ok rep = rw bad at done in cc
        | inr good ↦
            let end =
              read_frames-IsEnd (suc (length buf)) buf 8 [] rep (omega arith) (ground (arith, good))
                (rw good at done) in
            (end.stopped, end.inside)
      ]

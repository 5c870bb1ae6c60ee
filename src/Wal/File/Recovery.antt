-- ===== src/Wal/File/Recovery.antt =====
-- What is left of a WAL file after a crash: the records whose frames are whole.
use hamane_db.Base.{
  ℕ, zero, suc, ◌+◌, ◌-◌, ◌≤◌, ◌<◌, ◌≡◌, refl, sym, ◌∙◌, ap, List, [], ◌∷◌, ◌++◌, append_assoc,
  append-nil, length, length-append, take, drop, eq_bytes, drop-append, drop-drop, All, ltb,
  if◌then◌else◌, Bool-cases, take-nil, take-append_short, take-append_long, inl, inr, arith,
}
use hamane_db.Base.Outcome.{Result, ok}
use hamane_db.Format.Frame.{complete, torn, put_frame, read_frame}
use hamane_db.Format.Frame.Laws.{
  IsBody, IsU32Function, frame_bytes, put_frame-append, length-frame_bytes, read_frame-frame_bytes,
  read_frame_cut,
}
use hamane_db.Wal.Record.{WalRecord, encode, decode}
use hamane_db.Wal.Record.RoundTrip.{IsWalRecord, decode-encode}
use hamane_db.Wal.File.{magic_wal, WalReplay, append, append_all, read_frames, read_all}

-- A record that fits a frame.
pub record IsLoggable (rec : WalRecord) : Type 0 where
  pub typed : IsWalRecord rec
  pub framed : IsBody (encode rec)

take_magic : (n : ℕ) (l : List ℕ) → take (8 + n) (magic_wal ++ l) ≡ magic_wal ++ take n l
take_magic n l = rw eight refl
  where
    eight : 8 + n ≡ suc (suc (suc (suc (suc (suc (suc (suc n)))))))
    eight = omega arith

module _ (crc32c : List ℕ → ℕ) where
  abbrev pub frames_bytes : List WalRecord → List ℕ
  frames_bytes [] = []
  frames_bytes (rec ∷ recs) = frame_bytes crc32c (encode rec) ++ frames_bytes recs

  pub append_all-append :
      (file : List ℕ) (recs : List WalRecord)
      → All IsLoggable recs
      → append_all crc32c file recs ≡ file ++ frames_bytes recs
  unfolding append_all append
  append_all-append file [] h = sym (append-nil file)
  append_all-append file (rec ∷ recs) h =
      append_all-append (file ++ put_frame crc32c [] (encode rec)) recs h.1
      ∙ ap (λ l. (file ++ l) ++ frames_bytes recs)
          (put_frame-append crc32c [] (encode rec) h.0.framed)
      ∙ append_assoc file (frame_bytes crc32c (encode rec)) (frames_bytes recs)

  -- A position whose rest begins with whole frames and ends in something torn.
  pub record Holds (buf : List ℕ) (pos : ℕ) (recs : List WalRecord) (tail : List ℕ) : Type 0 where
    pub rest : drop pos buf ≡ frames_bytes recs ++ tail

  step_Holds :
      (buf : List ℕ) (pos : ℕ) (rec : WalRecord) (recs : List WalRecord) (tail : List ℕ)
      → Holds buf pos (rec ∷ recs) tail
      → Holds buf (pos + (8 + length (encode rec))) recs tail
  step_Holds buf pos rec recs tail h = record {
    rest =
        ap (λ k. drop (pos + k) buf) (sym (length-frame_bytes crc32c (encode rec)))
        ∙ sym (drop-drop pos (length (frame_bytes crc32c (encode rec))) buf)
        ∙ ap (drop (length (frame_bytes crc32c (encode rec))))
            (h.rest ∙ append_assoc (frame_bytes crc32c (encode rec)) (frames_bytes recs) tail)
        ∙ drop-append (frame_bytes crc32c (encode rec)) (frames_bytes recs ++ tail);
  }

  read_all_magic :
      (rest : List ℕ)
      → read_all crc32c (magic_wal ++ rest)
        ≡ read_frames crc32c (suc (length (magic_wal ++ rest))) (magic_wal ++ rest) 8 []
  unfolding read_all eq_bytes
  read_all_magic rest = ground arith

  read_frames_torn :
      (fuel : ℕ) (buf : List ℕ) (pos : ℕ) (acc : List WalRecord)
      → read_frame crc32c (drop pos buf) ≡ torn
      → read_frames crc32c (suc fuel) buf pos acc ≡ ok (record { records = acc; valid_len = pos })
  unfolding read_frames
  read_frames_torn fuel buf pos acc e = rw (e, read_frames)

  read_frames_complete :
      (fuel : ℕ) (buf : List ℕ) (pos : ℕ) (acc : List WalRecord) {body : List ℕ} {consumed : ℕ}
      {rec : WalRecord}
      → read_frame crc32c (drop pos buf) ≡ complete body consumed
      → decode body ≡ ok rec
      → read_frames crc32c (suc fuel) buf pos acc
        ≡ read_frames crc32c fuel buf (pos + consumed) (acc ++ (rec ∷ []))
  unfolding read_frames
  read_frames_complete fuel buf pos acc e d = rw (e, d, read_frames)

  ok_replay :
      {recs recs' : List WalRecord} {n n' : ℕ}
      → recs ≡ recs'
      → n ≡ n'
      → ◌≡◌ {A = Result WalReplay}
          (ok (record { records = recs; valid_len = n }))
          (ok (record { records = recs'; valid_len = n' }))
  ok_replay p q = λ i. ok (record { records = p i; valid_len = q i })

  sum_of :
      (rec : WalRecord) (recs : List WalRecord) (pos : ℕ)
      → pos + (8 + length (encode rec)) + length (frames_bytes recs)
        ≡ pos + length (frame_bytes crc32c (encode rec) ++ frames_bytes recs)
  sum_of rec recs pos = omega (
    arith,
    length-append (frame_bytes crc32c (encode rec)) (frames_bytes recs),
    length-frame_bytes crc32c (encode rec),
  )

  -- A frame has eight bytes at least.
  enough : (recs : List WalRecord) → length recs ≤ length (frames_bytes recs)
  enough [] = omega arith
  enough (rec ∷ recs) = omega (arith, enough recs, sum_of rec recs 0)

  module _ (u32 : IsU32Function crc32c) where
    frame_at :
        (buf : List ℕ) (pos : ℕ) (rec : WalRecord) (recs : List WalRecord) (tail : List ℕ)
        → IsLoggable rec
        → Holds buf pos (rec ∷ recs) tail
        → read_frame crc32c (drop pos buf) ≡ complete (encode rec) (8 + length (encode rec))
    frame_at buf pos rec recs tail h at =
        ap (read_frame crc32c)
          (at.rest ∙ append_assoc (frame_bytes crc32c (encode rec)) (frames_bytes recs) tail)
        ∙ read_frame-frame_bytes crc32c u32 (encode rec) (frames_bytes recs ++ tail) h.framed

    read_frames-Holds :
        (fuel : ℕ) (buf : List ℕ) (pos : ℕ) (recs acc : List WalRecord) (tail : List ℕ)
        → All IsLoggable recs
        → Holds buf pos recs tail
        → read_frame crc32c tail ≡ torn
        → length recs < fuel
        → read_frames crc32c fuel buf pos acc
          ≡ ok (record { records = acc ++ recs; valid_len = pos + length (frames_bytes recs) })
    read_frames-Holds zero buf pos recs acc tail h at t lt = absurd (omega arith)
    read_frames-Holds (suc fuel) buf pos [] acc tail h at t lt =
        read_frames_torn fuel buf pos acc (ap (read_frame crc32c) at.rest ∙ t)
        ∙ ok_replay (sym (append-nil acc)) (let e : pos ≡ pos + 0 = omega arith in e)
    read_frames-Holds (suc fuel) buf pos (rec ∷ recs) acc tail h at t lt =
        read_frames_complete fuel buf pos acc (frame_at buf pos rec recs tail h.0 at)
          (decode-encode rec h.0.typed)
        ∙ read_frames-Holds fuel buf (pos + (8 + length (encode rec))) recs (acc ++ (rec ∷ [])) tail
            h.1 (step_Holds buf pos rec recs tail at) t (omega arith)
        ∙ ok_replay (append_assoc acc (rec ∷ []) recs) (sum_of rec recs pos)

    -- Where the frames of `recs` are followed by something torn, exactly they are returned.
    pub read_all-frames :
        (recs : List WalRecord) (tail : List ℕ)
        → All IsLoggable recs
        → read_frame crc32c tail ≡ torn
        → read_all crc32c (magic_wal ++ (frames_bytes recs ++ tail))
          ≡ ok (record { records = recs; valid_len = 8 + length (frames_bytes recs) })
    read_all-frames recs tail h t =
        read_all_magic (frames_bytes recs ++ tail)
        ∙ read_frames-Holds (suc (length file)) file 8 recs [] tail h (record { rest = refl }) t
            (omega (arith, enough recs, length-append (frames_bytes recs) tail))
      where
        file : List ℕ
        file = magic_wal ++ (frames_bytes recs ++ tail)

  -- The records whose frames lie whole in the first `n` bytes.
  unfoldable pub survivors : ℕ → List WalRecord → List WalRecord
  survivors n [] = []
  survivors n (rec ∷ recs) =
      let size = 8 + length (encode rec) in
      let rest = survivors (n - size) recs in if ltb n size then [] else rec ∷ rest

  -- What a cut leaves behind them.
  remnant : ℕ → List WalRecord → List ℕ
  remnant n [] = []
  remnant n (rec ∷ recs) =
      let size = 8 + length (encode rec) in
      let rest = remnant (n - size) recs in
      if ltb n size then take n (frame_bytes crc32c (encode rec)) else rest

  take-frames_bytes :
      (n : ℕ) (recs : List WalRecord)
      → take n (frames_bytes recs) ≡ frames_bytes (survivors n recs) ++ remnant n recs
  unfolding survivors remnant
  take-frames_bytes n [] = take-nil n
  take-frames_bytes n (rec ∷ recs) = elim (Bool-cases (ltb n (8 + length (encode rec)))) [
    | inl cut ↦ rw cut (
        take-append_short n (frame_bytes crc32c (encode rec)) (frames_bytes recs)
          (ground (arith, length-frame_bytes crc32c (encode rec))))
    | inr whole ↦ rw whole (
        take-append_long n (frame_bytes crc32c (encode rec)) (frames_bytes recs)
          (ground (arith, length-frame_bytes crc32c (encode rec)))
        ∙ ap (λ l. frame_bytes crc32c (encode rec) ++ l)
            (ap (λ k. take (n - k) (frames_bytes recs)) (length-frame_bytes crc32c (encode rec))
              ∙ take-frames_bytes (n - (8 + length (encode rec))) recs)
        ∙ sym (
            append_assoc (frame_bytes crc32c (encode rec))
              (frames_bytes (survivors (n - (8 + length (encode rec))) recs))
              (remnant (n - (8 + length (encode rec))) recs)))
  ]

  remnant_torn :
      (n : ℕ) (recs : List WalRecord)
      → All IsLoggable recs
      → read_frame crc32c (remnant n recs) ≡ torn
  unfolding remnant
  remnant_torn n [] h = unfold read_frame in refl
  remnant_torn n (rec ∷ recs) h = elim (Bool-cases (ltb n (8 + length (encode rec)))) [
    | inl cut ↦ rw cut (read_frame_cut crc32c (encode rec) n h.0.framed (ground arith))
    | inr whole ↦ rw whole (remnant_torn (n - (8 + length (encode rec))) recs h.1)
  ]

  survivors-IsLoggable :
      (n : ℕ) (recs : List WalRecord) → All IsLoggable recs → All IsLoggable (survivors n recs)
  unfolding survivors
  survivors-IsLoggable n [] h = tt
  survivors-IsLoggable n (rec ∷ recs) h = elim (Bool-cases (ltb n (8 + length (encode rec)))) [
    | inl cut ↦ rw cut tt
    | inr whole ↦ rw whole (h.0, survivors-IsLoggable (n - (8 + length (encode rec))) recs h.1)
  ]

  -- The file that a crash leaves of a log: the magic and the first `n` bytes of the frames that
  -- were appended, of records of the Rust type that fit a frame. Reading it returns exactly the
  -- records whose frames are whole, in order, and the end of the last of them.
  pub read_all_after_crash :
      IsU32Function crc32c
      → (n : ℕ) (recs : List WalRecord) → All IsLoggable recs
      → read_all crc32c (take (8 + n) (append_all crc32c magic_wal recs))
        ≡ ok (record {
          records = survivors n recs;
          valid_len = 8 + length (frames_bytes (survivors n recs));
        })
  read_all_after_crash u32 n recs h =
      ap (read_all crc32c) (
        ap (take (8 + n)) (append_all-append magic_wal recs h)
        ∙ take_magic n (frames_bytes recs)
        ∙ ap (λ l. magic_wal ++ l) (take-frames_bytes n recs))
      ∙ read_all-frames u32 (survivors n recs) (remnant n recs) (survivors-IsLoggable n recs h)
          (remnant_torn n recs h)

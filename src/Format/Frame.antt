-- ===== src/Format/Frame.antt =====
-- Frames with a checksum, of format.rs. CRC32C is the `crc32c` crate's: a parameter.
pub mod Laws
use hamane_db.Base.{
  ℕ, ◌+◌, ◌%◌, ◌^◌, List, ◌++◌, ltb, ◌==◌, ◌||◌, not, if◌then◌else◌, length, take, drop,
  from_le_bytes,
}
use hamane_db.Format.Reader.{put_u32}

abbrev pub frame_header_len : ℕ
frame_header_len = 8

-- `Frame::Ok { body, consumed }`, `Frame::Torn`
pub data Frame : Type 0 where
  complete : List ℕ → ℕ → Frame
  torn : Frame

module _ (crc32c : List ℕ → ℕ) where
  unfoldable pub put_frame : List ℕ → List ℕ → List ℕ
  put_frame out body = put_u32 (put_u32 out (crc32c body)) (length body % 2 ^ 32) ++ body

  unfoldable pub read_frame : List ℕ → Frame
  read_frame buf =
      if ltb (length buf) frame_header_len
      then torn
      else (let crc = from_le_bytes (take 4 buf) in
          let len = from_le_bytes (take 4 (drop 4 buf)) in
          let body = take len (drop frame_header_len buf) in
          if ltb (length buf) (frame_header_len + len)
          then torn
          else if not (crc32c body == crc) || (len == 0)
          then torn
          else complete body (frame_header_len + len))

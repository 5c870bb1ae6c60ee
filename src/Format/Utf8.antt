-- ===== src/Format/Utf8.antt =====
-- The well-formed byte sequences that `String::from_utf8` accepts (Unicode, table 3-7).
use hamane_db.Base.{ℕ, Bool, true, false, ◌&&◌, List, [], ◌∷◌, ltb, leb, if◌then◌else◌, ◌==◌}

-- What may follow: `start` a new character, `tail n` n bytes of 80..BF, the others a narrower
-- range for the second byte of a character.
pub data Utf8State : Type 0 where
  start tail1 tail2 tail3 after_e0 after_ed after_f0 after_f4 bad : Utf8State

within : ℕ → ℕ → ℕ → Bool
within lo hi b = leb lo b && leb b hi

utf8_lead : ℕ → Utf8State
unfolding within
utf8_lead b =
    if ltb b 0x80
    then start
    else if within 0xc2 0xdf b
    then tail1
    else if b == 0xe0
    then after_e0
    else if b == 0xed
    then after_ed
    else if within 0xe1 0xef b
    then tail2
    else if b == 0xf0
    then after_f0
    else if within 0xf1 0xf3 b
    then tail3
    else if b == 0xf4
    then after_f4
    else bad

utf8_step : Utf8State → ℕ → Utf8State
unfolding utf8_lead
utf8_step start b = utf8_lead b
utf8_step tail1 b = if within 0x80 0xbf b then start else bad
utf8_step tail2 b = if within 0x80 0xbf b then tail1 else bad
utf8_step tail3 b = if within 0x80 0xbf b then tail2 else bad
utf8_step after_e0 b = if within 0xa0 0xbf b then tail1 else bad
utf8_step after_ed b = if within 0x80 0x9f b then tail1 else bad
utf8_step after_f0 b = if within 0x90 0xbf b then tail2 else bad
utf8_step after_f4 b = if within 0x80 0x8f b then tail2 else bad
utf8_step bad b = bad

utf8_run : Utf8State → List ℕ → Utf8State
unfolding utf8_step
utf8_run s [] = s
utf8_run s (b ∷ bs) = utf8_run (utf8_step s b) bs

utf8_done : Utf8State → Bool
utf8_done start = true
utf8_done _ = false

unfoldable pub is_utf8 : List ℕ → Bool
unfolding utf8_run utf8_done
is_utf8 bs = utf8_done (utf8_run start bs)
